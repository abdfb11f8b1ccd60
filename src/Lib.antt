-- ===== src/Lib.antt =====
-- The rpc-spec library: validation and parsing of RPC requests by declared specs, and admission
-- control for messages by connection.
--
-- The program. A request is a JSON document. A spec (include/rpcspec/RpcSpec.hpp) is a list of
-- fields (FieldSpec.hpp), each a key with items that verify, rewrite, warn, skip or give a default.
-- Processing walks over the fields, of which the last with a key wins at the place of the first; a
-- typed spec (Typed.hpp) fills the input of a handler in the same walk, and a versioned spec
-- (VersionedSpec.hpp) selects one of several by the API version. The items are the validators and
-- modifiers of Validators.hpp, wrapped by Section.hpp, IfType.hpp, WithCustomError.hpp and
-- ServerConditional.hpp; they see the request through the views of backends/BoostJson.hpp. Apart from
-- this, include/admissionspec judges a message before and while it is read, by specs of its own
-- (AdmissionSpec.hpp), and takes the cost from the bucket of its connection (ConnectionLimiter.hpp).
--
-- The files.
--   Prelude           numbers, texts as lists of bytes, signed integers, doubles by their bits
--   Json, View        JSON values, and the views: a pointer into the document is the value that it
--                     reaches, and a write through a view gives the view with the new value, which
--                     put_child and put_root write back into the parent
--   Status            Errors.hpp and Types.hpp: std::expected is Result
--   Warnings          what Errors.hpp and backends/BoostJson.hpp write of warnings: std::map is the
--                     list of its entries in order; Grouped and Format describe the outcome
--   Field             items and FieldSpec: an item is a record of optional operations, one for each
--                     concept; a processor takes the state to a result and the state that it leaves
--   Spec              buildOverridePlan, forEachEffectiveField, process, check, extend. Override has
--                     the reference, an ordered dictionary, Walk and Frame what follows from it
--   Combinators       the wrappers of items, Wrappers against the items that they hold
--   Typed             BoundField, AliasedField, TypedSpec, ifAbsent, never; a member pointer is an
--                     assignment and a number that tells it from the others
--   Versioned         indexFor and selected
--   Converters        Converters.hpp; Deferred for Account.hpp, Asset.hpp and DeferredTypes.hpp; Agreement,
--                     Vectors and Markers for converters beside validators and beside each other
--   Ledger            Ledger.hpp: specifiers and the field that selects a ledger; Indices, Requests
--                     and Clio describe which requests to xrpld and to Clio name one, Selector is what
--                     the field leaves as it was
--   Handlers          the specs under handlers, one file for each request; Limits has the items that
--                     their limits share, LedgerEntry/Fields those of locators; a std::set of accounts
--                     is the list of its elements in order. Pages, AccountInfo/Chosen,
--                     GatewayBalances/Wallets, BookOffers/Takers, AccountTx/Converted and
--                     LedgerEntry/Located are what they come to
--   Validators        Presence, Numeric, Strings, Accounts, Arrays and Entries by the group of
--                     validators, Chars for the text functions of the standard library;
--                     Libxrpl holds the functions of libxrpl that they call, as a parameter, and
--                     detail/XrplParse.hpp
--   LedgerTypes       LedgerTypes.hpp: the table of ledger objects and its lookups
--   Admission         Decision and Ramp for Types.hpp, Policy for AdmissionSpec.hpp and Resolver.hpp,
--                     Bucket for TokenBucket.hpp over folly's bucket, which is a parameter,
--                     Protobuf for ProtobufVisitor.hpp and PassthroughVisitor.hpp, where a span from
--                     pos on is the list of the bytes left; Json for JsonVisitor.hpp, with the calls of
--                     Boost.JSON's parser as data, and Json/Document for the documents they come from;
--                     Limiter for ConnectionLimiter.hpp; the hash table is a list in its order of
--                     iteration, with one step for each public call, which holds the mutex
-- Each component's Tests has runs on small inputs and the theorems applied to them.
--
-- Bounds. All loops are over lists, or count down a length, but for the visitors of protobuf: they run
-- on fuel, as many rounds as there are bytes, which is enough since each round takes a byte. Where a
-- position and a length wrap around, or a varint is too long, the code's behaviour is undefined, and
-- the model stops and says so. Integers have the range of their C++ type: uint32_t wraps where the code
-- casts, and the readers of numerals test the range.
-- Doubles are bit patterns with the comparisons of IEEE 754; their arithmetic is a parameter.
--
-- The depth of a JSON visit wraps as uint32_t does; a document nested less deeply is not affected.
--
-- Not modelled: the dump of a spec and its type-erased view, the specs of the other handlers and the
-- lists of fields of book_offers, account_tx and ledger_entry, some of whose converters throw, the
-- validator of dates, which calls the locale, and what the compiler does (factories, concepts,
-- registration by overload). Boost.JSON's parser, libxrpl's functions and folly's bucket are parameters.
-- Limiter/Retry takes as hypotheses what folly's documentation says of the refill of a bucket.
pub mod Prelude
pub mod Json
pub mod Status
pub mod View
pub mod Field
pub mod Spec
pub mod Combinators
pub mod Typed
pub mod Versioned
pub mod LedgerTypes
pub mod Validators
pub mod Converters
pub mod Warnings
pub mod Ledger
pub mod Handlers
pub mod Admission
