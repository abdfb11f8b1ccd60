-- ===== src/Handlers/Pages.antt =====
-- include/rpcspec/handlers: the limits of requests that give their results in pages, but for
-- ledger_data, account_tx and book_offers.
use rpc_spec.Prelude.{ℕ, ◌≡◌, List}
use rpc_spec.Status.{Server, ok}
use rpc_spec.View.{ObjectView}
use rpc_spec.Typed.{TypedField, parse}
use rpc_spec.Validators.Libxrpl.{Libxrpl}
use rpc_spec.Handlers.Limits.{Within, IsAllowed}
use rpc_spec.Handlers.AccountChannels
use rpc_spec.Handlers.AccountCurrencies
use rpc_spec.Handlers.AccountLines
use rpc_spec.Handlers.AccountMptokenIssuances
use rpc_spec.Handlers.AccountMptokens
use rpc_spec.Handlers.AccountNfts
use rpc_spec.Handlers.AccountObjects
use rpc_spec.Handlers.AccountOffers
use rpc_spec.Handlers.NftOffers
use rpc_spec.Handlers.NftsByIssuer
use rpc_spec.Handlers.NorippleCheck

-- The requests, by the version of the API where it matters.
pub data PagedCommand : Type 0 where
  account_channels account_currencies account_lines account_mptoken_issuances : PagedCommand
  account_mptokens account_nfts account_objects account_offers nft_offers nfts_by_issuer :
      PagedCommand
  noripple_check noripple_check_v2 : PagedCommand

abbrev pub PagedInput : PagedCommand → Libxrpl → Type 0
PagedInput account_channels x = AccountChannels.Input x
PagedInput account_currencies x = AccountCurrencies.Input x
PagedInput account_lines x = AccountLines.Input x
PagedInput account_mptoken_issuances x = AccountMptokenIssuances.Input x
PagedInput account_mptokens x = AccountMptokens.Input x
PagedInput account_nfts x = AccountNfts.Input x
PagedInput account_objects x = AccountObjects.Input x
PagedInput account_offers x = AccountOffers.Input x
PagedInput nft_offers x = NftOffers.Input x
PagedInput nfts_by_issuer x = NftsByIssuer.Input x
PagedInput noripple_check x = NorippleCheck.Input x
PagedInput noripple_check_v2 x = NorippleCheck.Input x

unfoldable pub paged_fields :
    (c : PagedCommand) → Server → (x : Libxrpl) → List (TypedField (PagedInput c x))
paged_fields account_channels server x = AccountChannels.input_spec server x
paged_fields account_currencies server x = AccountCurrencies.input_spec server x
paged_fields account_lines server x = AccountLines.input_spec server x
paged_fields account_mptoken_issuances server x = AccountMptokenIssuances.input_spec server x
paged_fields account_mptokens server x = AccountMptokens.input_spec server x
paged_fields account_nfts server x = AccountNfts.input_spec server x
paged_fields account_objects server x = AccountObjects.input_spec server x
paged_fields account_offers server x = AccountOffers.input_spec server x
paged_fields nft_offers server x = NftOffers.input_spec server x
paged_fields nfts_by_issuer server x = NftsByIssuer.input_spec server x
paged_fields noripple_check server x = NorippleCheck.input_spec server x
paged_fields noripple_check_v2 server x = NorippleCheck.input_spec_v2 server x

abbrev pub limit_of : (c : PagedCommand) → (x : Libxrpl) → PagedInput c x → ℕ
limit_of account_channels x input = input.limit
limit_of account_currencies x input = input.limit
limit_of account_lines x input = input.limit
limit_of account_mptoken_issuances x input = input.limit
limit_of account_mptokens x input = input.limit
limit_of account_nfts x input = input.limit
limit_of account_objects x input = input.limit
limit_of account_offers x input = input.limit
limit_of nft_offers x input = input.limit
limit_of nfts_by_issuer x input = input.limit
limit_of noripple_check x input = input.limit
limit_of noripple_check_v2 x input = input.limit

-- The bounds in the request's Types.hpp. Some of the specs leave it to xrpld's handler to clamp.
abbrev pub IsLimit : PagedCommand → Server → ℕ → Type 0
IsLimit account_channels server n =
    IsAllowed server AccountChannels.limit_min AccountChannels.limit_max n
IsLimit account_currencies server n =
    IsAllowed server AccountCurrencies.limit_min AccountCurrencies.limit_max n
IsLimit account_lines server n = IsAllowed server AccountLines.limit_min AccountLines.limit_max n
IsLimit account_mptoken_issuances server n =
    Within AccountMptokenIssuances.limit_min AccountMptokenIssuances.limit_max n
IsLimit account_mptokens server n = Within AccountMptokens.limit_min AccountMptokens.limit_max n
IsLimit account_nfts server n = IsAllowed server AccountNfts.limit_min AccountNfts.limit_max n
IsLimit account_objects server n = Within AccountObjects.limit_min AccountObjects.limit_max n
IsLimit account_offers server n = IsAllowed server AccountOffers.limit_min AccountOffers.limit_max n
IsLimit nft_offers server n = IsAllowed server NftOffers.limit_min NftOffers.limit_max n
IsLimit nfts_by_issuer server n = Within NftsByIssuer.limit_min NftsByIssuer.limit_max n
IsLimit noripple_check server n = Within NorippleCheck.limit_min NorippleCheck.limit_max n
IsLimit noripple_check_v2 server n = Within NorippleCheck.limit_min NorippleCheck.limit_max n

-- The limit of a request for account_channels, account_currencies, account_lines,
-- account_mptoken_issuances, account_mptokens, account_nfts, account_objects, account_offers,
-- nft_offers, nfts_by_issuer or noripple_check, whatever it sends, is within the request's bounds
-- where the parse succeeds: always on Clio, and on xrpld for account_mptoken_issuances,
-- account_mptokens, account_objects, nfts_by_issuer and noripple_check. On xrpld, for the others, it
-- is from one up to the largest number of 32 bits.
pub limit_of-IsLimit :
    (c : PagedCommand) (server : Server) (x : Libxrpl) (empty : PagedInput c x) (root : ObjectView)
    (input : PagedInput c x)
    → (parse empty (paged_fields c server x) root).0 ≡ ok input
    → IsLimit c server (limit_of c x input)
unfolding paged_fields
limit_of-IsLimit account_channels server x empty root input h =
    AccountChannels.limit-IsAllowed server x empty root input h
limit_of-IsLimit account_currencies server x empty root input h =
    AccountCurrencies.limit-IsAllowed server x empty root input h
limit_of-IsLimit account_lines server x empty root input h =
    AccountLines.limit-IsAllowed server x empty root input h
limit_of-IsLimit account_mptoken_issuances server x empty root input h =
    AccountMptokenIssuances.limit-Within server x empty root input h
limit_of-IsLimit account_mptokens server x empty root input h =
    AccountMptokens.limit-Within server x empty root input h
limit_of-IsLimit account_nfts server x empty root input h =
    AccountNfts.limit-IsAllowed server x empty root input h
limit_of-IsLimit account_objects server x empty root input h =
    AccountObjects.limit-Within server x empty root input h
limit_of-IsLimit account_offers server x empty root input h =
    AccountOffers.limit-IsAllowed server x empty root input h
limit_of-IsLimit nft_offers server x empty root input h =
    NftOffers.limit-IsAllowed server x empty root input h
limit_of-IsLimit nfts_by_issuer server x empty root input h =
    NftsByIssuer.limit-Within server x empty root input h
limit_of-IsLimit noripple_check server x empty root input h =
    NorippleCheck.limit-Within server x empty root input h
limit_of-IsLimit noripple_check_v2 server x empty root input h =
    NorippleCheck.limit_v2-Within server x empty root input h
