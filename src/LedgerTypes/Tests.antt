-- ===== src/LedgerTypes/Tests.antt =====
-- include/rpcspec/LedgerTypes.hpp: names of ledger objects that are looked up.
use rpc_spec.Prelude.{str}
use rpc_spec.LedgerTypes.{LedgerTypeEntry, row, lt_check, deletion_blocker}

abbrev check_row : LedgerTypeEntry
unfolding str
check_row = row (str "Check") (str "check") lt_check deletion_blocker
