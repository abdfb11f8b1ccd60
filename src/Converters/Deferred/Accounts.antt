-- ===== src/Converters/Deferred/Accounts.antt =====
-- include/rpcspec/Account.hpp: deferred accounts against the accounts of a parse that fails.
use rpc_spec.Prelude.{◌≡◌, refl, ◌&&◌, arith, if◌then◌else◌}
use rpc_spec.Status.{Server, clio, xrpld, is_xrpld_build, Result, ok, unexpected}
use rpc_spec.View.{FieldView, is_string}
use rpc_spec.Validators.Libxrpl.{Libxrpl}
use rpc_spec.Converters.{account_id}
use rpc_spec.Converters.Deferred.{
  malformed, Deferred, value, failed, fails, deferred_result, carried, deferred_account,
  deferred_account_id,
}

module _ (x : Libxrpl) (v : FieldView) where
  -- What a deferred parse makes of the other one's result.
  abbrev pub deferral : Server → Result x.AccountId → Result (Deferred x.AccountId)
  deferral server (ok a) = ok (value a)
  deferral server (unexpected e) =
      if is_xrpld_build server && is_string v then ok (failed malformed) else unexpected e

  -- The converter that defers gives the account that the other one gives. Where that one fails, it
  -- fails with the same error, but on xrpld a string that is no address is carried to the handler.
  pub deferred_account_id-account_id :
      (server : Server) → deferred_account_id server x v ≡ deferral server (account_id server x v)
  unfolding deferred_account_id deferred_account
  deferred_account_id-account_id clio = go (account_id clio x v)
    where
      go : (r : Result x.AccountId) → carried clio x r ≡ deferral clio r
      go (ok a) = refl
      go (unexpected e) = refl
  deferred_account_id-account_id xrpld = go (account_id xrpld x v)
    where
      go : (r : Result x.AccountId) → deferred_result xrpld x fails v r ≡ deferral xrpld r
      go (ok a) = refl
      go (unexpected e) = ground arith
