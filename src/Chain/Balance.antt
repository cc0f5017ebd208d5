-- ===== src/Chain/Balance.antt =====
-- backend/src/chain/tenantBalance.ts: a tenant's balance on a chain, read through a short cache.
use paymaster.Common.{ℕ, ◌-◌, Option, none, some, ◌∷◌, ◌++◌, ltb, if◌then◌else◌, list_eq, nat_eq}
use paymaster.Common.Results.{Result, ok, err}
use paymaster.Common.JsMap
use paymaster.Common.JsMap.{JsMap}
use paymaster.Common.Text.{Text, decimal}
use paymaster.Fault.{Fault}

pub record CacheEntry : Type 0 where
  pub balance : ℕ
  pub read_at : ℕ

abbrev pub Balances : Type 0
Balances = JsMap Text CacheEntry

abbrev pub cache_key : ℕ → Text → Text
cache_key chain_id tenant = decimal chain_id ++ b' ' ∷ tenant

-- `chains.get(chainId).getTenantBalance(…)`, a call to a chain, is a parameter.
module _ (read_balance : ℕ → Text → Result Fault ℕ) where
  keep_balance : Text → ℕ → Balances → Result Fault ℕ → Result Fault ℕ × Balances
  keep_balance key now cache (err e) = (err e, cache)
  keep_balance key now cache (ok balance) =
      (ok balance, JsMap.put key (record { balance = balance; read_at = now }) cache)

  balance_from : Option CacheEntry → ℕ → ℕ → ℕ → Text → Balances → Result Fault ℕ × Balances
  unfolding keep_balance
  balance_from none ttl now chain_id tenant cache =
      keep_balance (cache_key chain_id tenant) now cache (read_balance chain_id tenant)
  balance_from (some entry) ttl now chain_id tenant cache =
      if ltb (now - entry.read_at) ttl
      then (ok entry.balance, cache)
      else keep_balance (cache_key chain_id tenant) now cache (read_balance chain_id tenant)

  unfoldable pub balance_of : ℕ → ℕ → ℕ → Text → Balances → Result Fault ℕ × Balances
  unfolding balance_from
  balance_of ttl now chain_id tenant cache =
      balance_from (JsMap.get (cache_key chain_id tenant) cache) ttl now chain_id tenant cache

unfoldable pub invalidate : ℕ → Text → Balances → Balances
invalidate chain_id tenant cache = JsMap.delete (cache_key chain_id tenant) cache
