-- ===== src/Policy/Quota/Redis.antt =====
-- backend/src/policy/quota/redisQuotaStore.ts: counters on a Redis server, which two Lua scripts move.
-- The server is a parameter: its commands, and what its documentation says of them. A script runs
-- with no other command in between, so it is one function on the server's state.
pub mod Refinement
use paymaster.Common.{
  ℕ, ◌+◌, ◌-◌, ◌<◌, ◌≡◌, Bool, true, false, Option, none, some, ltb, leb, ◌==◌, list_eq, nat_eq,
  if◌then◌else◌, or_default, max,
}
use paymaster.Common.Results.{Result, ok, err}
use paymaster.Common.Text.{Text, text}
use paymaster.Policy.Context.{Exec}
use paymaster.Policy.Quota.Window.{window_end, windowed_key}
use paymaster.Policy.Quota.Store.{
  QuotaConsumeParams, QuotaReleaseParams, QuotaOutcome, QuotaStore, consume_slot, release_slot,
}

-- The commands that the scripts call, on integer values; a missing key counts as zero where a
-- command adds or subtracts. `clock` is the server's, in seconds.
pub record RedisServer (R : Type 0) : Type 0 where
  pub get : R → Text → Option ℕ
  pub incr_by : Text → ℕ → R → R
  pub decr_by : Text → ℕ → R → R
  pub del : Text → R → R
  pub expire_nx : Text → ℕ → R → R
  pub expires_at : R → Text → Option ℕ
  pub clock : R → ℕ

-- INCRBY is limited to 64-bit signed integers.
abbrev pub int64_limit : ℕ
int64_limit = 9223372036854775808

abbrev pub stored : {R : Type 0} → RedisServer R → R → Text → ℕ
stored s r k = or_default (s.get r k) 0

pub record RedisLaws {R : Type 0} (s : RedisServer R) : Type 0 where
  pub get-incr_by :
      (k j : Text) (n : ℕ) (r : R)
      → stored s r k + n < int64_limit
      → s.get (s.incr_by k n r) j ≡ (if k == j then some (stored s r k + n) else s.get r j)
  pub get-decr_by :
      (k j : Text) (n : ℕ) (r : R)
      → n < stored s r k
      → s.get (s.decr_by k n r) j ≡ (if k == j then some (stored s r k - n) else s.get r j)
  pub get-del : (k j : Text) (r : R) → s.get (s.del k r) j ≡ (if k == j then none else s.get r j)
  pub get-expire_nx : (k j : Text) (ttl : ℕ) (r : R) → s.get (s.expire_nx k ttl r) j ≡ s.get r j
  pub expires_at-expire_nx :
      (k : Text) (ttl : ℕ) (r : R)
      → s.expires_at (s.expire_nx k ttl r) k
        ≡ some (or_default (s.expires_at r k) (s.clock r + ttl))
  pub expires_at-incr_by :
      (k j : Text) (n : ℕ) (r : R) → s.expires_at (s.incr_by k n r) j ≡ s.expires_at r j
  pub clock-incr_by : (k : Text) (n : ℕ) (r : R) → s.clock (s.incr_by k n r) ≡ s.clock r

abbrev pub ttl_buffer_seconds : ℕ
ttl_buffer_seconds = 60

-- Lua writes a number by `%.14g`: from here on with an exponent, which `BigInt` does not read.
abbrev pub lua_exponent_from : ℕ
lua_exponent_from = 100000000000000

-- `BigInt(tostring(n))`, `tostring` of Lua; it throws a `SyntaxError` on a numeral with an exponent.
unfoldable pub big_int_of_lua : ℕ → Result Text ℕ
big_int_of_lua n = if ltb n lua_exponent_from then ok n else err (text "SyntaxError")

unfoldable pub outcome_of : QuotaConsumeParams → Bool → Result Text ℕ → Result Text QuotaOutcome
outcome_of p consumed (err e) = err e
outcome_of p consumed (ok usage) = ok (record {
  consumed = consumed;
  usage = usage;
  limit = p.limit;
  resets_at = window_end p.now p.window_seconds;
})

module _ {R : Type 0} (s : RedisServer R) where
  -- The script answers whether it consumed, and a number in Lua's writing. Lua computes in doubles,
  -- exact up to 2 ^ 53: beyond that only the refusal of an amount far over its limit is meant.
  unfoldable pub consume_script : Text → ℕ → ℕ → ℕ → R → (Bool × ℕ) × R
  consume_script slot amount limit ttl r =
      let current = stored s r slot in
      if ltb limit (current + amount)
      then ((false, current), r)
      else (let counted = s.incr_by slot amount r in
          ((true, stored s counted slot), s.expire_nx slot ttl counted))

  unfoldable pub release_script : Text → ℕ → R → R
  release_script slot amount r =
      if leb (stored s r slot) amount then s.del slot r else s.decr_by slot amount r

  -- `Math.max(1, resetsAt - now + TTL_BUFFER_SECONDS)`; the window's end is never before `now`.
  unfoldable pub ttl_of : QuotaConsumeParams → ℕ
  ttl_of p = max 1 (window_end p.now p.window_seconds - p.now + ttl_buffer_seconds)

  unfoldable pub try_consume : QuotaConsumeParams → Exec R QuotaOutcome
  unfolding consume_script ttl_of outcome_of big_int_of_lua
  try_consume p r =
      let (answer, after) = consume_script (consume_slot p) p.amount p.limit (ttl_of p) r in
      (outcome_of p answer.0 (big_int_of_lua answer.1), after)

  unfoldable pub release : QuotaReleaseParams → Exec R (Unit {0})
  unfolding release_script
  release p r = (ok tt, release_script (release_slot p) p.amount r)

  unfoldable pub usage : Text → ℕ → ℕ → Exec R ℕ
  usage key window_seconds now r = (ok (stored s r (windowed_key key window_seconds now)), r)

  unfoldable pub redis_store : QuotaStore R
  unfolding try_consume release usage
  redis_store = record { try_consume = try_consume; release = release; usage = usage }
