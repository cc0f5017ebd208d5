-- ===== src/Policy/Quota/Redis/Refinement.antt =====
-- The store on Redis does what the store in memory does, as long as what is counted has at most
-- fourteen digits.
use paymaster.Common.{
  ℕ, ◌+◌, ◌≤◌, ◌<◌, ◌≡◌, refl, ◌∙◌, false, none, some, ltb, list_eq, nat_eq, arith, List, [], ◌∷◌,
}
use paymaster.Common.Results.{Result}
use paymaster.Common.JsMap
use paymaster.Common.Text.{Text}
use paymaster.Policy.Quota.Window.{window_end, window_bounds}
use paymaster.Policy.Quota.Store.{
  QuotaConsumeParams, QuotaReleaseParams, QuotaOutcome, QuotaStore, consume_slot,
}
use paymaster.Policy.Quota.InMemory
use paymaster.Policy.Quota.InMemory.{Counters, count}
use paymaster.Policy.Quota.Redis.{
  RedisServer, RedisLaws, stored, lua_exponent_from, ttl_of, try_consume, release,
  ttl_buffer_seconds,
}

-- The port's calls, as data, and what they answer.
pub data QuotaCall : Type 0 where
  consuming : QuotaConsumeParams → QuotaCall
  releasing : QuotaReleaseParams → QuotaCall
  reading : Text → ℕ → ℕ → QuotaCall

pub data QuotaAnswer : Type 0 where
  outcome : Result Text QuotaOutcome → QuotaAnswer
  released : Result Text (Unit {0}) → QuotaAnswer
  used : Result Text ℕ → QuotaAnswer

module _ {W : Type 0} (s : QuotaStore W) where
  pub run : QuotaCall → W → QuotaAnswer × W
  run (consuming p) w = let (answer, after) = s.try_consume p w in (outcome answer, after)
  run (releasing p) w = let (answer, after) = s.release p w in (released answer, after)
  run (reading key seconds now) w =
      let (answer, after) = s.usage key seconds now w in (used answer, after)

  pub run_all : List QuotaCall → W → List QuotaAnswer × W
  unfolding run
  run_all [] w = ([], w)
  run_all (call ∷ calls) w =
      let (answer, after) = run call w in
      let (answers, end) = run_all calls after in (answer ∷ answers, end)

abbrev pub HasShortLimit : QuotaCall → Type 0
HasShortLimit (consuming p) = p.limit < lua_exponent_from
HasShortLimit (releasing p) = Unit
HasShortLimit (reading key seconds now) = Unit

abbrev IsShort : Counters → Type 0
IsShort c = (j : Text) → count c j < lua_exponent_from

module _ {R : Type 0} (s : RedisServer R) (laws : RedisLaws s) where
  -- Every counter on the server is the counter in memory.
  abbrev pub Shows : R → Counters → Type 0
  Shows r c = (j : Text) → stored s r j ≡ count c j

  -- A counter that a consumption starts lives on the server to the end of its window, where the
  -- server's clock is behind the caller's by no more than the buffer.
  pub expires_at-try_consume :
      (p : QuotaConsumeParams) (r : R)
      → 0 < p.window_seconds
      → s.expires_at r (consume_slot p) ≡ none
      → stored s r (consume_slot p) + p.amount ≤ p.limit
      → p.limit < lua_exponent_from
      → p.now ≤ s.clock r + ttl_buffer_seconds
      → (t : ℕ) × (s.expires_at (try_consume s p r).1 (consume_slot p) ≡ some t)
        × (window_end p.now p.window_seconds ≤ t)
  unfolding try_consume
  expires_at-try_consume p r positive new within short near =
      let k = consume_slot p in
      let passes : ltb p.limit (stored s r k + p.amount) ≡ false = ground arith in
      (
        s.clock r + ttl_of s p,
        rw passes (
            laws.expires_at-expire_nx k (ttl_of s p) (s.incr_by k p.amount r)
            ∙ rw (laws.expires_at-incr_by k k p.amount r, new, laws.clock-incr_by k p.amount r)
                refl),
        unfold ttl_of in omega (arith, window_bounds p.now p.window_seconds positive),
      )
