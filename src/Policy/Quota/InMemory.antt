-- ===== src/Policy/Quota/InMemory.antt =====
-- backend/src/policy/quota/inMemoryQuotaStore.ts: counters in a `Map`.
pub mod Eviction
use paymaster.Common.{
  ℕ, ◌+◌, ◌-◌, ◌≤◌, ◌<◌, ◌≡◌, refl, true, false, ◌&&◌, Option, none, some, arith, ltb, leb, ◌==◌,
  list_eq, nat_eq, list_beq_iff, if◌then◌else◌, or_default,
}
use paymaster.Common.Results.{ok}
use paymaster.Common.JsMap
use paymaster.Common.JsMap.{JsMap, map_laws}
use paymaster.Common.Text.{Text}
use paymaster.Policy.Context.{Exec}
use paymaster.Policy.Quota.Window.{window_end, windowed_key}
use paymaster.Policy.Quota.Store.{
  QuotaConsumeParams, QuotaReleaseParams, QuotaOutcome, QuotaStore, QuotaStoreLaws, consume_slot,
  release_slot, outcome_at,
}

abbrev pub Counters : Type 0
Counters = JsMap Text ℕ

unfoldable pub count : Counters → Text → ℕ
count c slot = or_default (JsMap.get slot c) 0

unfoldable pub try_consume : QuotaConsumeParams → Exec Counters QuotaOutcome
unfolding count
try_consume p c =
    let slot = windowed_key p.key p.window_seconds p.now in
    let current = or_default (JsMap.get slot c) 0 in
    let resets_at = window_end p.now p.window_seconds in
    if ltb p.limit (current + p.amount)
    then (
      ok (record { consumed = false; usage = current; limit = p.limit; resets_at = resets_at }),
      c,
    )
    else (
      ok (record {
        consumed = true;
        usage = current + p.amount;
        limit = p.limit;
        resets_at = resets_at;
      }),
      JsMap.put slot (current + p.amount) c,
    )

-- `updated <= 0n`, on numbers that do not go below zero: the release takes all that is there.
lower_counter : Text → ℕ → Option ℕ → Counters → Counters
lower_counter slot amount none c = c
lower_counter slot amount (some current) c =
    if leb current amount then JsMap.delete slot c else JsMap.put slot (current - amount) c

unfoldable pub release : QuotaReleaseParams → Exec Counters (Unit {0})
unfolding lower_counter
release p c =
    let slot = windowed_key p.key p.window_seconds p.now in
    (ok tt, lower_counter slot p.amount (JsMap.get slot c) c)

unfoldable pub usage : Text → ℕ → ℕ → Exec Counters ℕ
usage key window_seconds now c =
    (ok (or_default (JsMap.get (windowed_key key window_seconds now) c) 0), c)

unfoldable pub in_memory_store : QuotaStore Counters
unfolding try_consume release usage
in_memory_store = record { try_consume = try_consume; release = release; usage = usage }

module _ (p : QuotaConsumeParams) (c : Counters) where
  pub outcome-try_consume : (try_consume p c).0 ≡ ok (outcome_at p (count c (consume_slot p)))
  unfolding try_consume
  outcome-try_consume = ground arith

  pub count-try_consume :
      (j : Text)
      → count (try_consume p c).1 j ≡ (
          if leb (count c (consume_slot p) + p.amount) p.limit && consume_slot p == j
          then count c j + p.amount
          else count c j)
  unfolding try_consume
  count-try_consume j = ground (
    arith,
    list_beq_iff (consume_slot p) j,
    JsMap.get-put (consume_slot p) j (or_default (JsMap.get (consume_slot p) c) 0 + p.amount) c,
  )

count-lower_counter :
    (slot : Text) (amount : ℕ) (o : Option ℕ) (c : Counters) (j : Text)
    → JsMap.get slot c ≡ o
    → count (lower_counter slot amount o c) j
      ≡ (if slot == j then count c j - amount else count c j)
unfolding lower_counter count
count-lower_counter slot amount none c j e = ground (arith, list_beq_iff slot j)
count-lower_counter slot amount (some current) c j e = ground (
  arith,
  list_beq_iff slot j,
  JsMap.get-put slot j (current - amount) c,
  JsMap.get-delete slot j c,
)

pub count-release :
    (p : QuotaReleaseParams) (c : Counters) (j : Text)
    → count (release p c).1 j ≡ (if release_slot p == j then count c j - p.amount else count c j)
unfolding release
count-release p c j = count-lower_counter (release_slot p) p.amount _ c j refl

abbrev pub refund_of : QuotaConsumeParams → QuotaReleaseParams
refund_of p = record {
  key = p.key;
  amount = p.amount;
  window_seconds = p.window_seconds;
  now = p.now;
}

-- All or nothing, and undone by its release: a consumption never takes a counter that was within the
-- limit over it, one that is refused moves no counter, and releasing one that was granted restores
-- every counter.
pub consume-release :
    (p : QuotaConsumeParams) (c : Counters) (j : Text)
    → (count c (consume_slot p) ≤ p.limit → count (try_consume p c).1 (consume_slot p) ≤ p.limit)
      × (p.limit < count c (consume_slot p) + p.amount → (try_consume p c).1 ≡ c)
      × (count c (consume_slot p) + p.amount ≤ p.limit
          → count (release (refund_of p) (try_consume p c).1).1 j ≡ count c j)
consume-release p c j = (
  λ h. ground (
    arith,
    count-try_consume p c (consume_slot p),
    list_beq_iff (consume_slot p) (consume_slot p),
  ),
  λ h. unfold try_consume in ground arith,
  λ h. ground (arith, count-release (refund_of p) (try_consume p c).1 j, count-try_consume p c j),
)

-- The in-memory store keeps the port's promises.
unfoldable pub in_memory_laws : QuotaStoreLaws in_memory_store
unfolding in_memory_store
in_memory_laws = record {
  count = count;
  consume_outcome = outcome-try_consume;
  count-consume = count-try_consume;
  release_returns = λ p w. refl;
  count-release = count-release;
  usage_lem = λ key seconds now w. refl;
}
