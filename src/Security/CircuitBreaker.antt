-- ===== src/Security/CircuitBreaker.antt =====
-- backend/src/security/circuitBreaker.ts. A call is two steps, its admission and its end, so that calls
-- overlap: a state is what any sequence of these steps leaves. `opened` is the source's `open`.
use paymaster.Common.{
  ℕ, suc, ◌-◌, ◌≤◌, ◌<◌, ◌≡◌, ◌≢◌, ◌↔◌, ◌⊎◌, inl, inr, refl, Bool, true, false, ◌||◌, leb,
  if◌then◌else◌, arith, Bool-cases,
}

pub data CircuitState : Type 0 where
  closed opened half_open : CircuitState

pub record CircuitBreakerOptions : Type 0 where
  pub failure_threshold : ℕ
  pub open_ms : ℕ
  pub half_open_max_calls : ℕ

pub record CircuitBreaker : Type 0 where
  pub state : CircuitState
  pub consecutive_failures : ℕ
  pub opened_at : ℕ
  pub half_open_calls : ℕ

abbrev pub new_breaker : CircuitBreaker
new_breaker = record {
  state = closed;
  consecutive_failures = 0;
  opened_at = 0;
  half_open_calls = 0;
}

module _ (o : CircuitBreakerOptions) where
  -- The getter `state`, which moves an open breaker on once its time is over; the clock does not run
  -- backwards.
  unfoldable pub resolved_from : CircuitState → ℕ → CircuitBreaker → CircuitBreaker
  resolved_from opened now b =
      if leb o.open_ms (now - b.opened_at)
      then record b { state = half_open; half_open_calls = 0 }
      else b
  resolved_from _ now b = b

  unfoldable pub resolved : ℕ → CircuitBreaker → CircuitBreaker
  unfolding resolved_from
  resolved now b = resolved_from b.state now b

  admit_in : CircuitState → CircuitBreaker → Bool × CircuitBreaker
  admit_in closed b = (true, b)
  admit_in opened b = (false, b)
  admit_in half_open b =
      if leb o.half_open_max_calls b.half_open_calls
      then (false, b)
      else (true, record b { half_open_calls = suc b.half_open_calls })

  -- `execute` up to the call of `fn`; `false` is its `CircuitOpenError`.
  unfoldable pub admit : ℕ → CircuitBreaker → Bool × CircuitBreaker
  unfolding resolved admit_in
  admit now b = let c = resolved now b in admit_in c.state c

  unfoldable pub on_success : CircuitBreaker → CircuitBreaker
  on_success b = record b { consecutive_failures = 0; state = closed }

  abbrev is_half_open : CircuitState → Bool
  is_half_open half_open = true
  is_half_open _ = false

  unfoldable pub on_failure : ℕ → CircuitBreaker → CircuitBreaker
  on_failure now b =
      let failures = suc b.consecutive_failures in
      if is_half_open b.state || leb o.failure_threshold failures
      then record b { consecutive_failures = failures; opened_at = now; state = opened }
      else record b { consecutive_failures = failures }

  -- What any interleaving of calls leaves.
  pub data Reaches : CircuitBreaker → Type 0 where
    begun : Reaches new_breaker
    admitted : {c : CircuitBreaker} (now : ℕ) → Reaches c → Reaches (admit now c).1
    succeeded : {c : CircuitBreaker} → Reaches c → Reaches (on_success c)
    failed_at : {c : CircuitBreaker} (now : ℕ) → Reaches c → Reaches (on_failure now c)

  -- It is closed exactly while fewer failures than the threshold have come in a row, and never counts
  -- more trial calls than are allowed.
  pub record IsSound (b : CircuitBreaker) : Type 0 where
    pub below : b.state ≡ closed → b.consecutive_failures < o.failure_threshold
    pub tripped : b.state ≢ closed → o.failure_threshold ≤ b.consecutive_failures
    pub trials : b.half_open_calls ≤ o.half_open_max_calls

  admit_in-IsSound :
      (k : CircuitState) (b : CircuitBreaker) → b.state ≡ k → IsSound b → IsSound (admit_in k b).1
  unfolding admit_in
  admit_in-IsSound closed b e h = h
  admit_in-IsSound opened b e h = h
  admit_in-IsSound half_open b e h =
      elim (Bool-cases (leb o.half_open_max_calls b.half_open_calls)) [
        | inl spent ↦ rw spent h
        | inr free ↦
            rw free (record { below = h.below; tripped = h.tripped; trials = ground arith })
      ]

  resolved_from-IsSound :
      (k : CircuitState) (now : ℕ) (b : CircuitBreaker)
      → b.state ≡ k
      → IsSound b
      → IsSound (resolved_from k now b)
  unfolding resolved_from
  resolved_from-IsSound closed now b e h = h
  resolved_from-IsSound half_open now b e h = h
  resolved_from-IsSound opened now b e h = elim (Bool-cases (leb o.open_ms (now - b.opened_at))) [
    | inl over ↦ rw over (record {
      below = λ p. cc;
      tripped = λ p. h.tripped (λ q. cc (e, q));
      trials = omega arith;
    })
    | inr early ↦ rw early h
  ]

  why_trip :
      (k : CircuitState) (t : Bool) → (is_half_open k || t) ≡ true → (k ≡ half_open) ⊎ (t ≡ true)
  why_trip closed t e = inr e
  why_trip opened t e = inr e
  why_trip half_open t e = inl refl

  why_hold : (k : CircuitState) (t : Bool) → (is_half_open k || t) ≡ false → t ≡ false
  why_hold closed t e = e
  why_hold opened t e = e
  why_hold half_open t e = cc

  on_failure-IsSound : (now : ℕ) (b : CircuitBreaker) → IsSound b → IsSound (on_failure now b)
  unfolding on_failure
  on_failure-IsSound now b h =
      let n = suc b.consecutive_failures in
      elim (Bool-cases (is_half_open b.state || leb o.failure_threshold n)) [
        | inl trips ↦ rw trips (record {
          below = λ p. cc;
          tripped = λ p. elim (why_trip b.state (leb o.failure_threshold n) trips) [
            | inl trial ↦ omega (arith, h.tripped (λ q. cc (trial, q)))
            | inr many ↦ ground arith
          ];
          trials = h.trials;
        })
        | inr holds ↦
            let few = why_hold b.state (leb o.failure_threshold n) holds in
            rw holds (record {
              below = λ p. ground arith;
              tripped = λ p. omega (arith, h.tripped p);
              trials = h.trials;
            })
      ]

  -- In every interleaving of calls, the breaker is closed exactly while fewer failures than the
  -- threshold have come in a row, if the threshold is not zero, and counts no more trial calls than
  -- are allowed.
  pub Reaches-IsSound : (b : CircuitBreaker) → 0 < o.failure_threshold → Reaches b → IsSound b
  unfolding admit resolved on_success
  Reaches-IsSound b pos begun = record {
    below = λ p. pos;
    tripped = λ p. absurd (p refl);
    trials = omega arith;
  }
  Reaches-IsSound b pos (admitted {c} now r) =
      admit_in-IsSound (resolved now c).state (resolved now c) refl
        (resolved_from-IsSound c.state now c refl (Reaches-IsSound c pos r))
  Reaches-IsSound b pos (succeeded {c} r) = record {
    below = λ p. pos;
    tripped = λ p. absurd (p refl);
    trials = (Reaches-IsSound c pos r).trials;
  }
  Reaches-IsSound b pos (failed_at {c} now r) = on_failure-IsSound now c (Reaches-IsSound c pos r)

  -- When a breaker in a state lets a call through.
  unfoldable pub MayPass : CircuitState → ℕ → CircuitBreaker → Type 0
  MayPass closed now b = Unit {0}
  MayPass opened now b = (o.open_ms ≤ now - b.opened_at) × (0 < o.half_open_max_calls)
  MayPass half_open now b = b.half_open_calls < o.half_open_max_calls

  admit-MayPass :
      (k : CircuitState) (now : ℕ) (b : CircuitBreaker)
      → b.state ≡ k
      → ((admit_in (resolved_from k now b).state (resolved_from k now b)).0 ≡ true)
        ↔ MayPass k now b
  unfolding resolved_from admit_in MayPass
  admit-MayPass closed now b e = rw e (λ p. tt, λ u. refl)
  admit-MayPass half_open now b e = rw e (ground arith)
  admit-MayPass opened now b e = elim (Bool-cases (leb o.open_ms (now - b.opened_at))) [
    | inl over ↦ rw over (ground arith)
    | inr early ↦ rw (early, e) (ground arith)
  ]

  -- Whether a call goes through: always while closed; in the open state only once `open_ms` have
  -- passed since the failure that opened it and if trial calls are allowed at all; in the half-open
  -- state as long as trial calls are left.
  pub admit_lem : (now : ℕ) (b : CircuitBreaker) → ((admit now b).0 ≡ true) ↔ MayPass b.state now b
  unfolding admit resolved
  admit_lem now b = admit-MayPass b.state now b refl
