-- ===== src/Policy/Engine/Compensation.antt =====
-- Reservations of backend/src/policy/engine.ts: a denied request leaves every counter as it was.
use paymaster.Common.{
  ℕ, ◌+◌, ◌-◌, ◌≡◌, refl, ap, sym, ◌∙◌, ◌≢◌, subst, ltb, length, not, ◌&&◌, All-append, inl, inr,
  Bool, true, false, List, [], ◌∷◌, ◌++◌, append-nil, append_assoc, All, if◌then◌else◌, arith,
  Bool-cases, keep,
}
use paymaster.Common.Results.{Result, ok, err}
use paymaster.Common.Text.{Text}
use paymaster.Policy.Context.{
  PolicyContext, PolicyDecision, PolicyDenialCode, allow, deny, PolicyRule, in_memory, store,
  network, is_reserving, Policy, allowed,
}
use paymaster.Policy.Engine.{
  Engine, Pass, evaluate_rule, run_rules, release_all, order_rules, evaluate, note_release,
  release_rule,
}
use paymaster.Policy.Engine.Order.{tier, order_rules-tiers}
use paymaster.Policy.Engine.Decision.{rule_cases, run-allow, run-deny}

-- A rule with respect to counters that `count` reads from the world: it moves them only where it
-- approves and reserves, and its release takes off what it had put on.
pub record Compensates {W : Type 0} (count : W → Text → ℕ) (c : PolicyContext) (r : PolicyRule W)
    : Type 0 where
  pub charge : Text → ℕ
  pub unmoved :
      (w v : W) (name : Text) (code : PolicyDenialCode) (j : Text)
      → evaluate_rule r c w ≡ (deny name code, v)
      → count v j ≡ count w j
  pub charged :
      (w v : W) (j : Text)
      → evaluate_rule r c w ≡ (allow, v)
      → count v j ≡ count w j + (if is_reserving r then charge j else 0)
  pub released :
      (w : W) (j : Text)
      → is_reserving r ≡ true
      → count (release_rule r c w).1 j ≡ count w j - charge j

module _ {W : Type 0} (count : W → Text → ℕ) (c : PolicyContext) where
  world-note :
      (name : Text) (x : Result Text (Unit {0}) × W) (seen : List _)
      → (note_release name x seen).world ≡ x.1
  unfolding note_release
  world-note name (ok _, w) seen = refl
  world-note name (err m, w) seen = refl

  abbrev pub AllCompensate : List (PolicyRule W) → Type 0
  AllCompensate = All (Compensates count c)

  unfoldable pub total : (rs : List (PolicyRule W)) → AllCompensate rs → Text → ℕ
  total [] h j = 0
  total (r ∷ rs) h j = (if is_reserving r then h.0.charge j else 0) + total rs h.1 j

  pub count-release_all :
      (rs : List (PolicyRule W)) (h : AllCompensate rs) (e : Engine W) (j : Text)
      → All (λ r. is_reserving r ≡ true) rs
      → count (release_all rs c e).world j ≡ count e.world j - total rs h j
  unfolding release_all total
  count-release_all [] h e j k = omega arith
  count-release_all (r ∷ rs) h e j k =
      let x = release_rule r c e.world in
      count-release_all rs h.1 (note_release r.name x e.observed) j k.1
      ∙ rw (world-note r.name x e.observed) (rw (h.0.released e.world j k.0, k.0) (omega arith))

  -- What a run over the rules has reserved: `new`, each with its charge.
  record Reserved (res : List (PolicyRule W)) (w : W) (p : Pass W) : Type 0 where
    new : List (PolicyRule W)
    new_compensate : AllCompensate new
    new_reserve : All (λ r. is_reserving r ≡ true) new
    reserved_lem : p.reserved ≡ res ++ new
    counts : (j : Text) → count p.world j ≡ count w j + total new new_compensate j

  module _ (r : PolicyRule W) (res : List (PolicyRule W)) (w v : W) (p : Pass W)
      (h : Compensates count c r) (e : evaluate_rule r c w ≡ (allow, v)) where
    reserve_more : is_reserving r ≡ true → Reserved (res ++ r ∷ []) v p → Reserved res w p
    unfolding total
    reserve_more k ih = record {
      new = r ∷ ih.new;
      new_compensate = (h, ih.new_compensate);
      new_reserve = (k, ih.new_reserve);
      reserved_lem = ih.reserved_lem ∙ append_assoc res (r ∷ []) ih.new;
      counts = λ j.
          let m : count v j ≡ count w j + h.charge j = rw k at (h.charged w v j e) in
          rw k (omega (arith, ih.counts j, m));
    }

    reserve_same : is_reserving r ≡ false → Reserved res v p → Reserved res w p
    unfolding total
    reserve_same k ih = record {
      new = ih.new;
      new_compensate = ih.new_compensate;
      new_reserve = ih.new_reserve;
      reserved_lem = ih.reserved_lem;
      counts = λ j.
          let m : count v j ≡ count w j + 0 = rw k at (h.charged w v j e) in
          omega (arith, ih.counts j, m);
    }

  run-Reserved :
      (rs : List (PolicyRule W)) (h : AllCompensate rs) (ev : List Text) (res : List (PolicyRule W))
      (w : W)
      → Reserved res w (run_rules rs c ev res w)
  run-Reserved [] h ev res w =
      unfold run_rules total in
      record {
        new = [];
        new_compensate = tt;
        new_reserve = tt;
        reserved_lem = sym (append-nil res);
        counts = λ j. omega arith;
      }
  run-Reserved (r ∷ rs) h ev res w = elim (rule_cases c r w) [
    | inl e ↦ rw (run-allow c r rs ev res w _ e) (elim (Bool-cases (is_reserving r)) [
      | inl k ↦ reserve_more r res w _ _ h.0 e k (rw k (run-Reserved rs h.1 _ _ _))
      | inr k ↦ reserve_same r res w _ _ h.0 e k (rw k (run-Reserved rs h.1 _ _ _))
    ])
    | inr (name, code, e) ↦ rw (run-deny c r rs ev res w _ name code e) (
        unfold total in
        record {
          new = [];
          new_compensate = tt;
          new_reserve = tt;
          reserved_lem = sym (append-nil res);
          counts = λ j. omega (arith, h.0.unmoved w _ name code j e);
        })
  ]

  given_back :
      (d : PolicyDecision) (rs : List (PolicyRule W)) (e : Engine W)
      → d ≢ allow
      → (if not (allowed d) && ltb 0 (length rs) then release_all rs c e else e)
        ≡ release_all rs c e
  unfolding release_all
  given_back allow rs e h = absurd (h refl)
  given_back (deny n k) [] e h = refl
  given_back (deny n k) (r ∷ rs) e h = ground arith

  -- The rules of a policy, put in order.
  unfoldable pub pick-compensate :
      (b : Bool) (r : PolicyRule W) (rest : List (PolicyRule W))
      → Compensates count c r
      → AllCompensate rest
      → AllCompensate (if b then r ∷ rest else rest)
  pick-compensate true r rest h k = (h, k)
  pick-compensate false r rest h k = k

  unfoldable pub keep-compensate :
      (p : PolicyRule W → Bool) (rs : List (PolicyRule W))
      → AllCompensate rs
      → AllCompensate (keep p rs)
  unfolding pick-compensate
  keep-compensate p [] h = tt
  keep-compensate p (r ∷ rs) h = pick-compensate (p r) r (keep p rs) h.0 (keep-compensate p rs h.1)

  ordered : (rules : List (PolicyRule W)) → AllCompensate rules → AllCompensate (order_rules rules)
  ordered rules h = subst AllCompensate (sym (order_rules-tiers rules)) (
      All-append _ (tier in_memory rules) _ (keep-compensate _ rules h) (
        All-append _ (tier store rules) (tier network rules) (keep-compensate _ rules h)
          (keep-compensate _ rules h)))

  -- A denied request leaves every counter as it found it, whichever rule denied or threw.
  pub denied_restores :
      (policy : Policy W) (e : Engine W) (j : Text)
      → AllCompensate policy.rules
      → (evaluate policy c e).0.decision ≢ allow
      → count (evaluate policy c e).1.world j ≡ count e.world j
  unfolding evaluate
  denied_restores policy e j h no_allow =
      let p = run_rules (order_rules policy.rules) c [] [] e.world in
      let held = run-Reserved (order_rules policy.rules) (ordered policy.rules h) [] [] e.world in
      let passed : Engine W = record e { world = p.world } in
      ap (λ (x : Engine W). count x.world j) (given_back p.decision p.reserved passed no_allow)
      ∙ ap (λ l. count (release_all l c passed).world j) held.reserved_lem
      ∙ count-release_all held.new held.new_compensate passed j held.new_reserve
      ∙ omega (arith, held.counts j)
