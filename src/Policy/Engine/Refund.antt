-- ===== src/Policy/Engine/Refund.antt =====
-- `releaseReservations` of backend/src/policy/engine.ts, after an approval that came to nothing.
use paymaster.Common.{
  ℕ, ◌+◌, ◌≡◌, refl, ap, ◌∙◌, inl, inr, Bool, true, false, List, [], ◌∷◌, ◌++◌, All, All-append,
  keep, if◌then◌else◌, ◌==◌, nat_eq, Bool-cases, arith,
}
use paymaster.Common.Text.{Text}
use paymaster.Policy.Context.{
  PolicyContext, allow, PolicyRule, in_memory, store, network, rule_cost_order, is_reserving,
  Policy,
}
use paymaster.Policy.Engine.{Engine, run_rules, order_rules, evaluate, release_reservations}
use paymaster.Policy.Engine.Order.{tier, cost_cases, order_rules-tiers}
use paymaster.Policy.Engine.Decision.{rule_cases, run-allow, run-deny}
use paymaster.Policy.Engine.Compensation.{
  Compensates, AllCompensate, total, count-release_all, keep-compensate, pick-compensate,
}

module _ {W : Type 0} (count : W → Text → ℕ) (c : PolicyContext) where
  -- An approval has charged every rule that reserves.
  run-charged :
      (rs : List (PolicyRule W)) (h : AllCompensate count c rs) (ev : List Text)
      (res : List (PolicyRule W)) (w : W) (j : Text)
      → (run_rules rs c ev res w).decision ≡ allow
      → count (run_rules rs c ev res w).world j ≡ count w j + total count c rs h j
  unfolding total
  run-charged [] h ev res w j a = unfold run_rules in omega arith
  run-charged (r ∷ rs) h ev res w j a = elim (rule_cases c r w) [
    | inl e ↦ rw (run-allow c r rs ev res w _ e) (
        omega (
          arith,
          h.0.charged w _ j e,
          run-charged rs h.1 _ _ _ j (rw (run-allow c r rs ev res w _ e) at a),
        ))
    | inr (name, code, e) ↦ absurd (cc (a, run-deny c r rs ev res w _ name code e))
  ]

  module _ (j : Text) where
    abbrev sum : (rs : List (PolicyRule W)) → AllCompensate count c rs → ℕ
    sum rs h = total count c rs h j

    sum-append :
        (xs ys : List (PolicyRule W)) (h : AllCompensate count c xs) (k : AllCompensate count c ys)
        → sum (xs ++ ys) (All-append (Compensates count c) xs ys h k) ≡ sum xs h + sum ys k
    unfolding total All-append
    sum-append [] ys h k = omega arith
    sum-append (x ∷ xs) ys h k = omega (arith, sum-append xs ys h.1 k)

    -- The sum over the rules that pass a test.
    sum_where : (PolicyRule W → Bool) → (rs : List (PolicyRule W)) → AllCompensate count c rs → ℕ
    sum_where p [] h = 0
    sum_where p (r ∷ rs) h =
        (if p r then (if is_reserving r then h.0.charge j else 0) else 0) + sum_where p rs h.1

    sum-pick :
        (b : Bool) (r : PolicyRule W) (rest : List (PolicyRule W)) (h : Compensates count c r)
        (k : AllCompensate count c rest)
        → sum (if b then r ∷ rest else rest) (pick-compensate count c b r rest h k)
          ≡ (if b then (if is_reserving r then h.charge j else 0) else 0) + sum rest k
    unfolding total pick-compensate
    sum-pick true r rest h k = refl
    sum-pick false r rest h k = omega arith

    sum-keep :
        (p : PolicyRule W → Bool) (rs : List (PolicyRule W)) (h : AllCompensate count c rs)
        → sum (keep p rs) (keep-compensate count c p rs h) ≡ sum_where p rs h
    unfolding total sum_where keep-compensate
    sum-keep p [] h = refl
    sum-keep p (r ∷ rs) h =
        sum-pick (p r) r (keep p rs) h.0 (keep-compensate count c p rs h.1)
        ∙ ap (λ n. (if p r then (if is_reserving r then h.0.charge j else 0) else 0) + n)
            (sum-keep p rs h.1)

    sum-reserving :
        (rs : List (PolicyRule W)) (h : AllCompensate count c rs)
        → sum_where is_reserving rs h ≡ sum rs h
    unfolding total sum_where
    sum-reserving [] h = refl
    sum-reserving (r ∷ rs) h = ground (arith, sum-reserving rs h.1)

    sum-tiers :
        (rs : List (PolicyRule W)) (h : AllCompensate count c rs)
        → sum_where (λ r. rule_cost_order r.cost == rule_cost_order in_memory) rs h
            + (sum_where (λ r. rule_cost_order r.cost == rule_cost_order store) rs h
                + sum_where (λ r. rule_cost_order r.cost == rule_cost_order network) rs h)
          ≡ sum rs h
    unfolding total sum_where rule_cost_order
    sum-tiers [] h = refl
    sum-tiers (r ∷ rs) h = elim (cost_cases r.cost) [
      | inl e ↦ rw e (omega (arith, sum-tiers rs h.1))
      | inr (inl e) ↦ rw e (omega (arith, sum-tiers rs h.1))
      | inr (inr e) ↦ rw e (omega (arith, sum-tiers rs h.1))
    ]

  module _ (rules : List (PolicyRule W)) (h : AllCompensate count c rules) where
    abbrev by_tier :
        AllCompensate count c (tier in_memory rules ++ (tier store rules ++ tier network rules))
    by_tier = All-append _ (tier in_memory rules) _ (keep-compensate count c _ rules h) (
        All-append _ (tier store rules) (tier network rules) (keep-compensate count c _ rules h)
          (keep-compensate count c _ rules h))

    sum-by_tier : (j : Text) → total count c _ by_tier j ≡ total count c rules h j
    sum-by_tier j =
        sum-append j (tier in_memory rules) _ _ _
        ∙ omega (
          arith,
          sum-append j (tier store rules) (tier network rules) (keep-compensate count c _ rules h)
              (keep-compensate count c _ rules h),
          sum-keep j (λ r. rule_cost_order r.cost == rule_cost_order in_memory) rules h,
          sum-keep j (λ r. rule_cost_order r.cost == rule_cost_order store) rules h,
          sum-keep j (λ r. rule_cost_order r.cost == rule_cost_order network) rules h,
          sum-tiers j rules h,
        )

    abbrev in_order : AllCompensate count c (order_rules rules)
    in_order = coe 1 0 (k. AllCompensate count c (order_rules-tiers rules k)) by_tier

    sum-in_order :
        (j : Text) → total count c (order_rules rules) in_order j ≡ total count c rules h j
    sum-in_order j =
        (λ i.
          total count c (order_rules-tiers rules i)
            (coe 1 i (k. AllCompensate count c (order_rules-tiers rules k)) by_tier) j)
        ∙ sum-by_tier j

  reserving_all :
      (rs : List (PolicyRule W)) → All (λ r. is_reserving r ≡ true) (keep is_reserving rs)
  reserving_all [] = tt
  reserving_all (r ∷ rs) = elim (Bool-cases (is_reserving r)) [
    | inl e ↦ rw e (e, reserving_all rs)
    | inr e ↦ rw e (reserving_all rs)
  ]

  -- Giving back after an approval undoes it: where every rule of the policy compensates, the counters
  -- stand again where they stood before the request was evaluated.
  pub release_undoes_approval :
      (policy : Policy W) (e : Engine W) (j : Text)
      → AllCompensate count c policy.rules
      → (evaluate policy c e).0.decision ≡ allow
      → count (release_reservations policy c (evaluate policy c e).1).world j ≡ count e.world j
  unfolding release_reservations
  release_undoes_approval policy e j h a =
      let rules = policy.rules in
      let p = run_rules (order_rules rules) c [] [] e.world in
      let after = (evaluate policy c e).1 in
      let approved : p.decision ≡ allow = unfold evaluate in a in
      let same : after.world ≡ p.world = unfold evaluate in rw approved refl in
      let charged : count after.world j ≡ count e.world j + total count c rules h j =
        ap (λ w. count w j) same
        ∙ run-charged (order_rules rules) (in_order rules h) [] [] e.world j approved
        ∙ ap (λ n. count e.world j + n) (sum-in_order rules h j) in
      count-release_all count c (keep is_reserving rules)
        (keep-compensate count c is_reserving rules h) after j (reserving_all rules)
      ∙ omega (arith, charged, sum-keep j is_reserving rules h, sum-reserving j rules h)
