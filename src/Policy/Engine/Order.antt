-- ===== src/Policy/Engine/Order.antt =====
-- `orderRules` of backend/src/policy/engine.ts puts the cheap rules first and is stable.
use paymaster.Common.{
  ℕ, suc, ◌≡◌, refl, sym, ap, ◌∙◌, ◌≤◌, ◌⊎◌, inl, inr, true, false, List, [], ◌∷◌, ◌++◌, map, keep,
  All, Bool-cases, ◌<◌, map-append, All-append, All-keep, All-map, append_assoc, nat_eq, ◌==◌,
  arith,
}
use paymaster.Policy.Context.{RuleCost, in_memory, store, network, rule_cost_order, PolicyRule}
use paymaster.Policy.Engine.{before, insert_by_cost, sort_by_cost, number_rules, order_rules}

pub cost_cases : (k : RuleCost) → (k ≡ in_memory) ⊎ (k ≡ store) ⊎ (k ≡ network)
cost_cases in_memory = inl refl
cost_cases store = inr (inl refl)
cost_cases network = inr (inr refl)

-- The rules of one cost, in the policy's order.
abbrev pub tier : {W : Type 0} → RuleCost → List (PolicyRule W) → List (PolicyRule W)
tier k rules = keep (λ r. rule_cost_order r.cost == rule_cost_order k) rules

module _ {W : Type 0} where
  abbrev numbered_tier : ℕ → List (PolicyRule W × ℕ) → List (PolicyRule W × ℕ)
  numbered_tier k xs = keep (λ p. rule_cost_order p.0.cost == k) xs

  insert-append :
      (x : PolicyRule W × ℕ) (cs bs : List (PolicyRule W × ℕ))
      → All (λ a. before x a ≡ false) cs
      → All (λ b. before x b ≡ true) bs
      → insert_by_cost x (cs ++ bs) ≡ cs ++ x ∷ bs
  unfolding insert_by_cost
  insert-append x [] [] h k = refl
  insert-append x [] (y ∷ ys) h k = rw k.0
  insert-append x (a ∷ cs) bs h k = rw (h.0, insert-append x cs bs h.1 k)

  number_rules-later : (i : ℕ) (rs : List (PolicyRule W)) → All (λ p. i ≤ p.1) (number_rules i rs)
  unfolding number_rules
  number_rules-later i [] = tt
  number_rules-later i (r ∷ rs) = (
    omega arith,
    All-map (λ p. suc i ≤ p.1) (λ p. i ≤ p.1) (number_rules (suc i) rs) (λ p h. omega arith)
        (number_rules-later (suc i) rs),
  )

  tiers : List (PolicyRule W × ℕ) → List (PolicyRule W × ℕ)
  tiers xs = numbered_tier 0 xs ++ (numbered_tier 1 xs ++ numbered_tier 2 xs)

  module _ (r : PolicyRule W) (i : ℕ) (xs : List (PolicyRule W × ℕ))
      (h : All (λ p. i ≤ p.1) xs) where
    cost_of : PolicyRule W × ℕ → ℕ
    cost_of p = rule_cost_order p.0.cost

    passes : (k : ℕ) → k < cost_of (r, i) → All (λ a. before (r, i) a ≡ false) (numbered_tier k xs)
    unfolding before cost_of
    passes k lt = All-keep _ _ _ xs (λ p q e. ground arith) h

    stops : (k : ℕ) → cost_of (r, i) ≤ k → All (λ a. before (r, i) a ≡ true) (numbered_tier k xs)
    unfolding before cost_of
    stops k le = All-keep _ _ _ xs (λ p q e. ground arith) h

    insert-tiers : insert_by_cost (r, i) (tiers xs) ≡ tiers ((r, i) ∷ xs)
    unfolding tiers cost_of rule_cost_order
    insert-tiers =
        let t = λ (k : ℕ). numbered_tier k xs in
        elim (cost_cases r.cost) [
          | inl e ↦
              insert-append (r, i) [] (tiers xs) tt
                (All-append _ (t 0) (t 1 ++ t 2) (stops 0 (rw e (omega arith))) (
                  All-append _ (t 1) (t 2) (stops 1 (rw e (omega arith)))
                    (stops 2 (rw e (omega arith)))))
              ∙ rw e refl
          | inr (inl e) ↦
              insert-append (r, i) (t 0) (t 1 ++ t 2) (passes 0 (rw e (omega arith)))
                (All-append _ (t 1) (t 2) (stops 1 (rw e (omega arith)))
                  (stops 2 (rw e (omega arith))))
              ∙ rw e refl
          | inr (inr e) ↦
              ap (insert_by_cost (r, i)) (sym (append_assoc (t 0) (t 1) (t 2)))
              ∙ insert-append (r, i) (t 0 ++ t 1) (t 2)
                  (All-append _ (t 0) (t 1) (passes 0 (rw e (omega arith)))
                    (passes 1 (rw e (omega arith))))
                  (stops 2 (rw e (omega arith)))
              ∙ append_assoc (t 0) (t 1) ((r, i) ∷ t 2)
              ∙ rw e refl
        ]

  sort-tiers :
      (i : ℕ) (rs : List (PolicyRule W))
      → sort_by_cost (number_rules i rs) ≡ tiers (number_rules i rs)
  unfolding sort_by_cost number_rules tiers
  sort-tiers i [] = refl
  sort-tiers i (r ∷ rs) =
      ap (insert_by_cost (r, i)) (sort-tiers (suc i) rs)
      ∙ insert-tiers r i (number_rules (suc i) rs) (
          All-map _ _ (number_rules (suc i) rs) (λ p h. omega arith)
            (number_rules-later (suc i) rs))

  map-numbered_tier :
      (k : ℕ) (i : ℕ) (rs : List (PolicyRule W))
      → map (λ p. p.0) (numbered_tier k (number_rules i rs))
        ≡ keep (λ r. rule_cost_order r.cost == k) rs
  unfolding number_rules
  map-numbered_tier k i [] = refl
  map-numbered_tier k i (r ∷ rs) = elim (Bool-cases (rule_cost_order r.cost == k)) [
    | inl e ↦ rw e (ap (λ l. r ∷ l) (map-numbered_tier k (suc i) rs))
    | inr e ↦ rw e (map-numbered_tier k (suc i) rs)
  ]

  -- The rules are asked by cost, and otherwise in the policy's order: first those in memory, then those
  -- that use the store, then those that use the network, each tier as it stands in the policy.
  pub order_rules-tiers :
      (rules : List (PolicyRule W))
      → order_rules rules ≡ tier in_memory rules ++ (tier store rules ++ tier network rules)
  unfolding order_rules tiers rule_cost_order
  order_rules-tiers rules =
      ap (map (λ p. p.0)) (sort-tiers 0 rules) ∙ simp (map-append, map-numbered_tier)
