-- ===== src/Policy/Engine/Decision.antt =====
-- What `evaluate` of backend/src/policy/engine.ts decides, against the rules taken one by one.
use paymaster.Common.{◌≡◌, refl, ap, ◌↔◌, ◌⊎◌, inl, inr, List, [], ◌∷◌, ◌++◌, if◌then◌else◌, arith}
use paymaster.Common.Results.{ok}
use paymaster.Common.Text.{Text}
use paymaster.Policy.Context.{
  PolicyContext, PolicyDecision, PolicyDenialCode, allow, deny, PolicyRule, is_reserving, Policy,
}
use paymaster.Policy.Engine.{Engine, evaluate_rule, run_rules, order_rules, evaluate}

-- Every rule of the list, asked in turn, allows.
pub data Passes {W : Type 0} (c : PolicyContext) : List (PolicyRule W) → W → W → Type 0 where
  done : {w : W} → Passes c [] w w
  pass :
      {r : PolicyRule W} {rs : List (PolicyRule W)} {w v u : W}
      → r.evaluate c w ≡ (ok allow, v)
      → Passes c rs v u
      → Passes c (r ∷ rs) w u

module _ {W : Type 0} (c : PolicyContext) where
  pub rule_cases :
      (r : PolicyRule W) (w : W)
      → (evaluate_rule r c w ≡ (allow, (evaluate_rule r c w).1))
        ⊎ ((name : Text) × (code : PolicyDenialCode) × (evaluate_rule r c w
              ≡ (deny name code, (evaluate_rule r c w).1)))
  rule_cases r w = split (evaluate_rule r c w)
    where
      split :
          (x : PolicyDecision × W)
          → (x ≡ (allow, x.1))
            ⊎ ((name : Text) × (code : PolicyDenialCode) × (x ≡ (deny name code, x.1)))
      split (allow, v) = inl refl
      split (deny name code, v) = inr (name, code, refl)

  module _ (r : PolicyRule W) (rs : List (PolicyRule W)) (ev : List Text)
      (res : List (PolicyRule W)) (w v : W) where
    pub run-allow :
        evaluate_rule r c w ≡ (allow, v)
        → run_rules (r ∷ rs) c ev res w
          ≡ run_rules rs c (ev ++ r.name ∷ []) (if is_reserving r then res ++ r ∷ [] else res) v
    unfolding run_rules
    run-allow h = rw (ap (λ x. x.0) h, run_rules) (rw (ap (λ x. x.1) h))

    pub run-deny :
        (name : Text) (code : PolicyDenialCode)
        → evaluate_rule r c w ≡ (deny name code, v)
        → run_rules (r ∷ rs) c ev res w ≡ record {
          decision = deny name code;
          evaluated = ev ++ r.name ∷ [];
          reserved = res;
          world = v;
        }
    unfolding run_rules
    run-deny name code h = rw (ap (λ x. x.0) h, run_rules) (rw (ap (λ x. x.1) h))

  rule-allow :
      (r : PolicyRule W) (w v : W)
      → evaluate_rule r c w ≡ (allow, v)
      → r.evaluate c w ≡ (ok allow, v)
  unfolding evaluate_rule
  rule-allow r w v h = ground arith

  allow-rule :
      (r : PolicyRule W) (w v : W)
      → r.evaluate c w ≡ (ok allow, v)
      → evaluate_rule r c w ≡ (allow, v)
  unfolding evaluate_rule
  allow-rule r w v h = ground arith

  run-Passes :
      (rs : List (PolicyRule W)) (ev : List Text) (res : List (PolicyRule W)) (w : W)
      → (run_rules rs c ev res w).decision ≡ allow
      → Passes c rs w (run_rules rs c ev res w).world
  run-Passes [] ev res w h = unfold run_rules in done
  run-Passes (r ∷ rs) ev res w h = elim (rule_cases r w) [
    | inl e ↦
        rw (run-allow r rs ev res w _ e)
          (pass (rule-allow r w _ e) (run-Passes rs _ _ _ (rw (run-allow r rs ev res w _ e) at h)))
    | inr (name, code, e) ↦ absurd (cc (h, run-deny r rs ev res w _ name code e))
  ]

  Passes-run :
      (rs : List (PolicyRule W)) (ev : List Text) (res : List (PolicyRule W)) {w u : W}
      → Passes c rs w u
      → (run_rules rs c ev res w).decision ≡ allow
  Passes-run rs ev res done = unfold run_rules in refl
  Passes-run _ ev res (pass {r} {rs} {w} {v} h p) =
      rw (run-allow r rs ev res w v (allow-rule r w v h)) (Passes-run rs _ _ p)

  -- A request is approved exactly when every rule, asked in the order of cost, returned an approval:
  -- a rule that throws approves nothing.
  pub approved_iff :
      (policy : Policy W) (e : Engine W)
      → ((evaluate policy c e).0.decision ≡ allow)
        ↔ ((u : W) × Passes c (order_rules policy.rules) e.world u)
  unfolding evaluate
  approved_iff policy e = (
    λ h. (_, run-Passes (order_rules policy.rules) [] [] e.world h),
    λ p. Passes-run (order_rules policy.rules) [] [] p.1,
  )
