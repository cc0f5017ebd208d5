-- ===== src/Policy/Engine/Asked.antt =====
-- No rule of an approved policy of backend/src/policy/engine.ts was passed over.
use paymaster.Common.{
  ◌≡◌, sym, subst, ◌∙◌, inl, inr, List, [], ◌∷◌, ◌++◌, ◌==◌, ==_refl, nat_eq, Member, here, there,
  in_left, in_right, in_kept,
}
use paymaster.Common.Results.{ok}
use paymaster.Policy.Context.{
  PolicyContext, allow, PolicyRule, RuleCost, in_memory, store, network, rule_cost_order, Policy,
}
use paymaster.Policy.Engine.{Engine, evaluate, order_rules}
use paymaster.Policy.Engine.Order.{tier, cost_cases, order_rules-tiers}
use paymaster.Policy.Engine.Decision.{Passes, pass, approved_iff}

module _ {W : Type 0} (c : PolicyContext) (r : PolicyRule W) where
  in_tier :
      (k : RuleCost) (rules : List (PolicyRule W))
      → r.cost ≡ k
      → Member r rules
      → Member r (tier k rules)
  in_tier k rules e m =
      in_kept r (λ q. rule_cost_order q.cost == rule_cost_order k) rules
        ((λ i. rule_cost_order (e i) == rule_cost_order k) ∙ ==_refl (rule_cost_order k)) m

  in_order : (rules : List (PolicyRule W)) → Member r rules → Member r (order_rules rules)
  in_order rules m =
      let a = tier in_memory rules in
      let b = tier store rules in
      let d = tier network rules in
      subst (Member r) (sym (order_rules-tiers rules)) (elim (cost_cases r.cost) [
        | inl e ↦ in_left r a (b ++ d) (in_tier in_memory rules e m)
        | inr (inl e) ↦ in_right r a (b ++ d) (in_left r b d (in_tier store rules e m))
        | inr (inr e) ↦ in_right r a (b ++ d) (in_right r b d (in_tier network rules e m))
      ])

  asked :
      (rs : List (PolicyRule W)) (w u : W)
      → Passes c rs w u
      → Member r rs
      → (v : W) × (t : W) × (r.evaluate c v ≡ (ok allow, t))
  asked (_ ∷ rs) _ u (pass {w} {v} e p) here = (w, v, e)
  asked (_ ∷ rs) _ u (pass {v} e p) (there m) = asked rs v u p m
  asked [] w u p m = elim m [ ]

  -- An approval asked every rule of the policy: each one allowed the request, in some world that the
  -- evaluation went through.
  pub approved_asked :
      (policy : Policy W) (e : Engine W)
      → Member r policy.rules
      → (evaluate policy c e).0.decision ≡ allow
      → (v : W) × (t : W) × (r.evaluate c v ≡ (ok allow, t))
  approved_asked policy e m a =
      let (u, p) = (approved_iff c policy e).0 a in
      asked (order_rules policy.rules) e.world u p (in_order policy.rules m)
