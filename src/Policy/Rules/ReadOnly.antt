-- ===== src/Policy/Rules/ReadOnly.antt =====
-- Rules of backend/src/policy/rules that move no counter: the access lists and the token's owner.
use paymaster.Common.{ℕ, ◌≡◌, refl, ap, sym, ◌∙◌, false, arith}
use paymaster.Common.Results.{Result, ok, err}
use paymaster.Common.Text.{Text}
use paymaster.Policy.Context.{PolicyContext, PolicyDecision, PolicyRule, is_reserving}
use paymaster.Policy.Rules.AccessLists.{in_memory_rule}
use paymaster.Policy.Rules.TokenOwnership.{TokenOwnershipConfig, token_ownership_rule}
use paymaster.Policy.Engine.{evaluate_rule, settle}
use paymaster.Policy.Engine.Compensation.{Compensates}

settle-world :
    {W : Type 0} (name : Text) (x : Result Text PolicyDecision × W) → (settle name x).1 ≡ x.1
unfolding settle
settle-world name (ok d, w) = refl
settle-world name (err m, w) = refl

module _ {W : Type 0} (count : W → Text → ℕ) (c : PolicyContext) where
  -- A rule that leaves the world alone and reserves nothing.
  pub read_only-Compensates :
      (r : PolicyRule W)
      → ((w : W) → (r.evaluate c w).1 ≡ w)
      → is_reserving r ≡ false
      → Compensates count c r
  unfolding evaluate_rule
  read_only-Compensates r same none_held =
      let stays : (w v : W) (d : PolicyDecision) → evaluate_rule r c w ≡ (d, v) → v ≡ w =
        λ w v d e. ap (λ x. x.1) (sym e) ∙ settle-world r.name (r.evaluate c w) ∙ same w in
      record {
        charge = λ _. 0;
        unmoved = λ w v name code j e. ap (λ x. count x j) (stays w v _ e);
        charged = λ w v j e. ap (λ x. count x j) (stays w v _ e) ∙ rw none_held (omega arith);
        released = λ w j k. absurd (cc (k, none_held));
      }

  pub in_memory_rule-Compensates :
      (name : Text) (decide : PolicyContext → PolicyDecision)
      → Compensates count c (in_memory_rule name decide)
  unfolding in_memory_rule is_reserving
  in_memory_rule-Compensates name decide = read_only-Compensates _ (λ w. refl) refl

  pub token_ownership_rule-Compensates :
      (balance_of : ℕ → Text → Text → Result Text ℕ) (config : TokenOwnershipConfig)
      → Compensates count c (token_ownership_rule balance_of config)
  unfolding token_ownership_rule is_reserving
  token_ownership_rule-Compensates balance_of config = read_only-Compensates _ (λ w. refl) refl
