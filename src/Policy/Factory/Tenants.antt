-- ===== src/Policy/Factory/Tenants.antt =====
-- backend/src/policy/policyFactory.ts builds a rule for one tenant exactly if it builds it for another.
use paymaster.Common.{ℕ, ◌≡◌, refl, Bool, Option, ◌==◌, nat_eq, Bool-cases, inl, inr}
use paymaster.Common.Results.{Result, is_ok, is_ok->>=}
use paymaster.Common.Text.{Text}
use paymaster.Policy.Quota.Store.{QuotaStore}
use paymaster.Policy.Rules.QuotaRule.{new_quota_rule}
use paymaster.Policy.Factory.{
  RuleType, RuleConfig, chain_ids, allowed_senders, blocked_senders, targets, selectors,
  no_transfer, token, quota, QuotaConfig, quota_options, PolicyRuleSpec, construct, build_quota,
  build, config_of, namespace_of,
}

module _ (is_strict : Text → Bool) (get_address : Text → Option Text) {W C : Type 0}
    (read_config : RuleType → C → Option RuleConfig) (quotas : QuotaStore W)
    (balance_of : Option (ℕ → Text → Text → Result Text ℕ)) where
  build_quota-tenants :
      (q : QuotaConfig) (n m : Text)
      → is_ok (
          build_quota is_strict get_address read_config quotas balance_of
            (new_quota_rule (quota_options q n)))
        ≡ is_ok (
            build_quota is_strict get_address read_config quotas balance_of
              (new_quota_rule (quota_options q m)))
  unfolding build_quota new_quota_rule
  build_quota-tenants q n m = elim (Bool-cases (q.window_seconds == 0)) [
    | inl zero_long ↦ rw zero_long refl
    | inr long ↦ rw long refl
  ]

  construct-tenants :
      (c : RuleConfig) (n m : Text)
      → is_ok (construct is_strict get_address read_config quotas balance_of c n)
        ≡ is_ok (construct is_strict get_address read_config quotas balance_of c m)
  unfolding construct
  construct-tenants (chain_ids ids) n m = refl
  construct-tenants (allowed_senders a) n m = refl
  construct-tenants (blocked_senders a) n m = refl
  construct-tenants (targets a) n m = refl
  construct-tenants (selectors l b) n m = refl
  construct-tenants no_transfer n m = refl
  construct-tenants (token c) n m = refl
  construct-tenants (quota q) n m = build_quota-tenants q n m

  pub build-tenants :
      (spec : PolicyRuleSpec C) (s t : Option Text)
      → is_ok (build is_strict get_address read_config quotas balance_of spec s)
        ≡ is_ok (build is_strict get_address read_config quotas balance_of spec t)
  unfolding build
  build-tenants spec s t =
      is_ok->>= (config_of is_strict get_address read_config quotas balance_of spec)
        (λ c.
          construct is_strict get_address read_config quotas balance_of c
            (namespace_of is_strict get_address read_config quotas balance_of s))
        (λ c.
          construct is_strict get_address read_config quotas balance_of c
            (namespace_of is_strict get_address read_config quotas balance_of t))
        (λ c.
          construct-tenants c (namespace_of is_strict get_address read_config quotas balance_of s)
            (namespace_of is_strict get_address read_config quotas balance_of t))
