-- ===== src/Examples/Rules.antt =====
-- A rule that is named like a ceiling's prefix, and a policy that is written and loaded.
use paymaster.Common.{◌≡◌, refl, true, not, Option, none, some, [], ◌∷◌, keep, list_eq, nat_eq}
use paymaster.Common.Results.{is_ok}
use paymaster.Common.Text.{Text, text}
use paymaster.Auth.Scope.{tenant_scope, platform_scope, in_scope}
use paymaster.Policy.Quota.InMemory.{in_memory_store}
use paymaster.Policy.Rules.QuotaRule.{
  QuotaRule, QuotaSubjectFields, operations, global, api_key, refuse, new_quota_rule,
}
use paymaster.Policy.Factory.{
  RuleType, RuleConfig, quota, QuotaConfig, is_valid_quota, build, config_of, construct,
  rule_type_of, meets_rule_schema,
}
use paymaster.Policy.Repository.{PolicyDefinition, StoredPolicy, is_at, load, list, upsert}
use paymaster.Policy.Repository.Accepted.{upsert-load}

abbrev named_platform : QuotaConfig
named_platform = record {
  name = text "platform";
  subject = api_key;
  unit = operations;
  limit = text "5";
  window_seconds = 60;
  on_missing_subject = none;
}

abbrev ceiling_name : Text
ceiling_name = text "operations-per-day"

-- A request under a key whose id is the ceiling's name.
abbrev by_odd_key : QuotaSubjectFields
by_odd_key = record {
  chain_id = 1;
  sender = text "0x00";
  api_key_id = some ceiling_name;
  client_ip = none;
  calls = none;
}

abbrev platform_rule : QuotaRule
platform_rule = record {
  name = text "platform";
  subject = api_key;
  unit = operations;
  window_seconds = 60;
  on_missing_subject = refuse;
  namespace = text "acme";
  counted_limit = 5;
}

abbrev day_rule : QuotaRule
day_rule = record {
  name = text "platform:operations-per-day";
  subject = global;
  unit = operations;
  window_seconds = 86400;
  on_missing_subject = refuse;
  namespace = text "acme";
  counted_limit = 100;
}

-- A config that is a quota's, whatever it is stored as.
abbrev as_quota : RuleType → QuotaConfig → Option RuleConfig
as_quota t q = some (quota q)

abbrev written_policy : PolicyDefinition QuotaConfig
written_policy = record {
  id = text "production";
  name = text "Production";
  description = none;
  enabled = true;
  rules = record { rule_type = text "quota"; config = named_platform } ∷ [];
}

abbrev stored_policy : StoredPolicy QuotaConfig
stored_policy = record {
  tenant_id = text "beta";
  definition = written_policy;
  created_at = 10;
  updated_at = 10;
}

upsert-load_example :
    (is_ok (
        load
          (build (λ a. true) some as_quota in_memory_store none)
          platform_scope
          (upsert
            (build (λ a. true) some as_quota in_memory_store none)
            (tenant_scope (text "acme"))
            written_policy
            20
            (stored_policy ∷ [])).1)
      ≡ true)
    × (keep
          (λ p. not (is_at (text "acme") (text "production") p))
          (upsert
            (build (λ a. true) some as_quota in_memory_store none)
            (tenant_scope (text "acme"))
            written_policy
            20
            (stored_policy ∷ [])).1
        ≡ keep (λ p. not (is_at (text "acme") (text "production") p)) (stored_policy ∷ []))
upsert-load_example =
    upsert-load (λ a. true) some as_quota in_memory_store none (text "acme") written_policy 20
      (stored_policy ∷ []) platform_scope
      (unfold load list in_scope build config_of construct rule_type_of meets_rule_schema
          is_valid_quota new_quota_rule in
        refl)
