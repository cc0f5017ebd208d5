-- ===== src/Policy/Factory.antt =====
-- backend/src/policy/policyFactory.ts: rules from their stored configuration, and the loading of a policy
-- in backend/src/db/postgresPolicyRepository.ts. `read_config` is zod's: whether a config has the shape
-- of its rule type's schema, and its parts; the conditions of the schemas are tests of this model.
pub mod Reserved
pub mod Tenants
use paymaster.Common.{
  ℕ, suc, ◌*◌, ◌^◌, Bool, true, false, not, ◌&&◌, ◌||◌, Option, none, some, List, [], ◌∷◌, map,
  take, drop, length, every, ltb, leb, ◌==◌, list_eq, nat_eq, if◌then◌else◌, or_default,
}
use paymaster.Common.Results.{Result, ok, err, ◌>>=◌, ◌>>◌, guard}
use paymaster.Common.JsMap
use paymaster.Common.JsMap.{JsMap}
use paymaster.Common.Text.{Text, text, number_from, to_lower}
use paymaster.Auth.Scope.{default_tenant_id}
use paymaster.Policy.Context.{PolicyRule, Policy}
use paymaster.Policy.Quota.Store.{QuotaStore}
use paymaster.Policy.Rules.AccessLists.{
  normalise_set, sender_allowlist, sender_blocklist, target_allowlist, method_allowlist,
  chain_enabled, no_value_transfer, in_memory_rule,
}
use paymaster.Policy.Rules.TokenOwnership.{TokenOwnershipConfig, token_ownership_rule}
use paymaster.Policy.Rules.QuotaRule.{
  QuotaSubject, QuotaUnit, MissingSubject, QuotaRule, QuotaRuleOptions, new_quota_rule, quota_rule,
}

abbrev pub reserved_quota_prefix : Text
reserved_quota_prefix = text "platform:"

pub data RuleType : Type 0 where
  chain_enabled_type sender_allowlist_type sender_blocklist_type target_allowlist_type : RuleType
  method_allowlist_type no_value_transfer_type token_ownership_type quota_type : RuleType

abbrev pub rule_types : List (Text × RuleType)
rule_types =
    (text "chain-enabled", chain_enabled_type)
    ∷ (text "sender-allowlist", sender_allowlist_type)
    ∷ (text "sender-blocklist", sender_blocklist_type)
    ∷ (text "target-allowlist", target_allowlist_type)
    ∷ (text "method-allowlist", method_allowlist_type)
    ∷ (text "no-value-transfer", no_value_transfer_type)
    ∷ (text "token-ownership", token_ownership_type)
    ∷ (text "quota", quota_type)
    ∷ []

type_among : List (Text × RuleType) → Text → Option RuleType
type_among [] name = none
type_among ((n, t) ∷ types) name = if n == name then some t else type_among types name

-- `isRuleType`, with the type that it finds.
unfoldable pub rule_type_of : Text → Option RuleType
unfolding type_among
rule_type_of = type_among rule_types

pub record QuotaConfig : Type 0 where
  pub name : Text
  pub subject : QuotaSubject
  pub unit : QuotaUnit
  pub limit : Text
  pub window_seconds : ℕ
  pub on_missing_subject : Option MissingSubject

pub record TokenConfig : Type 0 where
  pub token : Option Text
  pub token_by_chain : List (Text × Text)
  pub min_balance : Option Text

-- A config of the right shape; it names its type.
pub data RuleConfig : Type 0 where
  chain_ids : List ℕ → RuleConfig
  allowed_senders blocked_senders targets : List Text → RuleConfig
  selectors : List Text → Option Bool → RuleConfig
  no_transfer : RuleConfig
  token : TokenConfig → RuleConfig
  quota : QuotaConfig → RuleConfig

pub record PolicyRuleSpec (C : Type 0) : Type 0 where
  pub rule_type : Text
  pub config : C

abbrev pub InvalidRuleConfig : Type 0
InvalidRuleConfig = Text

abbrev pub invalid_config : Text
invalid_config = text "InvalidRuleConfigError"

abbrev pub is_digit : ℕ → Bool
is_digit c = leb b'0' c && leb c b'9'

abbrev pub is_hex_digit : ℕ → Bool
is_hex_digit c = is_digit c || (leb b'a' c && leb c b'f' || leb b'A' c && leb c b'F')

-- `^[0-9]+$`
abbrev pub is_numeral : Text → Bool
is_numeral s = ltb 0 (length s) && every is_digit s

-- `^0x[0-9a-fA-F]{n}$`
abbrev pub is_hex_of : ℕ → Text → Bool
is_hex_of n s = take 2 s == text "0x" && (length (drop 2 s) == n && every is_hex_digit (drop 2 s))

abbrev pub starts_with : Text → Text → Bool
starts_with p s = take (length p) s == p

-- The conditions of the schema of a quota.
unfoldable pub is_valid_quota : QuotaConfig → Bool
is_valid_quota q =
    (leb 1 (length q.name) && leb (length q.name) 64)
    && ((not (starts_with reserved_quota_prefix q.name) && is_numeral q.limit)
        && (ltb 0 q.window_seconds && leb q.window_seconds 31536000))

-- The options of the quota rule that a config asks for.
abbrev pub quota_options : QuotaConfig → Text → QuotaRuleOptions
quota_options q namespace = record {
  name = q.name;
  subject = q.subject;
  unit = q.unit;
  limit = number_from 0 q.limit;
  window_seconds = q.window_seconds;
  on_missing_subject = q.on_missing_subject;
  namespace = some namespace;
}

is_positive : Option Text → Bool
is_positive none = true
is_positive (some s) = is_numeral s && ltb 0 (number_from 0 s)

abbrev pub is_given : Option Text → Bool
is_given none = false
is_given (some t) = true

module _ (is_strict : Text → Bool) (get_address : Text → Option Text) where
  is_address : Text → Bool
  is_address a = is_hex_of 40 a && is_strict a

  is_optional_address : Option Text → Bool
  unfolding is_address
  is_optional_address none = true
  is_optional_address (some a) = is_address a

  is_valid_token : TokenConfig → Bool
  unfolding is_optional_address is_positive
  is_valid_token c =
      (is_optional_address c.token
        && every (λ (e : Text × Text). is_numeral e.0 && is_address e.1) c.token_by_chain)
      && (is_positive c.min_balance && (is_given c.token || ltb 0 (length c.token_by_chain)))

  -- `.min(1)` of an array of addresses
  is_valid_list : List Text → Bool
  unfolding is_address
  is_valid_list addresses = ltb 0 (length addresses) && every is_address addresses

  -- The conditions of the schemas.
  unfoldable pub meets_rule_schema : RuleConfig → Bool
  unfolding is_valid_list is_valid_token is_valid_quota
  meets_rule_schema (chain_ids ids) = ltb 0 (length ids) && every (λ id. ltb 0 id) ids
  meets_rule_schema (allowed_senders addresses) = is_valid_list addresses
  meets_rule_schema (blocked_senders addresses) = is_valid_list addresses
  meets_rule_schema (targets addresses) = is_valid_list addresses
  meets_rule_schema (selectors list bare) = ltb 0 (length list) && every (is_hex_of 8) list
  meets_rule_schema no_transfer = true
  meets_rule_schema (token c) = is_valid_token c
  meets_rule_schema (quota q) = is_valid_quota q

  -- The addresses as the schema transforms them and the rule normalises them.
  with_addresses : {A : Type 0} → (List Text → A) → List Text → Result InvalidRuleConfig A
  with_addresses f addresses = elim (normalise_set get_address addresses) [
    | none ↦ err invalid_config
    | some set ↦ ok (f set)
  ]

  checksummed : Option Text → Option Text
  checksummed none = none
  checksummed (some a) = get_address a

  -- `Object.fromEntries`, with a number for each key.
  by_chain : List (Text × Text) → JsMap ℕ Text → JsMap ℕ Text
  by_chain [] m = m
  by_chain ((id, a) ∷ entries) m =
      by_chain entries (JsMap.put (number_from 0 id) (or_default (get_address a) a) m)

  module _ {W C : Type 0} (read_config : RuleType → C → Option RuleConfig) (quotas : QuotaStore W)
      (balance_of : Option (ℕ → Text → Text → Result Text ℕ)) where
    build_quota : Option QuotaRule → Result InvalidRuleConfig (PolicyRule W)
    build_quota none = err (text "RangeError")
    build_quota (some r) = ok (quota_rule quotas r)

    build_token :
        Option (ℕ → Text → Text → Result Text ℕ)
        → TokenConfig
        → Result InvalidRuleConfig (PolicyRule W)
    unfolding checksummed by_chain
    build_token none c = err (text "token-ownership rule requires a TokenBalanceReader")
    build_token (some reader) c = ok (
        token_ownership_rule reader (record {
          token = checksummed c.token;
          token_by_chain = by_chain c.token_by_chain [];
          min_balance = elim c.min_balance [ none ↦ none | some s ↦ some (number_from 0 s) ];
        }))

    -- `#construct`
    unfoldable pub construct : RuleConfig → Text → Result InvalidRuleConfig (PolicyRule W)
    unfolding with_addresses build_quota build_token
    construct (chain_ids ids) namespace =
        ok (in_memory_rule (text "chain-enabled") (chain_enabled ids))
    construct (allowed_senders addresses) namespace =
        with_addresses (λ set. in_memory_rule (text "sender-allowlist") (sender_allowlist set))
          addresses
    construct (blocked_senders addresses) namespace =
        with_addresses (λ set. in_memory_rule (text "sender-blocklist") (sender_blocklist set))
          addresses
    construct (targets addresses) namespace =
        with_addresses (λ set. in_memory_rule (text "target-allowlist") (target_allowlist set))
          addresses
    construct (selectors list bare) namespace = ok (
        in_memory_rule (text "method-allowlist")
          (method_allowlist (map to_lower list) (or_default bare false)))
    construct no_transfer namespace =
        ok (in_memory_rule (text "no-value-transfer") no_value_transfer)
    construct (token c) namespace = build_token balance_of c
    construct (quota q) namespace = build_quota (new_quota_rule (quota_options q namespace))

    -- `tenant === undefined || tenant === DEFAULT_TENANT_ID ? "" : tenant`
    unfoldable pub namespace_of : Option Text → Text
    namespace_of none = []
    namespace_of (some tenant) = if tenant == default_tenant_id then [] else tenant

    safe_parse : Option RuleConfig → Result InvalidRuleConfig RuleConfig
    unfolding meets_rule_schema
    safe_parse none = err invalid_config
    safe_parse (some c) = if meets_rule_schema c then ok c else err invalid_config

    unfoldable pub config_of : PolicyRuleSpec C → Result InvalidRuleConfig RuleConfig
    unfolding safe_parse rule_type_of
    config_of spec = elim (rule_type_of spec.rule_type) [
      | none ↦ err invalid_config
      | some t ↦ safe_parse (read_config t spec.config)
    ]

    unfoldable pub build : PolicyRuleSpec C → Option Text → Result InvalidRuleConfig (PolicyRule W)
    unfolding config_of construct namespace_of
    build spec tenant = config_of spec >>= λ c. construct c (namespace_of tenant)
