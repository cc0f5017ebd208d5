-- ===== src/Policy/Ceilings.antt =====
-- backend/src/policy/planCeilings.ts and the catalogue of backend/src/billing/plans.ts: what a plan
-- adds to every policy of its tenants.
use paymaster.Common.{
  ℕ, ◌≡◌, refl, ap, sym, subst, ◌∙◌, true, Option, none, some, List, [], ◌∷◌, ◌++◌, map, length,
  ◌==◌, list_eq, nat_eq, if◌then◌else◌, arith, Option-cases, inl, inr,
}
use paymaster.Common.Results.{Result, ok, err}
use paymaster.Common.JsMap
use paymaster.Common.JsMap.{JsMap}
use paymaster.Common.Text.{Text, text}
use paymaster.Policy.Context.{PolicyContext, PolicyDecision, allow, Policy, PolicyRule}
use paymaster.Policy.Engine.{Engine, evaluate}
use paymaster.Policy.Engine.Asked.{approved_asked}
use paymaster.Common.{Member, here, in_left, in_right}
use paymaster.Policy.Quota.Store.{QuotaStore}
use paymaster.Policy.Rules.AccessLists.{chain_enabled, has_number, in_memory_rule}
use paymaster.Policy.Rules.QuotaRule.{
  QuotaRule, QuotaRuleOptions, QuotaUnit, global, operations, wei, new_quota_rule, quota_rule,
}

pub record Plan : Type 0 where
  pub id : Text
  pub operations_per_day : Option ℕ
  pub wei_per_day : Option ℕ
  pub chain_ids : Option (List ℕ)

pub record PlanCatalogue : Type 0 where
  pub plans : JsMap Text Plan
  pub default_plan_id : Option Text

abbrev pub day_seconds : ℕ
day_seconds = 86400

unfoldable pub find : PlanCatalogue → Option Text → Option Plan
find catalogue none = none
find catalogue (some id) = JsMap.get id catalogue.plans

or_else : Option Plan → Option Plan → Option Plan
or_else none other = other
or_else (some plan) other = some plan

-- `planIds` is what `planIdsByTenant` read.
unfoldable pub plan_for : PlanCatalogue → JsMap Text Text → Text → Option Plan
unfolding or_else
plan_for catalogue plan_ids tenant =
    or_else (find catalogue (JsMap.get tenant plan_ids)) (find catalogue catalogue.default_plan_id)

unplanned :
    (catalogue : PlanCatalogue) (plan_ids : JsMap Text Text) (tenant : Text)
    → JsMap.get tenant plan_ids ≡ none
    → find catalogue (JsMap.get tenant plan_ids) ≡ none
unfolding find
unplanned catalogue plan_ids tenant n = λ i. find catalogue (n i)

-- A tenant is never left without ceilings where there is a default plan: neither one that has no
-- plan, nor one whose plan has gone from the catalogue.
pub plan_for-default :
    (catalogue : PlanCatalogue) (plan_ids : JsMap Text Text) (tenant id : Text) (fallback : Plan)
    → catalogue.default_plan_id ≡ some id
    → JsMap.get id catalogue.plans ≡ some fallback
    → (plan : Plan) × (plan_for catalogue plan_ids tenant ≡ some plan)
      × ((JsMap.get tenant plan_ids ≡ none) → plan ≡ fallback)
unfolding plan_for
plan_for-default catalogue plan_ids tenant id fallback d f =
    let default_found : find catalogue catalogue.default_plan_id ≡ some fallback =
      unfold find in (λ i. find catalogue (d i)) ∙ f in
    elim (Option-cases (find catalogue (JsMap.get tenant plan_ids))) [
      | inl gone ↦ (fallback, (λ i. or_else (gone i) (default_found i)), λ n. refl)
      | inr (plan, named) ↦ (
        plan,
        (λ i. or_else (named i) (find catalogue catalogue.default_plan_id)),
        λ n. absurd (cc (named, unplanned catalogue plan_ids tenant n)),
      )
    ]

-- The rule of a ceiling. Its window is a day, so its constructor does not throw.
abbrev pub ceiling_rule : Text → Text → QuotaUnit → ℕ → QuotaRuleOptions
ceiling_rule tenant name unit limit = record {
  name = text "platform:" ++ name;
  subject = global;
  unit = unit;
  limit = limit;
  window_seconds = day_seconds;
  on_missing_subject = none;
  namespace = some tenant;
}

module _ {W : Type 0} (quotas : QuotaStore W) where
  made : Option QuotaRule → List (PolicyRule W)
  made none = []
  made (some r) = quota_rule quotas r ∷ []

  chain_ceiling : Option (List ℕ) → List (PolicyRule W)
  chain_ceiling none = []
  chain_ceiling (some ids) = in_memory_rule (text "chain-enabled") (chain_enabled ids) ∷ []

  quota_ceiling : Text → Text → QuotaUnit → Option ℕ → List (PolicyRule W)
  unfolding made
  quota_ceiling tenant name unit none = []
  quota_ceiling tenant name unit (some limit) =
      made (new_quota_rule (ceiling_rule tenant name unit limit))

  unfoldable pub ceiling_rules : Plan → Text → List (PolicyRule W)
  unfolding chain_ceiling quota_ceiling
  ceiling_rules plan tenant =
      chain_ceiling plan.chain_ids
      ++ (quota_ceiling tenant (text "operations-per-day") operations plan.operations_per_day
          ++ quota_ceiling tenant (text "wei-per-day") wei plan.wei_per_day)

  capped_by : Option Plan → Policy W → Policy W
  capped_by none policy = policy
  capped_by (some plan) policy = record policy {
    rules = policy.rules ++ ceiling_rules plan policy.tenant_id;
  }

  unfoldable pub capped : PlanCatalogue → JsMap Text Text → Policy W → Policy W
  unfolding capped_by
  capped catalogue plan_ids policy = capped_by (plan_for catalogue plan_ids policy.tenant_id) policy

  -- `load`, on what the inner repository and the lookup answered.
  unfoldable pub load :
      PlanCatalogue
      → Result Text (List (Policy W))
      → Result Text (JsMap Text Text)
      → Result Text (List (Policy W))
  unfolding capped
  load catalogue (err e) plan_ids = err e
  load catalogue (ok policies) plan_ids =
      if length catalogue.plans == 0
      then ok policies
      else elim plan_ids [ err e ↦ err e | ok ids ↦ ok (map (capped catalogue ids) policies) ]

  chain-allowed :
      (ids : List ℕ) (c : PolicyContext) (v t : W)
      → (in_memory_rule (text "chain-enabled") (chain_enabled ids)).evaluate c v ≡ (ok allow, t)
      → has_number ids c.chain_id ≡ true
  unfolding in_memory_rule chain_enabled
  chain-allowed ids c v t e =
      let said = ap (λ (x : Result Text PolicyDecision × W). x.0) e in ground arith

  -- No tenant sponsors on a chain that its plan leaves out, whatever its own policy says: an approval
  -- under the capped policy means that the chain is one of the plan's.
  pub capped-chain :
      (catalogue : PlanCatalogue) (plan_ids : JsMap Text Text) (policy : Policy W) (plan : Plan)
      (ids : List ℕ) (c : PolicyContext) (e : Engine W)
      → plan_for catalogue plan_ids policy.tenant_id ≡ some plan
      → plan.chain_ids ≡ some ids
      → (evaluate (capped catalogue plan_ids policy) c e).0.decision ≡ allow
      → has_number ids c.chain_id ≡ true
  unfolding capped capped_by ceiling_rules
  capped-chain catalogue plan_ids policy plan ids c e p q a =
      let rule = in_memory_rule (text "chain-enabled") (chain_enabled ids) in
      let approved : (evaluate (capped_by (some plan) policy) c e).0.decision ≡ allow =
        sym (λ i. (evaluate (capped_by (p i) policy) c e).0.decision) ∙ a in
      let first : Member rule (chain_ceiling plan.chain_ids) =
        subst (λ x. Member rule (chain_ceiling x)) (sym q) (unfold chain_ceiling in here) in
      let (v, t, said) =
        approved_asked c rule (capped_by (some plan) policy) e
          (in_right rule policy.rules (ceiling_rules plan policy.tenant_id)
            (in_left rule (chain_ceiling plan.chain_ids) _ first))
          approved in
      chain-allowed ids c v t said
