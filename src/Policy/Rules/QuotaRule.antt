-- ===== src/Policy/Rules/QuotaRule.antt =====
-- backend/src/policy/rules/quotaRules.ts: budgets of operations or of wei over fixed windows.
pub mod Budget
pub mod Spend
pub mod Keys
use paymaster.Common.{
  ℕ, suc, ◌+◌, ◌-◌, ◌*◌, ◌/◌, ◌≤◌, ◌<◌, ◌≡◌, Bool, true, false, Option, none, some, List, [], ◌∷◌,
  ◌++◌, ltb, leb, ◌==◌, nat_eq, list_eq, if◌then◌else◌, or_default,
}
use paymaster.Common.Results.{Result, ok, err}
use paymaster.Common.Text.{Text, text, colon, decimal, to_lower}
use paymaster.Policy.Context.{
  DecodedCall, PolicyContext, PolicyDecision, allow, deny, quota_exceeded, spend_cap_exceeded,
  store, Exec, PolicyRule,
}
use paymaster.Policy.Quota.Store.{QuotaOutcome, QuotaStore}

pub data QuotaSubject : Type 0 where
  wallet ip api_key chain target global : QuotaSubject

pub data QuotaUnit : Type 0 where
  operations wei : QuotaUnit

pub data MissingSubject : Type 0 where
  refuse skip : MissingSubject

pub record QuotaSubjectFields : Type 0 where
  pub chain_id : ℕ
  pub sender : Text
  pub api_key_id : Option Text
  pub client_ip : Option Text
  pub calls : Option (List DecodedCall)

pub record SpendTrueUp : Type 0 where
  pub chain_id : ℕ
  pub sender : Text
  pub api_key_id : Option Text
  pub reserved_max_cost_wei : ℕ
  pub actual_cost_wei : ℕ
  pub reserved_at : ℕ

abbrev pub wei_per_gwei : ℕ
wei_per_gwei = 1000000000

pub record QuotaRuleOptions : Type 0 where
  pub name : Text
  pub subject : QuotaSubject
  pub unit : QuotaUnit
  pub limit : ℕ
  pub window_seconds : ℕ
  pub on_missing_subject : Option MissingSubject
  pub namespace : Option Text

pub record QuotaRule : Type 0 where
  pub name : Text
  pub subject : QuotaSubject
  pub unit : QuotaUnit
  pub window_seconds : ℕ
  pub on_missing_subject : MissingSubject
  pub namespace : Text
  pub counted_limit : ℕ

unfoldable pub counted_limit_of : QuotaUnit → ℕ → ℕ
counted_limit_of wei limit = limit / wei_per_gwei
counted_limit_of operations limit = limit

-- The constructor. `none` is its `RangeError`; a limit is a natural number, so never below zero.
unfoldable pub new_quota_rule : QuotaRuleOptions → Option QuotaRule
unfolding counted_limit_of
new_quota_rule o =
    if o.window_seconds == 0
    then none
    else some (record {
      name = o.name;
      subject = o.subject;
      unit = o.unit;
      window_seconds = o.window_seconds;
      on_missing_subject = or_default o.on_missing_subject refuse;
      namespace = or_default o.namespace [];
      counted_limit = counted_limit_of o.unit o.limit;
    })

unfoldable pub ceil_div_gwei : ℕ → ℕ
ceil_div_gwei amount = (amount + wei_per_gwei - 1) / wei_per_gwei

unfoldable pub amount_in : QuotaUnit → ℕ → ℕ
unfolding ceil_div_gwei
amount_in operations max_cost = 1
amount_in wei max_cost = ceil_div_gwei max_cost

unfoldable pub amount_for : QuotaRule → PolicyContext → ℕ
unfolding amount_in
amount_for r c = amount_in r.unit c.max_cost

unfoldable pub report_in : QuotaUnit → ℕ → ℕ
report_in operations counted = counted
report_in wei counted = counted * wei_per_gwei

unfoldable pub key_prefix : Text → Text → Text
key_prefix [] name = text "quota:" ++ name
key_prefix (c ∷ namespace) name = text "quota:" ++ (c ∷ namespace) ++ b'/' ∷ name

unfoldable pub one_target : Text → ℕ → Option (List DecodedCall) → Option Text
one_target prefix chain_id (some (call ∷ [])) =
    some (prefix ++ colon ∷ (decimal chain_id ++ colon ∷ to_lower call.target))
one_target prefix chain_id _ = none

unfoldable pub key_on : QuotaSubject → Text → QuotaSubjectFields → Option Text
unfolding one_target
key_on wallet prefix f = some (prefix ++ colon ∷ (decimal f.chain_id ++ colon ∷ to_lower f.sender))
key_on chain prefix f = some (prefix ++ colon ∷ decimal f.chain_id)
key_on global prefix f = some prefix
key_on ip prefix f = elim f.client_ip [ none ↦ none | some i ↦ some (prefix ++ colon ∷ i) ]
key_on api_key prefix f = elim f.api_key_id [ none ↦ none | some k ↦ some (prefix ++ colon ∷ k) ]
key_on target prefix f = one_target prefix f.chain_id f.calls

unfoldable pub key_for : QuotaRule → QuotaSubjectFields → Option Text
unfolding key_on key_prefix
key_for r f = key_on r.subject (key_prefix r.namespace r.name) f

abbrev pub subject_fields : PolicyContext → QuotaSubjectFields
subject_fields c = record {
  chain_id = c.chain_id;
  sender = c.sender;
  api_key_id = c.api_key_id;
  client_ip = c.client_ip;
  calls = c.calls;
}

-- What a reconciler knows of the request: neither its address on the network nor its calls.
abbrev pub true_up_fields : SpendTrueUp → QuotaSubjectFields
true_up_fields s = record {
  chain_id = s.chain_id;
  sender = s.sender;
  api_key_id = s.api_key_id;
  client_ip = none;
  calls = none;
}

unfoldable pub missing_subject : QuotaRule → PolicyDecision
missing_subject r = elim r.on_missing_subject [ skip ↦ allow | refuse ↦ deny r.name quota_exceeded ]

unfoldable pub exhausted : QuotaRule → PolicyDecision
exhausted r = elim r.unit [
  | wei ↦ deny r.name spend_cap_exceeded
  | operations ↦ deny r.name quota_exceeded
]

-- What is said of the store's answer; an error of the store is thrown on.
judge_outcome :
    {W : Type 0} → QuotaRule → Result Text QuotaOutcome × W → Result Text PolicyDecision × W
unfolding exhausted
judge_outcome r (ok o, w) = (ok (if o.consumed then allow else exhausted r), w)
judge_outcome r (err e, w) = (err e, w)

unfoldable pub granted_refund : {W : Type 0} → ℕ → Result Text (Unit {0}) × W → Result Text ℕ × W
granted_refund delta (ok _, w) = (ok (delta * wei_per_gwei), w)
granted_refund delta (err e, w) = (err e, w)

left_over : {W : Type 0} → QuotaRule → Result Text ℕ × W → Result Text (Option ℕ) × W
unfolding report_in
left_over r (ok used, w) = (ok (some (report_in r.unit (r.counted_limit - used))), w)
left_over r (err e, w) = (err e, w)

module _ {W : Type 0} (s : QuotaStore W) (r : QuotaRule) where
  -- `evaluate`, on the key that the request has or lacks.
  unfoldable pub evaluate_on : Option Text → PolicyContext → Exec W PolicyDecision
  unfolding missing_subject judge_outcome
  evaluate_on none c w = (ok (missing_subject r), w)
  evaluate_on (some key) c w = judge_outcome r (
      s.try_consume
        (record {
          key = key;
          amount = amount_for r c;
          limit = r.counted_limit;
          window_seconds = r.window_seconds;
          now = c.now;
        })
        w)

  unfoldable pub evaluate : PolicyContext → Exec W PolicyDecision
  unfolding evaluate_on
  evaluate c = evaluate_on (key_for r (subject_fields c)) c

  unfoldable pub release_on : Option Text → PolicyContext → Exec W (Unit {0})
  release_on none c w = (ok tt, w)
  release_on (some key) c w =
      s.release
        (record {
          key = key;
          amount = amount_for r c;
          window_seconds = r.window_seconds;
          now = c.now;
        })
        w

  unfoldable pub release : PolicyContext → Exec W (Unit {0})
  unfolding release_on
  release c = release_on (key_for r (subject_fields c)) c

  remaining_on : Option Text → PolicyContext → Exec W (Option ℕ)
  unfolding left_over
  remaining_on none c w = (ok none, w)
  remaining_on (some key) c w = left_over r (s.usage key r.window_seconds c.now w)

  unfoldable pub remaining : PolicyContext → Exec W (Option ℕ)
  unfolding remaining_on
  remaining c = remaining_on (key_for r (subject_fields c)) c

  -- A refund of what was reserved beyond the real cost, into the window that was charged.
  unfoldable pub true_up_on : QuotaUnit → Option Text → SpendTrueUp → Exec W ℕ
  unfolding granted_refund ceil_div_gwei
  true_up_on operations key u w = (ok 0, w)
  true_up_on wei none u w = (ok 0, w)
  true_up_on wei (some key) u w =
      let reserved = ceil_div_gwei u.reserved_max_cost_wei in
      let actual = ceil_div_gwei u.actual_cost_wei in
      if leb reserved actual
      then (ok 0, w)
      else granted_refund (reserved - actual) (
          s.release
            (record {
              key = key;
              amount = reserved - actual;
              window_seconds = r.window_seconds;
              now = u.reserved_at;
            })
            w)

  unfoldable pub true_up : SpendTrueUp → Exec W ℕ
  unfolding true_up_on
  true_up u = true_up_on r.unit (key_for r (true_up_fields u)) u

  unfoldable pub quota_rule : PolicyRule W
  unfolding evaluate release
  quota_rule = record { name = r.name; cost = store; evaluate = evaluate; release = some release }
