-- ===== src/Policy/Rules/QuotaRule/Budget.antt =====
-- What `QuotaRule` of backend/src/policy/rules/quotaRules.ts does to the counters, over any store
-- that keeps the port's promises.
use paymaster.Common.{
  ℕ, ◌+◌, ◌-◌, ◌≡◌, ◌∙◌, Bool, true, false, Option, none, some, leb, ◌==◌, nat_eq, list_eq,
  if◌then◌else◌, arith,
}
use paymaster.Common.Results.{Result, ok, err}
use paymaster.Common.Text.{Text}
use paymaster.Policy.Context.{PolicyContext, PolicyDecision, allow, deny, allowed, is_reserving}
use paymaster.Policy.Quota.Window.{windowed_key}
use paymaster.Policy.Quota.Store.{QuotaStore, QuotaStoreLaws, QuotaConsumeParams, QuotaOutcome}
use paymaster.Policy.Rules.QuotaRule.{
  QuotaRule, key_for, subject_fields, amount_for, missing_subject, exhausted, judge_outcome,
  evaluate_on, release_on, quota_rule,
}
use paymaster.Policy.Engine.{evaluate_rule, release_rule, settle}
use paymaster.Policy.Engine.Compensation.{Compensates}

abbrev pub slot_of : QuotaRule → Text → ℕ → Text
slot_of r key now = windowed_key key r.window_seconds now

abbrev pub granted : Result Text PolicyDecision → Bool
granted (ok allow) = true
granted _ = false

module _ {W : Type 0} {s : QuotaStore W} (laws : QuotaStoreLaws s) (r : QuotaRule)
    (c : PolicyContext) where
  open laws use {count}

  abbrev pub consume_params : Text → QuotaConsumeParams
  consume_params key = record {
    key = key;
    amount = amount_for r c;
    limit = r.counted_limit;
    window_seconds = r.window_seconds;
    now = c.now;
  }

  unfoldable pub charge_on : Option Text → Text → ℕ
  charge_on none j = 0
  charge_on (some key) j = if slot_of r key c.now == j then amount_for r c else 0

  judge-ok :
      (x : Result Text QuotaOutcome × W) (o : QuotaOutcome)
      → x.0 ≡ ok o
      → judge_outcome r x ≡ (ok (if o.consumed then allow else exhausted r), x.1)
  unfolding judge_outcome
  judge-ok (ok p, w) o h = ground arith
  judge-ok (err m, w) o h = cc

  -- On a request that carries the subject: approval exactly where the budget holds the charge.
  pub evaluate_on-some :
      (key : Text) (w : W)
      → evaluate_on s r (some key) c w ≡ (
        ok (
            if leb (count w (slot_of r key c.now) + amount_for r c) r.counted_limit
            then allow
            else exhausted r),
        (s.try_consume (consume_params key) w).1,
      )
  unfolding evaluate_on
  evaluate_on-some key w =
      judge-ok (s.try_consume (consume_params key) w) _
        (laws.consume_outcome (consume_params key) w)
      ∙ ground arith

  -- The counters move by the charge where the rule approves, and not at all where it does not.
  pub count-evaluate_on :
      (o : Option Text) (w : W) (j : Text)
      → count (evaluate_on s r o c w).1 j
        ≡ count w j + (if granted (evaluate_on s r o c w).0 then charge_on o j else 0)
  unfolding charge_on
  count-evaluate_on none w j = unfold evaluate_on missing_subject in ground arith
  count-evaluate_on (some key) w j =
      rw (evaluate_on-some key w, laws.count-consume (consume_params key) w j)
        (unfold exhausted in ground arith)

  settle-moves :
      (x : Result Text PolicyDecision × W) (w v : W) (d : PolicyDecision) (j : Text) (n : ℕ)
      → count x.1 j ≡ count w j + (if granted x.0 then n else 0)
      → settle r.name x ≡ (d, v)
      → count v j ≡ count w j + (if allowed d then n else 0)
  unfolding settle
  settle-moves (ok allow, y) w v d j n h e = cc
  settle-moves (ok (deny _ _), y) w v d j n h e = ground arith
  settle-moves (err m, y) w v d j n h e = ground arith

  pub evaluate_rule-moves :
      (w v : W) (d : PolicyDecision) (j : Text)
      → evaluate_rule (quota_rule s r) c w ≡ (d, v)
      → count v j
        ≡ count w j + (if allowed d then charge_on (key_for r (subject_fields c)) j else 0)
  unfolding evaluate_rule quota_rule
  evaluate_rule-moves w v d j e =
      let o = key_for r (subject_fields c) in
      settle-moves (evaluate_on s r o c w) w v d j (charge_on o j) (count-evaluate_on o w j) e

  pub count-release_on :
      (o : Option Text) (w : W) (j : Text)
      → count (release_on s r o c w).1 j ≡ count w j - charge_on o j
  unfolding release_on charge_on
  count-release_on none w j = omega arith
  count-release_on (some key) w j = rw laws.count-release (ground arith)

  -- A quota rule gives back exactly what it took.
  pub quota_rule-Compensates : Compensates count c (quota_rule s r)
  unfolding quota_rule is_reserving release_rule
  quota_rule-Compensates =
      let o = key_for r (subject_fields c) in
      record {
        charge = charge_on o;
        unmoved = λ w v name code j e. evaluate_rule-moves w v (deny name code) j e ∙ omega arith;
        charged = λ w v j e. evaluate_rule-moves w v allow j e;
        released = λ w j _. count-release_on o w j;
      }
