-- ===== src/Reconciliation/Spend/Refund.antt =====
-- What a refund does to the counters.
use paymaster.Common.{
  ℕ, ◌+◌, ◌-◌, ◌≡◌, Option, none, some, List, [], ◌∷◌, ◌==◌, list_eq, nat_eq, if◌then◌else◌, arith,
}
use paymaster.Common.Text.{Text}
use paymaster.Policy.Quota.Store.{QuotaStore, QuotaStoreLaws}
use paymaster.Policy.Rules.QuotaRule.{
  QuotaRule, QuotaUnit, operations, wei, SpendTrueUp, key_for, true_up_fields, true_up, true_up_on,
  ceil_div_gwei,
}
use paymaster.Policy.Rules.QuotaRule.Budget.{slot_of}
use paymaster.Policy.Rules.QuotaRule.Spend.{true_up_on-some}
use paymaster.Reconciliation.Spend.{LoadedRule, quota, other, refund_rules}

-- What was reserved over the real cost, in gwei.
unfoldable pub excess : SpendTrueUp → ℕ
excess u = ceil_div_gwei u.reserved_max_cost_wei - ceil_div_gwei u.actual_cost_wei

-- What a rule gives back on a counter: the excess, where the rule caps wei and reserved there.
unfoldable pub excess_of : QuotaUnit → QuotaRule → Option Text → SpendTrueUp → Text → ℕ
excess_of operations r key u j = 0
excess_of wei r none u j = 0
excess_of wei r (some key) u j = if slot_of r key u.reserved_at == j then excess u else 0

-- All that the rules of a policy give back on a counter.
unfoldable pub excess_at : List LoadedRule → SpendTrueUp → Text → ℕ
unfolding excess_of
excess_at [] u j = 0
excess_at (other ∷ rules) u j = excess_at rules u j
excess_at (quota r ∷ rules) u j =
    excess_of r.unit r (key_for r (true_up_fields u)) u j + excess_at rules u j

module _ {W : Type 0} {s : QuotaStore W} (laws : QuotaStoreLaws s) (u : SpendTrueUp) where
  open laws use {count}

  true_up_on-count :
      (r : QuotaRule) (unit : QuotaUnit) (key : Option Text) (w : W) (j : Text)
      → count (true_up_on s r unit key u w).1 j ≡ count w j - excess_of unit r key u j
  unfolding true_up_on excess_of
  true_up_on-count r operations key w j = omega arith
  true_up_on-count r wei none w j = omega arith
  true_up_on-count r wei (some key) w j =
      unfold excess in ground (arith, (true_up_on-some laws r u key w j).0)

  true_up-count :
      (r : QuotaRule) (w : W) (j : Text)
      → count (true_up s r u w).1 j
        ≡ count w j - excess_of r.unit r (key_for r (true_up_fields u)) u j
  unfolding true_up
  true_up-count r = true_up_on-count r r.unit (key_for r (true_up_fields u))

  -- A refund lowers each counter by exactly what the rules of the policy reserved there over the real
  -- cost, down to zero at most, and so raises none.
  pub refund_rules-count :
      (rules : List LoadedRule) (w : W) (j : Text)
      → count (refund_rules s rules u w).1 j ≡ count w j - excess_at rules u j
  unfolding refund_rules excess_at
  refund_rules-count [] w j = omega arith
  refund_rules-count (other ∷ rules) w j = refund_rules-count rules w j
  refund_rules-count (quota r ∷ rules) w j =
      omega (arith, refund_rules-count rules (true_up s r u w).1 j, true_up-count r w j)
