-- ===== src/Policy/Rules/QuotaRule/Spend.antt =====
-- What a spend cap of backend/src/policy/rules/quotaRules.ts lets through, in wei.
use paymaster.Common.{
  ℕ, ◌+◌, ◌-◌, ◌*◌, ◌≤◌, ◌≡◌, refl, ap, sym, ◌∙◌, inl, inr, Bool, false, ◌&&◌, Option, none, some,
  List, [], ◌∷◌, leb, ◌==◌, nat_eq, list_eq, list_beq_iff, if◌then◌else◌, arith, Bool-cases,
}
use paymaster.Common.Results.{Result, ok, err}
use paymaster.Common.Text.{Text}
use paymaster.Policy.Context.{PolicyContext, allow}
use paymaster.Policy.Quota.Store.{QuotaStore, QuotaStoreLaws, QuotaReleaseParams}
use paymaster.Policy.Rules.QuotaRule.{
  QuotaRule, QuotaRuleOptions, wei, wei_per_gwei, new_quota_rule, key_for, subject_fields,
  true_up_fields, amount_for, amount_in, ceil_div_gwei, SpendTrueUp, evaluate, evaluate_on, true_up,
  true_up_on, granted_refund,
}
use paymaster.Policy.Rules.QuotaRule.Budget.{
  granted, charge_on, consume_params, count-evaluate_on, evaluate_on-some, slot_of,
}

-- Charges round up, and limits round down.
pub ceil_div_gwei-covers : (n : ℕ) → n ≤ ceil_div_gwei n * wei_per_gwei
unfolding ceil_div_gwei
ceil_div_gwei-covers n = omega arith

module _ {W : Type 0} {s : QuotaStore W} (laws : QuotaStoreLaws s) (r : QuotaRule) (j : Text) where
  open laws use {count}

  abbrev charges_slot : Option Text → ℕ → Bool
  charges_slot none now = false
  charges_slot (some key) now = slot_of r key now == j

  -- The worst-case cost of the requests that the rule approves on the counter `j`, in wei, when it
  -- is asked for one after the other; and the world that they leave.
  unfoldable pub approved_cost : List PolicyContext → W → ℕ
  approved_cost [] w = 0
  approved_cost (c ∷ cs) w =
      let later = approved_cost cs (evaluate s r c w).1 in
      if granted (evaluate s r c w).0 && charges_slot (key_for r (subject_fields c)) c.now
      then c.max_cost + later
      else later

  after : List PolicyContext → W → W
  after [] w = w
  after (c ∷ cs) w = after cs (evaluate s r c w).1

  module _ (in_wei : r.unit ≡ wei) where
    amount_for-covers : (c : PolicyContext) → c.max_cost ≤ amount_for r c * wei_per_gwei
    unfolding amount_for
    amount_for-covers c = rw in_wei (omega arith)

    evaluate-cost :
        (c : PolicyContext) (o : Option Text) (w : W)
        → (if granted (evaluate_on s r o c w).0 && charges_slot o c.now then c.max_cost else 0)
            + count w j * wei_per_gwei
          ≤ count (evaluate_on s r o c w).1 j * wei_per_gwei
    unfolding charge_on
    evaluate-cost c none w = ground (arith, count-evaluate_on laws r c none w j)
    evaluate-cost c (some key) w =
        ground (arith, count-evaluate_on laws r c (some key) w j, amount_for-covers c)

    approved_cost-count :
        (cs : List PolicyContext) (w : W)
        → approved_cost cs w + count w j * wei_per_gwei ≤ count (after cs w) j * wei_per_gwei
    unfolding approved_cost after evaluate
    approved_cost-count [] w = omega arith
    approved_cost-count (c ∷ cs) w = ground (
      arith,
      evaluate-cost c (key_for r (subject_fields c)) w,
      approved_cost-count cs (evaluate s r c w).1,
    )

  evaluate_on-bounded :
      (c : PolicyContext) (o : Option Text) (w : W)
      → count w j ≤ r.counted_limit
      → count (evaluate_on s r o c w).1 j ≤ r.counted_limit
  unfolding charge_on
  evaluate_on-bounded c none w h = ground (arith, count-evaluate_on laws r c none w j)
  evaluate_on-bounded c (some key) w h =
      rw (evaluate_on-some laws r c key w, laws.count-consume (consume_params laws r c key) w j)
        (ground (arith, list_beq_iff (slot_of r key c.now) j))

  after-bounded :
      (cs : List PolicyContext) (w : W)
      → count w j ≤ r.counted_limit
      → count (after cs w) j ≤ r.counted_limit
  unfolding after evaluate
  after-bounded [] w h = h
  after-bounded (c ∷ cs) w h =
      after-bounded cs (evaluate s r c w).1
        (evaluate_on-bounded c (key_for r (subject_fields c)) w h)

module _ {W : Type 0} {s : QuotaStore W} (laws : QuotaStoreLaws s) where
  open laws use {count}

  -- A spend cap holds in wei, not only in what is counted: of all the requests that the rule is asked
  -- for, in whatever order, those approved on one counter that began at zero have a worst-case cost
  -- of at most the configured limit together.
  pub spend_cap_holds :
      (o : QuotaRuleOptions) (r : QuotaRule) (j : Text) (cs : List PolicyContext) (w : W)
      → o.unit ≡ wei
      → new_quota_rule o ≡ some r
      → count w j ≡ 0
      → approved_cost laws r j cs w ≤ o.limit
  unfolding new_quota_rule
  spend_cap_holds o r j cs w in_wei made empty =
      ground (arith, approved_cost-count laws r j (ground arith) cs w, after-bounded laws r j cs w)

  module _ (r : QuotaRule) (u : SpendTrueUp) (key : Text) where
    abbrev over_reserved : ℕ
    over_reserved = ceil_div_gwei u.reserved_max_cost_wei - ceil_div_gwei u.actual_cost_wei

    abbrev refund_params : QuotaReleaseParams
    refund_params = record {
      key = key;
      amount = over_reserved;
      window_seconds = r.window_seconds;
      now = u.reserved_at;
    }

    refund-ok :
        (n : ℕ) (x : Result Text (Unit {0}) × W)
        → x.0 ≡ ok tt
        → granted_refund n x ≡ (ok (n * wei_per_gwei), x.1)
    unfolding granted_refund
    refund-ok n (ok _, w) h = refl
    refund-ok n (err m, w) h = cc

    pub true_up_on-some :
        (v : W) (j : Text)
        → (count (true_up_on s r wei (some key) u v).1 j
            ≡ (if slot_of r key u.reserved_at == j then count v j - over_reserved else count v j))
          × ((true_up_on s r wei (some key) u v).0 ≡ ok (over_reserved * wei_per_gwei))
    unfolding true_up_on
    true_up_on-some v j =
        elim (Bool-cases
          (leb (ceil_div_gwei u.reserved_max_cost_wei) (ceil_div_gwei u.actual_cost_wei))) [
            | inl less ↦ rw less (ground arith, ground arith)
            | inr more ↦
                rw
                  (
                    more,
                    refund-ok over_reserved (s.release refund_params v) (laws.release_returns _ v),
                  )
                  (laws.count-release refund_params v j, refl)
          ]

  module _ (r : QuotaRule) (c : PolicyContext) (u : SpendTrueUp) (key : Text) where
    -- A reservation that is trued up to the real cost has charged, in the end, the real cost rounded
    -- up to a gwei, on the counter that it reserved on and on no other; the refund is the difference.
    pub true_up-evaluate :
        (w : W) (j : Text)
        → r.unit ≡ wei
        → key_for r (subject_fields c) ≡ some key
        → key_for r (true_up_fields u) ≡ some key
        → u.reserved_max_cost_wei ≡ c.max_cost
        → u.reserved_at ≡ c.now
        → u.actual_cost_wei ≤ c.max_cost
        → (evaluate s r c w).0 ≡ ok allow
        → (count (true_up s r u (evaluate s r c w).1).1 j
            ≡ count w j + (if slot_of r key c.now == j then ceil_div_gwei u.actual_cost_wei else 0))
          × ((true_up s r u (evaluate s r c w).1).0
              ≡ ok ((ceil_div_gwei c.max_cost - ceil_div_gwei u.actual_cost_wei) * wei_per_gwei))
    true_up-evaluate w j in_wei k k' cost at le h =
        let v = (evaluate_on s r (some key) c w).1 in
        let e : evaluate s r c w ≡ evaluate_on s r (some key) c w =
          unfold evaluate in λ i. evaluate_on s r (k i) c w in
        let t : true_up s r u v ≡ true_up_on s r wei (some key) u v =
          unfold true_up in λ i. true_up_on s r (in_wei i) (k' i) u v in
        let (counted, refund) = true_up_on-some r u key v j in
        let charged = count-evaluate_on laws r c (some key) w j in
        let granted_too : (evaluate_on s r (some key) c w).0 ≡ ok allow =
          ap (λ x. x.0) (sym e) ∙ h in
        let amount : amount_for r c ≡ ceil_div_gwei c.max_cost =
          unfold amount_for ceil_div_gwei in λ i. amount_in (in_wei i) c.max_cost in
        rw (e, t) (unfold charge_on ceil_div_gwei in ground arith, refund ∙ rw cost)
