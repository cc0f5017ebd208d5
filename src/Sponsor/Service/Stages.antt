-- ===== src/Sponsor/Service/Stages.antt =====
-- What each step of backend/src/api/sponsor/sponsor.service.ts leaves alone.
use paymaster.Common.{
  ℕ, ◌≡◌, refl, ap, sym, ◌∙◌, true, Option, none, some, ltb, Bool-cases, inl, inr, arith,
}
use paymaster.Common.Results.{Result, ok, err, and_then-elim}
use paymaster.Common.Text.{Text}
use paymaster.Fault.{Fault}
use paymaster.Policy.Context.{PolicyDecision, allow, deny}
use paymaster.Policy.Engine.{evaluate}
use paymaster.Signature.Layout.{PaymasterKind}
use paymaster.Signature.Engine.{SponsorshipAttestation, attest}
use paymaster.Sponsor.Request.{SponsorRequest}
use paymaster.Billing.Subscription.{
  Subscription, SubscriptionServiceOptions, SubscriptionStatus, status_of,
}
use paymaster.Billing.Subscription
use paymaster.Chain.Balance.{Balances}
use paymaster.Sponsor.Ports.{
  SponsorServiceDeps, CallerIdentity, State, Quote, SponsorResponse, Sponsorship,
}
use paymaster.Sponsor.Service.{
  check_subscription, check_subscription_of, judge_subscription, check_balance, check_balance_of,
  judge_balance, check_policy, judge_policy, context_of, recorded_row, record_with, hand_out, issue,
  count_outcome, attestation_request,
}

-- The engine and the rows are as they were.
pub record Untouched {W : Type 0} (s t : State W) : Type 0 where
  pub engine : t.engine ≡ s.engine
  pub recorded : t.recorded ≡ s.recorded

module _ {W : Type 0} (d : SponsorServiceDeps W) (r : SponsorRequest)
    (caller : CallerIdentity) where
  judge_subscription-Untouched :
      (s : State W) (x : Result Fault SubscriptionStatus × Subscription.Cache)
      → Untouched s (judge_subscription d r caller s x).1
  unfolding judge_subscription count_outcome
  judge_subscription-Untouched s (err e, cache) = record { engine = refl; recorded = refl }
  judge_subscription-Untouched s (ok status, cache) = elim (Bool-cases status.allows_sponsorship) [
    | inl e ↦ rw e (record { engine = refl; recorded = refl })
    | inr e ↦ rw e (record { engine = refl; recorded = refl })
  ]

  check_subscription_of-Untouched :
      (o : Option (SubscriptionServiceOptions × (Text → Result Fault (Option Subscription))))
      (s : State W)
      → Untouched s (check_subscription_of d r caller o s).1
  unfolding check_subscription_of
  check_subscription_of-Untouched none s = record { engine = refl; recorded = refl }
  check_subscription_of-Untouched (some (o, repository)) s = judge_subscription-Untouched s _

  pub check_subscription-Untouched : (s : State W) → Untouched s (check_subscription d r caller s).1
  unfolding check_subscription
  check_subscription-Untouched s = check_subscription_of-Untouched d.subscriptions s

  judge_subscription-ok :
      (s : State W) (x : Result Fault SubscriptionStatus × Subscription.Cache) {u : Unit}
      → (judge_subscription d r caller s x).0 ≡ ok u
      → (status : SubscriptionStatus) × (x.0 ≡ ok status) × (status.allows_sponsorship ≡ true)
  unfolding judge_subscription
  judge_subscription-ok s (err e, cache) h = cc
  judge_subscription-ok s (ok status, cache) h = (status, refl, ground arith)

  -- Where subscriptions are sold, going on means that the caller's permits sponsorship.
  pub check_subscription-ok :
      (s : State W) (o : SubscriptionServiceOptions)
      (repository : Text → Result Fault (Option Subscription)) {u : Unit}
      → d.subscriptions ≡ some (o, repository)
      → (check_subscription d r caller s).0 ≡ ok u
      → (status : SubscriptionStatus) × ((status_of repository o caller.tenant_id d.now d.now_ms
            s.subscriptions).0
          ≡ ok status)
        × (status.allows_sponsorship ≡ true)
  unfolding check_subscription check_subscription_of
  check_subscription-ok s o repository sold h =
      judge_subscription-ok s
        (status_of repository o caller.tenant_id d.now d.now_ms s.subscriptions)
        (ap (λ x. (check_subscription_of d r caller x s).0) (sym sold) ∙ h)

  judge_balance-Untouched :
      (max_cost : ℕ) (s : State W) (x : Result Fault ℕ × Balances)
      → Untouched s (judge_balance d r caller max_cost s x).1
  unfolding judge_balance count_outcome
  judge_balance-Untouched max_cost s (err e, cache) = record { engine = refl; recorded = refl }
  judge_balance-Untouched max_cost s (ok balance, cache) =
      elim (Bool-cases (ltb balance max_cost)) [
        | inl e ↦ rw e (record { engine = refl; recorded = refl })
        | inr e ↦ rw e (record { engine = refl; recorded = refl })
      ]

  check_balance_of-Untouched :
      (kind : PaymasterKind) (reader : Option (ℕ × (ℕ → Text → Result Fault ℕ))) (max_cost : ℕ)
      (s : State W)
      → Untouched s (check_balance_of d r caller kind reader max_cost s).1
  unfolding check_balance_of
  check_balance_of-Untouched PaymasterKind.verifying reader max_cost s = record {
    engine = refl;
    recorded = refl;
  }
  check_balance_of-Untouched PaymasterKind.tenant none max_cost s = record {
    engine = refl;
    recorded = refl;
  }
  check_balance_of-Untouched PaymasterKind.tenant (some (ttl, read)) max_cost s =
      judge_balance-Untouched max_cost s _

  pub check_balance-Untouched :
      (q : Quote W) (s : State W) → Untouched s (check_balance d r caller q s).1
  unfolding check_balance
  check_balance-Untouched q s =
      check_balance_of-Untouched q.chain.paymaster_kind d.tenant_balances q.max_cost s

  judge_policy-engine :
      (x : PolicyDecision) (s : State W) → (judge_policy d r caller x s).1.engine ≡ s.engine
  unfolding judge_policy count_outcome
  judge_policy-engine allow s = refl
  judge_policy-engine (deny n k) s = refl

  judge_policy-recorded :
      (x : PolicyDecision) (s : State W) → (judge_policy d r caller x s).1.recorded ≡ s.recorded
  unfolding judge_policy count_outcome
  judge_policy-recorded allow s = refl
  judge_policy-recorded (deny n k) s = refl

  -- The policy's check is the engine's evaluation.
  pub check_policy-engine :
      (q : Quote W) (s : State W)
      → (check_policy d r caller q s).1.engine
        ≡ (evaluate q.policy (context_of d r caller q) s.engine).1
  unfolding check_policy
  check_policy-engine q s =
      judge_policy-engine (evaluate q.policy (context_of d r caller q) s.engine).0.decision _

  pub check_policy-recorded :
      (q : Quote W) (s : State W) → (check_policy d r caller q s).1.recorded ≡ s.recorded
  unfolding check_policy
  check_policy-recorded q s =
      judge_policy-recorded (evaluate q.policy (context_of d r caller q) s.engine).0.decision _

  judge-ok :
      (x : PolicyDecision) (s : State W) {u : Unit}
      → (judge_policy d r caller x s).0 ≡ ok u
      → x ≡ allow
  unfolding judge_policy
  judge-ok allow s e = refl
  judge-ok (deny n k) s e = cc

  judge-err :
      (x : PolicyDecision) (s : State W) {f : Fault}
      → (judge_policy d r caller x s).0 ≡ err f
      → x ≡ allow
      → ⊥
  unfolding judge_policy
  judge-err allow s e a = cc
  judge-err (deny n k) s e a = cc

  pub check_policy-ok :
      (q : Quote W) (s : State W) {u : Unit}
      → (check_policy d r caller q s).0 ≡ ok u
      → (evaluate q.policy (context_of d r caller q) s.engine).0.decision ≡ allow
  unfolding check_policy
  check_policy-ok q s e = judge-ok _ _ e

  pub check_policy-err :
      (q : Quote W) (s : State W) {f : Fault}
      → (check_policy d r caller q s).0 ≡ err f
      → (evaluate q.policy (context_of d r caller q) s.engine).0.decision ≡ allow
      → ⊥
  unfolding check_policy
  check_policy-err q s e = judge-err _ _ e

  recorded_row-engine :
      (row : Sponsorship) (x : Result Fault (Unit {0})) (s : State W)
      → (recorded_row d r caller row x s).1.engine ≡ s.engine
  unfolding recorded_row
  recorded_row-engine row (ok _) s = refl
  recorded_row-engine row (err e) s = refl

  record_with-engine :
      (o : Option (Sponsorship → Result Fault (Unit {0}))) (row : Sponsorship) (s : State W)
      → (record_with d r caller o row s).1.engine ≡ s.engine
  unfolding record_with
  record_with-engine none row s = refl
  record_with-engine (some port) row s = recorded_row-engine row (port row) s

  hand_out-engine :
      (q : Quote W) (a : SponsorshipAttestation) (s : State W)
      → (hand_out d r caller q a s).1.engine ≡ s.engine
  unfolding hand_out count_outcome
  hand_out-engine q a s =
      and_then-elim (λ (x : Result Fault SponsorResponse × State W). x.1.engine ≡ s.engine)
        (record_with d r caller d.sponsorships _ _) _ (λ e h. record_with-engine d.sponsorships _ _)
        (λ u h. record_with-engine d.sponsorships _ _)

  -- Attesting and recording do not touch the engine.
  pub issue-engine : (q : Quote W) (s : State W) → (issue d r caller q s).1.engine ≡ s.engine
  unfolding issue
  issue-engine q s =
      and_then-elim (λ (x : Result Fault SponsorResponse × State W). x.1.engine ≡ s.engine)
        (attest d.viem d.hash_typed_data d.signer (attestation_request d r caller q), s)
        (hand_out d r caller q) (λ e h. refl) (λ a h. hand_out-engine q a s)
