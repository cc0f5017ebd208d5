-- ===== src/Sponsor/Service/Compensation.antt =====
-- A sponsorship of backend/src/api/sponsor/sponsor.service.ts that fails costs its caller nothing.
use paymaster.Common.{ℕ, ◌≡◌, refl, ap, sym, ◌∙◌}
use paymaster.Common.Results.{Result, ok, err, and_then, and_then-elim}
use paymaster.Common.Text.{Text}
use paymaster.Fault.{Fault}
use paymaster.Policy.Engine.{Engine, evaluate, release_reservations}
use paymaster.Policy.Engine.Compensation.{AllCompensate, denied_restores}
use paymaster.Policy.Engine.Refund.{release_undoes_approval}
use paymaster.Sponsor.Request.{SponsorRequest}
use paymaster.Sponsor.Ports.{SponsorServiceDeps, CallerIdentity, State, Quote, SponsorResponse}
use paymaster.Sponsor.Service.{
  quote_of, check_subscription, check_balance, check_policy, context_of, issue, compensate,
  authorised, sponsor, count_outcome,
}
use paymaster.Sponsor.Service.Stages.{
  check_subscription-Untouched, check_balance-Untouched, check_policy-engine, check_policy-ok,
  check_policy-err, issue-engine,
}

module _ {W : Type 0} (count : W → Text → ℕ) (d : SponsorServiceDeps W) (r : SponsorRequest)
    (caller : CallerIdentity) (j : Text) where
  at : State W → ℕ
  at s = count s.engine.world j

  -- If it throws, the counter stands at `n`.
  Restored : ℕ → Result Fault SponsorResponse × State W → Type 0
  unfolding at
  Restored n x = (e : Fault) → x.0 ≡ err e → at x.1 ≡ n

  compensate-Restored :
      (q : Quote W) (x : Result Fault SponsorResponse × State W) (n : ℕ)
      → count (release_reservations q.policy (context_of d r caller q) x.1.engine).world j ≡ n
      → Restored n (compensate d r caller q x)
  unfolding compensate Restored at count_outcome
  compensate-Restored q (ok response, s) n h e p = cc
  compensate-Restored q (err f, s) n h e p = h

  module _ (q : Quote W) (h : AllCompensate count (context_of d r caller q) q.policy.rules) where
    issue-Restored :
        (s : State W)
        → (check_policy d r caller q s).0 ≡ ok tt
        → Restored
            (count s.engine.world j)
            (compensate d r caller q (issue d r caller q (check_policy d r caller q s).1))
    issue-Restored s passed =
        let c = context_of d r caller q in
        let t = (check_policy d r caller q s).1 in
        let same : (issue d r caller q t).1.engine ≡ (evaluate q.policy c s.engine).1 =
          issue-engine d r caller q t ∙ check_policy-engine d r caller q s in
        compensate-Restored q (issue d r caller q t) (count s.engine.world j) (
          ap (λ (e : Engine W). count (release_reservations q.policy c e).world j) same
          ∙ release_undoes_approval count c q.policy s.engine j h
              (check_policy-ok d r caller q s passed))

    policy-Restored :
        (s : State W)
        → Restored (count s.engine.world j) (
            and_then
              (check_policy d r caller q s)
              (λ _ t. compensate d r caller q (issue d r caller q t)))
    policy-Restored s =
        and_then-elim (Restored (count s.engine.world j)) (check_policy d r caller q s) _
          (λ e refused.
            unfold Restored at in
            λ f p.
              ap (λ (x : Engine W). count x.world j) (check_policy-engine d r caller q s)
              ∙ denied_restores count (context_of d r caller q) q.policy s.engine j h
                  (check_policy-err d r caller q s refused))
          (λ u passed. issue-Restored s passed)

    balance-Restored :
        (s : State W)
        → Restored (count s.engine.world j) (
            and_then (check_balance d r caller q s) (λ _ s₂.
              and_then
                (check_policy d r caller q s₂)
                (λ _ t. compensate d r caller q (issue d r caller q t))))
    unfolding Restored at
    balance-Restored s =
        let same : count (check_balance d r caller q s).1.engine.world j ≡ count s.engine.world j =
          ap (λ (x : Engine W). count x.world j) (check_balance-Untouched d r caller q s).engine in
        and_then-elim (Restored (count s.engine.world j)) (check_balance d r caller q s) _
          (λ e threw f p. same)
          (λ v passed f p. policy-Restored (check_balance d r caller q s).1 f p ∙ same)

    authorised-Restored :
        (s : State W) → Restored (count s.engine.world j) (authorised d r caller q s)
    unfolding authorised Restored at
    authorised-Restored s =
        let same : count (check_subscription d r caller s).1.engine.world j
            ≡ count s.engine.world j =
          ap (λ (x : Engine W). count x.world j)
            (check_subscription-Untouched d r caller s).engine in
        and_then-elim (Restored (count s.engine.world j)) (check_subscription d r caller s) _
          (λ e threw f p. same)
          (λ u passed f p. balance-Restored (check_subscription d r caller s).1 f p ∙ same)

  -- A sponsorship that is refused, or that fails at any point, leaves every quota counter where it
  -- was: where the rules of the policy that it is asked under compensate, an error means that nothing
  -- stays charged.
  pub sponsor_restores :
      (s t : State W) (e : Fault)
      → ((q : Quote W)
          → quote_of d r caller ≡ ok q
          → AllCompensate count (context_of d r caller q) q.policy.rules)
      → sponsor d r caller s ≡ (err e, t)
      → count t.engine.world j ≡ count s.engine.world j
  unfolding sponsor
  sponsor_restores s t e h p =
      let n = count s.engine.world j in
      let restored : Restored n (sponsor d r caller s) =
        and_then-elim (Restored n) (quote_of d r caller, s) (authorised d r caller)
          (λ f threw. unfold Restored at in λ g x. refl)
          (λ q quoted. authorised-Restored q (h q quoted) s) in
      ap (λ (x : Result Fault SponsorResponse × State W). count x.1.engine.world j) (sym p)
      ∙ (unfold Restored at in restored e (ap (λ x. x.0) p))
