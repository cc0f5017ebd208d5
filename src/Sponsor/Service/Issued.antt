-- ===== src/Sponsor/Service/Issued.antt =====
-- What stands behind every response of backend/src/api/sponsor/sponsor.service.ts.
use paymaster.Common.{◌≡◌, refl, ap, sym, ◌∙◌, true, Option, some, [], ◌∷◌, ◌++◌, nat_eq}
use paymaster.Common.Results.{Result, ok, err, and_then-eq-ok, >>=-eq-ok}
use paymaster.Common.Text.{Text}
use paymaster.Fault.{Fault}
use paymaster.Billing.Subscription.{
  Subscription, SubscriptionServiceOptions, SubscriptionStatus, status_of,
}
use paymaster.Chain.Balance
use paymaster.Policy.Context.{allow}
use paymaster.Policy.Engine.{evaluate}
use paymaster.Signature.Codec.{paymaster_data_offset, or_hex_error}
use paymaster.Signature.Engine.{SponsorshipAttestation, attest}
use paymaster.Sponsor.Request.{SponsorRequest}
use paymaster.Sponsor.Ports.{
  SponsorServiceDeps, CallerIdentity, State, Quote, SponsorResponse, Sponsorship,
}
use paymaster.Sponsor.Service.{
  quote_of, check_subscription, check_balance, check_policy, context_of, attestation_request,
  row_of, response_of, recorded_row, record_with, hand_out, issue, compensate, authorised, sponsor,
  count_outcome,
}
use paymaster.Sponsor.Service.Stages.{
  check_subscription-Untouched, check_subscription-ok, check_balance-Untouched, check_policy-engine,
  check_policy-recorded, check_policy-ok, issue-engine,
}

module _ {W : Type 0} (d : SponsorServiceDeps W) (r : SponsorRequest)
    (caller : CallerIdentity) where
  -- What a response of a sponsorship from `s` to `t` rests on.
  pub record Grounds (s t : State W) (response : SponsorResponse) : Type 0 where
    pub quote : Quote W
    pub attestation : SponsorshipAttestation
    pub quoted : quote_of d r caller ≡ ok quote
    pub permitted :
        (o : SubscriptionServiceOptions) (repository : Text → Result Fault (Option Subscription))
        → d.subscriptions ≡ some (o, repository)
        → (status : SubscriptionStatus) × ((status_of repository o caller.tenant_id d.now d.now_ms
              s.subscriptions).0
            ≡ ok status)
          × (status.allows_sponsorship ≡ true)
    pub approved : (evaluate quote.policy (context_of d r caller quote) s.engine).0.decision ≡ allow
    pub charged : t.engine ≡ (evaluate quote.policy (context_of d r caller quote) s.engine).1
    pub attested :
        attest d.viem d.hash_typed_data d.signer (attestation_request d r caller quote)
        ≡ ok attestation
    pub handed_out : response.paymaster_and_data ≡ attestation.paymaster_and_data
    pub recorded :
        (port : Sponsorship → Result Fault (Unit {0}))
        → d.sponsorships ≡ some port
        → t.recorded ≡ s.recorded ++ row_of d r caller quote attestation ∷ []

  written-ok :
      (row : Sponsorship) (x : Result Fault (Unit {0})) (s : State W) {u : Unit}
      → (recorded_row d r caller row x s).0 ≡ ok u
      → (recorded_row d r caller row x s).1.recorded ≡ s.recorded ++ row ∷ []
  unfolding recorded_row
  written-ok row (err e) s h = cc
  written-ok row (ok _) s h = refl

  record_with-ok :
      (row : Sponsorship) (s : State W) (port : Sponsorship → Result Fault (Unit {0})) {u : Unit}
      → d.sponsorships ≡ some port
      → (record_with d r caller d.sponsorships row s).0 ≡ ok u
      → (record_with d r caller d.sponsorships row s).1.recorded ≡ s.recorded ++ row ∷ []
  unfolding record_with
  record_with-ok row s port e h =
      ap (λ o. (record_with d r caller o row s).1.recorded) e
      ∙ written-ok row (port row) s (ap (λ o. (record_with d r caller o row s).0) (sym e) ∙ h)

  hand_out-ok :
      (q : Quote W) (a : SponsorshipAttestation) (s t : State W) (response : SponsorResponse)
      → hand_out d r caller q a s ≡ (ok response, t)
      → (response.paymaster_and_data ≡ a.paymaster_and_data)
        × ((port : Sponsorship → Result Fault (Unit {0}))
            → d.sponsorships ≡ some port
            → t.recorded ≡ s.recorded ++ row_of d r caller q a ∷ [])
  unfolding hand_out response_of count_outcome
  hand_out-ok q a s t response e =
      let fresh = record s {
        balances = Balance.invalidate r.chain_id caller.tenant_id s.balances;
      } in
      let written = record_with d r caller d.sponsorships (row_of d r caller q a) fresh in
      let (u, wrote, rest) = and_then-eq-ok written _ e in
      let (tail, cut, same) =
        >>=-eq-ok (or_hex_error (d.viem.slice_from a.paymaster_and_data paymaster_data_offset))
          (λ tail. ok (response_of d r caller q a tail)) (ap (λ x. x.0) rest) in
      (
        ap paymaster_and_data_in (sym same),
        λ port e.
            ap (λ (x : Result Fault SponsorResponse × State W). x.1.recorded) (sym rest)
            ∙ record_with-ok (row_of d r caller q a) fresh port e wrote,
      )
    where
      paymaster_and_data_in : Result Fault SponsorResponse → Text
      paymaster_and_data_in (ok x) = x.paymaster_and_data
      paymaster_and_data_in (err e) = a.paymaster_and_data

  compensate-ok :
      (q : Quote W) (x : Result Fault SponsorResponse × State W) {response : SponsorResponse}
      {t : State W}
      → compensate d r caller q x ≡ (ok response, t)
      → x ≡ (ok response, t)
  unfolding compensate
  compensate-ok q (ok response, s) e = e
  compensate-ok q (err f, s) e = absurd (cc (ap (λ x. x.0) e))

  -- A response is only ever given on these grounds: the chain and the policy were found, the policy
  -- among the caller's own; the caller's subscription, where subscriptions are sold, permits it; the
  -- policy approved, and its charges stand; the bytes are the attestation of exactly this request;
  -- and, where there is a recorder, exactly one row, of this attestation and this
  -- cost, was recorded.
  pub issued_lem :
      (s t : State W) (response : SponsorResponse)
      → sponsor d r caller s ≡ (ok response, t)
      → Grounds s t response
  unfolding sponsor authorised issue
  issued_lem s t response e =
      let (q, quoted, e₁) = and_then-eq-ok (quote_of d r caller, s) _ e in
      let (_, permitted, e₂) = and_then-eq-ok (check_subscription d r caller s) _ e₁ in
      let s₁ = (check_subscription d r caller s).1 in
      let (_, funded, e₃) = and_then-eq-ok (check_balance d r caller q s₁) _ e₂ in
      let s₂ = (check_balance d r caller q s₁).1 in
      let (_, passed, e₄) = and_then-eq-ok (check_policy d r caller q s₂) _ e₃ in
      let s₃ = (check_policy d r caller q s₂).1 in
      let e₅ = compensate-ok q (issue d r caller q s₃) e₄ in
      let (a, attested, e₆) =
        and_then-eq-ok
          (attest d.viem d.hash_typed_data d.signer (attestation_request d r caller q), s₃)
          (hand_out d r caller q) e₅ in
      let u₁ = check_subscription-Untouched d r caller s in
      let u₂ = check_balance-Untouched d r caller q s₁ in
      let engine : s₂.engine ≡ s.engine = u₂.engine ∙ u₁.engine in
      let (bytes, rows) = hand_out-ok q a s₃ t response e₆ in
      record {
        quote = q;
        attestation = a;
        quoted = quoted;
        permitted =
            λ o repository sold. check_subscription-ok d r caller s o repository sold permitted;
        approved =
            ap (λ x. (evaluate q.policy (context_of d r caller q) x).0.decision) (sym engine)
            ∙ check_policy-ok d r caller q s₂ passed;
        charged =
            ap (λ (x : Result Fault SponsorResponse × State W). x.1.engine) (sym e₅)
            ∙ issue-engine d r caller q s₃
            ∙ check_policy-engine d r caller q s₂
            ∙ ap (λ x. (evaluate q.policy (context_of d r caller q) x).1) engine;
        attested = attested;
        handed_out = bytes;
        recorded = λ port e.
            rows port e
            ∙ ap (λ l. l ++ row_of d r caller q a ∷ [])
                (check_policy-recorded d r caller q s₂ ∙ u₂.recorded ∙ u₁.recorded);
      }
