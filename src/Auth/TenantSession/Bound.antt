-- ===== src/Auth/TenantSession/Bound.antt =====
-- What stands behind a session of backend/src/auth/tenantSession.ts.
use paymaster.Common.{
  ℕ, ◌+◌, ◌≡◌, ◌<◌, ◌≤◌, refl, ap, sym, ◌∙◌, false, Option, none, some, List, [], ◌∷◌, list_eq,
  nat_eq, Bool-cases, Option-cases, subst, inl, inr, ◌⊎◌,
}
use paymaster.Common.Results.{Result, ok, >>=-eq-ok}
use paymaster.Common.Text.{Text}
use paymaster.Auth.Scope.{is_tenant_id}
use paymaster.Auth.Permissions.{
  Permission, permissions_for, permissions_of, grants, sponsor_create, platform_read, billing_write,
}
use paymaster.Auth.Jwt.{
  JwtClaims, JwtOptions, Object, jwt_header, payload_of, signing_input, sign, verify,
}
use paymaster.Auth.Jwt.Issued.{Encodes, HasNoDot, verify-sign}
use paymaster.Auth.Tenants.{
  TenantRole, owner, admin, member, TenantStatus, active, suspended, Membership, Tenants, tenant_id,
  Thrown, memberships_for, membership,
}
use paymaster.Auth.Tenants.Recorded.{
  IsMembership, memberships_for-IsMembership, membership-IsMembership, to_membership-id,
}
use paymaster.Auth.TenantSession.{
  Session, SessionResult, session, roles_for, claims_for, unless_suspended, requested_one, only_one,
  issue_to, issue,
}

-- A session of this membership, which is minted at this time, of a tenant that is not suspended.
record IsMinted (sign : JwtClaims → ℕ → Text × ℕ) (now : ℕ) (subject : Text) (m : Membership)
    (s : Session) : Type 0 where
  same_subject : s.subject ≡ subject
  same_membership : s.membership ≡ m
  signed : s.token ≡ (sign (claims_for subject m) now).0
  is_active : m.tenant.status ≡ active

-- The tenant that was asked for, if one was.
abbrev pub IsRequested : Option Text → Membership → Type 0
IsRequested none m = Unit {0}
IsRequested (some id) m = m.tenant.id ≡ id

tenant_id-ok : (asked id : Text) → tenant_id asked ≡ ok id → id ≡ asked
unfolding tenant_id
tenant_id-ok asked id h = elim (Bool-cases (is_tenant_id asked)) [
  | inl valid ↦ cc (rw valid at h)
  | inr invalid ↦ absurd (cc (rw invalid at h))
]

module _ (identity_of : Text → Option Text) (sign : JwtClaims → ℕ → Text × ℕ) where
  session_injective : {s t : Session} → session s ≡ session t → s ≡ t
  session_injective h = cc

  unless_suspended-IsMinted :
      (subject : Text) (m : Membership) (now : ℕ) (status : TenantStatus) (s : Session)
      → m.tenant.status ≡ status
      → unless_suspended identity_of sign subject m now status ≡ session s
      → IsMinted sign now subject m s
  unfolding unless_suspended
  unless_suspended-IsMinted subject m now suspended s h e = cc
  unless_suspended-IsMinted subject m now active s h e =
      let same = sym (session_injective e) in
      record {
        same_subject = ap (λ t. t.subject) same;
        same_membership = ap (λ t. t.membership) same;
        signed = ap (λ t. t.token) same;
        is_active = h;
      }

  -- A session that was issued: the provider names its subject, and the tables record its membership.
  pub record IsIssued (token : Text) (requested : Option Text) (now : ℕ) (db : Tenants)
      (s : Session) : Type 0 where
    pub identified : identity_of token ≡ some s.subject
    pub recorded : IsMembership s.subject db s.membership
    pub requested_tenant : IsRequested requested s.membership
    pub signed : s.token ≡ (sign (claims_for s.subject s.membership) now).0
    pub is_active : s.membership.tenant.status ≡ active

  ok_injective : {x y : SessionResult} → ◌≡◌ {A = Result Thrown SessionResult} (ok x) (ok y) → x ≡ y
  ok_injective h = cc

  minted-IsIssued :
      (token : Text) (requested : Option Text) (now : ℕ) (db : Tenants) (subject : Text)
      (m : Membership) (s : Session)
      → identity_of token ≡ some subject
      → IsMembership subject db m
      → IsRequested requested m
      → IsMinted sign now subject m s
      → IsIssued token requested now db s
  minted-IsIssued token requested now db subject m s who by asked minted =
      let p = sym minted.same_subject in
      let q = sym minted.same_membership in
      record {
        identified = who ∙ ap some p;
        recorded =
            subst (λ x. IsMembership x db s.membership) p (subst (IsMembership subject db) q by);
        requested_tenant = subst (IsRequested requested) q asked;
        signed = minted.signed ∙ (λ i. (sign (claims_for (p i) (q i)) now).0);
        is_active =
            ap (λ (x : Membership). x.tenant.status) minted.same_membership ∙ minted.is_active;
      }

  requested_one-Minted :
      (subject : Text) (now : ℕ) (found : Option Membership) (s : Session)
      → requested_one identity_of sign subject now found ≡ session s
      → (m : Membership) × (found ≡ some m) × IsMinted sign now subject m s
  unfolding requested_one
  requested_one-Minted subject now none s e = cc
  requested_one-Minted subject now (some m) s e =
      (m, refl, unless_suspended-IsMinted subject m now m.tenant.status s refl e)

  only_one-Minted :
      (subject : Text) (now : ℕ) (list : List Membership) (s : Session)
      → only_one identity_of sign subject now list ≡ session s
      → (m : Membership) × (list ≡ m ∷ []) × IsMinted sign now subject m s
  unfolding only_one
  only_one-Minted subject now [] s e = cc
  only_one-Minted subject now (m ∷ []) s e =
      (m, refl, unless_suspended-IsMinted subject m now m.tenant.status s refl e)
  only_one-Minted subject now (m ∷ other ∷ list) s e = cc

  issue_to-IsIssued :
      (token subject : Text) (requested : Option Text) (now : ℕ) (db : Tenants) (s : Session)
      → identity_of token ≡ some subject
      → issue_to identity_of sign subject requested now db ≡ ok (session s)
      → IsIssued token requested now db s
  unfolding issue_to
  issue_to-IsIssued token subject (some asked) now db s who e =
      let (id, checked, e₁) = >>=-eq-ok (tenant_id asked) _ e in
      let (found, read, e₂) = >>=-eq-ok (membership subject id db) _ e₁ in
      let (m, present, minted) = requested_one-Minted subject now found s (ok_injective e₂) in
      let (by, named) = membership-IsMembership subject db id m (read ∙ ap ok present) in
      minted-IsIssued token (some asked) now db subject m s who by
        (named ∙ tenant_id-ok asked id checked) minted
  issue_to-IsIssued token subject none now db s who e =
      let (list, read, e₁) = >>=-eq-ok (memberships_for subject db) _ e in
      let (m, alone, minted) = only_one-Minted subject now list s (ok_injective e₁) in
      let all = memberships_for-IsMembership subject db (m ∷ []) (read ∙ ap ok alone) in
      minted-IsIssued token none now db subject m s who all.0 tt minted

  issue-IsIssued :
      (token : Text) (requested : Option Text) (now : ℕ) (db : Tenants) (s : Session)
      → issue identity_of sign token requested now db ≡ ok (session s)
      → IsIssued token requested now db s
  unfolding issue
  issue-IsIssued token requested now db s e = elim (Option-cases (identity_of token)) [
    | inl nobody ↦ absurd (cc (rw (issue, nobody) at e))
    | inr (subject, who) ↦
        issue_to-IsIssued token subject requested now db s who (rw (issue, who) at e)
  ]

pub role-spends_nothing :
    (r : TenantRole) (p : Permission)
    → (p ≡ sponsor_create) ⊎ ((p ≡ platform_read) ⊎ (p ≡ billing_write))
    → grants (permissions_for (roles_for r)) p ≡ false
unfolding grants permissions_for permissions_of roles_for
role-spends_nothing owner p (inl e) = rw e refl
role-spends_nothing owner p (inr (inl e)) = rw e refl
role-spends_nothing owner p (inr (inr e)) = rw e refl
role-spends_nothing admin p (inl e) = rw e refl
role-spends_nothing admin p (inr (inl e)) = rw e refl
role-spends_nothing admin p (inr (inr e)) = rw e refl
role-spends_nothing member p (inl e) = rw e refl
role-spends_nothing member p (inr (inl e)) = rw e refl
role-spends_nothing member p (inr (inr e)) = rw e refl

-- What a session can do: until it expires its token is accepted, for the person and the tenant of a
-- recorded membership of theirs, and what its roles grant is neither sponsoring, nor reading across
-- tenants, nor the recording of payments.
pub record Acts (hmac : Text → Text) (encode : Object → Text) (decode : Text → Option Object)
    (o : JwtOptions) (identity_of : Text → Option Text) (token : Text) (requested : Option Text)
    (now later : ℕ) (db : Tenants) (s : Session) : Type 0 where
  pub issued : IsIssued identity_of (sign hmac encode decode o) token requested now db s
  pub accepted :
      verify hmac encode decode o s.token later
      ≡ ok (record {
        claims = claims_for s.subject s.membership;
        iat = now;
        exp = now + o.ttl_seconds;
      })
  pub confined :
      (p : Permission)
      → (p ≡ sponsor_create) ⊎ ((p ≡ platform_read) ⊎ (p ≡ billing_write))
      → grants (permissions_for (roles_for s.membership.role)) p ≡ false

-- A session that is issued is for a person whom the provider names, in a tenant that is not suspended,
-- of which the tables record them a member, the one that was asked for if one was; and until it
-- expires its token is accepted with exactly these claims, whose roles grant neither sponsoring, nor
-- reading across tenants, nor the recording of payments. The conditions are on the encodings of the
-- two objects (they are read back, without a dot) and on the digest (it has no dot).
pub issued-Acts :
    (hmac : Text → Text) (encode : Object → Text) (decode : Text → Option Object) (o : JwtOptions)
    (identity_of : Text → Option Text) (token : Text) (requested : Option Text) (now later : ℕ)
    (db : Tenants) (s : Session)
    → issue identity_of (sign hmac encode decode o) token requested now db ≡ ok (session s)
    → Encodes hmac encode decode o jwt_header
    → Encodes hmac encode decode o (payload_of o (claims_for s.subject s.membership) now)
    → HasNoDot (hmac (signing_input hmac encode decode o (claims_for s.subject s.membership) now))
    → later < now + o.ttl_seconds
    → now ≤ later + 60
    → Acts hmac encode decode o identity_of token requested now later db s
issued-Acts hmac encode decode o identity_of token requested now later db s e header payload plain
      live early =
    let issued =
      issue-IsIssued identity_of (sign hmac encode decode o) token requested now db s e in
    let made = issued.recorded in
    let (_, valid) = to_membership-id s.subject db made.row s.membership made.made in
    record {
      issued = issued;
      accepted =
          ap (λ t. verify hmac encode decode o t later) issued.signed
          ∙ verify-sign hmac encode decode o (claims_for s.subject s.membership) now later header
              payload plain valid live early;
      confined = role-spends_nothing s.membership.role;
    }
