-- ===== src/Auth/TenantSession.antt =====
-- backend/src/auth/tenantSession.ts: a verified person's session in one tenant. The identity provider is a
-- parameter, none being a token that it does not verify; so are the token's signing and the port that
-- gives a new tenant its policy, which works on a world of its own.
pub mod Bound
use paymaster.Common.{
  ℕ, ◌+◌, Bool, true, false, Option, none, some, List, [], ◌∷◌, length, if◌then◌else◌,
}
use paymaster.Common.Results.{Result, ok, err, ◌>>=◌, and_then}
use paymaster.Common.Text.{Text}
use paymaster.Auth.Permissions.{Role, tenant_admin, viewer}
use paymaster.Auth.Jwt.{JwtClaims}
use paymaster.Auth.Tenants.{
  TenantRole, owner, admin, member, TenantStatus, active, suspended, Membership, Tenant, Tenants,
  Thrown, tenant_id, memberships_for, membership, create_with_owner,
}

pub data SessionFailure : Type 0 where
  invalid_identity no_membership not_a_member tenant_suspended signup_disabled : SessionFailure
  ambiguous_tenant : List Membership → SessionFailure

pub record Session : Type 0 where
  pub token : Text
  pub expires_at : ℕ
  pub subject : Text
  pub membership : Membership

-- A failure is a result that is returned; what is thrown is the error around it.
pub data SessionResult : Type 0 where
  session : Session → SessionResult
  failed : SessionFailure → SessionResult

unfoldable pub roles_for : TenantRole → List Role
roles_for owner = tenant_admin ∷ []
roles_for admin = tenant_admin ∷ []
roles_for member = viewer ∷ []

-- The claims of a session: of the person, and of no policy.
abbrev pub claims_for : Text → Membership → JwtClaims
claims_for subject m = record {
  sub = subject;
  tenant_id = m.tenant.id;
  name = m.tenant.name;
  roles = roles_for m.role;
  policy_id = none;
}

module _ (identity_of : Text → Option Text) (sign : JwtClaims → ℕ → Text × ℕ) where
  abbrev pub mint : Text → Membership → ℕ → SessionResult
  mint subject m now = session (record {
    token = (sign (claims_for subject m) now).0;
    expires_at = (sign (claims_for subject m) now).1;
    subject = subject;
    membership = m;
  })

  -- `membershipsFor`; none is a token that the provider does not verify.
  unfoldable pub memberships_of : Text → Tenants → Result Thrown (Option (Text × List Membership))
  memberships_of token db = elim (identity_of token) [
    | none ↦ ok none
    | some subject ↦ memberships_for subject db >>= λ list. ok (some (subject, list))
  ]

  unless_suspended : Text → Membership → ℕ → TenantStatus → SessionResult
  unless_suspended subject m now suspended = failed tenant_suspended
  unless_suspended subject m now active = mint subject m now

  requested_one : Text → ℕ → Option Membership → SessionResult
  unfolding unless_suspended
  requested_one subject now none = failed not_a_member
  requested_one subject now (some m) = unless_suspended subject m now m.tenant.status

  only_one : Text → ℕ → List Membership → SessionResult
  unfolding unless_suspended
  only_one subject now [] = failed no_membership
  only_one subject now (m ∷ []) = unless_suspended subject m now m.tenant.status
  only_one subject now (m ∷ other ∷ list) = failed (ambiguous_tenant (m ∷ other ∷ list))

  unfoldable pub issue_to : Text → Option Text → ℕ → Tenants → Result Thrown SessionResult
  unfolding requested_one only_one
  issue_to subject (some requested) now db = do
    id ← tenant_id requested
    found ← membership subject id db
    ok (requested_one subject now found)
  issue_to subject none now db = do
    list ← memberships_for subject db
    ok (only_one subject now list)

  unfoldable pub issue : Text → Option Text → ℕ → Tenants → Result Thrown SessionResult
  unfolding issue_to
  issue token requested now db = elim (identity_of token) [
    | none ↦ ok (failed invalid_identity)
    | some subject ↦ issue_to subject requested now db
  ]

  module _ {W : Type 0} (allow_self_signup : Bool)
      (provision : Text → W → Result Thrown (Unit {0}) × W) where
    -- After the tenant is there: its policy, and then the session; a policy that fails is thrown.
    provisioned :
        Text
        → ℕ
        → Tenant
        → Tenants
        → Result Thrown (Unit {0}) × W
        → Result Thrown SessionResult × Tenants × W
    provisioned subject now t db (err e, w) = (err e, db, w)
    provisioned subject now t db (ok _, w) =
        (ok (mint subject (record { tenant = t; role = owner }) now), db, w)

    created :
        Text → ℕ → W → Result Thrown Tenant × Tenants → Result Thrown SessionResult × Tenants × W
    unfolding provisioned
    created subject now w (err e, db) = (err e, db, w)
    created subject now w (ok t, db) = provisioned subject now t db (provision t.id w)

    -- `new_id` is the id that is generated.
    sign_up_with : Text → Text → Text → ℕ → Tenants × W → Result Thrown SessionResult × Tenants × W
    unfolding created
    sign_up_with subject name new_id now s = elim (tenant_id new_id) [
      | err e ↦ (err e, s.0, s.1)
      | ok id ↦ created subject now s.1 (create_with_owner id name subject now s.0)
    ]

    unfoldable pub sign_up :
        Text → Text → Text → ℕ → Tenants × W → Result Thrown SessionResult × Tenants × W
    unfolding sign_up_with
    sign_up token name new_id now s =
        if allow_self_signup
        then elim (identity_of token) [
          | none ↦ (ok (failed invalid_identity), s.0, s.1)
          | some subject ↦ sign_up_with subject name new_id now s
        ]
        else (ok (failed signup_disabled), s.0, s.1)
