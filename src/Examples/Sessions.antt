-- ===== src/Examples/Sessions.antt =====
-- A session of a member, and its token.
use paymaster.Common.{
  refl, Option, none, some, [], ◌∷◌, ◌==◌, list_eq, nat_eq, if◌then◌else◌, arith,
}
use paymaster.Common.JsMap
use paymaster.Common.Text.{Text, text}
use paymaster.Auth.Scope.{is_tenant_id}
use paymaster.Auth.Permissions.{role_named}
use paymaster.Auth.Jwt.{
  JwtOptions, Object, jwt_header, payload_of, sign, verify, check_payload, live_until, roles_of,
  three_parts, is_our_header, split_at,
}
use paymaster.Auth.Jwt.Issued.{Encodes}
use paymaster.Auth.Jwt.Accepted.{IsSigned, verify_lem}
use paymaster.Auth.Tenants.{
  Tenants, Membership, active, member, memberships_for, joined, tenant_row, by_age, to_memberships,
  to_membership, to_tenant, tenant_id,
}
use paymaster.Auth.TenantSession.{Session, issue, issue_to, claims_for, roles_for}
use paymaster.Auth.TenantSession.Bound.{Acts, issued-Acts}

abbrev options : JwtOptions
options = record { issuer = text "paymaster"; audience = text "admin"; ttl_seconds = 900 }

abbrev of_acme : Membership
of_acme = record {
  tenant = record { id = text "acme"; name = text "Acme"; status = active; created_at = 5 };
  role = member;
}

abbrev tables : Tenants
tables = record {
  tenants =
      record { id = text "acme"; name = text "Acme"; status = text "active"; created_at = 5 } ∷ [];
  members = record { tenant_id = text "acme"; subject = text "alice"; role = text "member" } ∷ [];
}

-- An encoding of the two objects of a session: the header and the payload.
abbrev payload : Object
payload = payload_of options (claims_for (text "alice") of_acme) 1000

abbrev encode : Object → Text
encode o = elim (JsMap.get (text "alg") o) [ none ↦ text "p" | some _ ↦ text "h" ]

abbrev decode : Text → Option Object
decode t = if t == text "h" then some jwt_header else some payload

abbrev hmac : Text → Text
hmac s = text "d"

abbrev alice : Session
alice = record {
  token = text "h.p.d";
  expires_at = 1900;
  subject = text "alice";
  membership = of_acme;
}

header-Encodes : Encodes hmac encode decode options jwt_header
unfolding JsMap.get
header-Encodes = record { encode_plain = (λ e. omega arith, tt); decoded = refl }

payload-Encodes : Encodes hmac encode decode options payload
unfolding JsMap.get payload_of
payload-Encodes = record { encode_plain = (λ e. omega arith, tt); decoded = refl }

issued-Acts_example :
    Acts hmac encode decode options
      (λ t. some (text "alice"))
      (text "provider")
      none
      1000
      1100
      tables
      alice
issued-Acts_example =
    issued-Acts hmac encode decode options (λ t. some (text "alice")) (text "provider") none 1000
      1100 tables alice
      (unfold issue issue_to memberships_for joined tenant_row by_age to_memberships to_membership
          to_tenant tenant_id is_tenant_id sign payload_of JsMap.get in
        refl)
      header-Encodes payload-Encodes (λ e. omega arith, tt) (omega arith) (omega arith)

verify_lem_example :
    IsSigned hmac encode decode options
      (text "h.p.d")
      1100
      (record { claims = claims_for (text "alice") of_acme; iat = 1000; exp = 1900 })
verify_lem_example =
    verify_lem hmac encode decode options (text "h.p.d") 1100
      (record { claims = claims_for (text "alice") of_acme; iat = 1000; exp = 1900 })
      (unfold verify split_at check_payload live_until roles_of role_named roles_for payload_of
          is_tenant_id three_parts is_our_header JsMap.get in
        refl)
