-- ===== src/Auth/Jwt/Issued.antt =====
-- What backend/src/auth/jwt.ts signs, and what it then verifies.
use paymaster.Common.{
  ℕ, ◌+◌, ◌≡◌, ◌≢◌, ◌<◌, ◌≤◌, refl, true, false, Option, none, some, List, [], ◌∷◌, ◌++◌, All,
  append_assoc, ltb, lt→ltb, ==_refl, list_eq, nat_eq, map, arith,
}
use paymaster.Common.Results.{ok}
use paymaster.Common.JsMap
use paymaster.Common.Text.{Text}
use paymaster.Auth.Permissions.{Role, role_name, role_named-role_name}
use paymaster.Auth.Scope.{is_tenant_id}
use paymaster.Auth.Jwt.{
  JwtClaims, JwtOptions, Object, dot, jwt_header, payload_of, split_at, three_parts, roles_of,
  check_payload, is_our_header, sign, verify, live_until, signing_input,
}

abbrev pub HasNoDot : Text → Type 0
HasNoDot s = All (λ c. c ≢ dot) s

split_at-whole : (c : ℕ) (s : Text) → All (λ u. u ≢ c) s → split_at c s ≡ s ∷ []
unfolding split_at
split_at-whole c [] h = refl
split_at-whole c (x ∷ s) h = ground (arith, h.0, split_at-whole c s h.1)

split_at-append :
    (c : ℕ) (s t : Text) → All (λ u. u ≢ c) s → split_at c (s ++ c ∷ t) ≡ s ∷ split_at c t
unfolding split_at
split_at-append c [] t h = ground arith
split_at-append c (x ∷ s) t h = ground (arith, h.0, split_at-append c s t h.1)

roles_of-role_name : (roles : List Role) → roles_of (map (λ r. some (role_name r)) roles) ≡ ok roles
unfolding roles_of
roles_of-role_name [] = refl
roles_of-role_name (r ∷ roles) = rw (role_named-role_name r, roles_of-role_name roles) refl

not_early : (now later : ℕ) → now ≤ later + 60 → ltb (later + 60) now ≡ false
not_early now later h = ground arith

module _ (o : JwtOptions) (sub tenant name : Text) (roles : List Role) (now later : ℕ)
    (valid : is_tenant_id tenant ≡ true) (live : later < now + o.ttl_seconds)
    (early : now ≤ later + 60) where
  claims_with : Option Text → JwtClaims
  claims_with p = record {
    sub = sub;
    tenant_id = tenant;
    name = name;
    roles = roles;
    policy_id = p;
  }

  passes :
      (p : Option Text)
      → check_payload o later (payload_of o (claims_with p) now)
        ≡ ok (record { claims = claims_with p; iat = now; exp = now + o.ttl_seconds })
  unfolding check_payload payload_of JsMap.get live_until claims_with
  passes none =
      rw
        (
          ==_refl o.issuer,
          ==_refl o.audience,
          lt→ltb later (now + o.ttl_seconds) live,
          not_early now later early,
          valid,
          roles_of-role_name roles,
        )
        refl
  passes (some id) =
      rw
        (
          ==_refl o.issuer,
          ==_refl o.audience,
          lt→ltb later (now + o.ttl_seconds) live,
          not_early now later early,
          valid,
          roles_of-role_name roles,
        )
        refl

-- The payload of a token passes its checks until it expires.
check_payload-payload_of :
    (o : JwtOptions) (c : JwtClaims) (now later : ℕ)
    → is_tenant_id c.tenant_id ≡ true
    → later < now + o.ttl_seconds
    → now ≤ later + 60
    → check_payload o later (payload_of o c now)
      ≡ ok (record { claims = c; iat = now; exp = now + o.ttl_seconds })
unfolding claims_with
check_payload-payload_of o c now later valid live early =
    passes o c.sub c.tenant_id c.name c.roles now later valid live early c.policy_id

header_passes : is_our_header jwt_header ≡ true
unfolding is_our_header JsMap.get
header_passes = refl

-- Three parts with dots between them are told apart.
split_at-three :
    (s t u : Text)
    → HasNoDot s
    → HasNoDot t
    → HasNoDot u
    → split_at dot ((s ++ dot ∷ t) ++ dot ∷ u) ≡ s ∷ t ∷ u ∷ []
split_at-three s t u hs ht hu =
    rw
      (
        append_assoc s (dot ∷ t) (dot ∷ u),
        split_at-append dot s (t ++ dot ∷ u) hs,
        split_at-append dot t u ht,
        split_at-whole dot u hu,
      )
      refl

module _ (hmac : Text → Text) (encode : Object → Text) (decode : Text → Option Object)
    (o : JwtOptions) where
  -- What a session's encoding relies on: base64url has no dot, and what was encoded is decoded.
  pub record Encodes (payload : Object) : Type 0 where
    pub encode_plain : HasNoDot (encode payload)
    pub decoded : decode (encode payload) ≡ some payload

  pub verify-sign :
      (c : JwtClaims) (now later : ℕ)
      → Encodes jwt_header
      → Encodes (payload_of o c now)
      → HasNoDot (hmac (signing_input hmac encode decode o c now))
      → is_tenant_id c.tenant_id ≡ true
      → later < now + o.ttl_seconds
      → now ≤ later + 60
      → verify hmac encode decode o (sign hmac encode decode o c now).0 later
        ≡ ok (record { claims = c; iat = now; exp = now + o.ttl_seconds })
  unfolding verify sign three_parts
  verify-sign c now later header payload plain valid live early =
      rw
        (
          split_at-three (encode jwt_header) (encode (payload_of o c now))
              (hmac (signing_input hmac encode decode o c now)) header.encode_plain
              payload.encode_plain plain,
          header.decoded,
          header_passes,
          ==_refl (hmac (signing_input hmac encode decode o c now)),
          payload.decoded,
          check_payload-payload_of o c now later valid live early,
        )
        refl
