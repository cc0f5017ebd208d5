-- ===== src/Auth/Jwt.antt =====
-- backend/src/auth/jwt.ts: the tokens of a session. The HMAC of the runtime, its digest in base64url, and
-- the JSON in base64url of an object are parameters. A value inside an object is told apart as `verify`
-- does: a text, a number (the natural ones), an array whose members are texts or not, or another value.
pub mod Issued
pub mod Accepted
use paymaster.Common.{
  ℕ, ◌+◌, Bool, true, false, not, ◌&&◌, Option, none, some, List, [], ◌∷◌, ◌++◌, length, ltb, leb,
  ◌==◌, list_eq, nat_eq, if◌then◌else◌, or_default, map,
}
use paymaster.Common.Results.{Result, ok, err, ◌>>=◌, ◌>>◌, guard}
use paymaster.Common.JsMap
use paymaster.Common.JsMap.{JsMap}
use paymaster.Common.Text.{Text, text}
use paymaster.Auth.Permissions.{Role, role_name, role_named}
use paymaster.Auth.Scope.{is_tenant_id}

pub record JwtClaims : Type 0 where
  pub sub : Text
  pub tenant_id : Text
  pub name : Text
  pub roles : List Role
  pub policy_id : Option Text

pub record VerifiedJwt : Type 0 where
  pub claims : JwtClaims
  pub iat : ℕ
  pub exp : ℕ

pub data JwtVerifyReason : Type 0 where
  malformed bad_signature expired not_yet_valid wrong_issuer wrong_audience bad_claims :
      JwtVerifyReason

pub record JwtOptions : Type 0 where
  pub issuer : Text
  pub audience : Text
  pub ttl_seconds : ℕ

pub data Json : Type 0 where
  string : Text → Json
  number : ℕ → Json
  array : List (Option Text) → Json
  other : Json

abbrev pub Object : Type 0
Object = JsMap Text Json

abbrev pub dot : ℕ
dot = b'.'

abbrev pub clock_skew_seconds : ℕ
clock_skew_seconds = 60

abbrev pub jwt_header : Object
jwt_header = (text "alg", string (text "HS256")) ∷ (text "typ", string (text "JWT")) ∷ []

-- `{policyId}`, or nothing.
abbrev pub policy_claim : Option Text → Object
policy_claim none = []
policy_claim (some id) = (text "policyId", string id) ∷ []

-- The payload of `sign`, with its keys in order.
unfoldable pub payload_of : JwtOptions → JwtClaims → ℕ → Object
payload_of o c now =
    (text "iss", string o.issuer)
    ∷ (text "aud", string o.audience)
    ∷ (text "sub", string c.sub)
    ∷ (text "tenantId", string c.tenant_id)
    ∷ (text "name", string c.name)
    ∷ (text "roles", array (map (λ r. some (role_name r)) c.roles))
    ∷ (policy_claim c.policy_id
        ++ (text "iat", number now) ∷ (text "exp", number (now + o.ttl_seconds)) ∷ [])

-- `s.split(".")`
unfoldable pub split_at : ℕ → Text → List Text
split_at c [] = [] ∷ []
split_at c (x ∷ s) = let rest = split_at c s in if x == c then [] ∷ rest else prepend x rest
  where
    prepend : ℕ → List Text → List Text
    prepend x [] = (x ∷ []) ∷ []
    prepend x (s ∷ parts) = (x ∷ s) ∷ parts

unfoldable pub three_parts : List Text → Result JwtVerifyReason (Text × Text × Text)
three_parts (header ∷ payload ∷ signature ∷ []) = ok (header, payload, signature)
three_parts _ = err malformed

abbrev pub present : {A : Type 0} → JwtVerifyReason → Option A → Result JwtVerifyReason A
present reason none = err reason
present reason (some a) = ok a

abbrev pub is_string : Text → Option Json → Bool
is_string s (some (string t)) = t == s
is_string s _ = false

abbrev pub string_of : Option Json → Result JwtVerifyReason Text
string_of (some (string s)) = ok s
string_of _ = err bad_claims

abbrev pub array_of : Option Json → Result JwtVerifyReason (List (Option Text))
array_of (some (array members)) = ok members
array_of _ = err bad_claims

-- `typeof exp !== "number" || exp <= now`
unfoldable pub live_until : ℕ → Option Json → Result JwtVerifyReason ℕ
live_until now (some (number exp)) = if ltb now exp then ok exp else err expired
live_until now _ = err expired

-- `typeof iat === "number" && iat > now + CLOCK_SKEW_SECONDS`
abbrev pub is_early : ℕ → Option Json → Bool
is_early now (some (number iat)) = ltb (now + clock_skew_seconds) iat
is_early now _ = false

abbrev pub issued_at : ℕ → Option Json → ℕ
issued_at now (some (number iat)) = iat
issued_at now _ = now

abbrev pub pinned_policy : Option Json → Option Text
pinned_policy (some (string id)) = some id
pinned_policy _ = none

-- Every member must name a role.
unfoldable pub roles_of : List (Option Text) → Result JwtVerifyReason (List Role)
roles_of [] = ok []
roles_of (none ∷ members) = err bad_claims
roles_of (some name ∷ members) = do
  role ← present bad_claims (role_named name)
  roles ← roles_of members
  ok (role ∷ roles)

-- The checks of the payload, in the order of `verify`.
unfoldable pub check_payload : JwtOptions → ℕ → Object → Result JwtVerifyReason VerifiedJwt
unfolding live_until roles_of
check_payload o now payload = do
  guard (is_string o.issuer (JsMap.get (text "iss") payload)) wrong_issuer
  guard (is_string o.audience (JsMap.get (text "aud") payload)) wrong_audience
  exp ← live_until now (JsMap.get (text "exp") payload)
  guard (not (is_early now (JsMap.get (text "iat") payload))) not_yet_valid
  sub ← string_of (JsMap.get (text "sub") payload)
  name ← string_of (JsMap.get (text "name") payload)
  members ← array_of (JsMap.get (text "roles") payload)
  tenant ← string_of (JsMap.get (text "tenantId") payload)
  guard (is_tenant_id tenant) bad_claims
  roles ← roles_of members
  ok (record {
    claims = record {
      sub = sub;
      tenant_id = tenant;
      name = name;
      roles = roles;
      policy_id = pinned_policy (JsMap.get (text "policyId") payload);
    };
    iat = issued_at now (JsMap.get (text "iat") payload);
    exp = exp;
  })

unfoldable pub is_our_header : Object → Bool
is_our_header header =
    is_string (text "HS256") (JsMap.get (text "alg") header)
    && is_string (text "JWT") (JsMap.get (text "typ") header)

-- The service: `hmac` signs a text under the service's secret.
module _ (hmac : Text → Text) (encode : Object → Text) (decode : Text → Option Object)
    (options : JwtOptions) where
  abbrev pub signing_input : JwtClaims → ℕ → Text
  signing_input c now = encode jwt_header ++ dot ∷ encode (payload_of options c now)

  -- The token, and when it expires.
  unfoldable pub sign : JwtClaims → ℕ → Text × ℕ
  sign c now = (signing_input c now ++ dot ∷ hmac (signing_input c now), now + options.ttl_seconds)

  unfoldable pub verify : Text → ℕ → Result JwtVerifyReason VerifiedJwt
  unfolding three_parts is_our_header check_payload
  verify token now = do
    parts ← three_parts (split_at dot token)
    header ← present malformed (decode parts.0)
    guard (is_our_header header) malformed
    guard (parts.2 == hmac (parts.0 ++ dot ∷ parts.1)) bad_signature
    payload ← present malformed (decode parts.1)
    check_payload options now payload

-- `new JwtService`: a secret too short throws.
unfoldable pub new_jwt_service : Text → Result Text Text
new_jwt_service secret =
    if ltb (length secret) 32
    then err (text "JWT secret must be at least 32 characters")
    else ok secret
