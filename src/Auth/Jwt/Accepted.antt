-- ===== src/Auth/Jwt/Accepted.antt =====
-- What backend/src/auth/jwt.ts accepts.
use paymaster.Common.{
  ℕ, ◌≡◌, ◌<◌, ap, ◌∙◌, true, not, Option, none, some, List, [], ◌∷◌, ◌++◌, list_beq_iff, subst,
  ◌==◌, list_eq, nat_eq, arith,
}
use paymaster.Common.Results.{Result, ok, err, >>=-eq-ok, guard-eq-ok}
use paymaster.Common.JsMap
use paymaster.Common.Text.{Text, text}
use paymaster.Auth.Scope.{is_tenant_id}
use paymaster.Auth.Jwt.{
  VerifiedJwt, JwtVerifyReason, JwtOptions, Json, Object, dot, split_at, three_parts, roles_of,
  check_payload, is_our_header, verify, live_until, present, string_of, array_of, is_string,
  is_early, string, number, array, other, malformed, bad_signature, wrong_issuer, wrong_audience,
  not_yet_valid, bad_claims,
}

present-ok :
    {A : Type 0} (reason : JwtVerifyReason) (x : Option A) (a : A)
    → present reason x ≡ ok a
    → x ≡ some a
present-ok reason none a h = cc
present-ok reason (some b) a h = cc

three_parts-ok :
    (parts : List Text) (ps : Text × Text × Text)
    → three_parts parts ≡ ok ps
    → parts ≡ ps.0 ∷ ps.1 ∷ ps.2 ∷ []
unfolding three_parts
three_parts-ok [] ps h = cc
three_parts-ok (a ∷ []) ps h = cc
three_parts-ok (a ∷ b ∷ []) ps h = cc
three_parts-ok (a ∷ b ∷ c ∷ []) ps h = cc
three_parts-ok (a ∷ b ∷ c ∷ d ∷ parts) ps h = cc

-- A payload that passes: it is for this service, it carries its expiry, which is to come, and a
-- well-formed tenant.
pub record IsFor (o : JwtOptions) (now : ℕ) (payload : Object) (v : VerifiedJwt) : Type 0 where
  pub issued_by : JsMap.get (text "iss") payload ≡ some (string o.issuer)
  pub issued_to : JsMap.get (text "aud") payload ≡ some (string o.audience)
  pub expiry : JsMap.get (text "exp") payload ≡ some (number v.exp)
  pub fresh : now < v.exp
  pub tenant : JsMap.get (text "tenantId") payload ≡ some (string v.claims.tenant_id)
  pub valid : is_tenant_id v.claims.tenant_id ≡ true

is_string-eq : (s : Text) (j : Option Json) → is_string s j ≡ true → j ≡ some (string s)
is_string-eq s none h = cc
is_string-eq s (some (string t)) h = cc ((list_beq_iff t s).0 h)
is_string-eq s (some (number n)) h = cc
is_string-eq s (some (array l)) h = cc
is_string-eq s (some other) h = cc

string_of-ok : (j : Option Json) (s : Text) → string_of j ≡ ok s → j ≡ some (string s)
string_of-ok none s h = cc
string_of-ok (some (string t)) s h = cc
string_of-ok (some (number n)) s h = cc
string_of-ok (some (array l)) s h = cc
string_of-ok (some other) s h = cc

live_until-ok :
    (now : ℕ) (j : Option Json) (exp : ℕ)
    → live_until now j ≡ ok exp
    → (j ≡ some (number exp)) × (now < exp)
unfolding live_until
live_until-ok now none exp h = cc
live_until-ok now (some (string t)) exp h = cc
live_until-ok now (some (number n)) exp h = ground arith
live_until-ok now (some (array l)) exp h = cc
live_until-ok now (some other) exp h = cc

check_payload-IsFor :
    (o : JwtOptions) (now : ℕ) (payload : Object) (v : VerifiedJwt)
    → check_payload o now payload ≡ ok v
    → IsFor o now payload v
unfolding check_payload
check_payload-IsFor o now payload v e =
    let (iss, e₁) =
      guard-eq-ok (is_string o.issuer (JsMap.get (text "iss") payload)) wrong_issuer _ e in
    let (aud, e₂) =
      guard-eq-ok (is_string o.audience (JsMap.get (text "aud") payload)) wrong_audience _ e₁ in
    let (exp, live, e₃) = >>=-eq-ok (live_until now (JsMap.get (text "exp") payload)) _ e₂ in
    let (_, e₄) =
      guard-eq-ok (not (is_early now (JsMap.get (text "iat") payload))) not_yet_valid _ e₃ in
    let (sub, _, e₅) = >>=-eq-ok (string_of (JsMap.get (text "sub") payload)) _ e₄ in
    let (name, _, e₆) = >>=-eq-ok (string_of (JsMap.get (text "name") payload)) _ e₅ in
    let (members, _, e₇) = >>=-eq-ok (array_of (JsMap.get (text "roles") payload)) _ e₆ in
    let (tenant, named, e₈) = >>=-eq-ok (string_of (JsMap.get (text "tenantId") payload)) _ e₇ in
    let (valid, e₉) = guard-eq-ok (is_tenant_id tenant) bad_claims _ e₈ in
    let (roles, _, made) = >>=-eq-ok (roles_of members) _ e₉ in
    let (carried, fresh) = live_until-ok now (JsMap.get (text "exp") payload) exp live in
    let at_exp = ap exp_in made in
    let at_tenant = ap tenant_in made in
    record {
      issued_by = is_string-eq o.issuer (JsMap.get (text "iss") payload) iss;
      issued_to = is_string-eq o.audience (JsMap.get (text "aud") payload) aud;
      expiry = carried ∙ ap (λ n. some (number n)) at_exp;
      fresh = subst (λ n. now < n) at_exp fresh;
      tenant =
          string_of-ok (JsMap.get (text "tenantId") payload) tenant named
          ∙ ap (λ t. some (string t)) at_tenant;
      valid = subst (λ t. is_tenant_id t ≡ true) at_tenant valid;
    }
  where
    exp_in : Result JwtVerifyReason VerifiedJwt → ℕ
    exp_in (ok v) = v.exp
    exp_in (err e) = 0

    tenant_in : Result JwtVerifyReason VerifiedJwt → Text
    tenant_in (ok v) = v.claims.tenant_id
    tenant_in (err e) = []

module _ (hmac : Text → Text) (encode : Object → Text) (decode : Text → Option Object)
    (o : JwtOptions) where
  -- A token as the service makes it: three parts, the last of them the digest of the others, and a
  -- payload for this service that has not expired.
  pub record IsSigned (token : Text) (now : ℕ) (v : VerifiedJwt) : Type 0 where
    pub header : Text
    pub payload : Text
    pub object : Object
    pub parts : split_at dot token ≡ header ∷ payload ∷ hmac (header ++ dot ∷ payload) ∷ []
    pub carried : decode payload ≡ some object
    pub passed : IsFor o now object v

  -- A token that is accepted has three parts, of which the last is the digest of the others under the
  -- service's secret; the payload that it carries names this service as issuer and audience, a
  -- well-formed tenant, which is the claims', and an expiry after the time, which is the claims'.
  pub verify_lem :
      (token : Text) (now : ℕ) (v : VerifiedJwt)
      → verify hmac encode decode o token now ≡ ok v
      → IsSigned token now v
  unfolding verify
  verify_lem token now v e =
      let (ps, split, e₁) = >>=-eq-ok (three_parts (split_at dot token)) _ e in
      let (header, _, e₂) = >>=-eq-ok (present malformed (decode ps.0)) _ e₁ in
      let (_, e₃) = guard-eq-ok (is_our_header header) malformed _ e₂ in
      let (same, e₄) = guard-eq-ok (ps.2 == hmac (ps.0 ++ dot ∷ ps.1)) bad_signature _ e₃ in
      let (object, found, e₅) = >>=-eq-ok (present malformed (decode ps.1)) _ e₄ in
      record {
        header = ps.0;
        payload = ps.1;
        object = object;
        parts =
            three_parts-ok (split_at dot token) ps split
            ∙ ap (λ s. ps.0 ∷ ps.1 ∷ s ∷ [])
                ((list_beq_iff ps.2 (hmac (ps.0 ++ dot ∷ ps.1))).0 same);
        carried = present-ok malformed (decode ps.1) object found;
        passed = check_payload-IsFor o now object v e₅;
      }
