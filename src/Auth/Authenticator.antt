-- ===== src/Auth/Authenticator.antt =====
-- backend/src/auth/authenticator.ts, with the shape of a key of apiKey.ts and the tracker of
-- apiKeyStore.ts. The hash (SHA-256 of the runtime) and the store are parameters.
use paymaster.Common.{
  ℕ, ◌≡◌, Bool, true, false, not, ◌&&◌, ◌||◌, Option, none, some, List, [], ◌∷◌, every, take, drop,
  ◌↔◌, ap, sym, refl, length, leb, ◌==◌, list_eq, nat_eq, arith,
}
use paymaster.Common.Results.{Result, ok, err, ◌>>=◌, ◌>>◌, guard, >>=-eq-ok, guard-eq-ok}
use paymaster.Common.Text.{Text, text}
use paymaster.Auth.Permissions.{Permission, Role, permissions_for}

pub record ApiKeyRecord : Type 0 where
  pub id : Text
  pub tenant_id : Text
  pub name : Text
  pub hash : Text
  pub display_prefix : Text
  pub roles : List Role
  pub policy_id : Option Text
  pub enabled : Bool
  pub created_at : ℕ
  pub expires_at : Option ℕ
  pub last_used_at : Option ℕ

pub record Principal : Type 0 where
  pub tenant_id : Text
  pub api_key_id : Text
  pub name : Text
  pub roles : List Role
  pub permissions : List Permission
  pub policy_id : Option Text

pub data AuthFailureReason : Type 0 where
  missing malformed unknown revoked expired : AuthFailureReason

abbrev pub between : ℕ → ℕ → ℕ → Bool
between a b c = leb a c && leb c b

abbrev pub is_key_unit : ℕ → Bool
is_key_unit c =
    between b'A' b'Z' c
    || (between b'a' b'z' c || (between b'0' b'9' c || (c == b'_' || c == b'-')))

-- `^pm_(live|test)_[A-Za-z0-9_-]{40,}$`; both environments have four letters.
unfoldable pub is_well_formed_api_key : Text → Bool
is_well_formed_api_key candidate =
    (take 8 candidate == text "pm_live_" || take 8 candidate == text "pm_test_")
    && (leb 40 (length (drop 8 candidate)) && every is_key_unit (drop 8 candidate))

abbrev pub found_key : Option ApiKeyRecord → Result AuthFailureReason ApiKeyRecord
found_key none = err unknown
found_key (some r) = ok r

abbrev pub is_expired : ℕ → Option ℕ → Bool
is_expired now none = false
is_expired now (some t) = leb t now

abbrev pub presented_key : Option Text → Result AuthFailureReason Text
presented_key none = err missing
presented_key (some []) = err missing
presented_key (some (c ∷ rest)) = ok (c ∷ rest)

unfoldable pub principal_of : ApiKeyRecord → Principal
unfolding permissions_for
principal_of r = record {
  tenant_id = r.tenant_id;
  api_key_id = r.id;
  name = r.name;
  roles = r.roles;
  permissions = permissions_for r.roles;
  policy_id = r.policy_id;
}

module _ (hash_api_key : Text → Text) (find_by_hash : Text → Option ApiKeyRecord) where
  -- `authenticate`; the observer only listens.
  unfoldable pub authenticate : Option Text → ℕ → Result AuthFailureReason Principal
  authenticate presented now = do
    key ← presented_key presented
    guard (is_well_formed_api_key key) malformed
    r ← found_key (find_by_hash (hash_api_key key))
    guard r.enabled revoked
    guard (not (is_expired now r.expires_at)) expired
    ok (principal_of r)

  -- What an authenticated caller presented.
  pub record IsKeyOf (presented : Option Text) (now : ℕ) (principal : Principal) : Type 0 where
    pub key : Text
    pub stored : ApiKeyRecord
    pub given : presented ≡ some key
    pub well_formed : is_well_formed_api_key key ≡ true
    pub found : find_by_hash (hash_api_key key) ≡ some stored
    pub enabled : stored.enabled ≡ true
    pub in_time : is_expired now stored.expires_at ≡ false
    pub is_principal : principal ≡ principal_of stored

  presented-ok : (o : Option Text) (key : Text) → presented_key o ≡ ok key → o ≡ some key
  presented-ok none key e = cc
  presented-ok (some []) key e = cc
  presented-ok (some (c ∷ rest)) key e = ground arith

  found-ok : (o : Option ApiKeyRecord) (r : ApiKeyRecord) → found_key o ≡ ok r → o ≡ some r
  found-ok none r e = cc
  found-ok (some x) r e = ground arith

  authenticated-IsKeyOf :
      (presented : Option Text) (now : ℕ) (principal : Principal)
      → authenticate presented now ≡ ok principal
      → IsKeyOf presented now principal
  unfolding authenticate
  authenticated-IsKeyOf presented now principal e =
      let (key, p, e₁) = >>=-eq-ok (presented_key presented) _ e in
      let (shape, e₂) = guard-eq-ok (is_well_formed_api_key key) malformed _ e₁ in
      let (r, f, e₃) = >>=-eq-ok (found_key (find_by_hash (hash_api_key key))) _ e₂ in
      let (on, e₄) = guard-eq-ok r.enabled revoked _ e₃ in
      let (fresh, same) = guard-eq-ok (not (is_expired now r.expires_at)) expired _ e₄ in
      record {
        key = key;
        stored = r;
        given = presented-ok presented key p;
        well_formed = shape;
        found = found-ok _ r f;
        enabled = on;
        in_time = ground arith;
        is_principal = ground arith;
      }

  presented-given :
      (key : Text) → is_well_formed_api_key key ≡ true → presented_key (some key) ≡ ok key
  unfolding is_well_formed_api_key
  presented-given [] e = cc
  presented-given (c ∷ rest) e = refl

  IsKeyOf-authenticated :
      (presented : Option Text) (now : ℕ) (principal : Principal)
      → IsKeyOf presented now principal
      → authenticate presented now ≡ ok principal
  unfolding authenticate principal_of
  IsKeyOf-authenticated presented now principal h =
      rw
        (h.given, presented-given h.key h.well_formed, h.well_formed, h.found, h.enabled, h.in_time)
        (ap ok (sym h.is_principal))

  -- A caller is authenticated exactly by a well-formed key whose hash the store knows, that is
  -- enabled and has not expired; and its tenant, roles and permissions are those of the stored key.
  pub authenticate-IsKeyOf :
      (presented : Option Text) (now : ℕ) (principal : Principal)
      → (authenticate presented now ≡ ok principal) ↔ IsKeyOf presented now principal
  authenticate-IsKeyOf presented now principal =
      (authenticated-IsKeyOf presented now principal, IsKeyOf-authenticated presented now principal)
