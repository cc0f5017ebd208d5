-- ===== src/Auth/ApiKeys.antt =====
-- backend/src/auth/inMemoryApiKeyStore.ts: the keys, indexed by their hash and by their id.
use paymaster.Common.{
  ℕ, Bool, true, false, not, ◌||◌, Option, none, some, List, [], keep, map, list_eq, nat_eq,
  if◌then◌else◌,
}
use paymaster.Common.Results.{Result, ok, err}
use paymaster.Common.JsMap
use paymaster.Common.JsMap.{JsMap}
use paymaster.Common.Text.{Text, text}
use paymaster.Auth.Scope.{Scope, in_scope, writing_tenant}
use paymaster.Auth.Permissions.{Role}
use paymaster.Auth.Authenticator.{ApiKeyRecord}

pub record KeyStore : Type 0 where
  pub by_hash : JsMap Text ApiKeyRecord
  pub by_id : JsMap Text ApiKeyRecord

abbrev pub no_keys : KeyStore
no_keys = record { by_hash = []; by_id = [] }

-- A record before its tenant is known.
pub record NewKey : Type 0 where
  pub id : Text
  pub name : Text
  pub hash : Text
  pub display_prefix : Text
  pub roles : List Role
  pub policy_id : Option Text
  pub created_at : ℕ
  pub expires_at : Option ℕ

-- `#index`
unfoldable pub index : ApiKeyRecord → KeyStore → KeyStore
unfolding JsMap.put
index r s = record { by_hash = JsMap.put r.hash r s.by_hash; by_id = JsMap.put r.id r s.by_id }

unfoldable pub find_by_hash : KeyStore → Text → Option ApiKeyRecord
unfolding JsMap.get
find_by_hash s hash = JsMap.get hash s.by_hash

unfoldable pub has : Text → JsMap Text ApiKeyRecord → Bool
unfolding JsMap.get
has k m = elim (JsMap.get k m) [ none ↦ false | some _ ↦ true ]

-- The record of a key that is new: enabled, and never used.
abbrev pub owned : Text → NewKey → ApiKeyRecord
owned tenant k = record {
  id = k.id;
  tenant_id = tenant;
  name = k.name;
  hash = k.hash;
  display_prefix = k.display_prefix;
  roles = k.roles;
  policy_id = k.policy_id;
  enabled = true;
  created_at = k.created_at;
  expires_at = k.expires_at;
  last_used_at = none;
}

-- The tenant is the scope's.
unfoldable pub create : Scope → NewKey → KeyStore → Result Text (Unit {0}) × KeyStore
unfolding index has writing_tenant
create scope k s = elim (writing_tenant scope) [
  | none ↦ (err (text "PlatformScopeCannotWriteError"), s)
  | some tenant ↦
      if has k.id s.by_id
      then (err (text "api key already exists"), s)
      else if has k.hash s.by_hash
      then (err (text "api key hash collision"), s)
      else (ok tt, index (owned tenant k) s)
]

unfoldable pub disabled : ApiKeyRecord → ApiKeyRecord
disabled r = record r { enabled = false }

-- Another tenant's key is told from none at all by nothing.
unfoldable pub revoke : Scope → Text → KeyStore → Bool × KeyStore
unfolding index disabled in_scope JsMap.get
revoke scope id s = elim (JsMap.get id s.by_id) [
  | none ↦ (false, s)
  | some r ↦
      if not r.enabled || not (in_scope scope r.tenant_id)
      then (false, s)
      else (true, index (disabled r) s)
]

unfoldable pub list : Scope → KeyStore → List ApiKeyRecord
unfolding in_scope
list scope s =
    keep (λ (r : ApiKeyRecord). in_scope scope r.tenant_id)
      (map (λ (e : Text × ApiKeyRecord). e.1) s.by_id)

unfoldable pub used_at : ℕ → ApiKeyRecord → ApiKeyRecord
used_at now r = record r { last_used_at = some now }

unfoldable pub touch : Text → ℕ → KeyStore → KeyStore
unfolding index used_at JsMap.get
touch id now s = elim (JsMap.get id s.by_id) [ none ↦ s | some r ↦ index (used_at now r) s ]
