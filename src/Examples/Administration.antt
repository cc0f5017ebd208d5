-- ===== src/Examples/Administration.antt =====
-- A key that an administrator makes.
use paymaster.Common.{◌≡◌, inl, refl, false, true, none, some, [], ◌∷◌, list_eq, nat_eq}
use paymaster.Common.JsMap
use paymaster.Common.Text.{Text, text}
use paymaster.Auth.Permissions.{
  admin, sponsor, permissions_for, permissions_of, grants, platform_read,
}
use paymaster.Auth.Authenticator.{
  ApiKeyRecord, Principal, principal_of, authenticate, is_well_formed_api_key,
}
use paymaster.Auth.ApiKeys.{find_by_hash, index, create, has}
use paymaster.Auth.Scope.{writing_tenant}
use paymaster.Admin.Keys.{
  AdminState, CreateKeyRequest, Generated, actor_context, create_key, escalations, escalates,
}
use paymaster.Admin.Keys.Escalation.{IsWithout}
use paymaster.Admin.Keys.Reached.{Credentials, IsCaller, by_key, begun, created, Administered-lacks}

abbrev admin_secret : Text
admin_secret = text "pm_live_0123456789012345678901234567890123456789"

abbrev admin_key : ApiKeyRecord
admin_key = record {
  id = text "k1";
  tenant_id = text "acme";
  name = text "operations";
  hash = admin_secret;
  display_prefix = text "pm_live_0123";
  roles = admin ∷ [];
  policy_id = none;
  enabled = true;
  created_at = 7000;
  expires_at = none;
  last_used_at = none;
}

abbrev first_state : AdminState (Unit {0})
first_state = record {
  keys = record { by_hash = (admin_secret, admin_key) ∷ []; by_id = (text "k1", admin_key) ∷ [] };
  log = tt;
}

abbrev asked_key : CreateKeyRequest
asked_key = record {
  name = text "frontend";
  roles = sponsor ∷ [];
  policy_id = none;
  expires_at = none;
}

abbrev made_key : Generated
made_key = record {
  secret = text "pm_live_abcdefghijabcdefghijabcdefghijabcdefghij";
  hash = text "pm_live_abcdefghijabcdefghijabcdefghijabcdefghij";
  display_prefix = text "pm_live_abcd";
  id = text "k2";
  now = 7100;
}

abbrev at_first : Credentials (Unit {0})
at_first = record { admin = first_state; sessions = [] }

admin_calls : IsCaller (λ k. k) none at_first (principal_of admin_key)
unfolding authenticate find_by_hash is_well_formed_api_key JsMap.get
admin_calls = by_key (some admin_secret) 7050 (principal_of admin_key) refl

-- After the administrator made the key.
abbrev with_key : Credentials (Unit {0})
with_key = record {
  admin =
      (create_key none asked_key made_key (actor_context (principal_of admin_key) none)
        first_state).1;
  sessions = [];
}

abbrev frontend : Principal
frontend = record {
  tenant_id = text "acme";
  api_key_id = text "k2";
  name = text "frontend";
  roles = sponsor ∷ [];
  permissions = permissions_for (sponsor ∷ []);
  policy_id = none;
}

frontend_calls : IsCaller (λ k. k) none with_key frontend
unfolding authenticate find_by_hash is_well_formed_api_key JsMap.get create_key escalations
    escalates permissions_for permissions_of create index has writing_tenant JsMap.put actor_context
    principal_of
frontend_calls = by_key (some made_key.secret) 7200 frontend refl

first-IsWithout : IsWithout platform_read first_state.keys
unfolding permissions_for permissions_of grants
first-IsWithout = record { in_hashes = (refl, tt); in_ids = (refl, tt) }

Administered-lacks_example : grants frontend.permissions platform_read ≡ false
Administered-lacks_example =
    Administered-lacks (λ k. k) none first_state platform_read with_key frontend (inl refl)
      first-IsWithout
      (created at_first (principal_of admin_key) none asked_key made_key begun admin_calls)
      frontend_calls
