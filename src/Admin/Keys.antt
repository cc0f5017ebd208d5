-- ===== src/Admin/Keys.antt =====
-- The keys in backend/src/api/admin/admin.service.ts, with the context that the controller
-- (backend/src/api/admin/admin.controller.ts) makes of a caller. The audit log works on a world of its
-- own; the generated secret, its hash and the id of a new key are arguments.
pub mod Escalation
pub mod Kept
pub mod Reached
use paymaster.Common.{
  ◌++◌, ℕ, Bool, true, false, not, ◌&&◌, Option, none, some, List, [], ◌∷◌, any, keep, map, nat_beq,
  if◌then◌else◌,
}
use paymaster.Common.Results.{Result, ok, err, ◌>>=◌, and_then}
use paymaster.Common.Text.{Text, text}
use paymaster.Auth.Scope.{Scope, tenant_scope, platform_scope}
use paymaster.Auth.Permissions.{
  Permission, Role, code, permissions_for, grants, sponsor_create, platform_read,
}
use paymaster.Auth.Authenticator.{ApiKeyRecord, Principal}
use paymaster.Auth.ApiKeys
use paymaster.Auth.ApiKeys.{KeyStore, NewKey, owned}

-- What a request reads, what it writes (its tenant's own), and what it may do.
pub record ActorContext : Type 0 where
  pub actor : Text
  pub client_ip : Option Text
  pub scope : Scope
  pub write_tenant : Text
  pub permissions : List Permission

unfoldable pub actor_context : Principal → Option Text → ActorContext
unfolding grants
actor_context p ip = record {
  actor = p.api_key_id;
  client_ip = ip;
  scope = if grants p.permissions platform_read then platform_scope else tenant_scope p.tenant_id;
  write_tenant = p.tenant_id;
  permissions = p.permissions;
}

pub record CreateKeyRequest : Type 0 where
  pub name : Text
  pub roles : List Role
  pub policy_id : Option Text
  pub expires_at : Option ℕ

-- `generateApiKey`, with the id and the time beside it.
pub record Generated : Type 0 where
  pub secret : Text
  pub hash : Text
  pub display_prefix : Text
  pub id : Text
  pub now : ℕ

-- What is shown of a key: not its hash.
pub record ApiKeyView : Type 0 where
  pub id : Text
  pub name : Text
  pub display_prefix : Text
  pub roles : List Role
  pub policy_id : Option Text
  pub enabled : Bool
  pub created_at : ℕ
  pub expires_at : Option ℕ
  pub last_used_at : Option ℕ

abbrev pub to_view : ApiKeyRecord → ApiKeyView
to_view r = record {
  id = r.id;
  name = r.name;
  display_prefix = r.display_prefix;
  roles = r.roles;
  policy_id = r.policy_id;
  enabled = r.enabled;
  created_at = r.created_at;
  expires_at = r.expires_at;
  last_used_at = r.last_used_at;
}

pub record CreatedApiKey : Type 0 where
  pub key : ApiKeyView
  pub secret : Text

pub data Refused : Type 0 where
  role_escalation : List Permission → Refused
  thrown : Text → Refused

pub data AuditAction : Type 0 where
  key_create key_revoke subscription_claim : AuditAction

-- An entry belongs to the tenant that the action was in; its detail is left out.
pub record AuditEntry : Type 0 where
  pub tenant_id : Text
  pub actor : Text
  pub action : AuditAction
  pub subject : Text
  pub client_ip : Option Text

-- `DELEGATABLE`, and what may be granted without being held.
abbrev pub is_delegatable : ℕ → Bool
is_delegatable c = nat_beq c (code sponsor_create)

unfoldable pub escalates : List Permission → ℕ → Bool
escalates held c = not (any (λ q. nat_beq (code q) c) held) && not (is_delegatable c)

unfoldable pub escalations : List Role → List Permission → List Permission
unfolding escalates permissions_for
escalations roles held = keep (λ p. escalates held (code p)) (permissions_for roles)

abbrev pub new_key : CreateKeyRequest → Generated → NewKey
new_key q g = record {
  id = g.id;
  name = q.name;
  hash = g.hash;
  display_prefix = g.display_prefix;
  roles = q.roles;
  policy_id = q.policy_id;
  created_at = g.now;
  expires_at = q.expires_at;
}

-- The keys, and the world of the audit log.
pub record AdminState (W : Type 0) : Type 0 where
  pub keys : KeyStore
  pub log : W

module _ {W : Type 0} where
  -- A store's answer, with the keys as it leaves them.
  stored : Result Text (Unit {0}) × KeyStore → W → Result Refused (Unit {0}) × AdminState W
  stored (ok _, keys) log = (ok tt, record { keys = keys; log = log })
  stored (err e, keys) log = (err (thrown e), record { keys = keys; log = log })

  module _ (record_entry : Option (AuditEntry → W → Result Text (Unit {0}) × W)) where
    audited : Result Text (Unit {0}) × W → KeyStore → Result Refused (Unit {0}) × AdminState W
    audited (ok _, log) keys = (ok tt, record { keys = keys; log = log })
    audited (err e, log) keys = (err (thrown e), record { keys = keys; log = log })

    -- `#audit`: nothing without a log; what it throws, the request throws.
    unfoldable pub audit :
        ActorContext → AuditAction → Text → AdminState W → Result Refused (Unit {0}) × AdminState W
    unfolding audited
    audit c action subject s = elim record_entry [
      | none ↦ (ok tt, s)
      | some write ↦
          audited
            (write
              (record {
                tenant_id = c.write_tenant;
                actor = c.actor;
                action = action;
                subject = subject;
                client_ip = c.client_ip;
              })
              s.log)
            s.keys
    ]

    pub unless_escalating :
        List Permission
        → CreateKeyRequest
        → Generated
        → ActorContext
        → AdminState W
        → Result Refused CreatedApiKey × AdminState W
    unfolding stored audit ApiKeys.create
    unless_escalating (p ∷ escalated) q g c s = (err (role_escalation (p ∷ escalated)), s)
    unless_escalating [] q g c s =
        and_then (stored (ApiKeys.create (tenant_scope c.write_tenant) (new_key q g) s.keys) s.log)
          (λ _ s. and_then (audit c key_create (text "api_key:" ++ g.id) s) (λ _ s. (
            ok (record { key = to_view (owned c.write_tenant (new_key q g)); secret = g.secret }),
            s,
          )))

    unfoldable pub create_key :
        CreateKeyRequest
        → Generated
        → ActorContext
        → AdminState W
        → Result Refused CreatedApiKey × AdminState W
    unfolding escalations unless_escalating
    create_key q g c s = unless_escalating (escalations q.roles c.permissions) q g c s

    pub revoked : Text → ActorContext → W → Bool × KeyStore → Result Refused Bool × AdminState W
    unfolding audit
    revoked id c log (false, keys) = (ok false, record { keys = keys; log = log })
    revoked id c log (true, keys) =
        and_then (audit c key_revoke (text "api_key:" ++ id) (record { keys = keys; log = log }))
          (λ _ s. (ok true, s))

    unfoldable pub revoke_key :
        Text → ActorContext → AdminState W → Result Refused Bool × AdminState W
    unfolding revoked ApiKeys.revoke
    revoke_key id c s = revoked id c s.log (ApiKeys.revoke (tenant_scope c.write_tenant) id s.keys)

  unfoldable pub list_keys : ActorContext → AdminState W → List ApiKeyView
  unfolding ApiKeys.list
  list_keys c s = map to_view (ApiKeys.list c.scope s.keys)
