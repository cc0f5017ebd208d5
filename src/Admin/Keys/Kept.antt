-- ===== src/Admin/Keys/Kept.antt =====
-- What a request on keys of backend/src/api/admin/admin.service.ts does to the store, with its audit.
use paymaster.Common.{
  ◌++◌, ◌≡◌, refl, sym, subst, Bool, true, false, Option, none, some, List, [], ◌∷◌, list_eq,
  nat_eq,
}
use paymaster.Common.Results.{Result, ok, err, and_then, and_then-elim}
use paymaster.Common.Text.{Text, text}
use paymaster.Auth.Scope.{tenant_scope}
use paymaster.Auth.Permissions.{Permission, permissions_for, grants}
use paymaster.Auth.ApiKeys
use paymaster.Auth.ApiKeys.{KeyStore, NewKey, index, find_by_hash, has, owned, disabled, used_at}
use paymaster.Admin.Keys.{
  ActorContext, AuditAction, key_create, key_revoke, Refused, to_view, CreateKeyRequest, Generated,
  AuditEntry, AdminState, new_key, stored, audit, audited, unless_escalating, revoked,
}
use paymaster.Admin.Keys.Escalation.{IsWithout, create-IsWithout}

module _ {W : Type 0} (record_entry : Option (AuditEntry → W → Result Text (Unit {0}) × W)) where
  stored-keys : (x : Result Text (Unit {0}) × KeyStore) (log : W) → (stored x log).1.keys ≡ x.1
  unfolding stored
  stored-keys (ok _, keys) log = refl
  stored-keys (err e, keys) log = refl

  audited-keys :
      (x : Result Text (Unit {0}) × W) (keys : KeyStore)
      → (audited record_entry x keys).1.keys ≡ keys
  unfolding audited
  audited-keys (ok _, log) keys = refl
  audited-keys (err e, log) keys = refl

  audit-keys :
      (c : ActorContext) (action : AuditAction) (subject : Text) (s : AdminState W)
      → (audit record_entry c action subject s).1.keys ≡ s.keys
  unfolding audit
  audit-keys c action subject s =
      elim record_entry as (λ k. (audit k c action subject s).1.keys ≡ s.keys) [
        | none ↦ refl
        | some write ↦ audited-keys (write _ s.log) s.keys
      ]

  module _ (p : Permission) where
    abbrev Kept : {B : Type 0} → Result Refused B × AdminState W → Type 0
    Kept x = IsWithout p x.1.keys

    audit_then-Kept :
        {B : Type 0} (c : ActorContext) (action : AuditAction) (subject : Text) (s : AdminState W)
        (b : B)
        → IsWithout p s.keys
        → Kept (and_then (audit record_entry c action subject s) (λ _ s. (ok b, s)))
    audit_then-Kept c action subject s b h =
        let still = subst (IsWithout p) (sym (audit-keys c action subject s)) h in
        and_then-elim Kept (audit record_entry c action subject s) (λ _ s. (ok b, s)) (λ e _. still)
          (λ _ _. still)

    -- A key that is made by a caller without the permission, unless it may be granted without.
    pub unless_escalating-Kept :
        (es : List Permission) (q : CreateKeyRequest) (g : Generated) (c : ActorContext)
        (s : AdminState W)
        → (es ≡ [] → grants (permissions_for q.roles) p ≡ false)
        → IsWithout p s.keys
        → Kept (unless_escalating record_entry es q g c s)
    unfolding unless_escalating
    unless_escalating-Kept (e ∷ es) q g c s lacks h = h
    unless_escalating-Kept [] q g c s lacks h =
        let made = ApiKeys.create (tenant_scope c.write_tenant) (new_key q g) s.keys in
        let still =
          subst (IsWithout p) (sym (stored-keys made s.log))
            (create-IsWithout p c.write_tenant (new_key q g) s.keys (lacks refl) h) in
        and_then-elim Kept (stored made s.log)
          (λ _ s. and_then (audit record_entry c key_create (text "api_key:" ++ g.id) s) (λ _ s. (
            ok (record { key = to_view (owned c.write_tenant (new_key q g)); secret = g.secret }),
            s,
          )))
          (λ e _. still)
          (λ _ _.
            audit_then-Kept c key_create (text "api_key:" ++ g.id) (stored made s.log).1 _ still)

    pub revoked-Kept :
        (id : Text) (c : ActorContext) (log : W) (x : Bool × KeyStore)
        → IsWithout p x.1
        → Kept (revoked record_entry id c log x)
    unfolding revoked
    revoked-Kept id c log (false, keys) h = h
    revoked-Kept id c log (true, keys) h =
        audit_then-Kept c key_revoke (text "api_key:" ++ id) (record { keys = keys; log = log })
          true h
