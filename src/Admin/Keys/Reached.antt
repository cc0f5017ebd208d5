-- ===== src/Admin/Keys/Reached.antt =====
-- What keys and sessions can come to grant, however they are made: by the keys of
-- backend/src/api/admin/admin.service.ts, the sessions of backend/src/auth/tenantSession.ts and those that
-- backend/src/api/admin/auth.controller.ts exchanges a caller's credential for.
use paymaster.Common.{
  ℕ, ◌≡◌, ◌⊎◌, inl, inr, refl, sym, subst, false, Option, List, [], ◌∷◌, All, Member, here, there,
  nat_beq, list_eq, nat_eq,
}
use paymaster.Common.Results.{Result, ok}
use paymaster.Common.Text.{Text}
use paymaster.Auth.Scope.{tenant_scope}
use paymaster.Auth.Permissions.{
  Permission, Role, code, permissions_for, grants, platform_read, billing_write, sponsor_create,
}
use paymaster.Auth.Authenticator.{Principal, principal_of, authenticate, authenticate-IsKeyOf}
use paymaster.Auth.Tenants.{TenantRole}
use paymaster.Auth.TenantSession.{roles_for}
use paymaster.Auth.TenantSession.Bound.{role-spends_nothing}
use paymaster.Auth.ApiKeys
use paymaster.Auth.ApiKeys.{KeyStore, NewKey, index, find_by_hash, has, owned, disabled, used_at}
use paymaster.Admin.Keys.{
  actor_context, CreateKeyRequest, Generated, AuditEntry, AdminState, escalations, create_key,
  revoke_key,
}
use paymaster.Admin.Keys.Escalation.{
  Lacks, IsWithout, touch-IsWithout, revoke-IsWithout, get-AllValues, new-Lacks,
}
use paymaster.Admin.Keys.Kept.{unless_escalating-Kept, revoked-Kept}

-- The keys, and the roles of the session tokens that were signed.
pub record Credentials (W : Type 0) : Type 0 where
  pub admin : AdminState W
  pub sessions : List (List Role)

module _ {W : Type 0} (hash_api_key : Text → Text)
    (record_entry : Option (AuditEntry → W → Result Text (Unit {0}) × W)) where
  -- A caller: the owner of a key, or of a session.
  pub data IsCaller (w : Credentials W) : Principal → Type 0 where
    by_key :
        (presented : Option Text) (now : ℕ) (p : Principal)
        → authenticate hash_api_key (find_by_hash w.admin.keys) presented now ≡ ok p
        → IsCaller w p
    by_session :
        (p : Principal)
        → Member p.roles w.sessions
        → p.permissions ≡ permissions_for p.roles
        → IsCaller w p

  pub data Administered (start : AdminState W) : Credentials W → Type 0 where
    begun : Administered start (record { admin = start; sessions = [] })
    signed_in :
        (w : Credentials W) (role : TenantRole)
        → Administered start w
        → Administered start (record { admin = w.admin; sessions = roles_for role ∷ w.sessions })
    exchanged :
        (w : Credentials W) (p : Principal)
        → Administered start w
        → IsCaller w p
        → Administered start (record { admin = w.admin; sessions = p.roles ∷ w.sessions })
    created :
        (w : Credentials W) (p : Principal) (ip : Option Text) (q : CreateKeyRequest)
        (g : Generated)
        → Administered start w
        → IsCaller w p
        → Administered start (record {
          admin = (create_key record_entry q g (actor_context p ip) w.admin).1;
          sessions = w.sessions;
        })
    revoked_key :
        (w : Credentials W) (p : Principal) (ip : Option Text) (id : Text)
        → Administered start w
        → IsCaller w p
        → Administered start (record {
          admin = (revoke_key record_entry id (actor_context p ip) w.admin).1;
          sessions = w.sessions;
        })
    used :
        (w : Credentials W) (id : Text) (now : ℕ)
        → Administered start w
        → Administered start (record {
          admin = record { keys = ApiKeys.touch id now w.admin.keys; log = w.admin.log };
          sessions = w.sessions;
        })

  -- A permission that nothing grants: no key, and no session that was signed.
  record IsUngranted (p : Permission) (w : Credentials W) : Type 0 where
    keys : IsWithout p w.admin.keys
    sessions : All (λ roles. grants (permissions_for roles) p ≡ false) w.sessions

  member-All : {A : Type 0} (P : A → Type 0) (a : A) (xs : List A) → Member a xs → All P xs → P a
  member-All P a [] m h = elim m [ ]
  member-All P a (x ∷ xs) here h = h.0
  member-All P a (x ∷ xs) (there m) h = member-All P a xs m h.1

  -- So no caller has it, by its permissions or its roles.
  caller-lacks :
      (p : Permission) (w : Credentials W) (c : Principal)
      → IsUngranted p w
      → IsCaller w c
      → (grants c.permissions p ≡ false) × (grants (permissions_for c.roles) p ≡ false)
  unfolding find_by_hash principal_of
  caller-lacks p w c h (by_key presented now _ e) =
      let owned =
        (authenticate-IsKeyOf hash_api_key (find_by_hash w.admin.keys) presented now c).0 e in
      let lacks =
        get-AllValues (Lacks p) (hash_api_key owned.key) owned.stored w.admin.keys.by_hash
          owned.found h.keys.in_hashes in
      let same = sym owned.is_principal in
      (
        subst (λ (x : Principal). grants x.permissions p ≡ false) same lacks,
        subst (λ (x : Principal). grants (permissions_for x.roles) p ≡ false) same lacks,
      )
  caller-lacks p w c h (by_session _ signed e) =
      let lacks =
        member-All (λ roles. grants (permissions_for roles) p ≡ false) c.roles w.sessions signed
          h.sessions in
      (subst (λ x. grants x p ≡ false) (sym e) lacks, lacks)

  module _ (start : AdminState W) (p : Permission)
      (across : (p ≡ platform_read) ⊎ (p ≡ billing_write)) where
    not_delegated :
        (q : Permission)
        → (q ≡ platform_read) ⊎ (q ≡ billing_write)
        → nat_beq (code q) (code sponsor_create) ≡ false
    not_delegated q (inl e) = rw e refl
    not_delegated q (inr e) = rw e refl

    Administered-IsUngranted :
        (w : Credentials W) → IsWithout p start.keys → Administered start w → IsUngranted p w
    unfolding create_key revoke_key actor_context
    Administered-IsUngranted w h begun = record { keys = h; sessions = tt }
    Administered-IsUngranted w h (signed_in v role r) =
        let before = Administered-IsUngranted v h r in
        record {
          keys = before.keys;
          sessions = (role-spends_nothing role p (inr across), before.sessions);
        }
    Administered-IsUngranted w h (exchanged v c r by) =
        let before = Administered-IsUngranted v h r in
        record {
          keys = before.keys;
          sessions = ((caller-lacks p v c before by).1, before.sessions);
        }
    Administered-IsUngranted w h (created v c i q g r by) =
        let before = Administered-IsUngranted v h r in
        record {
          keys =
              unless_escalating-Kept record_entry p (escalations q.roles c.permissions) q g
                (actor_context c i) v.admin
                (new-Lacks p q.roles c.permissions (not_delegated p across)
                  (caller-lacks p v c before by).0)
                before.keys;
          sessions = before.sessions;
        }
    Administered-IsUngranted w h (revoked_key v c i id r by) =
        let before = Administered-IsUngranted v h r in
        record {
          keys =
              revoked-Kept record_entry p id (actor_context c i) v.admin.log
                (ApiKeys.revoke (tenant_scope c.tenant_id) id v.admin.keys)
                (revoke-IsWithout p (tenant_scope c.tenant_id) id v.admin.keys before.keys);
          sessions = before.sessions;
        }
    Administered-IsUngranted w h (used v id now r) =
        let before = Administered-IsUngranted v h r in
        record {
          keys = touch-IsWithout p id now v.admin.keys before.keys;
          sessions = before.sessions;
        }

  -- What reaches across tenants cannot be had by asking: where no key grants reading across tenants,
  -- or no key grants the recording of payments, then after any sequence of sign-ins, exchanges of a
  -- credential for a session, keys made and revoked by whoever is a caller at the time, and uses of
  -- keys, no caller has that permission, whether the requests succeeded, were refused, or threw.
  pub Administered-lacks :
      (start : AdminState W) (p : Permission) (w : Credentials W) (c : Principal)
      → (p ≡ platform_read) ⊎ (p ≡ billing_write)
      → IsWithout p start.keys
      → Administered start w
      → IsCaller w c
      → grants c.permissions p ≡ false
  Administered-lacks start p w c across h reached by =
      (caller-lacks p w c (Administered-IsUngranted start p across w h reached) by).0
