-- ===== src/Admin/Keys/Escalation.antt =====
-- What a new key of backend/src/api/admin/admin.service.ts can do.
use paymaster.Common.{
  ℕ, ◌≡◌, inl, inr, refl, ap, subst, true, false, not, Option, none, some, List, [], ◌∷◌, any, keep,
  All, nat_beq, nat_beq_iff, Bool-cases, Option-cases, ◌||◌, ◌==◌, list_eq, nat_eq,
}
use paymaster.Common.JsMap
use paymaster.Common.JsMap.{JsMap}
use paymaster.Common.Text.{Text}
use paymaster.Auth.Scope.{Scope, tenant_scope, writing_tenant, in_scope}
use paymaster.Auth.Permissions.{Permission, Role, code, permissions_for, grants, sponsor_create}
use paymaster.Auth.Authenticator.{ApiKeyRecord}
use paymaster.Auth.ApiKeys
use paymaster.Auth.ApiKeys.{KeyStore, NewKey, index, find_by_hash, has, owned, disabled, used_at}
use paymaster.Admin.Keys.{escalates, escalations}

module _ {V : Type 0} (P : V → Type 0) where
  abbrev pub AllValues : JsMap Text V → Type 0
  AllValues m = All (λ (e : Text × V). P e.1) m

  pub put-AllValues :
      (k : Text) (v : V) (m : JsMap Text V) → P v → AllValues m → AllValues (JsMap.put k v m)
  unfolding JsMap.put
  put-AllValues k v [] h all = (h, tt)
  put-AllValues k v ((j, w) ∷ m) h all = elim (Bool-cases (j == k)) [
    | inl same ↦ rw same (h, all.1)
    | inr differs ↦ rw differs (all.0, put-AllValues k v m h all.1)
  ]

  pub get-AllValues :
      (k : Text) (v : V) (m : JsMap Text V) → JsMap.get k m ≡ some v → AllValues m → P v
  unfolding JsMap.get
  get-AllValues k v [] e all = cc
  get-AllValues k v ((j, w) ∷ m) e all = elim (Bool-cases (j == k)) [
    | inl same ↦ subst P (value_of (rw same at e)) all.0
    | inr differs ↦ get-AllValues k v m (rw differs at e) all.1
  ]
    where
      value_of : {w v : V} → ◌≡◌ {A = Option V} (some w) (some v) → w ≡ v
      value_of h = cc

module _ (p : Permission) where
  -- A key that does not grant the permission, and a store of such keys.
  abbrev pub Lacks : ApiKeyRecord → Type 0
  Lacks r = grants (permissions_for r.roles) p ≡ false

  pub record IsWithout (s : KeyStore) : Type 0 where
    pub in_hashes : AllValues Lacks s.by_hash
    pub in_ids : AllValues Lacks s.by_id

  pub index-IsWithout :
      (r : ApiKeyRecord) (s : KeyStore) → Lacks r → IsWithout s → IsWithout (index r s)
  unfolding index
  index-IsWithout r s h w = record {
    in_hashes = put-AllValues Lacks r.hash r s.by_hash h w.in_hashes;
    in_ids = put-AllValues Lacks r.id r s.by_id h w.in_ids;
  }

  -- Where nothing is escalated, a permission that would be is not among them.
  none_escalated :
      (held granted : List Permission)
      → keep (λ q. escalates held (code q)) granted ≡ []
      → escalates held (code p) ≡ true
      → any (λ q. nat_beq (code q) (code p)) granted ≡ false
  none_escalated held [] e h = refl
  none_escalated held (x ∷ granted) e h = elim (Bool-cases (escalates held (code x))) [
    | inl up ↦ absurd (cc (rw up at e))
    | inr fine ↦ elim (Bool-cases (nat_beq (code x) (code p))) [
      | inl same ↦
          absurd (cc (fine, h, ap (escalates held) ((nat_beq_iff (code x) (code p)).0 same)))
      | inr differs ↦ rw differs (none_escalated held granted (rw fine at e) h)
    ]
  ]

  pub new-Lacks :
      (roles : List Role) (held : List Permission)
      → nat_beq (code p) (code sponsor_create) ≡ false
      → grants held p ≡ false
      → escalations roles held ≡ []
      → grants (permissions_for roles) p ≡ false
  unfolding escalations escalates grants
  new-Lacks roles held kept unheld e =
      none_escalated held (permissions_for roles) e (rw (unheld, kept) refl)

  pub touch-IsWithout :
      (id : Text) (now : ℕ) (s : KeyStore) → IsWithout s → IsWithout (ApiKeys.touch id now s)
  unfolding ApiKeys.touch used_at
  touch-IsWithout id now s h = go (JsMap.get id s.by_id) refl
    where
      go :
          (o : Option ApiKeyRecord)
          → JsMap.get id s.by_id ≡ o
          → IsWithout (elim o [ none ↦ s | some r ↦ index (used_at now r) s ])
      go none e = h
      go (some r) e =
          index-IsWithout (used_at now r) s (get-AllValues Lacks id r s.by_id e h.in_ids) h

  pub revoke-IsWithout :
      (scope : Scope) (id : Text) (s : KeyStore)
      → IsWithout s
      → IsWithout (ApiKeys.revoke scope id s).1
  unfolding ApiKeys.revoke disabled
  revoke-IsWithout scope id s h = elim (Option-cases (JsMap.get id s.by_id)) [
    | inl nothing ↦ rw (ApiKeys.revoke, nothing) h
    | inr (r, found) ↦
        rw (ApiKeys.revoke, found)
          (elim (Bool-cases (not r.enabled || not (in_scope scope r.tenant_id))) [
            | inl out ↦ rw out h
            | inr in_list ↦
                rw in_list (
                  index-IsWithout (disabled r) s (get-AllValues Lacks id r s.by_id found h.in_ids)
                    h)
          ])
  ]

  pub create-IsWithout :
      (tenant : Text) (k : NewKey) (s : KeyStore)
      → grants (permissions_for k.roles) p ≡ false
      → IsWithout s
      → IsWithout (ApiKeys.create (tenant_scope tenant) k s).1
  unfolding ApiKeys.create writing_tenant
  create-IsWithout tenant k s lacks h = elim (Bool-cases (has k.id s.by_id)) [
    | inl taken ↦ rw taken h
    | inr free ↦ rw free (elim (Bool-cases (has k.hash s.by_hash)) [
      | inl taken ↦ rw taken h
      | inr fresh ↦ rw fresh (index-IsWithout (owned tenant k) s lacks h)
    ])
  ]
