-- ===== src/Policy/Source.antt =====
-- backend/src/policy/policySource.ts: the active policies, by tenant and id, swapped as a whole.
use paymaster.Common.{
  ℕ, suc, ◌≡◌, ◌≢◌, refl, ap, sym, subst, ◌∙◌, ◌⊎◌, Bool-cases, Option, none, some, List, [], ◌∷◌,
  ◌++◌, length, All, ◌==◌, list_eq, nat_eq, list_beq_iff, arith, Option-cases, inl, inr,
}
use paymaster.Common.Results.{Result, ok, err}
use paymaster.Common.JsMap
use paymaster.Common.JsMap.{JsMap, map_laws}
use paymaster.Common.Text.{Text, text, cut_at_first}
use paymaster.Fault.{Fault, unknown_policy, failed}
use paymaster.Policy.Context.{Policy}

-- A zero unit stands between the tenant and the policy's id.
unfoldable pub key_of : Text → Text → Text
key_of tenant_id policy_id = tenant_id ++ 0 ∷ policy_id

abbrev pub Policies : Type 0 → Type 0
Policies W = JsMap Text (Policy W)

pub record PolicySource (W : Type 0) : Type 0 where
  pub policies : Policies W
  pub loaded_at : ℕ
  pub generation : ℕ

pub record PolicyReloadResult : Type 0 where
  pub count : ℕ
  pub generation : ℕ
  pub loaded_at : ℕ

-- A tenant id has no zero unit (`TENANT_ID_PATTERN`).
abbrev pub IsTenantId : Text → Type 0
IsTenantId t = All (λ c. c ≢ 0) t

put-cases :
    {W : Type 0} (k : Text) (p : Policy W) (m : Policies W) (j : Text) (q : Policy W)
    → JsMap.get j (JsMap.put k p m) ≡ some q
    → ((p ≡ q) × (k ≡ j)) ⊎ (JsMap.get j m ≡ some q)
put-cases k p m j q e = elim (Bool-cases (k == j)) [
  | inl same ↦
      let g : JsMap.get j (JsMap.put k p m) ≡ some p = rw same at (JsMap.get-put k j p m) in
      inl (cc (g, e), (list_beq_iff k j).0 same)
  | inr other ↦
      let g : JsMap.get j (JsMap.put k p m) ≡ JsMap.get j m = rw other at (JsMap.get-put k j p m) in
      inr (sym g ∙ e)
]

module _ {W : Type 0} where
  -- The loop that builds the next map; a duplicate is an error.
  unfoldable pub add_all : List (Policy W) → Policies W → Result Fault (Policies W)
  unfolding key_of
  add_all [] next = ok next
  add_all (p ∷ ps) next =
      let rest = add_all ps (JsMap.put (key_of p.tenant_id p.id) p next) in
      elim (JsMap.get (key_of p.tenant_id p.id) next) [
        | none ↦ rest
        | some _ ↦ err (failed (text "duplicate policy id in policy set"))
      ]

  swapped :
      ℕ
      → PolicySource W
      → Result Fault (Policies W)
      → Result Fault PolicyReloadResult × PolicySource W
  swapped now s (err e) = (err e, s)
  swapped now s (ok next) = (
    ok (record { count = length next; generation = suc s.generation; loaded_at = now }),
    record { policies = next; loaded_at = now; generation = suc s.generation },
  )

  -- `reload`, on what the repository answered.
  unfoldable pub reload :
      ℕ
      → Result Fault (List (Policy W))
      → PolicySource W
      → Result Fault PolicyReloadResult × PolicySource W
  unfolding swapped add_all
  reload now (err e) s = (err e, s)
  reload now (ok loaded) s = swapped now s (add_all loaded [])

  found : Option (Policy W) → Result Fault (Policy W)
  found none = err unknown_policy
  found (some p) = ok p

  unfoldable pub policy_of : Text → Text → PolicySource W → Result Fault (Policy W)
  unfolding found key_of
  policy_of tenant_id id s = found (JsMap.get (key_of tenant_id id) s.policies)

  -- Each policy stands under its own tenant and id.
  pub record IsKeyed (m : Policies W) : Type 0 where
    pub at : (k : Text) (p : Policy W) → JsMap.get k m ≡ some p → k ≡ key_of p.tenant_id p.id
    pub named : (k : Text) (p : Policy W) → JsMap.get k m ≡ some p → IsTenantId p.tenant_id

  IsKeyed-put :
      (p : Policy W) (m : Policies W)
      → IsTenantId p.tenant_id
      → IsKeyed m
      → IsKeyed (JsMap.put (key_of p.tenant_id p.id) p m)
  IsKeyed-put p m t h =
      let k = key_of p.tenant_id p.id in
      record {
        at = λ j q e. elim (put-cases k p m j q e) [
          | inl (same, at_k) ↦ sym at_k ∙ ap (λ (x : Policy W). key_of x.tenant_id x.id) same
          | inr old ↦ h.at j q old
        ];
        named = λ j q e. elim (put-cases k p m j q e) [
          | inl (same, at_k) ↦ subst (λ (x : Policy W). IsTenantId x.tenant_id) same t
          | inr old ↦ h.named j q old
        ];
      }

  add_all-IsKeyed :
      (ps : List (Policy W)) (m n : Policies W)
      → All (λ (p : Policy W). IsTenantId p.tenant_id) ps
      → IsKeyed m
      → add_all ps m ≡ ok n
      → IsKeyed n
  unfolding add_all
  add_all-IsKeyed [] m n t h e = subst IsKeyed (cc) h
  add_all-IsKeyed (p ∷ ps) m n t h e = elim (Option-cases (JsMap.get (key_of p.tenant_id p.id) m)) [
    | inl fresh ↦
        add_all-IsKeyed ps (JsMap.put (key_of p.tenant_id p.id) p m) n t.1 (IsKeyed-put p m t.0 h)
          (rw (fresh, add_all) at e)
    | inr (q, taken) ↦ absurd (cc (rw (taken, add_all) at e))
  ]

  no_policies : IsKeyed []
  no_policies = record {
    at = λ k p e. absurd (cc (e, JsMap.get-nil {V = Policy W} k));
    named = λ k p e. absurd (cc (e, JsMap.get-nil {V = Policy W} k));
  }

  swapped-ok :
      (now : ℕ) (s t : PolicySource W) (r : PolicyReloadResult) (x : Result Fault (Policies W))
      → swapped now s x ≡ (ok r, t)
      → (next : Policies W) × (x ≡ ok next) × (t.policies ≡ next)
  unfolding swapped
  swapped-ok now s t r (err f) e = absurd (cc (ap (λ x. x.0) e))
  swapped-ok now s t r (ok next) e = (
    next,
    refl,
    ap (λ (x : Result Fault PolicyReloadResult × PolicySource W). x.1.policies) (sym e),
  )

  found-some :
      (tenant_id id : Text) (t : PolicySource W) (p : Policy W)
      → policy_of tenant_id id t ≡ ok p
      → JsMap.get (key_of tenant_id id) t.policies ≡ some p
  unfolding policy_of found
  found-some tenant_id id t p e = ground arith

  -- A tenant is served only policies of its own: what is found under a tenant and an id, in a set
  -- that a reload built from policies of well-formed tenants, belongs to that tenant and has that id.
  pub reload-own :
      (now : ℕ) (loaded : List (Policy W)) (s t : PolicySource W) (r : PolicyReloadResult)
      (tenant_id id : Text) (p : Policy W)
      → All (λ (q : Policy W). IsTenantId q.tenant_id) loaded
      → IsTenantId tenant_id
      → reload now (ok loaded) s ≡ (ok r, t)
      → policy_of tenant_id id t ≡ ok p
      → (p.tenant_id ≡ tenant_id) × (p.id ≡ id)
  unfolding reload
  reload-own now loaded s t r tenant_id id p all_named named e g =
      let (next, built, same) = swapped-ok now s t r (add_all loaded []) e in
      let keyed = add_all-IsKeyed loaded [] next all_named no_policies built in
      let at_key : JsMap.get (key_of tenant_id id) next ≡ some p =
        ap (JsMap.get (key_of tenant_id id)) (sym same) ∙ found-some tenant_id id t p g in
      let k : tenant_id ++ 0 ∷ id ≡ p.tenant_id ++ 0 ∷ p.id =
        unfold key_of in keyed.at (key_of tenant_id id) p at_key in
      let (own, this) =
        cut_at_first 0 tenant_id p.tenant_id id p.id named (keyed.named _ p at_key) k in
      (sym own, sym this)
