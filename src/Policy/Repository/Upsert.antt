-- ===== src/Policy/Repository/Upsert.antt =====
-- What backend/src/db/postgresPolicyRepository.ts accepts, it can load.
use paymaster.Common.{
  ℕ, ◌≡◌, refl, ap, sym, ◌∙◌, Bool, true, not, ◌&&◌, Option, some, List, [], ◌∷◌, keep, All,
  All-keep, ◌==◌, ==_refl, list_eq, nat_eq, list_beq_iff, Bool-cases, inl, inr, arith,
}
use paymaster.Common.Results.{Result, is_ok, is_ok-both}
use paymaster.Common.Text.{Text}
use paymaster.Auth.Scope.{Scope, in_scope}
use paymaster.Policy.Context.{PolicyRule}
use paymaster.Policy.Factory.{PolicyRuleSpec}
use paymaster.Policy.Repository.{
  PolicyDefinition, StoredPolicy, Thrown, is_at, row_before, insert_row, ordered, list, inserted,
  replaced, write_row, build_all, build_rows, load,
}

and_first : (a b : Bool) → (a && b) ≡ true → a ≡ true
and_first a b h = ground arith

and_second : (a b : Bool) → (a && b) ≡ true → b ≡ true
and_second a b h = ground arith

module _ {C : Type 0} where
  insert_row-All :
      (P : StoredPolicy C → Type 0) (p : StoredPolicy C) (rows : List (StoredPolicy C))
      → P p
      → All P rows
      → All P (insert_row p rows)
  unfolding insert_row
  insert_row-All P p [] h k = (h, tt)
  insert_row-All P p (q ∷ rows) h k = elim (Bool-cases (row_before q p)) [
    | inl before ↦ rw before (k.0, insert_row-All P p rows h k.1)
    | inr behind ↦ rw behind (h, k)
  ]

  All-insert_row :
      (P : StoredPolicy C → Type 0) (p : StoredPolicy C) (rows : List (StoredPolicy C))
      → All P (insert_row p rows)
      → P p × All P rows
  unfolding insert_row
  All-insert_row P p [] k = k
  All-insert_row P p (q ∷ rows) k = elim (Bool-cases (row_before q p)) [
    | inl before ↦
        let both : P q × All P (insert_row p rows) = rw before at k in
        let (first, rest) = All-insert_row P p rows both.1 in (first, (both.0, rest))
    | inr behind ↦ rw behind at k
  ]

  ordered-All :
      (P : StoredPolicy C → Type 0) (rows : List (StoredPolicy C))
      → All P rows
      → All P (ordered rows)
  unfolding ordered
  ordered-All P [] h = tt
  ordered-All P (p ∷ rows) h = insert_row-All P p (ordered rows) h.0 (ordered-All P rows h.1)

  All-ordered :
      (P : StoredPolicy C → Type 0) (rows : List (StoredPolicy C))
      → All P (ordered rows)
      → All P rows
  unfolding ordered
  All-ordered P [] h = tt
  All-ordered P (p ∷ rows) h =
      let (first, rest) = All-insert_row P p (ordered rows) h in (first, All-ordered P rows rest)

  All-of_kept :
      (P : StoredPolicy C → Type 0) (t : StoredPolicy C → Bool) (rows : List (StoredPolicy C))
      → All P (keep t rows)
      → All (λ p. t p ≡ true → P p) rows
  All-of_kept P t [] h = tt
  All-of_kept P t (p ∷ rows) h = elim (Bool-cases (t p)) [
    | inl in_list ↦
        let both : P p × All P (keep t rows) = rw in_list at h in
        (λ _. both.0, All-of_kept P t rows both.1)
    | inr out ↦ (λ e. absurd (cc (out, e)), All-of_kept P t rows (rw out at h))
  ]

  kept-All :
      (P : StoredPolicy C → Type 0) (t : StoredPolicy C → Bool) (rows : List (StoredPolicy C))
      → All (λ p. t p ≡ true → P p) rows
      → All P (keep t rows)
  kept-All P t rows h = All-keep (λ p. t p ≡ true → P p) P t rows (λ p f e. f e) h

  -- What holds of the rows that a write leaves alone, and of the one it makes, holds of all after it.
  pub write_row-All :
      (P : StoredPolicy C → Type 0) (owner : Text) (d : PolicyDefinition C) (now : ℕ)
      (rows : List (StoredPolicy C))
      → ((p : StoredPolicy C) → p.tenant_id ≡ owner → p.definition ≡ d → P p)
      → All P rows
      → All P (write_row owner d now rows)
  unfolding write_row is_at inserted replaced
  write_row-All P owner d now [] made h = (made (inserted owner d now) refl refl, tt)
  write_row-All P owner d now (p ∷ rows) made h = elim (Bool-cases (is_at owner d.id p)) [
    | inl same ↦ rw same (
      made (replaced d now p)
          ((list_beq_iff p.tenant_id owner).0
            (and_first (p.tenant_id == owner) (p.definition.id == d.id) same))
          refl,
      h.1,
    )
    | inr differs ↦ rw differs (h.0, write_row-All P owner d now rows made h.1)
  ]

  is_at-inserted :
      (owner : Text) (d : PolicyDefinition C) (now : ℕ)
      → is_at owner d.id (inserted owner d now) ≡ true
  unfolding is_at inserted
  is_at-inserted owner d now = rw (==_refl owner, ==_refl d.id) refl

  is_at-replaced :
      (owner : Text) (d : PolicyDefinition C) (now : ℕ) (p : StoredPolicy C)
      → is_at owner d.id p ≡ true
      → is_at owner d.id (replaced d now p) ≡ true
  unfolding is_at replaced
  is_at-replaced owner d now p same =
      rw (and_first (p.tenant_id == owner) (p.definition.id == d.id) same, ==_refl d.id) refl

  -- A write leaves the rows of other keys as they are, in their order.
  pub write_row-others :
      (owner : Text) (d : PolicyDefinition C) (now : ℕ) (rows : List (StoredPolicy C))
      → keep (λ p. not (is_at owner d.id p)) (write_row owner d now rows)
        ≡ keep (λ p. not (is_at owner d.id p)) rows
  unfolding write_row
  write_row-others owner d now [] = rw (is_at-inserted owner d now) refl
  write_row-others owner d now (p ∷ rows) = elim (Bool-cases (is_at owner d.id p)) [
    | inl same ↦ rw (same, is_at-replaced owner d now p same) refl
    | inr differs ↦ rw (differs, differs) (ap (λ l. p ∷ l) (write_row-others owner d now rows))
  ]

module _ {C W : Type 0}
    (build : PolicyRuleSpec C → Option Text → Result Thrown (PolicyRule W)) where
  abbrev pub Builds : StoredPolicy C → Type 0
  Builds p = is_ok (build_all build p.definition.rules (some p.tenant_id)) ≡ true

  build_rows-cons :
      (p : StoredPolicy C) (rows : List (StoredPolicy C))
      → is_ok (build_rows build (p ∷ rows)) ≡ (
          is_ok (build_all build p.definition.rules (some p.tenant_id))
          && is_ok (build_rows build rows))
  unfolding build_rows
  build_rows-cons p rows =
      is_ok-both (build_all build p.definition.rules (some p.tenant_id)) (build_rows build rows)
        (λ rules policies.
          record { tenant_id = p.tenant_id; id = p.definition.id; rules = rules } ∷ policies)

  build_rows-Builds :
      (rows : List (StoredPolicy C)) → is_ok (build_rows build rows) ≡ true → All Builds rows
  build_rows-Builds [] h = tt
  build_rows-Builds (p ∷ rows) h =
      let both = sym (build_rows-cons p rows) ∙ h in
      (
        and_first (is_ok (build_all build p.definition.rules (some p.tenant_id)))
            (is_ok (build_rows build rows)) both,
        build_rows-Builds rows (
            and_second (is_ok (build_all build p.definition.rules (some p.tenant_id)))
              (is_ok (build_rows build rows)) both),
      )

  Builds-build_rows :
      (rows : List (StoredPolicy C)) → All Builds rows → is_ok (build_rows build rows) ≡ true
  unfolding build_rows
  Builds-build_rows [] h = refl
  Builds-build_rows (p ∷ rows) h =
      build_rows-cons p rows ∙ rw (h.0, Builds-build_rows rows h.1) refl

  pub build_all-tenants :
      ((spec : PolicyRuleSpec C) (s t : Option Text) → is_ok (build spec s) ≡ is_ok (build spec t))
      → (specs : List (PolicyRuleSpec C)) (s t : Option Text)
      → is_ok (build_all build specs s) ≡ is_ok (build_all build specs t)
  unfolding build_all
  build_all-tenants any_tenant [] s t = refl
  build_all-tenants any_tenant (spec ∷ specs) s t =
      is_ok-both (build spec s) (build_all build specs s) (λ rule rules. rule ∷ rules)
      ∙ (λ i. any_tenant spec s t i && build_all-tenants any_tenant specs s t i)
      ∙ sym (is_ok-both (build spec t) (build_all build specs t) (λ rule rules. rule ∷ rules))

  -- What a load needs of a row.
  abbrev pub Needs : Scope → StoredPolicy C → Type 0
  Needs scope p = in_scope scope p.tenant_id ≡ true → p.definition.enabled ≡ true → Builds p

  pub load-Needs :
      (scope : Scope) (rows : List (StoredPolicy C))
      → is_ok (load build scope rows) ≡ true
      → All (Needs scope) rows
  unfolding load list
  load-Needs scope rows h =
      let ready = keep (λ (p : StoredPolicy C). in_scope scope p.tenant_id) rows in
      All-of_kept (λ p. p.definition.enabled ≡ true → Builds p) (λ p. in_scope scope p.tenant_id)
        rows
        (All-ordered (λ p. p.definition.enabled ≡ true → Builds p) ready
          (All-of_kept Builds (λ p. p.definition.enabled) (ordered ready)
            (build_rows-Builds (keep (λ p. p.definition.enabled) (ordered ready)) h)))

  pub Needs-load :
      (scope : Scope) (rows : List (StoredPolicy C))
      → All (Needs scope) rows
      → is_ok (load build scope rows) ≡ true
  unfolding load list
  Needs-load scope rows h =
      let ready = keep (λ (p : StoredPolicy C). in_scope scope p.tenant_id) rows in
      Builds-build_rows (keep (λ p. p.definition.enabled) (ordered ready)) (
        kept-All Builds (λ p. p.definition.enabled) (ordered ready)
          (ordered-All (λ p. p.definition.enabled ≡ true → Builds p) ready
            (kept-All (λ p. p.definition.enabled ≡ true → Builds p)
              (λ p. in_scope scope p.tenant_id) rows h)))
