-- ===== src/Policy/Repository.antt =====
-- backend/src/db/postgresPolicyRepository.ts: the policies of the database and their rules. A row keeps its
-- rules with it in the order of their ordinals, the two tables joined; `build` is the factory's.
pub mod Upsert
pub mod Accepted
use paymaster.Common.{
  ℕ, suc, Bool, true, false, ◌&&◌, ◌||◌, Option, none, some, List, [], ◌∷◌, ◌++◌, keep, any, ltb,
  ◌==◌, list_eq, nat_eq, if◌then◌else◌,
}
use paymaster.Common.Results.{Result, ok, err, ◌>>=◌, ◌>>◌, guard}
use paymaster.Common.Text.{Text, text}
use paymaster.Auth.Scope.{Scope, in_scope, writing_tenant}
use paymaster.Policy.Context.{PolicyRule, Policy}
use paymaster.Policy.Factory.{PolicyRuleSpec}

pub record PolicyDefinition (C : Type 0) : Type 0 where
  pub id : Text
  pub name : Text
  pub description : Option Text
  pub enabled : Bool
  pub rules : List (PolicyRuleSpec C)

-- A row, and what `toStored` shows of it.
pub record StoredPolicy (C : Type 0) : Type 0 where
  pub tenant_id : Text
  pub definition : PolicyDefinition C
  pub created_at : ℕ
  pub updated_at : ℕ

-- What a call throws.
abbrev pub Thrown : Type 0
Thrown = Text

-- The order of two texts by their units, for `ORDER BY p.tenant_id, p.id` under the collation C.
text_before : Text → Text → Bool
text_before [] [] = false
text_before [] (d ∷ t) = true
text_before (c ∷ s) [] = false
text_before (c ∷ s) (d ∷ t) = ltb c d || (c == d && text_before s t)

module _ {C : Type 0} where
  -- The key of the table: an id is unique in its tenant.
  unfoldable pub is_at : Text → Text → StoredPolicy C → Bool
  is_at tenant id p = p.tenant_id == tenant && p.definition.id == id

  row_before : StoredPolicy C → StoredPolicy C → Bool
  unfolding text_before
  row_before p q =
      text_before p.tenant_id q.tenant_id
      || (p.tenant_id == q.tenant_id && text_before p.definition.id q.definition.id)

  insert_row : StoredPolicy C → List (StoredPolicy C) → List (StoredPolicy C)
  unfolding row_before
  insert_row p [] = p ∷ []
  insert_row p (q ∷ rows) =
      let rest = insert_row p rows in if row_before q p then q ∷ rest else p ∷ q ∷ rows

  -- `ORDER BY`
  unfoldable pub ordered : List (StoredPolicy C) → List (StoredPolicy C)
  unfolding insert_row
  ordered [] = []
  ordered (p ∷ rows) = insert_row p (ordered rows)

  unfoldable pub list : Scope → List (StoredPolicy C) → List (StoredPolicy C)
  unfolding ordered in_scope
  list scope rows = ordered (keep (λ p. in_scope scope p.tenant_id) rows)

  find_id : Text → List (StoredPolicy C) → Option (StoredPolicy C)
  find_id id [] = none
  find_id id (p ∷ rows) = if p.definition.id == id then some p else find_id id rows

  -- None is `PolicyNotFoundError`.
  unfoldable pub get : Scope → Text → List (StoredPolicy C) → Option (StoredPolicy C)
  unfolding list find_id
  get scope id rows = find_id id (list scope rows)

  -- The row as an insert makes it, and as a conflict changes it.
  inserted : Text → PolicyDefinition C → ℕ → StoredPolicy C
  inserted owner d now = record {
    tenant_id = owner;
    definition = d;
    created_at = now;
    updated_at = now;
  }

  replaced : PolicyDefinition C → ℕ → StoredPolicy C → StoredPolicy C
  replaced d now p = record {
    tenant_id = p.tenant_id;
    definition = d;
    created_at = p.created_at;
    updated_at = now;
  }

  -- `INSERT … ON CONFLICT (tenant_id, id) DO UPDATE`, with the rules deleted and inserted again.
  unfoldable pub write_row :
      Text → PolicyDefinition C → ℕ → List (StoredPolicy C) → List (StoredPolicy C)
  unfolding is_at inserted replaced
  write_row owner d now [] = inserted owner d now ∷ []
  write_row owner d now (p ∷ rows) =
      let rest = write_row owner d now rows in
      if is_at owner d.id p then replaced d now p ∷ rows else p ∷ rest

  -- Whether a row was deleted. A policy that a key pins is refused by the foreign key.
  unfoldable pub delete :
      (Text → Text → Bool)
      → Scope
      → Text
      → List (StoredPolicy C)
      → Result Thrown Bool × List (StoredPolicy C)
  unfolding writing_tenant is_at
  delete is_pinned scope id rows = elim (writing_tenant scope) [
    | none ↦ (err (text "PlatformScopeCannotWriteError"), rows)
    | some owner ↦
        if is_pinned owner id && any (is_at owner id) rows
        then (err (text "foreign_key_violation"), rows)
        else (ok (any (is_at owner id) rows), keep (λ p. other_row (is_at owner id p)) rows)
  ]
    where
      other_row : Bool → Bool
      other_row true = false
      other_row false = true

  module _ {W : Type 0}
      (build : PolicyRuleSpec C → Option Text → Result Thrown (PolicyRule W)) where
    unfoldable pub build_all :
        List (PolicyRuleSpec C) → Option Text → Result Thrown (List (PolicyRule W))
    build_all [] tenant = ok []
    build_all (spec ∷ specs) tenant = do
      rule ← build spec tenant
      rules ← build_all specs tenant
      ok (rule ∷ rules)

    build_rows : List (StoredPolicy C) → Result Thrown (List (Policy W))
    unfolding build_all
    build_rows [] = ok []
    build_rows (p ∷ rows) = do
      rules ← build_all p.definition.rules (some p.tenant_id)
      policies ← build_rows rows
      ok (record { tenant_id = p.tenant_id; id = p.definition.id; rules = rules } ∷ policies)

    -- One rule that does not build throws, and with it the load.
    unfoldable pub load : Scope → List (StoredPolicy C) → Result Thrown (List (Policy W))
    unfolding build_rows list
    load scope rows = build_rows (keep (λ p. p.definition.enabled) (list scope rows))

    written :
        PolicyDefinition C
        → ℕ
        → List (StoredPolicy C)
        → Text
        → Result Thrown (List (PolicyRule W))
        → Result Thrown (Unit {0}) × List (StoredPolicy C)
    unfolding write_row
    written d now rows owner (err e) = (err e, rows)
    written d now rows owner (ok rules) = (ok tt, write_row owner d now rows)

    -- The rules are built, for no tenant, before anything is written.
    unfoldable pub upsert :
        Scope
        → PolicyDefinition C
        → ℕ
        → List (StoredPolicy C)
        → Result Thrown (Unit {0}) × List (StoredPolicy C)
    unfolding writing_tenant build_all written
    upsert scope d now rows = elim (writing_tenant scope) [
      | none ↦ (err (text "PlatformScopeCannotWriteError"), rows)
      | some owner ↦ written d now rows owner (build_all d.rules none)
    ]
