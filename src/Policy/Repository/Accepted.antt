-- ===== src/Policy/Repository/Accepted.antt =====
-- A write of backend/src/db/postgresPolicyRepository.ts and the next load, with the rules of
-- backend/src/policy/policyFactory.ts.
use paymaster.Common.{ℕ, ◌≡◌, refl, ap, ◌∙◌, Bool, true, not, Option, none, some, List, keep}
use paymaster.Common.Results.{Result, ok, err, is_ok}
use paymaster.Common.Text.{Text}
use paymaster.Auth.Scope.{Scope, tenant_scope, writing_tenant}
use paymaster.Policy.Context.{PolicyRule}
use paymaster.Policy.Quota.Store.{QuotaStore}
use paymaster.Policy.Factory.{RuleType, RuleConfig, PolicyRuleSpec, build}
use paymaster.Policy.Factory.Tenants.{build-tenants}
use paymaster.Policy.Repository.{
  PolicyDefinition, StoredPolicy, Thrown, is_at, write_row, build_all, load, upsert, written,
}
use paymaster.Policy.Repository.Upsert.{
  Needs, load-Needs, Needs-load, build_all-tenants, write_row-All, write_row-others,
}

module _ {C W : Type 0} (make : PolicyRuleSpec C → Option Text → Result Thrown (PolicyRule W))
    (any_tenant : (spec : PolicyRuleSpec C) (s t : Option Text)
      → is_ok (make spec s) ≡ is_ok (make spec t)) where
  written-load :
      (owner : Text) (d : PolicyDefinition C) (now : ℕ) (rows : List (StoredPolicy C))
      (built : Result Thrown (List (PolicyRule W))) (reader : Scope)
      → build_all make d.rules none ≡ built
      → is_ok (load make reader rows) ≡ true
      → (is_ok (load make reader (written make d now rows owner built).1) ≡ true)
        × (keep (λ p. not (is_at owner d.id p)) (written make d now rows owner built).1
            ≡ keep (λ p. not (is_at owner d.id p)) rows)
  unfolding written
  written-load owner d now rows (err e) reader made loads = (loads, refl)
  written-load owner d now rows (ok rules) reader made loads = (
    Needs-load make reader (write_row owner d now rows) (
        write_row-All (Needs make reader) owner d now rows
          (λ p _ same _ _.
            ap (λ (x : PolicyDefinition C). is_ok (build_all make x.rules (some p.tenant_id))) same
            ∙ build_all-tenants make any_tenant d.rules (some p.tenant_id) none
            ∙ ap is_ok made)
          (load-Needs make reader rows loads)),
    write_row-others owner d now rows,
  )

-- No write stops a load: if every policy in a reader's scope loads before an upsert by a tenant, then it
-- does after it, whether the upsert was accepted or refused; and the policies other than the one of
-- that tenant with that id are as before, in their order.
pub upsert-load :
    (is_strict : Text → Bool) (get_address : Text → Option Text) {W C : Type 0}
    (read_config : RuleType → C → Option RuleConfig) (quotas : QuotaStore W)
    (balance_of : Option (ℕ → Text → Text → Result Text ℕ)) (owner : Text) (d : PolicyDefinition C)
    (now : ℕ) (rows : List (StoredPolicy C)) (reader : Scope)
    → is_ok (load (build is_strict get_address read_config quotas balance_of) reader rows) ≡ true
    → (is_ok (
          load
            (build is_strict get_address read_config quotas balance_of)
            reader
            (upsert
              (build is_strict get_address read_config quotas balance_of)
              (tenant_scope owner)
              d
              now
              rows).1)
        ≡ true)
      × (keep
            (λ p. not (is_at owner d.id p))
            (upsert
              (build is_strict get_address read_config quotas balance_of)
              (tenant_scope owner)
              d
              now
              rows).1
          ≡ keep (λ p. not (is_at owner d.id p)) rows)
unfolding upsert writing_tenant
upsert-load is_strict get_address read_config quotas balance_of owner d now rows reader loads =
    let make = build is_strict get_address read_config quotas balance_of in
    written-load make (build-tenants is_strict get_address read_config quotas balance_of) owner d
      now rows (build_all make d.rules none) reader refl loads
