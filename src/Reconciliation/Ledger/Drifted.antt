-- ===== src/Reconciliation/Ledger/Drifted.antt =====
-- What a tick of the ledger reports.
use paymaster.Common.{
  ℕ, ◌-◌, ◌≡◌, ◌↔◌, ◌≤◌, refl, sym, ap, ◌∙◌, Bool, true, false, not, ◌&&◌, ◌||◌, Option, none, some,
  List, [], ◌∷◌, ◌++◌, any, ltb, ◌==◌, list_eq, nat_eq, list_beq_iff, arith, Bool-cases, inl, inr,
}
use paymaster.Common.Int.{ℤ, pos, ◌+ℤ◌, int_eq}
use paymaster.Common.Results.{Result, ok, err, and_then, and_then-eq-ok}
use paymaster.Common.JsMap
use paymaster.Common.JsMap.{JsMap}
use paymaster.Common.Text.{Text}
use paymaster.Reconciliation.Window.{ReconcilerOptions}
use paymaster.Reconciliation.Ledger.{
  TenantLedgerEvent, TenantLedgerSource, TenantLedgerStore, TenantLedgerStats, Ledger, Movement,
  Drift, Findings, nothing_found, Solvency, movements, keys_to_check, actual_balance, reported_of,
  delta_of, compare_balance, check_found, check_key, check_keys, solvency_read, judge_solvency,
  check_solvency, finish_window, raise_alerts, on_ledger,
}
use paymaster.Reconciliation.Ledger.Movements.{
  moved_by, last_of, touched, is_some, delta_lem, reported_lem, keys_to_check_lem,
}

-- A known balance that its movements do not explain.
unfoldable pub is_unexplained : Option ℕ → ℤ → Option ℕ → Bool
is_unexplained (some actual) delta (some prior) = not (pos prior +ℤ delta == pos actual)
is_unexplained _ delta _ = false

abbrev pub is_reported : Text → List Drift → Bool
is_reported key = any (λ (d : Drift). d.tenant_key == key)

reported-append :
    (key : Text) (xs : List Drift) (d : Drift)
    → is_reported key (xs ++ d ∷ []) ≡ (is_reported key xs || d.tenant_key == key)
reported-append key [] d = ground arith
reported-append key (x ∷ xs) d = ground (arith, reported-append key xs d)

check_found-reports :
    (chain_id : ℕ) (k key : Text) (actual : Option ℕ) (delta : ℤ) (prior : Option ℕ) (f : Findings)
    → is_reported key (check_found chain_id k actual delta prior f).drifted
      ≡ (is_reported key f.drifted || k == key && is_unexplained actual delta prior)
unfolding check_found compare_balance is_unexplained
check_found-reports chain_id k key none delta none f = ground arith
check_found-reports chain_id k key none delta (some p) f = ground arith
check_found-reports chain_id k key (some a) delta none f = ground arith
check_found-reports chain_id k key (some a) delta (some p) f =
    elim (Bool-cases (pos p +ℤ delta == pos a)) [
      | inl same ↦ rw same (ground arith)
      | inr other ↦ rw other (reported-append key f.drifted _ ∙ ground arith)
    ]

at_key : (p : Text → Bool) (k key : Text) → (k == key && p k) ≡ (k == key && p key)
at_key p k key = elim (Bool-cases (k == key)) [
  | inl same ↦ ap (λ j. k == key && p j) ((list_beq_iff k key).0 same)
  | inr other ↦ rw other refl
]

factor : (a b c d : Bool) → ((a || b && d) || c && d) ≡ (a || (b || c) && d)
factor true b c d = refl
factor false true c true = refl
factor false true true false = refl
factor false true false false = refl
factor false false c d = refl

module _ {S : Type 0} (source : TenantLedgerSource) (store : TenantLedgerStore S)
    (o : ReconcilerOptions) (chain_id to : ℕ) (movement : JsMap Text Movement)
    (known : JsMap Text ℕ) (key : Text) where
  abbrev unexplained : Text → Bool
  unexplained k =
      is_unexplained
        (actual_balance (source.balance_at chain_id k to) (reported_of (JsMap.get k movement)))
        (delta_of (JsMap.get k movement)) (JsMap.get k known)

  check_key-reports :
      (k : Text) (f : Findings)
      → is_reported key (check_key source store o chain_id to movement known k f).drifted
        ≡ (is_reported key f.drifted || k == key && unexplained key)
  unfolding check_key
  check_key-reports k f =
      check_found-reports chain_id k key _ _ _ f
      ∙ ap (λ b. is_reported key f.drifted || b) (at_key unexplained k key)

  check_keys-reports :
      (keys : List Text) (f : Findings)
      → is_reported key (check_keys source store o chain_id to movement known keys f).drifted
        ≡ (is_reported key f.drifted || any (λ k. k == key) keys && unexplained key)
  unfolding check_keys
  check_keys-reports [] f = ground arith
  check_keys-reports (k ∷ keys) f =
      check_keys-reports keys (check_key source store o chain_id to movement known k f)
      ∙ ap (λ b. b || any (λ k. k == key) keys && unexplained key) (check_key-reports k f)
      ∙ factor (is_reported key f.drifted) (k == key) (any (λ k. k == key) keys) (unexplained key)

drifted_in : Result Text TenantLedgerStats → List Drift
drifted_in (ok stats) = stats.drifted
drifted_in (err e) = []

solvent_in : Result Text TenantLedgerStats → Bool
solvent_in (ok stats) = stats.solvent
solvent_in (err e) = false

module _ {S : Type 0} (source : TenantLedgerSource) (store : TenantLedgerStore S)
    (o : ReconcilerOptions) (chain_id : ℕ) where
  judge-reads :
      (read : Result Text Solvency) (s : Ledger S) (b : Bool)
      → (and_then (read, s) (judge_solvency source store o chain_id)).0 ≡ ok b
      → (sol : Solvency) × (read ≡ ok sol) × ((b ≡ true) ↔ (sol.total_tenant_balance ≤ sol.deposit))
  unfolding judge_solvency
  judge-reads (err e) s b h = cc
  judge-reads (ok sol) s b h = (
    sol,
    refl,
    elim (Bool-cases (ltb sol.deposit sol.total_tenant_balance)) [
      | inl owes ↦ let e : b ≡ false = cc (rw owes at h) in rw e (ground arith)
      | inr holds ↦ let e : b ≡ true = cc (rw holds at h) in rw e (ground arith)
    ],
  )

  check_solvency-judges :
      (to latest : ℕ) (s : Ledger S) (b : Bool)
      → (check_solvency source store o chain_id to latest s).0 ≡ ok b
      → (sol : Solvency) × (solvency_read
            (source.solvency_at chain_id to)
            (source.solvency_at chain_id latest)
          ≡ ok sol)
        × ((b ≡ true) ↔ (sol.total_tenant_balance ≤ sol.deposit))
  unfolding check_solvency
  check_solvency-judges to latest = judge-reads _

module _ {S : Type 0} (source : TenantLedgerSource) (store : TenantLedgerStore S)
    (o : ReconcilerOptions) (chain_id latest from to : ℕ) (events : List TenantLedgerEvent)
    (known : JsMap Text ℕ) where
  -- A tenant is drifted where it is checked and its balance is not explained: it moved in the window,
  -- or it is known and the window reaches the confirmed head; and the balance that was read, or else
  -- last reported, is not the known one with all its movements.
  abbrev pub has_drifted : Text → Bool
  has_drifted key =
      (touched key events || to == latest - o.confirmations && is_some (JsMap.get key known))
      && is_unexplained
          (actual_balance (source.balance_at chain_id key to) (last_of key none events))
          (moved_by key events) (JsMap.get key known)

  abbrev all_found : Findings
  all_found =
      check_keys source store o chain_id to (movements events []) known
        (keys_to_check (to == latest - o.confirmations) (movements events []) known) nothing_found

  found-has_drifted : (key : Text) → is_reported key all_found.drifted ≡ has_drifted key
  found-has_drifted key =
      check_keys-reports source store o chain_id to (movements events []) known key _ nothing_found
      ∙ (λ i.
          keys_to_check_lem key (to == latest - o.confirmations) events known i
          && is_unexplained
              (actual_balance (source.balance_at chain_id key to) (reported_lem key events i))
              (delta_lem key events i) (JsMap.get key known))

  -- What is reported of a window that was checked is true: the tenants that are listed as drifted are
  -- exactly those whose balance the replayed history does not explain, and the chain counts as
  -- solvent exactly if the tenants together are owed no more than the deposit that was read.
  pub finish_window_lem :
      (key : Text) (s end : Ledger S) (stats : TenantLedgerStats)
      → finish_window source store o chain_id latest from to events known s ≡ (ok stats, end)
      → (is_reported key stats.drifted ≡ has_drifted key)
        × (sol : Solvency) × (solvency_read
              (source.solvency_at chain_id to)
              (source.solvency_at chain_id latest)
            ≡ ok sol)
        × ((stats.solvent ≡ true) ↔ (sol.total_tenant_balance ≤ sol.deposit))
  unfolding finish_window drifted_in solvent_in
  finish_window_lem key s end stats e =
      let (solvent, judged, e₁) =
        and_then-eq-ok
          (check_solvency source store o chain_id to latest (raise_alerts all_found.alerts s)) _
          e in
      let (done, committed, e₂) =
        and_then-eq-ok {0, 0, 0, 0}
          (on_ledger (store.commit_window chain_id to events all_found.reconciled)
            (check_solvency source store o chain_id to latest (raise_alerts all_found.alerts s)).1)
          _ e₁ in
      let listed : all_found.drifted ≡ stats.drifted =
        ap (λ (x : Result Text TenantLedgerStats × Ledger S). drifted_in x.0) e₂ in
      let told : solvent ≡ stats.solvent =
        ap (λ (x : Result Text TenantLedgerStats × Ledger S). solvent_in x.0) e₂ in
      let (sol, answer, right) =
        check_solvency-judges source store o chain_id to latest (raise_alerts all_found.alerts s)
          solvent judged in
      (
        ap (is_reported key) (sym listed) ∙ found-has_drifted key,
        sol,
        answer,
        (λ p. right.0 (told ∙ p), λ q. sym told ∙ right.1 q),
      )
