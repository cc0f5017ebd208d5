-- ===== src/Reconciliation/Sponsorships/Once.antt =====
-- No sponsorship is claimed twice, whatever is scanned again and by however many replicas: the claims
-- are statements, which the database runs one after the other.
use paymaster.Common.{
  ℕ, ◌+◌, ◌≤◌, ◌≡◌, ◌⊎◌, refl, true, false, ◌&&◌, Option, none, some, List, [], ◌∷◌, ◌++◌, ◌==◌,
  nat_eq, nat_beq_iff, if◌then◌else◌, arith, Bool-cases, inl, inr, map,
}
use paymaster.Common.Results.{Result, ok}
use paymaster.Common.Text.{Text}
use paymaster.Reconciliation.Sponsorships.{
  ClaimParams, ClaimedReservation, SponsorshipRow, ReconciliationTables, is_open_for, later_of,
  newest_open, mark_reconciled, claimed, claim,
}

-- How often an id stands in a list of ids, among the rows, and among the reconciled rows.
unfoldable pub times : ℕ → List ℕ → ℕ
times i [] = 0
times i (x ∷ xs) = (if x == i then 1 else 0) + times i xs

unfoldable pub rows_of : ℕ → List SponsorshipRow → ℕ
rows_of i [] = 0
rows_of i (row ∷ rows) = (if row.id == i then 1 else 0) + rows_of i rows

unfoldable pub closed_rows_of : ℕ → List SponsorshipRow → ℕ
closed_rows_of i [] = 0
closed_rows_of i (row ∷ rows) =
    (if row.id == i && row.reconciled then 1 else 0) + closed_rows_of i rows

abbrev pub ids_of : Result Text (Option ClaimedReservation) → List ℕ
ids_of (ok (some c)) = c.sponsorship_id ∷ []
ids_of _ = []

-- What the table becomes: rows with a fresh primary key come in, and operations are claimed. The list
-- holds the ids that were claimed so far.
pub data Claiming : List ℕ → ReconciliationTables → Type 0 where
  empty : (t : ReconciliationTables) → t.sponsorships ≡ [] → Claiming [] t
  recorded :
      {ids : List ℕ} {t : ReconciliationTables} (row : SponsorshipRow)
      → rows_of row.id t.sponsorships ≡ 0
      → row.reconciled ≡ false
      → Claiming ids t
      → Claiming ids (record t { sponsorships = row ∷ t.sponsorships })
  claimed_by :
      {ids : List ℕ} {t : ReconciliationTables} (p : ClaimParams)
      → Claiming ids t
      → Claiming (ids_of (claim p t).0 ++ ids) (claim p t).1

times-append : (i : ℕ) (xs ys : List ℕ) → times i (xs ++ ys) ≡ times i xs + times i ys
unfolding times
times-append i [] ys = omega arith
times-append i (x ∷ xs) ys = omega (arith, times-append i xs ys)

closed_rows_of-le : (i : ℕ) (rows : List SponsorshipRow) → closed_rows_of i rows ≤ rows_of i rows
unfolding closed_rows_of rows_of
closed_rows_of-le i [] = omega arith
closed_rows_of-le i (row ∷ rows) = ground (arith, closed_rows_of-le i rows)

rows_of-mark :
    (p : ClaimParams) (id i : ℕ) (rows : List SponsorshipRow)
    → rows_of i (map (mark_reconciled p id) rows) ≡ rows_of i rows
unfolding rows_of mark_reconciled
rows_of-mark p id i [] = refl
rows_of-mark p id i (row ∷ rows) = ground (arith, rows_of-mark p id i rows)

closed_rows_of-mark :
    (p : ClaimParams) (id i : ℕ) (rows : List SponsorshipRow)
    → closed_rows_of i (map (mark_reconciled p id) rows)
      ≡ (if id == i then rows_of i rows else closed_rows_of i rows)
unfolding rows_of closed_rows_of mark_reconciled
closed_rows_of-mark p id i [] = ground arith
closed_rows_of-mark p id i (row ∷ rows) = ground (arith, closed_rows_of-mark p id i rows)

is_open_for-unreconciled :
    (p : ClaimParams) (row : SponsorshipRow) → is_open_for p row ≡ true → row.reconciled ≡ false
unfolding is_open_for
is_open_for-unreconciled p row e = ground arith

-- An open row that was picked, or the one that was picked behind it.
later_of-cases :
    (r row : SponsorshipRow) (rest : Option SponsorshipRow)
    → later_of r rest ≡ row
    → (r ≡ row) ⊎ (rest ≡ some row)
unfolding later_of
later_of-cases r row none e = inl e
later_of-cases r row (some x) e = ground arith

-- What is claimed was open: of the rows with its id, one at least is not reconciled.
newest_open-open :
    (p : ClaimParams) (rows : List SponsorshipRow) (row : SponsorshipRow)
    → newest_open p rows ≡ some row
    → closed_rows_of row.id rows + 1 ≤ rows_of row.id rows
unfolding newest_open closed_rows_of rows_of
newest_open-open p [] row e = cc
newest_open-open p (r ∷ rows) row e =
    let behind : newest_open p rows ≡ some row
        → closed_rows_of row.id (r ∷ rows) + 1 ≤ rows_of row.id (r ∷ rows) =
      λ h. ground (arith, newest_open-open p rows row h) in
    elim (Bool-cases (is_open_for p r)) [
      | inr shut ↦ behind (rw shut at e)
      | inl open_row ↦
          let picked : later_of r (newest_open p rows) ≡ row = cc (rw open_row at e) in
          elim (later_of-cases r row (newest_open p rows) picked) [
            | inr later ↦ behind later
            | inl same ↦ rw (← same) (
                ground (
                  arith,
                  closed_rows_of-le r.id rows,
                  is_open_for-unreconciled p r open_row,
                  nat_beq_iff r.id r.id,
                ))
          ]
    ]

-- The ids that were claimed are those of reconciled rows, and no id has two rows.
record Counted (ids : List ℕ) (t : ReconciliationTables) : Type 0 where
  each : (i : ℕ) → times i ids ≡ closed_rows_of i t.sponsorships
  single : (i : ℕ) → rows_of i t.sponsorships ≤ 1

claimed-Counted :
    (p : ClaimParams) (ids : List ℕ) (t : ReconciliationTables) (found : Option SponsorshipRow)
    → newest_open p t.sponsorships ≡ found
    → Counted ids t
    → Counted (ids_of (ok (claimed p found t).0) ++ ids) (claimed p found t).1
unfolding claimed
claimed-Counted p ids t none e h = h
claimed-Counted p ids t (some row) e h = record {
  each = λ i.
      unfold times in
      rw (closed_rows_of-mark p row.id i t.sponsorships) (
        ground (
          arith,
          h.each i,
          h.single i,
          newest_open-open p t.sponsorships row e,
          closed_rows_of-le i t.sponsorships,
        ));
  single = λ i. rw (rows_of-mark p row.id i t.sponsorships) (h.single i);
}

recorded-Counted :
    (row : SponsorshipRow) (ids : List ℕ) (t : ReconciliationTables)
    → rows_of row.id t.sponsorships ≡ 0
    → row.reconciled ≡ false
    → Counted ids t
    → Counted ids (record t { sponsorships = row ∷ t.sponsorships })
unfolding rows_of closed_rows_of
recorded-Counted row ids t fresh open_row h = record {
  each = λ i. ground (arith, h.each i);
  single = λ i. ground (arith, h.single i);
}

claim-Counted :
    (p : ClaimParams) (ids : List ℕ) (t : ReconciliationTables)
    → Counted ids t
    → Counted (ids_of (claim p t).0 ++ ids) (claim p t).1
unfolding claim
claim-Counted p ids t = claimed-Counted p ids t (newest_open p t.sponsorships) refl

empty-Counted : (t : ReconciliationTables) → t.sponsorships ≡ [] → Counted [] t
unfolding times rows_of closed_rows_of
empty-Counted t e = record { each = λ i. rw e refl; single = λ i. rw e (omega arith) }

Claiming-Counted : {ids : List ℕ} {t : ReconciliationTables} → Claiming ids t → Counted ids t
Claiming-Counted (empty t e) = empty-Counted t e
Claiming-Counted (recorded {ids} {t} row fresh open_row r) =
    recorded-Counted row ids t fresh open_row (Claiming-Counted r)
Claiming-Counted (claimed_by {ids} {t} p r) = claim-Counted p ids t (Claiming-Counted r)

-- No sponsorship is claimed twice: however rows come in and operations are claimed, again or by
-- several replicas, each id is claimed at most once, and it is claimed exactly if its row is marked.
pub claimed_once :
    (i : ℕ) (ids : List ℕ) (t : ReconciliationTables)
    → Claiming ids t
    → (times i ids ≤ 1) × (times i ids ≡ closed_rows_of i t.sponsorships)
claimed_once i ids t r =
    let h = Claiming-Counted r in
    (omega (arith, h.each i, h.single i, closed_rows_of-le i t.sponsorships), h.each i)
