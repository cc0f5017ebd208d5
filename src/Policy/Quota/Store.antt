-- ===== src/Policy/Quota/Store.antt =====
-- backend/src/policy/quota/quotaStore.ts: the port behind quotas, and what its users rely on.
use paymaster.Common.{
  ℕ, ◌+◌, ◌-◌, ◌≡◌, Bool, true, false, ◌&&◌, leb, ◌==◌, list_eq, nat_eq, if◌then◌else◌,
}
use paymaster.Common.Results.{ok}
use paymaster.Common.Text.{Text}
use paymaster.Policy.Context.{Exec}
use paymaster.Policy.Quota.Window.{window_end, windowed_key}

pub record QuotaConsumeParams : Type 0 where
  pub key : Text
  pub amount : ℕ
  pub limit : ℕ
  pub window_seconds : ℕ
  pub now : ℕ

pub record QuotaReleaseParams : Type 0 where
  pub key : Text
  pub amount : ℕ
  pub window_seconds : ℕ
  pub now : ℕ

pub record QuotaOutcome : Type 0 where
  pub consumed : Bool
  pub usage : ℕ
  pub limit : ℕ
  pub resets_at : ℕ

pub record QuotaStore (W : Type 0) : Type 0 where
  pub try_consume : QuotaConsumeParams → Exec W QuotaOutcome
  pub release : QuotaReleaseParams → Exec W (Unit {0})
  pub usage : Text → ℕ → ℕ → Exec W ℕ

abbrev pub consume_slot : QuotaConsumeParams → Text
consume_slot p = windowed_key p.key p.window_seconds p.now

abbrev pub release_slot : QuotaReleaseParams → Text
release_slot p = windowed_key p.key p.window_seconds p.now

-- The outcome of a consumption that found `used` on its counter.
abbrev pub outcome_at : QuotaConsumeParams → ℕ → QuotaOutcome
outcome_at p used =
    if leb (used + p.amount) p.limit
    then record {
      consumed = true;
      usage = used + p.amount;
      limit = p.limit;
      resets_at = window_end p.now p.window_seconds;
    }
    else record {
      consumed = false;
      usage = used;
      limit = p.limit;
      resets_at = window_end p.now p.window_seconds;
    }

-- What the port's documentation promises: one counter for each slot, consumed all or nothing, and
-- released down to zero at most.
pub record QuotaStoreLaws {W : Type 0} (s : QuotaStore W) : Type 0 where
  pub count : W → Text → ℕ
  pub consume_outcome :
      (p : QuotaConsumeParams) (w : W)
      → (s.try_consume p w).0 ≡ ok (outcome_at p (count w (consume_slot p)))
  pub count-consume :
      (p : QuotaConsumeParams) (w : W) (j : Text)
      → count (s.try_consume p w).1 j ≡ (
          if leb (count w (consume_slot p) + p.amount) p.limit && consume_slot p == j
          then count w j + p.amount
          else count w j)
  pub release_returns : (p : QuotaReleaseParams) (w : W) → (s.release p w).0 ≡ ok tt
  pub count-release :
      (p : QuotaReleaseParams) (w : W) (j : Text)
      → count (s.release p w).1 j
        ≡ (if release_slot p == j then count w j - p.amount else count w j)
  pub usage_lem :
      (key : Text) (seconds now : ℕ) (w : W)
      → s.usage key seconds now w ≡ (ok (count w (windowed_key key seconds now)), w)
