-- ===== src/Reconciliation/Spend/Failure.antt =====
-- A tick that fails.
use paymaster.Common.Text.{Text}
