-- ===== src/Affiliates.antt =====
-- app/affiliates.py: the ledger row of a referred sale, its voiding by a full refund, and the payout
-- that a merchant sends for it.
pub mod Accrual
pub mod Payout
