-- ===== src/Tests.antt =====
-- Concrete runs and the theorems at them. The children hold the data that they share.
pub mod World
pub mod Sales
pub mod Sweeps
pub mod Jobs
pub mod Licences
pub mod Vouchers
pub mod Hooks
pub mod Payouts
