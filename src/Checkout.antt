-- ===== src/Checkout.antt =====
-- app/checkout.py: the order state machine and everything that drives it.
pub mod Transition
pub mod Machine
pub mod Sound
pub mod Deliver
pub mod Drive
pub mod Allocation
pub mod Matching
pub mod Verify
pub mod Expiry
pub mod Promote
pub mod Sweep
