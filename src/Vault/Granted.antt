-- ===== src/Vault/Granted.antt =====
-- What holds when an instruction succeeds: every guard that it passed, and what it wrote.
mod Applied
mod Opening
mod Moving
pub use Applied.{apply_granted}
pub use Opening.{register_granted, initiate_granted, initiate_named}
pub use Moving.{
  pause_granted, resume_granted, abort_granted, execute_granted, transfer_granted, transfer_paid,
}
