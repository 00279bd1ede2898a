-- ===== src/Gate/Inv.antt =====
-- What holds of the gate of lib/ESPRack/src/power/WriteGateCore.cpp between two calls.
pub mod Sweep
pub mod Holders
pub mod Ask
pub mod Steps
use esp_rack.Prelude.{ℕ, ◌≤◌, ◌≡◌, ◌≢◌, Bool, true, false, List, All, any, length}
use esp_rack.Gate.{Holder, Gate, max_holders, max_queue}

abbrev pub any_open : List Holder → Bool
any_open = any (λ x. x.is_open)

pub record IsValid (g : Gate) : Type 0 where
  pub slots : length g.holders ≡ max_holders
  pub registered : g.count ≤ max_holders
  pub bounded : length g.queue ≤ max_queue
  pub unused : g.ever_used ≡ false → any_open g.holders ≡ false
  pub paused : g.ever_used ≡ true → any_open g.holders ≡ false → g.pause ≡ true
  pub windowed : any_open g.holders ≡ true → g.pause ≡ false
  pub overlapping : g.overlap_on ≡ true → any_open g.holders ≡ true
