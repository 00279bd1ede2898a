-- ===== src/Persist/Laws/Policy.antt =====
-- When a checkpoint is due.
use esp_rack.Prelude.{ℕ, ◌≤◌, ◌≡◌, ◌↔◌, ◌⊎◌, Bool, true, arith, if◌then◌else◌}
use esp_rack.Prelude.Int.{ℤ, pos, abs_ℕ, ◌≤ℤ◌}
use esp_rack.Prelude.Word.{sub32}
use esp_rack.Persist.Policy.{CheckpointPolicy, due}

-- A checkpoint is due exactly when the least interval has passed since the last, by a 32-bit clock
-- that wraps, and the value moved far enough either way or the greatest interval for the load's
-- state has passed.
pub due_iff :
    (p : CheckpointPolicy) (now last : ℕ) (on : Bool) (delta : ℤ)
    → (due p now last on delta ≡ true) ↔ (
        (p.min_interval_ms ≤ sub32 now last)
        × ((p.min_delta ≤ℤ pos (abs_ℕ delta))
            ⊎ ((if on then p.max_interval_on_ms else p.max_interval_off_ms) ≤ sub32 now last)))
unfolding due
due_iff p now last on delta = ground arith

-- A checkpoint that is due stays due as time passes, until the clock has gone round.
pub due-later :
    (p : CheckpointPolicy) (now later last : ℕ) (on : Bool) (delta : ℤ)
    → sub32 now last ≤ sub32 later last
    → due p now last on delta ≡ true
    → due p later last on delta ≡ true
unfolding due
due-later p now later last on delta h d = ground arith
