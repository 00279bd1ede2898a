-- ===== src/Persist/Policy.antt =====
-- `CheckpointPolicy` of lib/ESPRack/include/persist/CheckpointPolicy.h. `delta` is a signed 64-bit
-- number; at the least of them the source's `-delta` is undefined and its magnitude is taken here.
use esp_rack.Prelude.{ℕ, Bool, true, false, leb, ltb, if◌then◌else◌}
use esp_rack.Prelude.Int.{ℤ, pos, abs_ℕ, leb_ℤ}
use esp_rack.Prelude.Word.{sub32}

pub record CheckpointPolicy : Type 0 where
  pub min_interval_ms : ℕ
  pub max_interval_on_ms : ℕ
  pub max_interval_off_ms : ℕ
  pub min_delta : ℤ

abbrev pub default_checkpoints : CheckpointPolicy
default_checkpoints = record {
  min_interval_ms = 60000;
  max_interval_on_ms = 900000;
  max_interval_off_ms = 21600000;
  min_delta = pos 20;
}

unfoldable pub due : CheckpointPolicy → ℕ → ℕ → Bool → ℤ → Bool
due p now last on delta =
    let elapsed : ℕ = sub32 now last in
    if ltb elapsed p.min_interval_ms
    then false
    else (if leb_ℤ p.min_delta (pos (abs_ℕ delta))
        then true
        else leb (if on then p.max_interval_on_ms else p.max_interval_off_ms) elapsed)
