-- ===== src/Flash.antt =====
-- lib/ESPRack/include/system/FlashSteps.h and lib/ESPRack/src/system/FlashSteps.cpp: the steps in
-- which a stream is written into flash. Offsets and lengths are uint32_t; `erases` computes in
-- uint64_t, where its sums do not wrap.
mod Tests
pub mod Laws
use esp_rack.Prelude.{ℕ, ◌+◌, ◌-◌, ◌/◌, ◌%◌, ltb, ◌==◌, if◌then◌else◌}
use esp_rack.Prelude.Word.{u32}

-- `kSector`.
abbrev pub sector : ℕ
sector = 4096

unfoldable pub room : ℕ → ℕ
room offset = sector - offset % sector

unfoldable pub step : ℕ → ℕ → ℕ
unfolding room
step offset avail = if ltb avail (room offset) then avail else room offset

unfoldable pub erases : ℕ → ℕ → ℕ
erases offset len =
    if len == 0
    then 0
    else u32 ((offset + len + sector - 1) / sector - (offset + sector - 1) / sector)
