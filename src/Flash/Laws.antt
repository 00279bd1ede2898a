-- ===== src/Flash/Laws.antt =====
-- What the steps of lib/ESPRack/src/system/FlashSteps.cpp guarantee the write gate and the writers.
use esp_rack.Prelude.{
  ℕ, zero, suc, ◌+◌, ◌-◌, ◌/◌, ◌%◌, ◌^◌, ◌≤◌, ◌<◌, ◌≡◌, refl, ap, arith, ◌==◌, if◌then◌else◌,
}
use esp_rack.Flash.{sector, step, erases}

-- The sector starts among the `len` bytes from `offset` on, counted one by one.
pub starts : ℕ → ℕ → ℕ
starts offset zero = 0
starts offset (suc len) = (if offset % sector == 0 then 1 else 0) + starts (offset + 1) len

-- The number of sectors that start below an offset.
ceil : ℕ → ℕ
ceil n = (n + sector - 1) / sector

ceil_lem : (n : ℕ) → ceil n ≡ (n + sector - 1) / sector
unfolding ceil
ceil_lem n = refl

ceil-suc : (n : ℕ) → ceil (n + 1) ≡ (if n % sector == 0 then 1 else 0) + ceil n
unfolding ceil
ceil-suc n = ground arith

starts-ceil : (offset len : ℕ) → starts offset len + ceil offset ≡ ceil (offset + len)
unfolding starts
starts-ceil offset zero = let e : offset + 0 ≡ offset = omega arith in omega (arith, ap ceil e)
starts-ceil offset (suc len) =
    let shift : offset + 1 + len ≡ offset + suc len = omega arith in
    omega (arith, starts-ceil (offset + 1) len, ceil-suc offset, ap ceil shift)

-- For a 32-bit offset and length, the number of erases that `erases` computes in closed form is
-- the number of bytes of the write at which a sector starts.
pub erases-eq-starts :
    (offset len : ℕ) → offset < 2 ^ 32 → len < 2 ^ 32 → erases offset len ≡ starts offset len
unfolding erases starts
erases-eq-starts offset zero ho hl = refl
erases-eq-starts offset (suc len) ho hl =
    ground (arith, starts-ceil offset (suc len), ceil_lem offset, ceil_lem (offset + suc len))

pub starts_zero : starts 0 0 ≡ 0
unfolding starts
starts_zero = refl

-- The starts of two runs behind each other, and no more than there are bytes.
pub starts_add : (offset a b : ℕ) → starts offset (a + b) ≡ starts offset a + starts (offset + a) b
starts_add offset a b =
    let e : offset + (a + b) ≡ offset + a + b = omega arith in
    omega (
      arith,
      starts-ceil offset (a + b),
      starts-ceil offset a,
      starts-ceil (offset + a) b,
      ap ceil e,
    )

pub starts-le : (offset len : ℕ) → starts offset len ≤ len
unfolding starts
starts-le offset zero = omega arith
starts-le offset (suc len) = ground (arith, starts-le (offset + 1) len)

-- A step takes no more bytes than are ready and stays inside its sector.
pub step_bounds :
    (offset avail : ℕ)
    → (step offset avail ≤ avail) × (offset % sector + step offset avail ≤ sector)
unfolding step
step_bounds offset avail = (ground arith, ground arith)

-- A step that leaves bytes waiting ends on a sector boundary, and takes some.
pub step-boundary :
    (offset avail : ℕ)
    → step offset avail < avail
    → ((offset + step offset avail) % sector ≡ 0) × (0 < step offset avail)
unfolding step
step-boundary offset avail h = (ground arith, ground arith)

-- The write of a step erases at most one sector.
pub erases-step-le : (offset avail : ℕ) → erases offset (step offset avail) ≤ 1
unfolding erases step
erases-step-le offset avail = ground arith
