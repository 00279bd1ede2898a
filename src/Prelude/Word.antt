-- ===== src/Prelude/Word.antt =====
-- uint32_t arithmetic, with its wrap written out, and its reading as int32_t.
use Prim.Native.Nat.{ℕ, ◌+◌, ◌-◌, ◌%◌, ◌^◌}
use mathlib.Core.Bool.{Bool, ◌&&◌}
use esp_rack.Prelude.Tests.{ltb, leb, if◌then◌else◌}
use esp_rack.Prelude.Int.{ℤ, pos, negsuc}

abbrev pub u8 : ℕ → ℕ
u8 n = n % 256

abbrev pub u16 : ℕ → ℕ
u16 n = n % 2 ^ 16

abbrev pub u32 : ℕ → ℕ
u32 n = n % 2 ^ 32

-- `a - b` of two uint32_t.
abbrev pub sub32 : ℕ → ℕ → ℕ
sub32 a b = (a + 2 ^ 32 - b) % 2 ^ 32

-- `int32_t(d) < 0` and `int32_t(d) > 0` of a uint32_t `d`.
abbrev pub is_neg32 : ℕ → Bool
is_neg32 d = leb (2 ^ 31) d

abbrev pub is_pos32 : ℕ → Bool
is_pos32 d = ltb 0 d && ltb d (2 ^ 31)

-- `int32_t(w)`.
abbrev pub signed32 : ℕ → ℤ
signed32 w = if ltb w (2 ^ 31) then pos w else negsuc (2 ^ 32 - w - 1)
