-- ===== src/Persist/Crc.antt =====
-- `crc32Ieee` of lib/ESPRack/src/persist/Crc32.cpp, over a list of bytes.
use Prim.Native.Nat.{bit_and, bit_xor}
use esp_rack.Prelude.{ℕ, zero, suc, ◌-◌, ◌/◌, ◌%◌, ◌^◌, List, [], ◌∷◌}
use esp_rack.Prelude.Word.{sub32}

abbrev pub polynomial : ℕ
polynomial = 0xEDB88320

-- One round of the inner loop; `0u - (crc & 1u)` is a mask of all ones or of none.
unfoldable pub crc_round : ℕ → ℕ
crc_round c = bit_xor (c / 2) (bit_and polynomial (sub32 0 (c % 2)))

unfoldable pub crc_rounds : ℕ → ℕ → ℕ
crc_rounds zero c = c
crc_rounds (suc n) c = crc_rounds n (crc_round c)

-- The outer loop.
unfoldable pub crc_bytes : ℕ → List ℕ → ℕ
crc_bytes c [] = c
crc_bytes c (b ∷ bs) = crc_bytes (crc_rounds 8 (bit_xor c b)) bs

-- `~crc` of a uint32_t.
abbrev pub complement : ℕ → ℕ
complement c = 2 ^ 32 - 1 - c

unfoldable pub crc32_ieee : List ℕ → ℕ → ℕ
crc32_ieee bytes crc = complement (crc_bytes (complement crc) bytes)
