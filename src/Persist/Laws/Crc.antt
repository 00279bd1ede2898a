-- ===== src/Persist/Laws/Crc.antt =====
-- The CRC: its bound, its chaining, and two inputs that differ in one byte.
use Prim.Native.Nat.{bit_xor}
use esp_rack.Prelude.{
  ℕ, zero, suc, ◌+◌, ◌/◌, ◌%◌, ◌^◌, ◌<◌, ◌≡◌, ◌≢◌, refl, ◌∙◌, sym, List, [], ◌∷◌, ◌++◌, All, arith,
  ◌⊎◌, inl, inr,
}
use esp_rack.Prelude.Xor.{bit_xor_cancel, bit_xor_comm, bit_xor-lt, bit_xor-high, bit_xor-zero}
use esp_rack.Persist.Crc.{polynomial, crc_round, crc_rounds, crc_bytes, complement, crc32_ieee}

-- A round with the lowest digit clear, and with it set.
round_even : (c : ℕ) → c % 2 ≡ 0 → crc_round c ≡ c / 2
unfolding crc_round
round_even c h = rw h (bit_xor-zero (c / 2))

round_odd : (c : ℕ) → c % 2 ≡ 1 → crc_round c ≡ bit_xor (c / 2) polynomial
unfolding crc_round
round_odd c h = rw h refl

parity : (c : ℕ) → (c % 2 ≡ 0) ⊎ (c % 2 ≡ 1)
parity c = omega arith

pub crc_round-lt : (c : ℕ) → c < 2 ^ 32 → crc_round c < 2 ^ 32
crc_round-lt c h = elim (parity c) [
  | inl e ↦ omega (arith, round_even c e)
  | inr o ↦
      omega (arith, round_odd c o, bit_xor-lt 32 (c / 2) polynomial (omega arith) (omega arith))
]

-- An odd word's round sets the highest digit, an even one's does not.
odd_high : (c : ℕ) → c < 2 ^ 32 → c % 2 ≡ 1 → 2 ^ 31 < crc_round c + 1
odd_high c h o =
    omega (arith, round_odd c o, bit_xor-high 31 (c / 2) polynomial (omega arith) (omega arith))

xor_cancel_left : (a b c : ℕ) → bit_xor a c ≡ bit_xor b c → a ≡ b
xor_cancel_left a b c h = bit_xor_cancel c a b (bit_xor_comm c a ∙ h ∙ bit_xor_comm b c)

pub crc_round_cancel : (a b : ℕ) → a < 2 ^ 32 → b < 2 ^ 32 → crc_round a ≡ crc_round b → a ≡ b
crc_round_cancel a b ha hb h = elim (parity a) [
  | inl e ↦ elim (parity b) [
    | inl f ↦ omega (arith, round_even a e, round_even b f)
    | inr o ↦ absurd (omega (arith, round_even a e, odd_high b hb o))
  ]
  | inr o ↦ elim (parity b) [
    | inl e ↦ absurd (omega (arith, round_even b e, odd_high a ha o))
    | inr p ↦
        let q : a / 2 ≡ b / 2 =
          xor_cancel_left (a / 2) (b / 2) polynomial (sym (round_odd a o) ∙ h ∙ round_odd b p) in
        omega arith
  ]
]

crc_rounds-lt : (n c : ℕ) → c < 2 ^ 32 → crc_rounds n c < 2 ^ 32
unfolding crc_rounds
crc_rounds-lt zero c h = h
crc_rounds-lt (suc n) c h = crc_rounds-lt n (crc_round c) (crc_round-lt c h)

crc_rounds_cancel : (n a b : ℕ) → a < 2 ^ 32 → b < 2 ^ 32 → crc_rounds n a ≡ crc_rounds n b → a ≡ b
unfolding crc_rounds
crc_rounds_cancel zero a b ha hb h = h
crc_rounds_cancel (suc n) a b ha hb h =
    crc_round_cancel a b ha hb
      (crc_rounds_cancel n (crc_round a) (crc_round b) (crc_round-lt a ha) (crc_round-lt b hb) h)

-- Bytes.
abbrev pub IsByte : ℕ → Type 0
IsByte b = b < 256

byte_word : (c b : ℕ) → c < 2 ^ 32 → IsByte b → bit_xor c b < 2 ^ 32
byte_word c b hc hb = bit_xor-lt 32 c b hc (omega arith)

pub crc_bytes-lt : (xs : List ℕ) (c : ℕ) → All IsByte xs → c < 2 ^ 32 → crc_bytes c xs < 2 ^ 32
unfolding crc_bytes
crc_bytes-lt [] c p h = h
crc_bytes-lt (x ∷ xs) c p h =
    crc_bytes-lt xs (crc_rounds 8 (bit_xor c x)) p.1 (crc_rounds-lt 8 _ (byte_word c x h p.0))

crc_bytes_cancel :
    (xs : List ℕ) (a b : ℕ)
    → All IsByte xs
    → a < 2 ^ 32
    → b < 2 ^ 32
    → crc_bytes a xs ≡ crc_bytes b xs
    → a ≡ b
unfolding crc_bytes
crc_bytes_cancel [] a b p ha hb h = h
crc_bytes_cancel (x ∷ xs) a b p ha hb h =
    let wa : bit_xor a x < 2 ^ 32 = byte_word a x ha p.0 in
    let wb : bit_xor b x < 2 ^ 32 = byte_word b x hb p.0 in
    xor_cancel_left a b x (
      crc_rounds_cancel 8 (bit_xor a x) (bit_xor b x) wa wb
        (crc_bytes_cancel xs _ _ p.1 (crc_rounds-lt 8 _ wa) (crc_rounds-lt 8 _ wb) h))

crc_bytes-append : (xs ys : List ℕ) (c : ℕ) → crc_bytes c (xs ++ ys) ≡ crc_bytes (crc_bytes c xs) ys
unfolding crc_bytes
crc_bytes-append [] ys c = refl
crc_bytes-append (x ∷ xs) ys c = crc_bytes-append xs ys (crc_rounds 8 (bit_xor c x))

-- `crc32Ieee` of one run of bytes and then of another, handed the first's result, is that of
-- the two behind each other.
pub crc32_ieee-append :
    (xs ys : List ℕ) (c : ℕ)
    → All IsByte xs
    → crc32_ieee ys (crc32_ieee xs c) ≡ crc32_ieee (xs ++ ys) c
unfolding crc32_ieee
crc32_ieee-append xs ys c p =
    let twice : complement (complement (crc_bytes (complement c) xs))
        ≡ crc_bytes (complement c) xs =
      omega (arith, crc_bytes-lt xs (complement c) p (omega arith)) in
    rw (crc_bytes-append xs ys (complement c), twice) refl

pub crc32_ieee-lt : (xs : List ℕ) (c : ℕ) → crc32_ieee xs c < 2 ^ 32
unfolding crc32_ieee
crc32_ieee-lt xs c = omega arith

-- Two lists that differ in one byte.
pub data OneByte : List ℕ → List ℕ → Type 0 where
  here : {x y : ℕ} {xs : List ℕ} → x ≢ y → OneByte (x ∷ xs) (y ∷ xs)
  there : {x : ℕ} {xs ys : List ℕ} → OneByte xs ys → OneByte (x ∷ xs) (x ∷ ys)

crc_bytes-OneByte :
    {xs ys : List ℕ} (c : ℕ)
    → OneByte xs ys
    → All IsByte xs
    → All IsByte ys
    → c < 2 ^ 32
    → crc_bytes c xs ≢ crc_bytes c ys
unfolding crc_bytes
crc_bytes-OneByte c (here {x} {y} {xs} ne) p q h = λ e.
    let wa : bit_xor c x < 2 ^ 32 = byte_word c x h p.0 in
    let wb : bit_xor c y < 2 ^ 32 = byte_word c y h q.0 in
    ne (
      bit_xor_cancel c x y (
        crc_rounds_cancel 8 _ _ wa wb
          (crc_bytes_cancel xs _ _ p.1 (crc_rounds-lt 8 _ wa) (crc_rounds-lt 8 _ wb) e)))
crc_bytes-OneByte c (there {x} d) p q h =
    crc_bytes-OneByte (crc_rounds 8 (bit_xor c x)) d p.1 q.1
      (crc_rounds-lt 8 _ (byte_word c x h p.0))

-- Of two runs of bytes that differ in exactly one byte the CRCs differ.
pub crc32_ieee-OneByte :
    {xs ys : List ℕ} (c : ℕ)
    → OneByte xs ys
    → All IsByte xs
    → All IsByte ys
    → crc32_ieee xs c ≢ crc32_ieee ys c
unfolding crc32_ieee
crc32_ieee-OneByte {xs} {ys} c d p q = λ e. crc_bytes-OneByte (complement c) d p q (omega arith) (
    omega (
      arith,
      crc_bytes-lt xs (complement c) p (omega arith),
      crc_bytes-lt ys (complement c) q (omega arith),
    ))
