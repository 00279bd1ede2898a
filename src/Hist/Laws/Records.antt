-- ===== src/Hist/Laws/Records.antt =====
-- The records of a segment file, read back.
use esp_rack.Prelude.{
  ℕ, zero, suc, ◌+◌, ◌-◌, ◌^◌, ◌≤◌, ◌<◌, ◌≡◌, refl, ◌∙◌, ap, Bool, true, false, ◌&&◌, Option, none,
  some, List, [], ◌∷◌, ◌++◌, All, arith, ◌⊎◌, inl, inr, take, drop, length, ltb, leb, ◌==◌,
}
use esp_rack.Persist.Laws.Bytes.{of_bytes-to_bytes2, of_bytes-to_bytes4, append_assoc, length-take}
use esp_rack.Hist.Segment.{
  Layout, put_u16, get_u32, crc16_round, crc16_rounds, crc16_bytes, crc16, raw_head, encode_raw,
  record_time, is_some, valid_from, valid_records,
}

-- The CRC of a record.
crc16_round-lt : (crc : ℕ) → crc16_round crc < 2 ^ 16
unfolding crc16_round
crc16_round-lt crc = ground arith

crc16_rounds-lt : (n crc : ℕ) → crc16_rounds (suc n) crc < 2 ^ 16
unfolding crc16_rounds
crc16_rounds-lt zero crc = crc16_round-lt crc
crc16_rounds-lt (suc n) crc = crc16_rounds-lt n (crc16_round crc)

crc16_bytes-lt : (bs : List ℕ) (crc : ℕ) → crc < 2 ^ 16 → crc16_bytes crc bs < 2 ^ 16
unfolding crc16_bytes
crc16_bytes-lt [] crc h = h
crc16_bytes-lt (b ∷ bs) crc h = crc16_bytes-lt bs _ (crc16_rounds-lt 7 _)

crc16-lt : (bs : List ℕ) → crc16 bs < 2 ^ 16
unfolding crc16
crc16-lt bs = crc16_bytes-lt bs 0xFFFF (omega arith)

module _ {ℓ} {A : Type ℓ} where
  take-append : (n : ℕ) (xs ys : List A) → length xs ≡ n → take n (xs ++ ys) ≡ xs
  take-append zero [] ys h = refl
  take-append zero (x ∷ xs) ys h = absurd (omega arith)
  take-append (suc n) [] ys h = absurd (omega arith)
  take-append (suc n) (x ∷ xs) ys h = ap (λ t. x ∷ t) (take-append n xs ys (omega arith))

  drop-append : (n : ℕ) (xs ys : List A) → length xs ≡ n → drop n (xs ++ ys) ≡ ys
  drop-append zero [] ys h = refl
  drop-append zero (x ∷ xs) ys h = absurd (omega arith)
  drop-append (suc n) [] ys h = absurd (omega arith)
  drop-append (suc n) (x ∷ xs) ys h = drop-append n xs ys (omega arith)

  length-append : (xs ys : List A) → length (xs ++ ys) ≡ length xs + length ys
  length-append [] ys = omega arith
  length-append (x ∷ xs) ys = omega (arith, length-append xs ys)

same : (n : ℕ) → (n == n) ≡ true
same n = ground arith

-- A record's bytes before its CRC, the CRC and what follows.
record_time_parts :
    (head more : List ℕ) (size : ℕ)
    → length head + 2 ≡ size
    → 6 ≤ size
    → record_time (head ++ (put_u16 (crc16 head) ++ more)) size
      ≡ some (get_u32 (head ++ (put_u16 (crc16 head) ++ more)))
unfolding record_time
record_time_parts head more size e l =
    let rest : List ℕ = put_u16 (crc16 head) ++ more in
    let n : length head ≡ size - 2 = omega arith in
    let small : ltb size 6 ≡ false = ground arith in
    rw
      (
        small,
        take-append (size - 2) head rest n,
        drop-append (size - 2) head rest n,
        of_bytes-to_bytes2 (crc16 head) (crc16-lt head),
        same (crc16 head),
      )
      refl

-- A row that fits the layout, and a layout whose records are its rows, a time and a CRC.
abbrev pub IsRow : Layout → ℕ × List ℕ → Type 0
IsRow lay r = (r.0 < 2 ^ 32) × (length r.1 ≡ lay.value_bytes)

abbrev pub IsLayout : Layout → Type 0
IsLayout lay = lay.rec_size ≡ lay.value_bytes + 6

length-raw_head :
    (lay : Layout) (r : ℕ × List ℕ)
    → IsRow lay r
    → length (raw_head lay r.0 r.1) ≡ lay.value_bytes + 4
unfolding raw_head
length-raw_head lay r h = omega (arith, length-take lay.value_bytes r.1 (omega (arith, h.1)))

length-encode_raw :
    (lay : Layout) (r : ℕ × List ℕ)
    → IsLayout lay
    → IsRow lay r
    → length (encode_raw lay r.0 r.1) ≡ lay.rec_size
unfolding encode_raw
length-encode_raw lay r l h =
    length-append (raw_head lay r.0 r.1) (put_u16 (crc16 (raw_head lay r.0 r.1)))
    ∙ omega (arith, length-raw_head lay r h)

raw_head-time :
    (lay : Layout) (r : ℕ × List ℕ) (xs : List ℕ)
    → IsRow lay r
    → get_u32 (raw_head lay r.0 r.1 ++ xs) ≡ r.0
unfolding raw_head
raw_head-time lay r xs h = of_bytes-to_bytes4 r.0 h.0

record_time-encode_raw :
    (lay : Layout) (r : ℕ × List ℕ) (xs : List ℕ)
    → IsLayout lay
    → IsRow lay r
    → record_time (encode_raw lay r.0 r.1 ++ xs) lay.rec_size ≡ some r.0
unfolding encode_raw
record_time-encode_raw lay r xs l h =
    let head : List ℕ = raw_head lay r.0 r.1 in
    ap (λ b. record_time b lay.rec_size) (append_assoc head (put_u16 (crc16 head)) xs)
    ∙ record_time_parts head xs lay.rec_size (omega (arith, l, length-raw_head lay r h))
        (omega (arith, l))
    ∙ ap some (raw_head-time lay r (put_u16 (crc16 head) ++ xs) h)

-- The bytes of rows written one behind the other.
abbrev pub rows_bytes : Layout → List (ℕ × List ℕ) → List ℕ
rows_bytes lay [] = []
rows_bytes lay (r ∷ rs) = encode_raw lay r.0 r.1 ++ rows_bytes lay rs

-- No whole record: too few bytes, or a CRC that is wrong.
abbrev pub Torn : List ℕ → ℕ → Type 0
Torn xs size = (length xs < size) ⊎ (record_time xs size ≡ none)

none_stops : (b : Bool) (o : Option ℕ) → o ≡ none → (b && is_some o) ≡ false
none_stops false o e = refl
none_stops true o e = ap is_some e

Torn-stops :
    (xs : List ℕ) (size : ℕ)
    → Torn xs size
    → (leb size (length xs) && is_some (record_time xs size)) ≡ false
Torn-stops xs size (inl h) = ground arith
Torn-stops xs size (inr e) = none_stops (leb size (length xs)) (record_time xs size) e

row_goes_on :
    (xs : List ℕ) (size t : ℕ)
    → size ≤ length xs
    → record_time xs size ≡ some t
    → (leb size (length xs) && is_some (record_time xs size)) ≡ true
row_goes_on xs size t h e =
    let long : leb size (length xs) ≡ true = ground arith in rw (long, e) refl

valid_from_rows :
    (fuel : ℕ) (lay : Layout) (rs : List (ℕ × List ℕ)) (rest : List ℕ)
    → IsLayout lay
    → All (IsRow lay) rs
    → Torn rest lay.rec_size
    → length (rows_bytes lay rs ++ rest) ≤ fuel
    → valid_from fuel (rows_bytes lay rs ++ rest) lay.rec_size ≡ length rs
unfolding valid_from
valid_from_rows zero lay [] rest l h d b = refl
valid_from_rows (suc fuel) lay [] rest l h d b = rw (Torn-stops rest lay.rec_size d) refl
valid_from_rows zero lay (r ∷ rs) rest l h d b =
    let row : List ℕ = encode_raw lay r.0 r.1 in
    absurd (
      omega (
        arith,
        b,
        length-append (rows_bytes lay (r ∷ rs)) rest,
        length-append row (rows_bytes lay rs),
        length-encode_raw lay r l h.0,
        l,
      ))
valid_from_rows (suc fuel) lay (r ∷ rs) rest l h d b =
    let row : List ℕ = encode_raw lay r.0 r.1 in
    let behind : List ℕ = rows_bytes lay rs ++ rest in
    let n : length row ≡ lay.rec_size = length-encode_raw lay r l h.0 in
    let whole : length (row ++ behind) ≡ lay.rec_size + length behind =
      length-append row behind ∙ omega (arith, n) in
    let e : (row ++ rows_bytes lay rs) ++ rest ≡ row ++ behind =
      append_assoc row (rows_bytes lay rs) rest in
    let fits : length behind ≤ fuel = omega (arith, b, ap length e, whole, l) in
    ap (λ t. valid_from (suc fuel) t lay.rec_size) e
    ∙ rw
        (
          row_goes_on (row ++ behind) lay.rec_size r.0 (omega (arith, whole))
              (record_time-encode_raw lay r behind l h.0),
          drop-append lay.rec_size row behind n,
          valid_from_rows fuel lay rs rest l h.1 d fits,
        )
        refl

-- A file of rows written one behind the other and then something that is no whole record, cut short
-- or with a wrong CRC, has as many valid records as rows, where the rows fit the layout and its
-- record size is theirs.
pub valid_records-rows_bytes :
    (lay : Layout) (rs : List (ℕ × List ℕ)) (rest : List ℕ)
    → IsLayout lay
    → All (IsRow lay) rs
    → Torn rest lay.rec_size
    → valid_records (rows_bytes lay rs ++ rest) lay.rec_size ≡ length rs
unfolding valid_records
valid_records-rows_bytes lay rs rest l h d =
    let small : ltb lay.rec_size 6 ≡ false = ground arith in
    rw small (valid_from_rows _ lay rs rest l h d (omega arith))
