-- ===== src/Hist/Laws/Count.antt =====
-- How many records of a segment file are whole.
use esp_rack.Prelude.{
  ℕ, zero, suc, ◌≤◌, ◌<◌, ◌≡◌, refl, true, false, ◌&&◌, Option, none, some, List, arith, ◌⊎◌, inl,
  inr, drop, length, ltb, leb, go_on_split,
}
use esp_rack.Persist.Laws.Bytes.{length-drop}
use esp_rack.Hist.Segment.{record_time, is_some, valid_from, valid_records}
use esp_rack.Hist.Laws.Records.{Torn}

torn_or : (n size : ℕ) (o : Option ℕ) → (leb size n && is_some o) ≡ false → (n < size) ⊎ (o ≡ none)
torn_or n size none h = inr refl
torn_or n size (some t) h = inl (ground arith)

long_row :
    (n size : ℕ) (o : Option ℕ) → (leb size n && is_some o) ≡ true → (size ≤ n) × (is_some o ≡ true)
long_row n size none h = ground arith
long_row n size (some t) h = (ground arith, refl)

-- So many whole records with a right CRC at the start, and behind them none.
pub data Counted : List ℕ → ℕ → ℕ → Type 0 where
  no_more : {xs : List ℕ} {size : ℕ} → Torn xs size → Counted xs size 0
  one_more :
      {xs : List ℕ} {size n : ℕ}
      → size ≤ length xs
      → is_some (record_time xs size) ≡ true
      → Counted (drop size xs) size n
      → Counted xs size (suc n)

valid_from-Counted :
    (fuel : ℕ) (xs : List ℕ) (size : ℕ)
    → 6 ≤ size
    → length xs ≤ fuel
    → Counted xs size (valid_from fuel xs size)
unfolding valid_from
valid_from-Counted zero xs size h b = no_more (inl (omega (arith, h, b)))
valid_from-Counted (suc fuel) xs size h b =
    go_on_split (Counted xs size) (leb size (length xs) && is_some (record_time xs size)) 0
      (λ u. suc (valid_from fuel (drop size xs) size))
      (λ f. no_more (torn_or (length xs) size (record_time xs size) f))
      (λ t.
        let l : (size ≤ length xs) × (is_some (record_time xs size) ≡ true) =
          long_row (length xs) size (record_time xs size) t in
        let fits : length (drop size xs) ≤ fuel = omega (arith, length-drop size xs, l.0, h, b) in
        one_more l.0 l.1 (valid_from-Counted fuel (drop size xs) size h fits))

-- Whatever the bytes, and for any record size of at least 6, `validRecords` is the number of whole
-- records with a right CRC at the start: behind that many there are too few bytes, or a wrong CRC.
pub valid_records-Counted :
    (xs : List ℕ) (size : ℕ) → 6 ≤ size → Counted xs size (valid_records xs size)
unfolding valid_records
valid_records-Counted xs size h =
    let small : ltb size 6 ≡ false = ground arith in
    rw small (valid_from-Counted (length xs) xs size h (omega arith))
