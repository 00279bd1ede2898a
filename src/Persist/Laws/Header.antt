-- ===== src/Persist/Laws/Header.antt =====
-- The header as bytes and back.
use esp_rack.Prelude.{
  ℕ, ◌+◌, ◌^◌, ◌≤◌, ◌<◌, ◌≡◌, refl, ◌∙◌, subst, List, ◌++◌, All, arith, length, take, drop,
}
use esp_rack.Persist.Blob.{
  Header, header_size, to_bytes, of_bytes, covered_bytes, header_bytes, read_header,
}
use esp_rack.Persist.Laws.Crc.{IsByte}
use esp_rack.Persist.Laws.Bytes.{
  of_bytes-to_bytes2, of_bytes-to_bytes4, to_bytes-of_bytes, take-append_next, append_cong,
  length-take, length-drop, All-take, All-drop,
}

-- Fields that fit their widths.
abbrev pub Fits : Header → Type 0
Fits h =
    (h.magic < 2 ^ 32)
    × (h.schema < 2 ^ 16)
    × (h.len < 2 ^ 16)
    × (h.gen < 2 ^ 32)
    × (h.crc < 2 ^ 32)

pub read_header-header_bytes :
    (h : Header) (xs : List ℕ) → Fits h → read_header (header_bytes h ++ xs) ≡ h
unfolding read_header header_bytes covered_bytes
read_header-header_bytes h xs f =
    rw
      (
        of_bytes-to_bytes4 h.magic f.0,
        of_bytes-to_bytes2 h.schema f.1,
        of_bytes-to_bytes2 h.len f.2,
        of_bytes-to_bytes4 h.gen f.3,
        of_bytes-to_bytes4 h.crc f.4,
      )
      refl

pub drop-header_bytes : (h : Header) (xs : List ℕ) → drop header_size (header_bytes h ++ xs) ≡ xs
unfolding header_bytes covered_bytes
drop-header_bytes h xs = refl

pub length-header_bytes : (h : Header) → length (header_bytes h) ≡ header_size
unfolding header_bytes covered_bytes
length-header_bytes h = refl

-- A field read from a run of bytes that is long enough, written again.
field_again :
    (n m : ℕ) (b : List ℕ)
    → All IsByte b
    → m + n ≤ length b
    → to_bytes n (of_bytes (take n (drop m b))) ≡ take n (drop m b)
field_again n m b p h =
    let xs : List ℕ = take n (drop m b) in
    let e : length xs ≡ n = length-take n (drop m b) (omega (arith, length-drop m b)) in
    subst (λ k. to_bytes k (of_bytes xs) ≡ xs) e
      (to_bytes-of_bytes xs (All-take IsByte n (drop m b) (All-drop IsByte m b p)))

pub covered_bytes-read_header :
    (b : List ℕ) → All IsByte b → header_size ≤ length b → covered_bytes (read_header b) ≡ take 12 b
unfolding covered_bytes read_header
covered_bytes-read_header b p h =
    append_cong (field_again 4 0 b p (omega arith)) (
      append_cong (field_again 2 4 b p (omega arith))
        (append_cong (field_again 2 6 b p (omega arith)) (field_again 4 8 b p (omega arith))))
    ∙ append_cong {a = take 4 b} refl (
        append_cong {a = take 2 (drop 4 b)} refl (take-append_next 2 6 4 b)
        ∙ take-append_next 2 4 6 b)
    ∙ take-append_next 4 0 8 b
