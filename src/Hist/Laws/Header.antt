-- ===== src/Hist/Laws/Header.antt =====
-- The header of a segment file, read back.
use esp_rack.Prelude.{ℕ, ◌^◌, ◌≤◌, ◌<◌, ◌≡◌, refl, false, some, List, ◌++◌, arith, length, ltb}
use esp_rack.Persist.Blob.{to_bytes, of_bytes}
use esp_rack.Persist.Laws.Bytes.{of_bytes-to_bytes2, of_bytes-to_bytes4}
use esp_rack.Hist.Segment.{
  SegHeader, seg_magic, seg_version, seg_header_len, encode_header, header_at, is_refused,
  decode_header,
}

-- The header.
abbrev pub Fits : SegHeader → Type 0
Fits h =
    (h.version < 256)
    × (h.tier < 256)
    × (h.rec_size < 2 ^ 16)
    × (h.schema_hash < 2 ^ 32)
    × (h.bucket_s < 2 ^ 32)
    × (h.start_t < 2 ^ 32)

byte_again : (x : ℕ) → x < 256 → of_bytes (to_bytes 1 x) ≡ x
byte_again x h = omega arith

header_again :
    (h : SegHeader) (xs : List ℕ)
    → h.magic < 2 ^ 32
    → Fits h
    → header_at (encode_header h ++ xs) ≡ h
unfolding header_at encode_header
header_again h xs m f =
    rw
      (
        of_bytes-to_bytes4 h.magic m,
        byte_again h.version f.0,
        byte_again h.tier f.1,
        of_bytes-to_bytes2 h.rec_size f.2,
        of_bytes-to_bytes4 h.schema_hash f.3,
        of_bytes-to_bytes4 h.bucket_s f.4,
        of_bytes-to_bytes4 h.start_t f.5,
      )
      refl

long_enough :
    (h : SegHeader) (xs : List ℕ) → ltb (length (encode_header h ++ xs)) seg_header_len ≡ false
unfolding encode_header
long_enough h xs = ground arith

accepted :
    (h : SegHeader)
    → h.magic ≡ seg_magic
    → h.version ≡ seg_version
    → 6 ≤ h.rec_size
    → is_refused h ≡ false
unfolding is_refused
accepted h m v r = ground arith

-- A header of this format and version, of records of at least 6 bytes and with fields that fit their
-- widths, is read back from the start of the file it was written to.
pub decode_header-encode_header :
    (h : SegHeader) (xs : List ℕ)
    → h.magic ≡ seg_magic
    → h.version ≡ seg_version
    → 6 ≤ h.rec_size
    → Fits h
    → decode_header (encode_header h ++ xs) ≡ some h
unfolding decode_header
decode_header-encode_header h xs m v r f =
    rw (long_enough h xs, header_again h xs (omega arith) f, accepted h m v r) refl
