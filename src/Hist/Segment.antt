-- ===== src/Hist/Segment.antt =====
-- A segment file of lib/ESPRack/include/history/HistCore.h: a header, then records of one size, each
-- with its CRC. Memory is a list of bytes, little-endian; an out parameter is the answer.
use Prim.Native.Nat.{bit_and, bit_xor}
use esp_rack.Prelude.{
  ℕ, zero, suc, ◌-◌, ◌*◌, ◌%◌, ◌^◌, Bool, true, false, not, ◌||◌, ◌&&◌, Option, none, some, List,
  [], ◌∷◌, ◌++◌, take, drop, length, ltb, leb, ◌==◌, if◌then◌else◌, go_on,
}
use esp_rack.Persist.Blob.{to_bytes, of_bytes}

pub record SegHeader : Type 0 where
  pub magic : ℕ
  pub version : ℕ
  pub tier : ℕ
  pub rec_size : ℕ
  pub schema_hash : ℕ
  pub bucket_s : ℕ
  pub start_t : ℕ

-- One tier's record layout, as far as the raw records use it.
pub record Layout : Type 0 where
  pub value_bytes : ℕ
  pub rec_size : ℕ

abbrev pub seg_magic : ℕ
seg_magic = 0x47455348

abbrev pub seg_version : ℕ
seg_version = 1

abbrev pub seg_header_len : ℕ
seg_header_len = 20

abbrev pub put_u16 : ℕ → List ℕ
put_u16 v = to_bytes 2 v

abbrev pub put_u32 : ℕ → List ℕ
put_u32 v = to_bytes 4 v

abbrev pub get_u16 : List ℕ → ℕ
get_u16 p = of_bytes (take 2 p)

abbrev pub get_u32 : List ℕ → ℕ
get_u32 p = of_bytes (take 4 p)

-- CRC-16/CCITT-FALSE, the highest bit first.
unfoldable pub crc16_round : ℕ → ℕ
crc16_round crc =
    if bit_and crc 0x8000 == 0 then crc * 2 % 2 ^ 16 else bit_xor (crc * 2) 0x1021 % 2 ^ 16

unfoldable pub crc16_rounds : ℕ → ℕ → ℕ
crc16_rounds zero crc = crc
crc16_rounds (suc n) crc = crc16_rounds n (crc16_round crc)

unfoldable pub crc16_bytes : ℕ → List ℕ → ℕ
crc16_bytes crc [] = crc
crc16_bytes crc (b ∷ bs) = crc16_bytes (crc16_rounds 8 (bit_xor crc (b * 256 % 2 ^ 16))) bs

unfoldable pub crc16 : List ℕ → ℕ
crc16 bytes = crc16_bytes 0xFFFF bytes

-- A record's bytes before its CRC.
unfoldable pub raw_head : Layout → ℕ → List ℕ → List ℕ
raw_head lay t values = put_u32 t ++ take lay.value_bytes values

unfoldable pub encode_raw : Layout → ℕ → List ℕ → List ℕ
encode_raw lay t values = raw_head lay t values ++ put_u16 (crc16 (raw_head lay t values))

unfoldable pub record_time : List ℕ → ℕ → Option ℕ
record_time rec rec_size =
    if ltb rec_size 6 || not (crc16 (take (rec_size - 2) rec) == get_u16 (drop (rec_size - 2) rec))
    then none
    else some (get_u32 rec)

unfoldable pub encode_header : SegHeader → List ℕ
encode_header h =
    put_u32 h.magic
    ++ (to_bytes 1 h.version
        ++ (to_bytes 1 h.tier
            ++ (put_u16 h.rec_size
                ++ (put_u32 h.schema_hash ++ (put_u32 h.bucket_s ++ put_u32 h.start_t)))))

-- `r`, field by field.
unfoldable pub header_at : List ℕ → SegHeader
header_at b = record {
  magic = get_u32 b;
  version = of_bytes (take 1 (drop 4 b));
  tier = of_bytes (take 1 (drop 5 b));
  rec_size = get_u16 (drop 6 b);
  schema_hash = get_u32 (drop 8 b);
  bucket_s = get_u32 (drop 12 b);
  start_t = get_u32 (drop 16 b);
}

unfoldable pub is_refused : SegHeader → Bool
is_refused r = not (r.magic == seg_magic) || (not (r.version == seg_version) || ltb r.rec_size 6)

unfoldable pub decode_header : List ℕ → Option SegHeader
decode_header b =
    if ltb (length b) seg_header_len
    then none
    else (if is_refused (header_at b) then none else some (header_at b))

abbrev pub is_some {ℓ} : {A : Type ℓ} → Option A → Bool
is_some none = false
is_some (some x) = true

-- The loop of `validRecords`; each turn goes on behind the record, so a turn per byte is enough.
unfoldable pub valid_from : ℕ → List ℕ → ℕ → ℕ
valid_from zero rows rec_size = 0
valid_from (suc fuel) rows rec_size =
    go_on (leb rec_size (length rows) && is_some (record_time rows rec_size)) 0
      (λ u. suc (valid_from fuel (drop rec_size rows) rec_size))

unfoldable pub valid_records : List ℕ → ℕ → ℕ
valid_records rows rec_size = if ltb rec_size 6 then 0 else valid_from (length rows) rows rec_size
