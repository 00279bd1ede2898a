-- ===== src/Persist/Blob.antt =====
-- The blob codec: `nvsrec` of lib/ESPRack/include/persist/NvsRecord.h and NvsBlob.cpp. Memory is a
-- list of bytes, little-endian; a null pointer is `none`.
use esp_rack.Prelude.{
  ℕ, zero, suc, ◌+◌, ◌*◌, ◌/◌, ◌%◌, not, ◌||◌, Option, none, some, List, [], ◌∷◌, ◌++◌, take, drop,
  ltb, ◌==◌, if◌then◌else◌,
}
use esp_rack.Persist.Crc.{crc32_ieee}

-- A number of n bytes as it lies in memory, and back.
abbrev pub to_bytes : ℕ → ℕ → List ℕ
to_bytes zero x = []
to_bytes (suc n) x = x % 256 ∷ to_bytes n (x / 256)

abbrev pub of_bytes : List ℕ → ℕ
of_bytes [] = 0
of_bytes (b ∷ bs) = b + 256 * of_bytes bs

pub record Header : Type 0 where
  pub magic : ℕ
  pub schema : ℕ
  pub len : ℕ
  pub gen : ℕ
  pub crc : ℕ

abbrev pub blob_magic : ℕ
blob_magic = 0x3152564E

-- `sizeof(Header)`.
abbrev pub header_size : ℕ
header_size = 16

-- The bytes of a header up to its `crc`.
unfoldable pub covered_bytes : Header → List ℕ
covered_bytes h =
    to_bytes 4 h.magic ++ (to_bytes 2 h.schema ++ (to_bytes 2 h.len ++ to_bytes 4 h.gen))

-- `memcpy(out, &h, sizeof(h))` and `memcpy(&h, blob, sizeof(h))`.
unfoldable pub header_bytes : Header → List ℕ
header_bytes h = covered_bytes h ++ to_bytes 4 h.crc

unfoldable pub read_header : List ℕ → Header
read_header b = record {
  magic = of_bytes (take 4 b);
  schema = of_bytes (take 2 (drop 4 b));
  len = of_bytes (take 2 (drop 6 b));
  gen = of_bytes (take 4 (drop 8 b));
  crc = of_bytes (take 4 (drop 12 b));
}

unfoldable pub crc_of : Header → List ℕ → ℕ → ℕ
crc_of h payload len = crc32_ieee (take len payload) (crc32_ieee (covered_bytes h) 0)

unfoldable pub header_for : ℕ → ℕ → List ℕ → ℕ → Header
header_for schema gen payload len =
    let h : Header = record {
      magic = blob_magic;
      schema = schema;
      len = len;
      gen = gen;
      crc = 0;
    } in
    record h { crc = crc_of h payload len }

unfoldable pub encode : ℕ → ℕ → List ℕ → ℕ → List ℕ
encode schema gen payload len = header_bytes (header_for schema gen payload len) ++ take len payload

pub data Verdict : Type 0 where
  ok other_schema corrupt : Verdict

-- `decode` once the header is read.
unfoldable pub judge : Header → List ℕ → ℕ → ℕ → ℕ → Verdict
judge h b size schema len =
    if not (h.magic == blob_magic) || not (size == header_size + h.len)
    then corrupt
    else (if not (crc_of h (drop header_size b) h.len == h.crc)
        then corrupt
        else (if not (h.schema == schema)
            then other_schema
            else (if h.len == len then ok else corrupt)))

-- The answer, and what `h` is after it.
unfoldable pub decode : Option (List ℕ) → ℕ → ℕ → ℕ → Header → Verdict × Header
decode none size schema len h = (corrupt, h)
decode (some b) size schema len h =
    if ltb size header_size
    then (corrupt, h)
    else (judge (read_header b) b size schema len, read_header b)
