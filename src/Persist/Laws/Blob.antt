-- ===== src/Persist/Laws/Blob.antt =====
-- The codec of lib/ESPRack/src/persist/NvsBlob.cpp, both ways.
use esp_rack.Prelude.{
  ℕ, ◌+◌, ◌^◌, ◌≤◌, ◌<◌, ◌≡◌, ◌≢◌, refl, ◌∙◌, ap, List, ◌++◌, All, some, arith, length, take, drop,
  length-append,
}
use esp_rack.Persist.Blob.{
  Header, header_size, blob_magic, covered_bytes, header_bytes, read_header, crc_of, header_for,
  encode, ok, other_schema, corrupt, judge, decode,
}
use esp_rack.Persist.Laws.Crc.{IsByte, crc32_ieee-lt}
use esp_rack.Persist.Laws.Bytes.{take-length, All-take, All-append}
use esp_rack.Persist.Laws.Header.{
  Fits, read_header-header_bytes, drop-header_bytes, length-header_bytes,
}

covered_bytes-crc : (h : Header) (c : ℕ) → covered_bytes (record h { crc = c }) ≡ covered_bytes h
unfolding covered_bytes
covered_bytes-crc h c = refl

crc_of-header_for :
    (schema gen : ℕ) (payload : List ℕ) (len : ℕ)
    → crc_of (header_for schema gen payload len) payload len
      ≡ (header_for schema gen payload len).crc
unfolding header_for crc_of covered_bytes
crc_of-header_for schema gen payload len = refl

-- A blob that is not corrupt: its size, its magic and its CRC.
pub record Sound (b : List ℕ) (size : ℕ) : Type 0 where
  pub holds_header : header_size ≤ size
  pub has_magic : (read_header b).magic ≡ blob_magic
  pub has_size : size ≡ header_size + (read_header b).len
  pub has_crc :
      crc_of (read_header b) (drop header_size b) (read_header b).len ≡ (read_header b).crc

-- What `judge` says of a header whose magic, size and CRC are right.
pub judge_sound :
    (h : Header) (b : List ℕ) (size schema len : ℕ)
    → h.magic ≡ blob_magic
    → size ≡ header_size + h.len
    → crc_of h (drop header_size b) h.len ≡ h.crc
    → h.schema ≡ schema
    → h.len ≡ len
    → judge h b size schema len ≡ ok
unfolding judge
judge_sound h b size schema len m s c e l = ground arith

pub judge_other :
    (h : Header) (b : List ℕ) (size schema len : ℕ)
    → h.magic ≡ blob_magic
    → size ≡ header_size + h.len
    → crc_of h (drop header_size b) h.len ≡ h.crc
    → h.schema ≢ schema
    → judge h b size schema len ≡ other_schema
unfolding judge
judge_other h b size schema len m s c e = ground arith

judge_accepts :
    (h : Header) (b : List ℕ) (size schema len : ℕ)
    → judge h b size schema len ≢ corrupt
    → (h.magic ≡ blob_magic)
      × (size ≡ header_size + h.len)
      × (crc_of h (drop header_size b) h.len ≡ h.crc)
unfolding judge
judge_accepts h b size schema len n = ground arith

pub decode_accepts :
    (b : List ℕ) (size schema len : ℕ) (h : Header)
    → (decode (some b) size schema len h).0 ≢ corrupt
    → Sound b size
unfolding decode
decode_accepts b size schema len h n =
    ground (arith, judge_accepts (read_header b) b size schema len)

decode_reads :
    (b : List ℕ) (size schema len : ℕ) (h : Header)
    → header_size ≤ size
    → decode (some b) size schema len h ≡ (judge (read_header b) b size schema len, read_header b)
unfolding decode
decode_reads b size schema len h p = ground arith

header_for-Fits :
    (schema gen : ℕ) (payload : List ℕ) (len : ℕ)
    → schema < 2 ^ 16
    → gen < 2 ^ 32
    → len < 2 ^ 16
    → Fits (header_for schema gen payload len)
unfolding header_for crc_of
header_for-Fits schema gen payload len hs hg hl =
    (omega arith, hs, hl, hg, crc32_ieee-lt (take len payload) _)

encode_lem :
    (schema gen : ℕ) (payload : List ℕ)
    → encode schema gen payload (length payload)
      ≡ header_bytes (header_for schema gen payload (length payload)) ++ payload
unfolding encode
encode_lem schema gen payload = rw (take-length payload) refl

pub length-encode :
    (schema gen : ℕ) (payload : List ℕ)
    → length (encode schema gen payload (length payload)) ≡ header_size + length payload
length-encode schema gen payload = omega (
  arith,
  ap length (encode_lem schema gen payload),
  length-append (header_bytes (header_for schema gen payload (length payload))) payload,
  length-header_bytes (header_for schema gen payload (length payload)),
)

pub drop-encode :
    (schema gen : ℕ) (payload : List ℕ)
    → drop header_size (encode schema gen payload (length payload)) ≡ payload
drop-encode schema gen payload =
    ap (drop header_size) (encode_lem schema gen payload)
    ∙ drop-header_bytes (header_for schema gen payload (length payload)) payload

pub read_header-encode :
    (schema gen : ℕ) (payload : List ℕ)
    → schema < 2 ^ 16
    → gen < 2 ^ 32
    → length payload < 2 ^ 16
    → read_header (encode schema gen payload (length payload))
      ≡ header_for schema gen payload (length payload)
read_header-encode schema gen payload hs hg hl =
    ap read_header (encode_lem schema gen payload)
    ∙ read_header-header_bytes (header_for schema gen payload (length payload)) payload
        (header_for-Fits schema gen payload (length payload) hs hg hl)

header_for-fields :
    (schema gen : ℕ) (payload : List ℕ) (len : ℕ)
    → ((header_for schema gen payload len).magic ≡ blob_magic)
      × ((header_for schema gen payload len).len ≡ len)
      × ((header_for schema gen payload len).gen ≡ gen)
      × ((header_for schema gen payload len).schema ≡ schema)
unfolding header_for
header_for-fields schema gen payload len = (refl, refl, refl, refl)

-- What `encode` wrote is decoded under the schema and the length it was written for, with its
-- generation, and the payload stands behind the header, whatever the header held before.
pub decode-encode :
    (schema gen : ℕ) (payload : List ℕ) (h : Header)
    → schema < 2 ^ 16
    → gen < 2 ^ 32
    → length payload < 2 ^ 16
    → let b : List ℕ = encode schema gen payload (length payload) in
      (decode (some b) (length b) schema (length payload) h
        ≡ (ok, header_for schema gen payload (length payload)))
      × ((header_for schema gen payload (length payload)).gen ≡ gen)
      × (drop header_size b ≡ payload)
unfolding header_for
decode-encode schema gen payload h hs hg hl =
    let b : List ℕ = encode schema gen payload (length payload) in
    let k : Header = header_for schema gen payload (length payload) in
    let f = header_for-fields schema gen payload (length payload) in
    let sound : judge k b (length b) schema (length payload) ≡ ok =
      judge_sound k b (length b) schema (length payload) f.0
        (omega (arith, length-encode schema gen payload, f.1))
        (rw (drop-encode schema gen payload, f.1)
          (crc_of-header_for schema gen payload (length payload)))
        f.3 f.1 in
    (
      rw
          (
            decode_reads b (length b) schema (length payload) h
                (omega (arith, length-encode schema gen payload)),
            read_header-encode schema gen payload hs hg hl,
            sound,
          )
          refl,
      f.2,
      drop-encode schema gen payload,
    )

pub encode-IsByte :
    (schema gen : ℕ) (payload : List ℕ)
    → All IsByte payload
    → All IsByte (encode schema gen payload (length payload))
unfolding encode header_bytes covered_bytes
encode-IsByte schema gen payload p =
    All-append IsByte (header_bytes (header_for schema gen payload (length payload)))
      (take (length payload) payload) (ground arith) (All-take IsByte (length payload) payload p)
