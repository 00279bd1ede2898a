-- ===== src/Persist/Laws/Damage.antt =====
-- A blob in which one byte was changed.
use esp_rack.Prelude.{
  subst, ℕ, ◌≡◌, ◌≢◌, refl, sym, ◌∙◌, ap, List, ◌++◌, All, some, arith, inl, inr, length, take,
  drop,
}
use esp_rack.Persist.Crc.{crc32_ieee}
use esp_rack.Persist.Blob.{
  Header, header_size, of_bytes, read_header, crc_of, Verdict, ok, other_schema, corrupt, decode,
}
use esp_rack.Persist.Laws.Crc.{IsByte, OneByte, crc32_ieee-append, crc32_ieee-OneByte}
use esp_rack.Persist.Laws.Bytes.{
  take_all, length-drop, All-take, All-drop, All-append, drop-drop, OneByte-split,
  OneByte-append_left, OneByte-append_right, of_bytes-OneByte,
}
use esp_rack.Persist.Laws.Header.{covered_bytes-read_header}
use esp_rack.Persist.Laws.Blob.{Sound, decode_accepts}

-- The bytes that the CRC covers, and the field that holds it.
abbrev guarded : List ℕ → List ℕ
guarded b = take 12 b ++ drop 4 (drop 12 b)

abbrev crc_field : List ℕ → List ℕ
crc_field b = take 4 (drop 12 b)

guarded-IsByte : (b : List ℕ) → All IsByte b → All IsByte (guarded b)
guarded-IsByte b p =
    All-append IsByte (take 12 b) (drop 4 (drop 12 b)) (All-take IsByte 12 b p)
      (All-drop IsByte 4 (drop 12 b) (All-drop IsByte 12 b p))

crc_field-IsByte : (b : List ℕ) → All IsByte b → All IsByte (crc_field b)
crc_field-IsByte b p = All-take IsByte 4 (drop 12 b) (All-drop IsByte 12 b p)

-- In a sound blob the field is the CRC of the rest.
Sound-crc :
    (b : List ℕ)
    → All IsByte b
    → Sound b (length b)
    → crc32_ieee (guarded b) 0 ≡ of_bytes (crc_field b)
unfolding read_header crc_of
Sound-crc b p s =
    let tail : take (read_header b).len (drop header_size b) ≡ drop 4 (drop 12 b) =
      take_all (read_header b).len (drop header_size b)
        (omega (arith, length-drop header_size b, s.has_size))
      ∙ sym (drop-drop 4 12 b) in
    sym (crc32_ieee-append (take 12 b) (drop 4 (drop 12 b)) 0 (All-take IsByte 12 b p))
    ∙ sym (ap (λ x. crc32_ieee x (crc32_ieee (take 12 b) 0)) tail)
    ∙ sym (
        ap (λ x. crc32_ieee (take (read_header b).len (drop header_size b)) (crc32_ieee x 0))
          (covered_bytes-read_header b p s.holds_header))
    ∙ s.has_crc

-- Of two blobs that differ in one byte one is not sound.
Sound-one :
    (a b : List ℕ)
    → OneByte a b
    → All IsByte a
    → All IsByte b
    → Sound a (length a)
    → Sound b (length b)
    → ⊥
Sound-one a b d pa pb sa sb =
    let same : of_bytes (crc_field a) ≡ of_bytes (crc_field b)
        → crc32_ieee (guarded a) 0 ≡ crc32_ieee (guarded b) 0 =
      λ e. Sound-crc a pa sa ∙ e ∙ sym (Sound-crc b pb sb) in
    let apart : OneByte (guarded a) (guarded b) → of_bytes (crc_field a) ≢ of_bytes (crc_field b) =
      λ o e. crc32_ieee-OneByte 0 o (guarded-IsByte a pa) (guarded-IsByte b pb) (same e) in
    elim (OneByte-split 12 d) [
      | inl p ↦
          apart
            (subst (λ t. OneByte (guarded a) (take 12 b ++ drop 4 t)) p.1
              (OneByte-append_left (drop 4 (drop 12 a)) p.0))
            (ap (λ t. of_bytes (take 4 t)) p.1)
      | inr p ↦ elim (OneByte-split 4 p.1) [
        | inl q ↦
            of_bytes-OneByte q.0 (crc_field-IsByte a pa) (crc_field-IsByte b pb)
              (sym (Sound-crc a pa sa) ∙ rw (p.0, q.1) refl ∙ Sound-crc b pb sb)
        | inr q ↦
            apart
              (subst (λ t. OneByte (guarded a) (t ++ drop 4 (drop 12 b))) p.0
                (OneByte-append_right (take 12 a) q.1))
              (ap of_bytes q.0)
      ]
    ]

verdict_corrupt : (v : Verdict) → (v ≢ corrupt → ⊥) → v ≡ corrupt
verdict_corrupt ok h = absurd (h (λ e. ground arith))
verdict_corrupt other_schema h = absurd (h (λ e. ground arith))
verdict_corrupt corrupt h = refl

-- Where a blob is decoded, as this schema's or another's, and one of its bytes is then changed,
-- in the header or in the payload, `decode` says that it is corrupt, whatever schema and length it
-- is asked for.
pub decode-OneByte :
    (a b : List ℕ) (schema len schema2 len2 : ℕ) (h k : Header)
    → OneByte a b
    → All IsByte a
    → All IsByte b
    → (decode (some a) (length a) schema len h).0 ≢ corrupt
    → (decode (some b) (length b) schema2 len2 k).0 ≡ corrupt
decode-OneByte a b schema len schema2 len2 h k d pa pb n =
    verdict_corrupt (decode (some b) (length b) schema2 len2 k).0 (λ m.
      Sound-one a b d pa pb (decode_accepts a (length a) schema len h n)
        (decode_accepts b (length b) schema2 len2 k m))
