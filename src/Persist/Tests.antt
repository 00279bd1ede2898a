-- ===== src/Persist/Tests.antt =====
-- Runs of the persistence code on small inputs, and its properties at them.
use esp_rack.Prelude.{
  subst, ℕ, ◌≡◌, ◌≢◌, ◌⊎◌, refl, sym, ◌∙◌, ap, true, false, Option, none, some, List, [], ◌∷◌, ◌++◌,
  length, take, drop, arith, All,
}
use esp_rack.Persist.Crc.{crc32_ieee}
use esp_rack.Persist.Blob.{
  Header, header_size, Verdict, ok, corrupt, other_schema, encode, decode, header_for,
}
use esp_rack.Persist.Record.{
  NvsErr, esp_ok, not_found, Nvs, StoreStatus, done, NvsRecord, new_record, written, unchanged,
  skipped, load, store, stored, blank_header, load_from, load_nothing, damaged,
}
use esp_rack.Persist.Scratch.{
  Slot, Scratch, scratch_magic, image, commit, commit_during, Stage, copied, marked, get_image,
}
use esp_rack.Persist.Laws.Crc.{IsByte, OneByte, here, there, crc32_ieee-append, crc32_ieee-OneByte}
use esp_rack.Persist.Laws.Bytes.{take-length, OneByte-append_right}
use esp_rack.Persist.Laws.Blob.{decode-encode, encode-IsByte}
use esp_rack.Persist.Laws.Damage.{decode-OneByte}
use esp_rack.Persist.Laws.Record.{Keeps, loaded_as, load-store}
use esp_rack.Persist.Laws.Faults.{store_again, Same, store-Same, Holds, load-damaged}
use esp_rack.Persist.Laws.Scratch.{restarted, get_image-commit_cut, get_image-untrusted}

-- The check value of CRC-32.
crc_check :
    crc32_ieee (0x31 ∷ 0x32 ∷ 0x33 ∷ 0x34 ∷ 0x35 ∷ 0x36 ∷ 0x37 ∷ 0x38 ∷ 0x39 ∷ []) 0 ≡ 0xCBF43926
unfolding crc32_ieee esp_rack.Persist.Crc.crc_bytes esp_rack.Persist.Crc.crc_rounds
    esp_rack.Persist.Crc.crc_round
crc_check = refl

abbrev three : List ℕ
three = 1 ∷ 2 ∷ 255 ∷ []

abbrev other_three : List ℕ
other_three = 1 ∷ 7 ∷ 255 ∷ []

abbrev three_blob : List ℕ
three_blob = encode 1 7 three 3

three_other : OneByte three other_three
three_other = there (here (λ e. absurd (omega (arith, e))))

crc32_ieee-append_example :
    crc32_ieee other_three (crc32_ieee three 0) ≡ crc32_ieee (three ++ other_three) 0
crc32_ieee-append_example =
    crc32_ieee-append three other_three 0 (omega arith, (omega arith, (omega arith, tt)))

crc32_ieee-OneByte_example : crc32_ieee three 0 ≢ crc32_ieee other_three 0
crc32_ieee-OneByte_example =
    crc32_ieee-OneByte 0 three_other (omega arith, (omega arith, (omega arith, tt)))
      (omega arith, (omega arith, (omega arith, tt)))

decode-encode_example :
    (decode (some three_blob) (length three_blob) 1 3 blank_header ≡ (ok, header_for 1 7 three 3))
    × ((header_for 1 7 three 3).gen ≡ 7)
    × (drop header_size three_blob ≡ three)
decode-encode_example =
    decode-encode 1 7 three blank_header (omega arith) (omega arith) (omega arith)

-- A store that holds one blob and never fails.
abbrev one_blob : Nvs (Option (List ℕ))
one_blob = record {
  nvs_open = λ s w. (esp_ok, s);
  nvs_blob_size = λ s. elim s [ none ↦ (not_found, 0) | some b ↦ (esp_ok, length b) ];
  nvs_get_blob = λ s n. elim s [ none ↦ (not_found, []) | some b ↦ (esp_ok, take n b) ];
  nvs_set_blob = λ s b. (esp_ok, some b);
  nvs_commit = λ s. (esp_ok, s);
}

one_blob-Keeps : Keeps one_blob
one_blob-Keeps = record {
  opens = λ s t u b e f. refl;
  sizes = λ s t u b e f.
      let g : some b ≡ u = ap (λ x. x.1) e ∙ ap (λ x. x.1) f in ap one_blob.nvs_blob_size (sym g);
  reads = λ s t u b e f.
      let g : some b ≡ u = ap (λ x. x.1) e ∙ ap (λ x. x.1) f in
      ap (λ x. one_blob.nvs_get_blob x (length b)) (sym g) ∙ ap (λ x. (esp_ok, x)) (take-length b);
}

abbrev stored_three : StoreStatus × (NvsRecord × Option (List ℕ))
stored_three = store one_blob none true (new_record 1 3) three

stored_three_written : stored_three ≡ (written, (stored_three.1.0, stored_three.1.1))
unfolding store esp_rack.Persist.Record.set_blob
stored_three_written = refl

load-store_example :
    load one_blob stored_three.1.1 false (new_record 1 3) [] none
    ≡ loaded_as (new_record 1 3) 1 three
load-store_example =
    load-store one_blob none stored_three.1.1 true false (new_record 1 3) stored_three.1.0
      (new_record 1 3) three [] none one_blob-Keeps stored_three_written refl refl refl
      (omega arith) (omega arith)

store_again_example :
    store one_blob stored_three.1.1 false stored_three.1.0 three
    ≡ (unchanged, (stored_three.1.0, stored_three.1.1))
store_again_example =
    store_again one_blob none stored_three.1.1 true false (new_record 1 3) stored_three.1.0 three
      stored_three_written

store_kept_out : stored (store one_blob none false (new_record 1 3) three).0 ≡ false
unfolding store
store_kept_out = refl

store-Same_example : Same (store one_blob none false (new_record 1 3) three).1.0 (new_record 1 3)
store-Same_example = store-Same one_blob none false (new_record 1 3) three store_kept_out

abbrev three_blob_start : List ℕ
three_blob_start =
    0x4E ∷ 0x56 ∷ 0x52 ∷ 0x31 ∷ 1 ∷ 0 ∷ 3 ∷ 0 ∷ 7 ∷ 0 ∷ 0 ∷ 0 ∷ 38 ∷ 34 ∷ 154 ∷ 234 ∷ []

three_blob_bytes : three_blob ≡ three_blob_start ++ three
unfolding encode esp_rack.Persist.Blob.header_bytes esp_rack.Persist.Blob.covered_bytes header_for
    esp_rack.Persist.Blob.crc_of crc32_ieee esp_rack.Persist.Crc.crc_bytes
    esp_rack.Persist.Crc.crc_rounds esp_rack.Persist.Crc.crc_round
three_blob_bytes = refl

-- One payload byte changed.
abbrev damaged_blob : List ℕ
damaged_blob = three_blob_start ++ other_three

damaged_other : OneByte three_blob damaged_blob
damaged_other =
    subst (λ b. OneByte b damaged_blob) (sym three_blob_bytes)
      (OneByte-append_right three_blob_start three_other)

three-IsByte : All IsByte three
three-IsByte = (omega arith, (omega arith, (omega arith, tt)))

damaged-IsByte : All IsByte damaged_blob
damaged-IsByte = ground arith

not_corrupt : {v : Verdict} → v ≡ ok → v ≢ corrupt
not_corrupt e f = ground arith

decode-OneByte_example :
    (decode (some damaged_blob) (length damaged_blob) 1 3 blank_header).0 ≡ corrupt
decode-OneByte_example =
    decode-OneByte three_blob damaged_blob 1 3 1 3 blank_header blank_header damaged_other
      (encode-IsByte 1 7 three three-IsByte) damaged-IsByte
      (not_corrupt (ap (λ x. x.0) decode-encode_example.0))

damaged_held : Holds one_blob (some damaged_blob) damaged_blob
damaged_held = record { opened = some damaged_blob; opens = refl; sizes = refl; reads = refl }

load-damaged_example :
    load one_blob (some damaged_blob) false (new_record 1 3) [] none
    ≡ load_nothing damaged (new_record 1 3) []
load-damaged_example =
    load-damaged one_blob (some damaged_blob) false (new_record 1 3) 1 7 three [] damaged_blob none
      damaged_held (omega arith) (omega arith) (omega arith) three-IsByte damaged-IsByte
      damaged_other

-- Two slots after power-on, with what happened to be there.
abbrev junk : Slot
junk = record { magic = 5; seq = 9; len = 3; crc = 0; payload = 8 ∷ 8 ∷ 8 ∷ [] }

abbrev scratch : Scratch
scratch = record { s0 = junk; s1 = junk; size_of = 3; initialised = false }

one_image : get_image (commit scratch false three) true ≡ some three
unfolding get_image image esp_rack.Persist.Scratch.newest esp_rack.Persist.Scratch.newest_of
    esp_rack.Persist.Scratch.is_good esp_rack.Persist.Scratch.init commit commit_during
    esp_rack.Persist.Scratch.invalidate esp_rack.Persist.Scratch.slot_during
    esp_rack.Persist.Scratch.slot_crc crc32_ieee esp_rack.Persist.Crc.crc_bytes
    esp_rack.Persist.Crc.crc_rounds esp_rack.Persist.Crc.crc_round
one_image = refl

two_images :
    get_image (commit (commit scratch false three) false other_three) true ≡ some other_three
unfolding get_image image esp_rack.Persist.Scratch.newest esp_rack.Persist.Scratch.newest_of
    esp_rack.Persist.Scratch.is_good esp_rack.Persist.Scratch.init commit commit_during
    esp_rack.Persist.Scratch.invalidate esp_rack.Persist.Scratch.slot_during
    esp_rack.Persist.Scratch.slot_crc crc32_ieee esp_rack.Persist.Crc.crc_bytes
    esp_rack.Persist.Crc.crc_rounds esp_rack.Persist.Crc.crc_round
two_images = refl

get_image-commit_cut_example :
    ((copied 1 ≢ marked)
      × (get_image (restarted (commit_during (copied 1) scratch three)) true ≡ image scratch))
    ⊎ ((copied 1 ≡ marked)
        × (get_image (restarted (commit_during (copied 1) scratch three)) true ≡ some three))
get_image-commit_cut_example =
    get_image-commit_cut (copied 1) scratch three (omega arith, omega arith)

get_image-untrusted_example : get_image (restarted scratch) false ≡ none
get_image-untrusted_example = get_image-untrusted scratch
