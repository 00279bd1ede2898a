-- ===== src/Hist/Tests.antt =====
-- HistCore.cpp on concrete segments.
use esp_rack.Prelude.{ℕ, ◌≡◌, refl, true, false, none, some, List, [], ◌∷◌, ◌++◌, inl, arith, map}
use esp_rack.Hist.Segment.{
  SegHeader, Layout, seg_magic, seg_version, crc16, encode_raw, record_time, encode_header,
  decode_header, valid_records,
}
use esp_rack.Hist.Retain.{SegInfo, Mark, mark, retention, horizon_of}
use esp_rack.Hist.Laws.Header.{decode_header-encode_header}
use esp_rack.Hist.Laws.Records.{rows_bytes, valid_records-rows_bytes}
use esp_rack.Hist.Laws.Count.{Counted, valid_records-Counted}
use esp_rack.Hist.Laws.Retain.{wanted, retention-wanted, kept_bytes}
use esp_rack.Hist.Laws.Cap.{Trimmed, retention-Trimmed}

-- "123456789".
check_value : crc16 (0x31 ∷ 0x32 ∷ 0x33 ∷ 0x34 ∷ 0x35 ∷ 0x36 ∷ 0x37 ∷ 0x38 ∷ 0x39 ∷ []) ≡ 0x29B1
unfolding crc16 esp_rack.Hist.Segment.crc16_bytes esp_rack.Hist.Segment.crc16_rounds
    esp_rack.Hist.Segment.crc16_round
check_value = refl

abbrev layout : Layout
layout = record { value_bytes = 2; rec_size = 8 }

abbrev two_rows : List (ℕ × List ℕ)
two_rows = (100, 7 ∷ 8 ∷ []) ∷ (160, 9 ∷ 10 ∷ []) ∷ []

abbrev torn : List ℕ
torn = 1 ∷ 2 ∷ 3 ∷ []

abbrev header : SegHeader
header = record {
  magic = seg_magic;
  version = seg_version;
  tier = 1;
  rec_size = 8;
  schema_hash = 0xDEADBEEF;
  bucket_s = 60;
  start_t = 86400;
}

refused_size : decode_header (encode_header (record header { rec_size = 5 })) ≡ none
unfolding decode_header encode_header esp_rack.Hist.Segment.is_refused
    esp_rack.Hist.Segment.header_at
refused_size = refl

short_file : decode_header (0x48 ∷ 0x53 ∷ []) ≡ none
unfolding decode_header
short_file = refl

flipped : record_time (encode_raw layout 100 (7 ∷ 9 ∷ []) ++ torn) 8 ≡ some 100
unfolding record_time crc16 esp_rack.Hist.Segment.crc16_bytes encode_raw
    esp_rack.Hist.Segment.raw_head esp_rack.Hist.Segment.crc16_rounds
    esp_rack.Hist.Segment.crc16_round
flipped = refl

decode_header-encode_header_example : decode_header (encode_header header ++ torn) ≡ some header
decode_header-encode_header_example =
    decode_header-encode_header header torn refl refl (omega arith)
      (omega arith, omega arith, omega arith, omega arith, omega arith, omega arith)

valid_records-rows_bytes_example : valid_records (rows_bytes layout two_rows ++ torn) 8 ≡ 2
valid_records-rows_bytes_example =
    valid_records-rows_bytes layout two_rows torn refl
      ((omega arith, refl), ((omega arith, refl), tt)) (inl (omega arith))

valid_records-Counted_example :
    Counted
      (rows_bytes layout two_rows ++ torn)
      8
      (valid_records (rows_bytes layout two_rows ++ torn) 8)
valid_records-Counted_example =
    valid_records-Counted (rows_bytes layout two_rows ++ torn) 8 (omega arith)

abbrev segment : ℕ → ℕ → SegInfo
segment t n = record { newest_t = t; bytes = n }

abbrev four : List SegInfo
four = segment 100 50 ∷ segment 200 60 ∷ segment 300 70 ∷ segment 400 80 ∷ []

-- One is too old; one of the three others goes for the cap.
two_dropped :
    retention four 450 300 160
    ≡ mark (segment 100 50) true
      ∷ mark (segment 200 60) true
      ∷ mark (segment 300 70) false
      ∷ mark (segment 400 80) false
      ∷ []
unfolding retention esp_rack.Hist.Retain.trim esp_rack.Hist.Retain.old_marks
    esp_rack.Hist.Retain.left_over horizon_of esp_rack.Hist.Retain.sum_bytes
two_dropped = refl

-- The newest stays although it is over the cap.
newest_stays : map (λ m. m.drop) (retention four 450 300 10) ≡ true ∷ true ∷ true ∷ false ∷ []
unfolding retention esp_rack.Hist.Retain.trim esp_rack.Hist.Retain.old_marks
    esp_rack.Hist.Retain.left_over horizon_of esp_rack.Hist.Retain.sum_bytes
newest_stays = refl

retention-wanted_example : retention four 450 300 160 ≡ wanted (horizon_of 450 300) 160 four
retention-wanted_example = retention-wanted four 450 300 160 (omega arith)

retention-Trimmed_example : Trimmed 160 80 (kept_bytes (retention four 450 300 160))
retention-Trimmed_example =
    retention-Trimmed four 450 300 160 (omega arith) (λ e. absurd (omega (arith, e)))
