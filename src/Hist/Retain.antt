-- ===== src/Hist/Retain.antt =====
-- `retention` of lib/ESPRack/src/history/HistCore.cpp: which of one tier's segments, oldest first, are
-- deleted. The segments and the array `drop` beside them are one list of marks; `i + 1 < n` is that
-- more segments follow.
use esp_rack.Prelude.{
  ℕ, ◌+◌, ◌-◌, ◌%◌, ◌^◌, Bool, true, false, not, ◌&&◌, List, [], ◌∷◌, ltb, ◌==◌, if◌then◌else◌,
  go_on,
}

pub record SegInfo : Type 0 where
  pub newest_t : ℕ
  pub bytes : ℕ

pub record Mark : Type 0 where
  pub info : SegInfo
  pub drop : Bool

abbrev pub mark : SegInfo → Bool → Mark
mark s d = record { info = s; drop = d }

abbrev pub more {ℓ} : {A : Type ℓ} → List A → Bool
more [] = false
more (x ∷ xs) = true

-- `+=` and `-=` of a uint64_t.
abbrev pub add64 : ℕ → ℕ → ℕ
add64 a b = (a + b) % 2 ^ 64

abbrev pub sub64 : ℕ → ℕ → ℕ
sub64 a b = (a + 2 ^ 64 - b) % 2 ^ 64

-- The first loop.
unfoldable pub sum_bytes : List SegInfo → ℕ → ℕ
sum_bytes [] total = total
sum_bytes (s ∷ ss) total = sum_bytes ss (add64 total s.bytes)

-- The second loop: its marks, and what is left of `total`.
unfoldable pub old_marks : ℕ → List SegInfo → List Mark
old_marks horizon [] = []
old_marks horizon (s ∷ ss) = mark s (more ss && ltb s.newest_t horizon) ∷ old_marks horizon ss

unfoldable pub left_over : ℕ → List SegInfo → ℕ → ℕ
left_over horizon [] total = total
left_over horizon (s ∷ ss) total =
    left_over horizon ss (if more ss && ltb s.newest_t horizon then sub64 total s.bytes else total)

-- The third loop, from the oldest on.
unfoldable pub trim : ℕ → List Mark → ℕ → List Mark
trim max_bytes [] total = []
trim max_bytes (m ∷ ms) total =
    go_on ((not (max_bytes == 0) && ltb max_bytes total) && more ms) (m ∷ ms) (λ u.
      mark m.info true ∷ trim max_bytes ms (if m.drop then total else sub64 total m.info.bytes))

unfoldable pub horizon_of : ℕ → ℕ → ℕ
horizon_of now keep_s = if ltb keep_s now then now - keep_s else 0

unfoldable pub retention : List SegInfo → ℕ → ℕ → ℕ → List Mark
retention segs now keep_s max_bytes =
    let horizon : ℕ = horizon_of now keep_s in
    trim max_bytes (old_marks horizon segs) (left_over horizon segs (sum_bytes segs 0))
