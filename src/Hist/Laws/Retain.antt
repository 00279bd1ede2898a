-- ===== src/Hist/Laws/Retain.antt =====
-- Retention against what it is meant to keep.
use esp_rack.Prelude.{
  ℕ, ◌+◌, ◌^◌, ◌≤◌, ◌<◌, ◌≡◌, refl, ◌∙◌, ap, sym, Bool, true, false, not, ◌||◌, ◌&&◌, List, [], ◌∷◌,
  arith, ltb, ◌==◌, if◌then◌else◌, go_on, if_split,
}
use esp_rack.Hist.Retain.{
  SegInfo, Mark, mark, more, add64, sub64, sum_bytes, old_marks, left_over, trim, horizon_of,
  retention,
}

-- All bytes; those of the segments that are not too old, the newest counted always; and those of
-- the segments that stay.
abbrev pub all_bytes : List SegInfo → ℕ
all_bytes [] = 0
all_bytes (s ∷ ss) = s.bytes + all_bytes ss

abbrev pub fresh_bytes : Bool → SegInfo → ℕ
fresh_bytes old s = if old then 0 else s.bytes

abbrev pub live : ℕ → List SegInfo → ℕ
live h [] = 0
live h (s ∷ ss) = fresh_bytes (more ss && ltb s.newest_t h) s + live h ss

abbrev pub kept_bytes : List Mark → ℕ
kept_bytes [] = 0
kept_bytes (m ∷ ms) = fresh_bytes m.drop m.info + kept_bytes ms

abbrev pub newest_bytes : List SegInfo → ℕ
newest_bytes [] = 0
newest_bytes (s ∷ ss) = if more ss then newest_bytes ss else s.bytes

-- More live bytes than the cap, where there is one.
abbrev pub over_cap : ℕ → ℕ → Bool
over_cap max_bytes n = not (max_bytes == 0) && ltb max_bytes n

-- What is to be deleted, each segment on its own: one that others follow and that is too old, or
-- that makes, with the ones behind it that are not, more than the cap.
abbrev pub wanted : ℕ → ℕ → List SegInfo → List Mark
wanted h max_bytes [] = []
wanted h max_bytes (s ∷ ss) =
    mark s (more ss && (ltb s.newest_t h || over_cap max_bytes (live h (s ∷ ss))))
    ∷ wanted h max_bytes ss

sum_bytes_lem :
    (ss : List SegInfo) (n : ℕ) → n + all_bytes ss < 2 ^ 64 → sum_bytes ss n ≡ n + all_bytes ss
unfolding sum_bytes
sum_bytes_lem [] n h = omega arith
sum_bytes_lem (s ∷ ss) n h =
    let e : add64 n s.bytes ≡ n + s.bytes = omega (arith, h) in
    ap (λ t. sum_bytes ss t) e ∙ sum_bytes_lem ss (n + s.bytes) (omega (arith, h)) ∙ omega arith

left_over_turn :
    (h : ℕ) (ss : List SegInfo) (s : SegInfo) (n : ℕ) (old : Bool)
    → ((m : ℕ) → m + all_bytes ss < 2 ^ 64 → left_over h ss (m + all_bytes ss) ≡ m + live h ss)
    → n + (s.bytes + all_bytes ss) < 2 ^ 64
    → left_over h ss
        (if old then sub64 (n + (s.bytes + all_bytes ss)) s.bytes else n + (s.bytes + all_bytes ss))
      ≡ n + (fresh_bytes old s + live h ss)
left_over_turn h ss s n true rest b =
    let e : sub64 (n + (s.bytes + all_bytes ss)) s.bytes ≡ n + all_bytes ss = omega arith in
    ap (λ t. left_over h ss t) e ∙ rest n (omega arith) ∙ omega arith
left_over_turn h ss s n false rest b =
    let e : n + (s.bytes + all_bytes ss) ≡ n + s.bytes + all_bytes ss = omega arith in
    ap (λ t. left_over h ss t) e ∙ rest (n + s.bytes) (omega arith) ∙ omega arith

left_over_lem :
    (h : ℕ) (ss : List SegInfo) (n : ℕ)
    → n + all_bytes ss < 2 ^ 64
    → left_over h ss (n + all_bytes ss) ≡ n + live h ss
unfolding left_over
left_over_lem h [] n b = refl
left_over_lem h (s ∷ ss) n b =
    left_over_turn h ss s n (more ss && ltb s.newest_t h) (left_over_lem h ss) b

over_cap_mono :
    (max_bytes a b : ℕ) → a ≤ b → over_cap max_bytes b ≡ false → over_cap max_bytes a ≡ false
over_cap_mono max_bytes a b h e = ground arith

marks_cong : {a b : Mark} {xs ys : List Mark} → a ≡ b → xs ≡ ys → a ∷ xs ≡ b ∷ ys
marks_cong p q = rw (p, q) refl

unmoved : (m o c : Bool) → c ≡ false → (m && o) ≡ (m && (o || c))
unmoved false o c e = refl
unmoved true false c e = sym e
unmoved true true c e = refl

-- Under the cap only the old ones go.
old_marks-wanted :
    (h max_bytes : ℕ) (ss : List SegInfo)
    → over_cap max_bytes (live h ss) ≡ false
    → old_marks h ss ≡ wanted h max_bytes ss
unfolding old_marks
old_marks-wanted h max_bytes [] e = refl
old_marks-wanted h max_bytes (s ∷ ss) e =
    marks_cong
      (ap (λ d. mark s d)
        (unmoved (more ss) (ltb s.newest_t h) (over_cap max_bytes (live h (s ∷ ss))) e))
      (old_marks-wanted h max_bytes ss
        (over_cap_mono max_bytes (live h ss) (live h (s ∷ ss)) (omega arith) e))

more-old_marks : (h : ℕ) (ss : List SegInfo) → more (old_marks h ss) ≡ more ss
unfolding old_marks
more-old_marks h [] = refl
more-old_marks h (s ∷ ss) = refl

alone-wanted :
    (h max_bytes : ℕ) (ss : List SegInfo) → more ss ≡ false → old_marks h ss ≡ wanted h max_bytes ss
unfolding old_marks
alone-wanted h max_bytes [] e = refl
alone-wanted h max_bytes (s ∷ []) e = refl
alone-wanted h max_bytes (s ∷ (r ∷ ss)) e = ground arith

-- One turn of the third loop, its tests told apart: over the cap, more follow, too old.
trim_turn :
    (k m o : Bool) (s : SegInfo) (xs ys zs : List Mark)
    → (m ≡ false → xs ≡ zs)
    → (k ≡ false → xs ≡ zs)
    → (k ≡ true → ys ≡ zs)
    → go_on (k && m) (mark s (m && o) ∷ xs) (λ u. mark s true ∷ ys) ≡ mark s (m && (o || k)) ∷ zs
trim_turn false false o s xs ys zs a b c = marks_cong refl (a refl)
trim_turn false true false s xs ys zs a b c = marks_cong refl (b refl)
trim_turn false true true s xs ys zs a b c = marks_cong refl (b refl)
trim_turn true false o s xs ys zs a b c = marks_cong refl (a refl)
trim_turn true true false s xs ys zs a b c = marks_cong refl (c refl)
trim_turn true true true s xs ys zs a b c = marks_cong refl (c refl)

rest_total :
    (old : Bool) (s : SegInfo) (n : ℕ)
    → fresh_bytes old s + n < 2 ^ 64
    → (if old then fresh_bytes old s + n else sub64 (fresh_bytes old s + n) s.bytes) ≡ n
rest_total true s n h = omega arith
rest_total false s n h = omega arith

trim_lem :
    (h max_bytes : ℕ) (ss : List SegInfo)
    → live h ss < 2 ^ 64
    → trim max_bytes (old_marks h ss) (live h ss) ≡ wanted h max_bytes ss
unfolding trim old_marks
trim_lem h max_bytes [] b = refl
trim_lem h max_bytes (s ∷ ss) b =
    let old : Bool = more ss && ltb s.newest_t h in
    let total : ℕ = live h (s ∷ ss) in
    let next : List Mark =
      trim max_bytes (old_marks h ss) (if old then total else sub64 total s.bytes) in
    ap
      (λ m.
        go_on (over_cap max_bytes total && m) (mark s old ∷ old_marks h ss)
          (λ u. mark s true ∷ next))
      (more-old_marks h ss)
    ∙ trim_turn (over_cap max_bytes total) (more ss) (ltb s.newest_t h) s (old_marks h ss) next
        (wanted h max_bytes ss) (alone-wanted h max_bytes ss)
        (λ e.
          old_marks-wanted h max_bytes ss
            (over_cap_mono max_bytes (live h ss) total (omega arith) e))
        (λ e.
          ap (λ t. trim max_bytes (old_marks h ss) t) (rest_total old s (live h ss) b)
          ∙ trim_lem h max_bytes ss (omega arith))

live-le : (h : ℕ) (ss : List SegInfo) → live h ss ≤ all_bytes ss
live-le h [] = omega arith
live-le h (s ∷ ss) =
    if_split (λ t. t + live h ss ≤ s.bytes + all_bytes ss) (more ss && ltb s.newest_t h)
      (λ t. omega (arith, live-le h ss)) (λ f. omega (arith, live-le h ss))

-- Where all the lengths add up to less than 2 ^ 64, `retention` deletes exactly the segments that
-- others follow and whose newest record is older than the horizon, or that make, with the ones
-- behind them that are not too old, more bytes than the cap, where there is one.
pub retention-wanted :
    (ss : List SegInfo) (now keep_s max_bytes : ℕ)
    → all_bytes ss < 2 ^ 64
    → retention ss now keep_s max_bytes ≡ wanted (horizon_of now keep_s) max_bytes ss
unfolding retention
retention-wanted ss now keep_s max_bytes b =
    let h : ℕ = horizon_of now keep_s in
    let total : left_over h ss (sum_bytes ss 0) ≡ live h ss =
      ap (λ t. left_over h ss t) (sum_bytes_lem ss 0 (omega arith))
      ∙ left_over_lem h ss 0 (omega arith)
      ∙ omega arith in
    ap (λ t. trim max_bytes (old_marks h ss) t) total
    ∙ trim_lem h max_bytes ss (omega (arith, live-le h ss))
