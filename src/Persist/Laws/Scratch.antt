-- ===== src/Persist/Laws/Scratch.antt =====
-- A commit of the RTC scratch, whole or cut short by a reset at any store, and the image behind it.
use esp_rack.Prelude.{
  ℕ, ◌^◌, ◌<◌, ◌≡◌, ◌≢◌, refl, sym, ◌∙◌, ap, Bool, true, false, Option, none, some, List, arith,
  ◌⊎◌, inl, inr,
}
use esp_rack.Persist.Scratch.{
  Slot, Scratch, slot_crc, is_good, Which, first, second, slot_at, newest_of, newest, image_in,
  invalidate, init, image, target_of, put_slot, bump, next_seq, Stage, cleared, copied, numbered,
  sized, summed, marked, slot_during, commit_during, get_image,
}

-- What the order of the stores in `commit` makes of the target.
unmarked_bad :
    (stage : Stage) (x : Slot) (v : List ℕ) (seq len : ℕ)
    → stage ≢ marked
    → is_good (slot_during stage x v seq len) len ≡ false
unfolding is_good slot_during
unmarked_bad cleared x v seq len n = refl
unmarked_bad (copied k) x v seq len n = refl
unmarked_bad numbered x v seq len n = refl
unmarked_bad sized x v seq len n = refl
unmarked_bad summed x v seq len n = refl
unmarked_bad marked x v seq len n = absurd (n refl)

marked_good :
    (x : Slot) (v : List ℕ) (seq len : ℕ) → is_good (slot_during marked x v seq len) len ≡ true
unfolding is_good slot_during slot_crc
marked_good x v seq len = ground arith

-- The newest slot stays the newest while the other one is not good.
newest_first :
    (a b : Bool) (p q r : ℕ) → newest_of a b p q ≡ some first → newest_of a false p r ≡ some first
unfolding newest_of
newest_first a b p q r h = ground arith

newest_second :
    (a b : Bool) (p q r : ℕ) → newest_of a b p q ≡ some second → newest_of false b r q ≡ some second
unfolding newest_of
newest_second a b p q r h = ground arith

newest_none : (a b : Bool) (p q r : ℕ) → newest_of a b p q ≡ none → newest_of false b r q ≡ none
unfolding newest_of
newest_none a b p q r h = ground arith

-- A good slot with the next number is the newest.
becomes_second : (p q : ℕ) → p < 2 ^ 32 → q ≡ bump p → newest_of true true p q ≡ some second
unfolding newest_of
becomes_second p q h e = ground arith

becomes_first : (p q : ℕ) → q < 2 ^ 32 → p ≡ bump q → newest_of true true p q ≡ some first
unfolding newest_of
becomes_first p q h e = ground arith

none_first : (a b : Bool) (p q r : ℕ) → newest_of a b p q ≡ none → newest_of true b r q ≡ some first
unfolding newest_of
none_first a b p q r h = ground arith

good_first : (a b : Bool) (p q : ℕ) → newest_of a b p q ≡ some first → a ≡ true
unfolding newest_of
good_first a b p q h = ground arith

good_second : (a b : Bool) (p q : ℕ) → newest_of a b p q ≡ some second → b ≡ true
unfolding newest_of
good_second a b p q h = ground arith

is_marked : (stage : Stage) → (stage ≡ marked) ⊎ (stage ≢ marked)
is_marked cleared = inr (λ e. ground arith)
is_marked (copied k) = inr (λ e. ground arith)
is_marked numbered = inr (λ e. ground arith)
is_marked sized = inr (λ e. ground arith)
is_marked summed = inr (λ e. ground arith)
is_marked marked = inl refl

image_at : (m : Scratch) (w : Option Which) → newest m ≡ w → image m ≡ image_in m w
unfolding image
image_at m w h = ap (image_in m) h

-- Where the target is not good, the newest slot is that of before, and so is the image.
kept_newest :
    (m : Scratch) (x : Slot) (w : Option Which)
    → newest m ≡ w
    → is_good x m.size_of ≡ false
    → newest (put_slot m (target_of w) x) ≡ w
unfolding newest
kept_newest m x none h b =
    rw b (newest_none (is_good m.s0 m.size_of) (is_good m.s1 m.size_of) m.s0.seq m.s1.seq x.seq h)
kept_newest m x (some first) h b =
    rw b (newest_first (is_good m.s0 m.size_of) (is_good m.s1 m.size_of) m.s0.seq m.s1.seq x.seq h)
kept_newest m x (some second) h b =
    rw b (newest_second (is_good m.s0 m.size_of) (is_good m.s1 m.size_of) m.s0.seq m.s1.seq x.seq h)

same_image :
    (m : Scratch) (x : Slot) (w : Option Which)
    → image_in (put_slot m (target_of w) x) w ≡ image_in m w
same_image m x none = refl
same_image m x (some first) = refl
same_image m x (some second) = refl

kept_image :
    (m : Scratch) (x : Slot) (w : Option Which)
    → newest m ≡ w
    → is_good x m.size_of ≡ false
    → image (put_slot m (target_of w) x) ≡ image m
kept_image m x w h b =
    image_at (put_slot m (target_of w) x) w (kept_newest m x w h b)
    ∙ same_image m x w
    ∙ sym (image_at m w h)

-- Slots whose numbers are 32 bits wide.
abbrev pub Numbered : Scratch → Type 0
Numbered m = (m.s0.seq < 2 ^ 32) × (m.s1.seq < 2 ^ 32)

-- Where the target is good and has the next number, it is the newest.
taken_newest :
    (m : Scratch) (x : Slot) (w : Option Which)
    → Numbered m
    → newest m ≡ w
    → is_good x m.size_of ≡ true
    → x.seq ≡ next_seq m w
    → newest (put_slot m (target_of w) x) ≡ some (target_of w)
unfolding newest
taken_newest m x none n h g e =
    rw g (none_first (is_good m.s0 m.size_of) (is_good m.s1 m.size_of) m.s0.seq m.s1.seq x.seq h)
taken_newest m x (some first) n h g e =
    rw (g, good_first (is_good m.s0 m.size_of) (is_good m.s1 m.size_of) m.s0.seq m.s1.seq h)
      (becomes_second m.s0.seq x.seq n.0 e)
taken_newest m x (some second) n h g e =
    rw (g, good_second (is_good m.s0 m.size_of) (is_good m.s1 m.size_of) m.s0.seq m.s1.seq h)
      (becomes_first x.seq m.s1.seq n.1 e)

slot_in_target : (m : Scratch) (x : Slot) (w : Which) → slot_at (put_slot m w x) w ≡ x
slot_in_target m x first = refl
slot_in_target m x second = refl

during_payload :
    (x : Slot) (v : List ℕ) (seq len : ℕ) → (slot_during marked x v seq len).payload ≡ v
unfolding slot_during
during_payload x v seq len = refl

during_seq : (x : Slot) (v : List ℕ) (seq len : ℕ) → (slot_during marked x v seq len).seq ≡ seq
unfolding slot_during
during_seq x v seq len = refl

committed_newest :
    (m : Scratch) (v : List ℕ)
    → Numbered m
    → newest (commit_during marked m v) ≡ some (target_of (newest m))
unfolding commit_during
committed_newest m v n =
    let t : Slot = slot_at m (target_of (newest m)) in
    taken_newest m (slot_during marked t v (next_seq m (newest m)) m.size_of) (newest m) n refl
      (marked_good t v (next_seq m (newest m)) m.size_of)
      (during_seq t v (next_seq m (newest m)) m.size_of)

committed_slot :
    (m : Scratch) (v : List ℕ)
    → slot_at (commit_during marked m v) (target_of (newest m))
      ≡ slot_during marked (slot_at m (target_of (newest m))) v (next_seq m (newest m)) m.size_of
unfolding commit_during
committed_slot m v = slot_in_target m _ (target_of (newest m))

-- The image behind a commit that ran to its end is the value committed.
committed_image :
    (m : Scratch) (v : List ℕ) → Numbered m → image (commit_during marked m v) ≡ some v
committed_image m v n =
    image_at (commit_during marked m v) (some (target_of (newest m))) (committed_newest m v n)
    ∙ ap (λ x. some x.payload) (committed_slot m v)
    ∙ ap some
        (during_payload (slot_at m (target_of (newest m))) v (next_seq m (newest m)) m.size_of)

cut_image :
    (stage : Stage) (m : Scratch) (v : List ℕ)
    → stage ≢ marked
    → image (commit_during stage m v) ≡ image m
unfolding commit_during
cut_image stage m v n =
    let t : Slot = slot_at m (target_of (newest m)) in
    kept_image m (slot_during stage t v (next_seq m (newest m)) m.size_of) (newest m) refl
      (unmarked_bad stage t v (next_seq m (newest m)) m.size_of n)

-- The memory after a reset, before `init`.
abbrev pub restarted : Scratch → Scratch
restarted m = record m { initialised = false }

get_image-restarted : (m : Scratch) → get_image (restarted m) true ≡ image m
unfolding get_image init image newest
get_image-restarted m = refl

-- After a reset that did not keep the memory there is no image, whatever the slots hold.
pub get_image-untrusted : (m : Scratch) → get_image (restarted m) false ≡ none
unfolding get_image init image newest invalidate is_good newest_of
get_image-untrusted m = refl

-- A soft reset that cuts a commit short at any of its stores leaves the image of before, and one
-- behind its last store the value committed.
pub get_image-commit_cut :
    (stage : Stage) (m : Scratch) (v : List ℕ)
    → Numbered m
    → ((stage ≢ marked) × (get_image (restarted (commit_during stage m v)) true ≡ image m))
      ⊎ ((stage ≡ marked) × (get_image (restarted (commit_during stage m v)) true ≡ some v))
get_image-commit_cut stage m v n = elim (is_marked stage) [
  | inl e ↦ inr (
    e,
    get_image-restarted (commit_during stage m v)
        ∙ ap (λ t. image (commit_during t m v)) e
        ∙ committed_image m v n,
  )
  | inr f ↦ inl (f, get_image-restarted (commit_during stage m v) ∙ cut_image stage m v f)
]
