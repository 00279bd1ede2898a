-- ===== src/Framer/Laws.antt =====
-- What lib/ESPRack/src/hw/Rs485Framer.cpp keeps of the bytes it is fed.
use esp_rack.Prelude.{
  ℕ, ◌≤◌, ◌≡◌, ◌⊎◌, inl, inr, refl, ap, sym, ◌∙◌, arith, Bool, true, false, not, ◌||◌, Option, none,
  some, List, [], ◌∷◌, ◌++◌, length, ltb, if◌then◌else◌, if_split, subst, length-append,
}
use esp_rack.Prelude.Int.{ℤ, pos, ◌-ℤ◌, leb_ℤ, ltb_ℤ}
use esp_rack.Framer.{
  Frame, Framer, closed_frame, close, emptied, before_byte, take_byte, on_byte, poll, max_bytes,
}

abbrev pub bytes_of : Option Frame → List ℕ
bytes_of none = []
bytes_of (some f) = f.bytes

-- A framer between two calls: a frame has at most 256 bytes, and none while no frame is open.
pub record IsValid (f : Framer) : Type 0 where
  pub bounded : length f.cur.bytes ≤ max_bytes
  pub empty : f.is_open ≡ false → f.cur.bytes ≡ []

append_nil : (xs : List ℕ) → xs ++ [] ≡ xs
append_nil [] = refl
append_nil (x ∷ xs) = ap (λ l. x ∷ l) (append_nil xs)

append_assoc : (xs ys zs : List ℕ) → (xs ++ ys) ++ zs ≡ xs ++ (ys ++ zs)
append_assoc [] ys zs = refl
append_assoc (x ∷ xs) ys zs = ap (λ l. x ∷ l) (append_assoc xs ys zs)

closed-bytes : (c : Frame) → (closed_frame c).bytes ≡ c.bytes
unfolding closed_frame
closed-bytes c = ground arith

before-bytes :
    (f : Framer) (t : ℤ)
    → bytes_of (before_byte f t).0 ++ (before_byte f t).1.cur.bytes ≡ f.cur.bytes
unfolding before_byte close
before-bytes f t =
    let P : Option Frame × Framer → Type 0 = λ z. bytes_of z.0 ++ z.1.cur.bytes ≡ f.cur.bytes in
    let silence : ℤ = t -ℤ f.last -ℤ pos f.timing.char_us in
    if_split P (not f.is_open) (λ _. refl)
      (λ _.
        if_split P (leb_ℤ (pos f.timing.t35_us) silence)
          (λ _. append_nil (closed_frame f.cur).bytes ∙ closed-bytes f.cur)
          (λ _. if_split P (ltb_ℤ (pos f.timing.t15_us) silence) (λ _. refl) (λ _. refl)))

before-IsValid : (f : Framer) (t : ℤ) → IsValid f → IsValid (before_byte f t).1
unfolding before_byte close
before-IsValid f t v =
    let P : Option Frame × Framer → Type 0 = λ z. IsValid z.1 in
    let silence : ℤ = t -ℤ f.last -ℤ pos f.timing.char_us in
    if_split P (not f.is_open) (λ _. v)
      (λ _.
        if_split P (leb_ℤ (pos f.timing.t35_us) silence)
          (λ _. record { bounded = omega arith; empty = λ _. refl })
          (λ _.
            if_split P (ltb_ℤ (pos f.timing.t15_us) silence)
              (λ _. record { bounded = v.bounded; empty = v.empty }) (λ _. v)))

-- The frame that a byte is put into.
begun : Framer → ℤ → Frame
begun f t = if f.is_open then f.cur else record (emptied f.cur) { first_us = t }

begun-bytes : (f : Framer) (t : ℤ) → IsValid f → (begun f t).bytes ≡ f.cur.bytes
unfolding begun
begun-bytes f t v =
    if_split (λ (c : Frame). c.bytes ≡ f.cur.bytes) f.is_open (λ _. refl) (λ h. sym (v.empty h))

Kept : List ℕ → ℕ → Frame → Type 0
Kept old b c =
    (c.bytes ≡ old ++ b ∷ []) ⊎ ((c.overrun ≡ true) × (length old ≡ max_bytes) × (c.bytes ≡ old))

full : (n : ℕ) → n ≤ max_bytes → ltb n max_bytes ≡ false → n ≡ max_bytes
full n h l = ground arith

take-Kept :
    (f : Framer) (b : ℕ) (t : ℤ) (lost : Bool)
    → IsValid f
    → Kept f.cur.bytes b (take_byte f b t lost).cur
unfolding take_byte Kept begun
take-Kept f b t lost v =
    let e = begun-bytes f t v in
    if_split (Kept f.cur.bytes b) (ltb (length (begun f t).bytes) max_bytes)
      (λ _. inl (ap (λ l. l ++ b ∷ []) e))
      (λ h. inr (
        refl,
        full (length f.cur.bytes) v.bounded (ap (λ l. ltb (length l) max_bytes) (sym e) ∙ h),
        e,
      ))

grown : (xs : List ℕ) (b : ℕ) → ltb (length xs) max_bytes ≡ true → length (xs ++ b ∷ []) ≤ max_bytes
grown xs b h = ground (arith, length-append xs (b ∷ []))

take-bounded :
    (f : Framer) (b : ℕ) (t : ℤ) (lost : Bool)
    → IsValid f
    → length (take_byte f b t lost).cur.bytes ≤ max_bytes
unfolding take_byte begun
take-bounded f b t lost v =
    if_split (λ (c : Frame). length c.bytes ≤ max_bytes) (ltb (length (begun f t).bytes) max_bytes)
      (λ h. grown (begun f t).bytes b h)
      (λ _. subst (λ l. length l ≤ max_bytes) (sym (begun-bytes f t v)) v.bounded)

not_both : ¬ (true ≡ false)
not_both h = cc

take-IsValid :
    (f : Framer) (b : ℕ) (t : ℤ) (lost : Bool) → IsValid f → IsValid (take_byte f b t lost)
unfolding take_byte
take-IsValid f b t lost v = record {
  bounded = take-bounded f b t lost v;
  empty = λ h. absurd (not_both h);
}

-- Every byte that comes in is in a frame: the one that its coming closes and the one that is open
-- now hold together the bytes of the frame before and this one; only where the open frame has 256
-- bytes already the byte is dropped, and that frame says so.
pub on_byte-bytes :
    (f : Framer) (b : ℕ) (t : ℤ) (lost : Bool)
    → IsValid f
    → (bytes_of (on_byte f b t lost).0 ++ (on_byte f b t lost).1.cur.bytes ≡ f.cur.bytes ++ b ∷ [])
      ⊎ (((on_byte f b t lost).1.cur.overrun ≡ true)
          × (length (on_byte f b t lost).1.cur.bytes ≡ max_bytes)
          × (bytes_of (on_byte f b t lost).0 ++ (on_byte f b t lost).1.cur.bytes ≡ f.cur.bytes))
unfolding on_byte Kept
on_byte-bytes f b t lost v =
    let (out, g) = before_byte f t in
    let e = before-bytes f t in
    elim (take-Kept g b t lost (before-IsValid f t v)) [
      | inl k ↦ inl (
          ap (λ l. bytes_of out ++ l) k
          ∙ sym (append_assoc (bytes_of out) g.cur.bytes (b ∷ []))
          ∙ ap (λ l. l ++ b ∷ []) e)
      | inr (o, n, k) ↦ inr (o, ap length k ∙ n, ap (λ l. bytes_of out ++ l) k ∙ e)
    ]

-- What reaches a framer: a byte, or a look at the time.
pub data Input : Type 0 where
  byte : ℕ → ℤ → Bool → Input
  look : ℤ → Input

pub feed : Framer → List Input → Framer
feed f [] = f
feed f (byte b t lost ∷ xs) = feed (on_byte f b t lost).1 xs
feed f (look now ∷ xs) = feed (poll f now).1 xs

poll-IsValid : (f : Framer) (now : ℤ) → IsValid f → IsValid (poll f now).1
unfolding poll close
poll-IsValid f now v =
    if_split (λ (z : Option Frame × Framer). IsValid z.1)
      (not f.is_open || ltb_ℤ (now -ℤ f.last) (pos f.timing.t35_us)) (λ _. v)
      (λ _. record { bounded = omega arith; empty = λ _. refl })

-- Whatever is fed to a framer, its frame never has more than 256 bytes, and none while none is open.
pub feed-IsValid : (f : Framer) (xs : List Input) → IsValid f → IsValid (feed f xs)
unfolding feed on_byte
feed-IsValid f [] v = v
feed-IsValid f (byte b t lost ∷ xs) v =
    feed-IsValid (on_byte f b t lost).1 xs
      (take-IsValid (before_byte f t).1 b t lost (before-IsValid f t v))
feed-IsValid f (look now ∷ xs) v = feed-IsValid (poll f now).1 xs (poll-IsValid f now v)
