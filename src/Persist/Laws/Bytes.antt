-- ===== src/Persist/Laws/Bytes.antt =====
-- Runs of bytes: taken apart and put together, and numbers as they lie in memory.
use esp_rack.Prelude.{
  ℕ, zero, suc, ◌+◌, ◌-◌, ◌*◌, ◌/◌, ◌%◌, ◌^◌, ◌≤◌, ◌<◌, ◌≡◌, ◌≢◌, refl, ◌∙◌, ap, sym, List, [], ◌∷◌,
  ◌++◌, All, arith, ◌⊎◌, inl, inr, length, take, drop,
}
use esp_rack.Persist.Blob.{to_bytes, of_bytes}
use esp_rack.Persist.Laws.Crc.{IsByte, OneByte, here, there}

module _ {ℓ} {A : Type ℓ} where
  pub take-length : (xs : List A) → take (length xs) xs ≡ xs
  take-length [] = refl
  take-length (x ∷ xs) = ap (λ t. x ∷ t) (take-length xs)

  pub take_all : (n : ℕ) (xs : List A) → length xs ≤ n → take n xs ≡ xs
  take_all zero [] h = refl
  take_all zero (x ∷ xs) h = absurd (omega arith)
  take_all (suc n) [] h = refl
  take_all (suc n) (x ∷ xs) h = ap (λ t. x ∷ t) (take_all n xs (omega arith))

  pub length-take : (n : ℕ) (xs : List A) → n ≤ length xs → length (take n xs) ≡ n
  length-take zero xs h = refl
  length-take (suc n) [] h = absurd (omega arith)
  length-take (suc n) (x ∷ xs) h = ap suc (length-take n xs (omega arith))

  pub length-drop : (n : ℕ) (xs : List A) → length (drop n xs) ≡ length xs - n
  length-drop zero xs = omega arith
  length-drop (suc n) [] = omega arith
  length-drop (suc n) (x ∷ xs) = omega (arith, length-drop n xs)

  take_nil : (n : ℕ) → take {A = A} n [] ≡ []
  take_nil zero = refl
  take_nil (suc n) = refl

  drop_nil : (n : ℕ) → drop {A = A} n [] ≡ []
  drop_nil zero = refl
  drop_nil (suc n) = refl

  pub drop-drop : (n m : ℕ) (xs : List A) → drop n (drop m xs) ≡ drop (m + n) xs
  drop-drop n zero xs = ap (λ t. drop t xs) (omega arith)
  drop-drop zero (suc m) [] = sym (drop_nil (suc m + 0))
  drop-drop (suc n) (suc m) [] = sym (drop_nil (suc m + suc n))
  drop-drop n (suc m) (x ∷ xs) =
      let e : suc (m + n) ≡ suc m + n = omega arith in
      drop-drop n m xs ∙ ap (λ t. drop t (x ∷ xs)) e

  pub take-append_drop : (n m : ℕ) (xs : List A) → take n xs ++ take m (drop n xs) ≡ take (n + m) xs
  take-append_drop zero m xs = ap (λ t. take t xs) (omega arith)
  take-append_drop (suc n) m [] = take_nil m ∙ sym (take_nil (suc n + m))
  take-append_drop (suc n) m (x ∷ xs) =
      let e : suc (n + m) ≡ suc n + m = omega arith in
      ap (λ t. x ∷ t) (take-append_drop n m xs) ∙ ap (λ t. take t (x ∷ xs)) e

  -- Two runs behind each other.
  pub take-append_next :
      (n m k : ℕ) (xs : List A)
      → take n (drop m xs) ++ take k (drop (m + n) xs) ≡ take (n + k) (drop m xs)
  take-append_next n m k xs =
      ap (λ t. take n (drop m xs) ++ take k t) (sym (drop-drop n m xs))
      ∙ take-append_drop n k (drop m xs)

  pub append_cong : {a b c d : List A} → a ≡ b → c ≡ d → a ++ c ≡ b ++ d
  append_cong p q = rw (p, q) refl

  pub append_assoc : (xs ys zs : List A) → (xs ++ ys) ++ zs ≡ xs ++ (ys ++ zs)
  append_assoc [] ys zs = refl
  append_assoc (x ∷ xs) ys zs = ap (λ t. x ∷ t) (append_assoc xs ys zs)

  pub All-take {κ} : (P : A → Type κ) (n : ℕ) (xs : List A) → All P xs → All P (take n xs)
  All-take P zero xs h = tt
  All-take P (suc n) [] h = tt
  All-take P (suc n) (x ∷ xs) h = (h.0, All-take P n xs h.1)

  pub All-drop {κ} : (P : A → Type κ) (n : ℕ) (xs : List A) → All P xs → All P (drop n xs)
  All-drop P zero xs h = h
  All-drop P (suc n) [] h = tt
  All-drop P (suc n) (x ∷ xs) h = All-drop P n xs h.1

  pub All-append {κ} : (P : A → Type κ) (xs ys : List A) → All P xs → All P ys → All P (xs ++ ys)
  All-append P [] ys h k = k
  All-append P (x ∷ xs) ys h k = (h.0, All-append P xs ys h.1 k)

pub length-to_bytes : (n x : ℕ) → length (to_bytes n x) ≡ n
length-to_bytes zero x = refl
length-to_bytes (suc n) x = ap suc (length-to_bytes n (x / 256))

pub to_bytes-IsByte : (n x : ℕ) → All IsByte (to_bytes n x)
to_bytes-IsByte zero x = tt
to_bytes-IsByte (suc n) x = (omega arith, to_bytes-IsByte n (x / 256))

pub of_bytes-to_bytes2 : (x : ℕ) → x < 2 ^ 16 → of_bytes (to_bytes 2 x) ≡ x
of_bytes-to_bytes2 x h = omega arith

pub of_bytes-to_bytes4 : (x : ℕ) → x < 2 ^ 32 → of_bytes (to_bytes 4 x) ≡ x
of_bytes-to_bytes4 x h = omega arith

pub to_bytes-of_bytes : (xs : List ℕ) → All IsByte xs → to_bytes (length xs) (of_bytes xs) ≡ xs
to_bytes-of_bytes [] h = refl
to_bytes-of_bytes (x ∷ xs) h =
    let lo : (x + 256 * of_bytes xs) % 256 ≡ x = omega (arith, h.0) in
    let hi : (x + 256 * of_bytes xs) / 256 ≡ of_bytes xs = omega (arith, h.0) in
    rw (lo, hi, to_bytes-of_bytes xs h.1) refl

-- Two lists that differ in one byte, taken apart at any place.
abbrev pub SplitAt : ℕ → List ℕ → List ℕ → Type 0
SplitAt n xs ys =
    (OneByte (take n xs) (take n ys) × (drop n xs ≡ drop n ys))
    ⊎ ((take n xs ≡ take n ys) × OneByte (drop n xs) (drop n ys))

there_split : (n x : ℕ) (xs ys : List ℕ) → SplitAt n xs ys → SplitAt (suc n) (x ∷ xs) (x ∷ ys)
there_split n x xs ys (inl p) = inl (there p.0, p.1)
there_split n x xs ys (inr p) = inr (ap (λ t. x ∷ t) p.0, p.1)

pub OneByte-split : {xs ys : List ℕ} (n : ℕ) → OneByte xs ys → SplitAt n xs ys
OneByte-split zero d = inr (refl, d)
OneByte-split (suc n) (here ne) = inl (here ne, refl)
OneByte-split (suc n) (there d) = there_split n _ _ _ (OneByte-split n d)

pub OneByte-append_left :
    {xs ys : List ℕ} (zs : List ℕ) → OneByte xs ys → OneByte (xs ++ zs) (ys ++ zs)
OneByte-append_left zs (here ne) = here ne
OneByte-append_left zs (there d) = there (OneByte-append_left zs d)

pub OneByte-append_right :
    {xs ys : List ℕ} (zs : List ℕ) → OneByte xs ys → OneByte (zs ++ xs) (zs ++ ys)
OneByte-append_right [] d = d
OneByte-append_right (z ∷ zs) d = there (OneByte-append_right zs d)

pub OneByte-length : {xs ys : List ℕ} → OneByte xs ys → length xs ≡ length ys
OneByte-length (here ne) = refl
OneByte-length (there d) = ap suc (OneByte-length d)

pub of_bytes-OneByte :
    {xs ys : List ℕ} → OneByte xs ys → All IsByte xs → All IsByte ys → of_bytes xs ≢ of_bytes ys
of_bytes-OneByte (here ne) p q = λ e. ne (omega (arith, p.0, q.0, e))
of_bytes-OneByte (there d) p q = λ e. of_bytes-OneByte d p.1 q.1 (omega (arith, p.0, q.0, e))
