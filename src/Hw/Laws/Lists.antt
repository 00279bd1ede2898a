-- ===== src/Hw/Laws/Lists.antt =====
-- Where a claim of a changed list comes from, lib/ESPRack/src/hw/HwClaims.cpp.
use mathlib.Core.List.{Memᴰ}
use esp_rack.Prelude.{
  ℕ, ◌≡◌, refl, ◌∙◌, ◌⊎◌, inl, inr, Bool, true, false, not, ◌||◌, ◌==◌, ◌==◌, List, [], ◌∷◌, ◌++◌,
  if◌then◌else◌, any, ap, sym,
}
use esp_rack.Hw.{
  Text, HwResource, HwClaim, erase_if, let_go, take_all, claim_of, give_up, eq_ℤ, not_configured,
  taken_back, same_resource,
}

pub if_Mem {ℓ} :
    {A : Type ℓ} (b : Bool) (a : A) (xs ys : List A)
    → Memᴰ a (if b then xs else ys)
    → Memᴰ a xs ⊎ Memᴰ a ys
if_Mem true a xs ys m = inl m
if_Mem false a xs ys m = inr m

pub append-Mem {ℓ} :
    {A : Type ℓ} (a x : A) (xs : List A) → Memᴰ a (xs ++ (x ∷ [])) → Memᴰ a xs ⊎ (a ≡ x)
append-Mem a x [] (Memᴰ.head e) = inr e
append-Mem a x [] (Memᴰ.tail m) = elim m [ ]
append-Mem a x (y ∷ ys) (Memᴰ.head e) = inl (Memᴰ.head e)
append-Mem a x (y ∷ ys) (Memᴰ.tail m) = elim (append-Mem a x ys m) [
  | inl k ↦ inl (Memᴰ.tail k)
  | inr e ↦ inr e
]

pub erase_if-Mem :
    (p : HwClaim → Bool) (c : HwClaim) (cs : List HwClaim) → Memᴰ c (erase_if p cs) → Memᴰ c cs
unfolding erase_if
erase_if-Mem p c [] m = elim m [ ]
erase_if-Mem p c (x ∷ xs) m = elim (if_Mem (p x) c (erase_if p xs) (x ∷ erase_if p xs) m) [
  | inl k ↦ Memᴰ.tail (erase_if-Mem p c xs k)
  | inr (Memᴰ.head e) ↦ Memᴰ.head e
  | inr (Memᴰ.tail k) ↦ Memᴰ.tail (erase_if-Mem p c xs k)
]

-- The claim `c` was one of `cs`, up to its being released.
pub record From (cs : List HwClaim) (c : HwClaim) : Type 0 where
  pub was : HwClaim
  pub mem : Memᴰ was cs
  pub owner : was.owner ≡ c.owner
  pub res : was.res ≡ c.res

From-head :
    (x y c : HwClaim) (xs : List HwClaim)
    → x.owner ≡ y.owner
    → x.res ≡ y.res
    → c ≡ y
    → From (x ∷ xs) c
From-head x y c xs f g e = record {
  was = x;
  mem = Memᴰ.head refl;
  owner = f ∙ sym (ap (λ z. z.owner) e);
  res = g ∙ sym (ap (λ z. z.res) e);
}

From-tail : (x c : HwClaim) (xs : List HwClaim) → From xs c → From (x ∷ xs) c
From-tail x c xs f = record { was = f.was; mem = Memᴰ.tail f.mem; owner = f.owner; res = f.res }

pub let_go-From :
    (o : Text) (rs : List HwResource) (applied : Bool) (now : ℕ) (c : HwClaim) (cs : List HwClaim)
    → Memᴰ c (let_go o rs applied now cs)
    → From cs c
unfolding let_go
let_go-From o rs applied now c [] m = elim m [ ]
let_go-From o rs applied now c (x ∷ xs) m =
    let rest = let_go o rs applied now xs in
    let later : Memᴰ c rest → From (x ∷ xs) c =
      λ k. From-tail x c xs (let_go-From o rs applied now c xs k) in
    elim (if_Mem (not (x.owner == o) || x.releasing) c (x ∷ rest) _ m) [
      | inl (Memᴰ.head e) ↦ From-head x x c xs refl refl e
      | inl (Memᴰ.tail k) ↦ later k
      | inr n ↦
          elim (if_Mem (any (same_resource x.res) rs || not applied) c rest (give_up x now ∷ rest)
            n) [
              | inl k ↦ later k
              | inr (Memᴰ.head e) ↦ From-head x (give_up x now) c xs refl refl e
              | inr (Memᴰ.tail k) ↦ later k
            ]
    ]

-- The claim `c` was made of one of the resources `rs`, by their owner.
pub record Made (o : Text) (rs : List HwResource) (c : HwClaim) : Type 0 where
  pub owner : c.owner ≡ o
  pub mem : Memᴰ c.res rs

Made-tail :
    (o : Text) (r : HwResource) (rs : List HwResource) (c : HwClaim)
    → Made o rs c
    → Made o (r ∷ rs) c
Made-tail o r rs c h = record { owner = h.owner; mem = Memᴰ.tail h.mem }

Made-head :
    (o : Text) (r : HwResource) (rs : List HwResource) (c : HwClaim)
    → c ≡ claim_of o r
    → Made o (r ∷ rs) c
Made-head o r rs c e = record { owner = ap (λ z. z.owner) e; mem = Memᴰ.head (ap (λ z. z.res) e) }

pub take_all-Mem :
    (o : Text) (rs : List HwResource) (c : HwClaim) (cs : List HwClaim)
    → Memᴰ c (take_all o rs cs)
    → Memᴰ c cs ⊎ Made o rs c
unfolding take_all
take_all-Mem o [] c cs m = inl m
take_all-Mem o (r ∷ rs) c cs m = elim (take_all-Mem o rs c _ m) [
  | inr d ↦ inr (Made-tail o r rs c d)
  | inl k ↦ elim (if_Mem (eq_ℤ r.index not_configured) c cs _ k) [
    | inl j ↦ inl j
    | inr j ↦ elim (append-Mem c (claim_of o r) (erase_if (taken_back o r) cs) j) [
      | inl i ↦ inl (erase_if-Mem (taken_back o r) c cs i)
      | inr e ↦ inr (Made-head o r rs c e)
    ]
  ]
]
