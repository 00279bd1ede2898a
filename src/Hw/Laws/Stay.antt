-- ===== src/Hw/Laws/Stay.antt =====
-- That an owner still claims a resource, lib/ESPRack/src/hw/HwClaims.cpp.
use mathlib.Core.List.{Memᴰ}
use esp_rack.Prelude.{
  ℕ, ◌≡◌, refl, arith, Bool, true, false, ◌&&◌, ◌==◌, List, [], ◌∷◌, ◌++◌, if_split, subst,
}
use esp_rack.Prelude.Int.{ℤ}
use esp_rack.Hw.{HwResource, HwClaim, eq_ℤ, is_kind, code, erase_if, same_resource}

-- The claims `cs` have one of the owner of `c` on the resource of `c`.
pub record Stays (cs : List HwClaim) (c : HwClaim) : Type 0 where
  pub by : HwClaim
  pub mem : Memᴰ by cs
  pub owner : by.owner ≡ c.owner
  pub res : same_resource c.res by.res ≡ true

pub ==_trans : (a b c : ℕ) → (a == b) ≡ true → (b == c) ≡ true → (a == c) ≡ true
==_trans a b c h i = ground arith

pub eq_ℤ_trans : (a b c : ℤ) → eq_ℤ a b ≡ true → eq_ℤ b c ≡ true → eq_ℤ a c ≡ true
eq_ℤ_trans a b c h i = ground arith

pub eq_ℤ_refl : (a : ℤ) → eq_ℤ a a ≡ true
eq_ℤ_refl a = ground arith

pub self : (n : ℕ) → (n == n) ≡ true
self n = ground arith

pub three : (a b c : Bool) → (a && b && c) ≡ true → (a ≡ true) × (b ≡ true) × (c ≡ true)
three a b c h = ground arith

pub all_three : (a b c : Bool) → a ≡ true → b ≡ true → c ≡ true → (a && b && c) ≡ true
all_three a b c h i j = ground arith

pub same_trans :
    (a b c : HwResource)
    → same_resource a b ≡ true
    → same_resource b c ≡ true
    → same_resource a c ≡ true
same_trans a b c h i =
    let (k, l, m) = three (is_kind a.kind b.kind) (eq_ℤ a.index b.index) (eq_ℤ a.bus b.bus) h in
    let (k', l', m') = three (is_kind b.kind c.kind) (eq_ℤ b.index c.index) (eq_ℤ b.bus c.bus) i in
    all_three (is_kind a.kind c.kind) (eq_ℤ a.index c.index) (eq_ℤ a.bus c.bus)
      (==_trans (code a.kind) (code b.kind) (code c.kind) k k')
      (eq_ℤ_trans a.index b.index c.index l l') (eq_ℤ_trans a.bus b.bus c.bus m m')

pub same_refl : (a : HwResource) → same_resource a a ≡ true
same_refl a =
    all_three (is_kind a.kind a.kind) (eq_ℤ a.index a.index) (eq_ℤ a.bus a.bus) (self (code a.kind))
      (eq_ℤ_refl a.index) (eq_ℤ_refl a.bus)

pub Stays-self : (c : HwClaim) (cs : List HwClaim) → Memᴰ c cs → Stays cs c
Stays-self c cs m = record { by = c; mem = m; owner = refl; res = same_refl c.res }

pub Stays-tail : (x c : HwClaim) (cs : List HwClaim) → Stays cs c → Stays (x ∷ cs) c
Stays-tail x c cs s = record { by = s.by; mem = Memᴰ.tail s.mem; owner = s.owner; res = s.res }

pub append_left : (x y : HwClaim) (cs : List HwClaim) → Memᴰ x cs → Memᴰ x (cs ++ (y ∷ []))
append_left x y [] m = elim m [ ]
append_left x y (z ∷ zs) (Memᴰ.head e) = Memᴰ.head e
append_left x y (z ∷ zs) (Memᴰ.tail m) = Memᴰ.tail (append_left x y zs m)

pub append_last : (y : HwClaim) (cs : List HwClaim) → Memᴰ y (cs ++ (y ∷ []))
append_last y [] = Memᴰ.head refl
append_last y (z ∷ zs) = Memᴰ.tail (append_last y zs)

pub not_both : (b : Bool) → b ≡ true → ¬ (b ≡ false)
not_both b h i = ground arith

pub erase_if-keeps :
    (p : HwClaim → Bool) (x : HwClaim) (cs : List HwClaim)
    → p x ≡ false
    → Memᴰ x cs
    → Memᴰ x (erase_if p cs)
unfolding erase_if
erase_if-keeps p x [] h m = elim m [ ]
erase_if-keeps p x (y ∷ ys) h (Memᴰ.head e) =
    if_split (Memᴰ x) (p y) (λ t. absurd (not_both (p y) t (subst (λ z. p z ≡ false) e h)))
      (λ _. Memᴰ.head e)
erase_if-keeps p x (y ∷ ys) h (Memᴰ.tail m) =
    if_split (Memᴰ x) (p y) (λ _. erase_if-keeps p x ys h m)
      (λ _. Memᴰ.tail (erase_if-keeps p x ys h m))

pub eq_of : (m n : ℕ) → (m == n) ≡ true → m ≡ n
eq_of m n h = ground arith
