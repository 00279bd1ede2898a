-- ===== src/Hw/Laws/Exclusion.antt =====
-- What a passed check says of the claims, lib/ESPRack/src/hw/HwClaims.cpp.
use mathlib.Core.List.{Memᴰ}
use esp_rack.Prelude.{
  ℕ, ◌≡◌, ◌≢◌, refl, arith, Bool, true, false, not, ◌||◌, ◌==◌, List, [], ◌∷◌, ◌++◌, if◌then◌else◌,
  sym, subst,
}
use esp_rack.Hw.{
  Text, HwResource, HwDescriptor, HwClaim, HwClaims, HwCheck, check, check_from, check_one,
  check_claims, check_others, check_reserved, check_twice, check_board, Mine, good, unnumbered,
  clash, bus_clash, shares_rmt, fail, eq_ℤ, not_configured, any_channel, Reason, being_released,
  used_by, bus_elsewhere,
}

-- Numbered resources of two owners that are not the same hardware, unless both may share it, and
-- that do not put one line of a bus on two pins.
pub record Apart (s : Bool) (r o : HwResource) : Type 0 where
  pub hardware : clash s r o ≡ false
  pub line : bus_clash r o ≡ false

fail-not : (c : HwCheck) (r : Reason) → (fail c r).ok ≡ false
unfolding fail
fail-not c r = ground arith

==_ne : (m n : ℕ) → m ≢ n → (m == n) ≡ false
==_ne m n d = ground arith

-- One round of the loop over the claims.
round_lem :
    (same skip hit line : Bool) (f g rest : HwCheck)
    → f.ok ≡ false
    → g.ok ≡ false
    → (if same || skip then rest else if hit then f else if line then g else rest).ok ≡ true
    → (rest.ok ≡ true) × (same ≡ false → skip ≡ false → (hit ≡ false) × (line ≡ false))
round_lem same skip hit line f g rest i j h = ground arith

check_others-Apart :
    (s : Bool) (owner : Text) (r : HwResource) (cs : List HwClaim) (c : HwCheck) (o : HwClaim)
    → (check_others s owner r cs c).ok ≡ true
    → Memᴰ o cs
    → o.owner ≢ owner
    → unnumbered o.res ≡ false
    → Apart s r o.res
unfolding check_others
check_others-Apart s owner r [] c o h m d u = elim m [ ]
check_others-Apart s owner r (x ∷ xs) c o h m d u =
    let why = if x.releasing then being_released else used_by in
    let (later, here) =
      round_lem (x.owner == owner) (unnumbered x.res) (clash s r x.res) (bus_clash r x.res)
        (fail c why) (fail c bus_elsewhere) (check_others s owner r xs c) (fail-not c why)
        (fail-not c bus_elsewhere) h in
    elim m [
      | Memᴰ.tail k ↦ check_others-Apart s owner r xs c o later k d u
      | Memᴰ.head e ↦
          (let (i, j) =
              here (==_ne x.owner owner (subst (λ z. z.owner ≢ owner) e d))
                (subst (λ z. unnumbered z.res ≡ false) e u) in
            subst (λ z. Apart s r z.res) (sym e) (record { hardware = i; line = j }))
    ]

last_lem :
    (skip : Bool) (x y z : HwCheck)
    → skip ≡ false
    → (if skip then x else if not y.ok then y else z).ok ≡ true
    → z.ok ≡ true
last_lem skip x y z n h = ground arith

-- One resource: it is not configured, or the claims were gone through.
check_claims-Apart :
    (h : HwClaims) (owner : Text) (earlier : List HwResource) (r : HwResource) (c : HwCheck)
    (o : HwClaim)
    → (check_claims h owner earlier r c).ok ≡ true
    → eq_ℤ r.index any_channel ≡ false
    → Memᴰ o h.claims
    → o.owner ≢ owner
    → unnumbered o.res ≡ false
    → Apart (shares_rmt h.board) r o.res
unfolding check_claims
check_claims-Apart h owner earlier r c o k n m d u =
    let c2 =
      check_reserved (shares_rmt h.board) r h.reserved_claims
        (check_twice (shares_rmt h.board) r earlier c) in
    check_others-Apart (shares_rmt h.board) owner r h.claims c2 o
      (last_lem (eq_ℤ r.index any_channel) _ c2 _ n k) m d u

numbered : (a b : Bool) → (a || b) ≡ false → b ≡ false
numbered a b h = ground arith

first_lem :
    (unset free : Bool) (x y z : HwCheck) (i j : Mine)
    → (unset || free) ≡ false
    → (if◌then◌else◌ {A = HwCheck × Mine} unset (x, i) (if not y.ok then y else z, j)).0.ok ≡ true
    → z.ok ≡ true
first_lem unset free x y z i j n h = ground arith

check_one-Apart :
    (h : HwClaims) (owner : Text) (earlier : List HwResource) (mine : Mine) (r : HwResource)
    (c : HwCheck) (o : HwClaim)
    → (check_one h owner earlier mine r c).0.ok ≡ true
    → unnumbered r ≡ false
    → Memᴰ o h.claims
    → o.owner ≢ owner
    → unnumbered o.res ≡ false
    → Apart (shares_rmt h.board) r o.res
unfolding check_one
check_one-Apart h owner earlier mine r c o k n m d u =
    let c1 = (check_board h owner mine c r).0 in
    check_claims-Apart h owner earlier r c1 o
      (first_lem (eq_ℤ r.index not_configured) (eq_ℤ r.index any_channel) _ c1 _ _ _ n k)
      (numbered (eq_ℤ r.index not_configured) (eq_ℤ r.index any_channel) n) m d u

going : (b : Bool) (c z : HwCheck) → (if not b then c else z).ok ≡ true → b ≡ c.ok → c.ok ≡ true
going b c z h e = ground arith

check_from-ok :
    (h : HwClaims) (owner : Text) (earlier : List HwResource) (mine : Mine) (rs : List HwResource)
    (c : HwCheck)
    → (check_from h owner earlier mine rs c).ok ≡ true
    → c.ok ≡ true
unfolding check_from
check_from-ok h owner earlier mine [] c k = k
check_from-ok h owner earlier mine (r ∷ rs) c k = going c.ok c _ k refl

gone_on : (c z : HwCheck) → (if not c.ok then c else z).ok ≡ true → z.ok ≡ true
gone_on c z h = ground arith

check_from-Apart :
    (h : HwClaims) (owner : Text) (earlier : List HwResource) (mine : Mine) (rs : List HwResource)
    (c : HwCheck) (r : HwResource) (o : HwClaim)
    → (check_from h owner earlier mine rs c).ok ≡ true
    → Memᴰ r rs
    → unnumbered r ≡ false
    → Memᴰ o h.claims
    → o.owner ≢ owner
    → unnumbered o.res ≡ false
    → Apart (shares_rmt h.board) r o.res
unfolding check_from
check_from-Apart h owner earlier mine [] c r o k i n m d u = elim i [ ]
check_from-Apart h owner earlier mine (x ∷ xs) c r o k i n m d u =
    let (c', m') = check_one h owner earlier mine x c in
    let k' = gone_on c (check_from h owner (earlier ++ (x ∷ [])) m' xs c') k in
    elim i [
      | Memᴰ.tail j ↦ check_from-Apart h owner (earlier ++ (x ∷ [])) m' xs c' r o k' j n m d u
      | Memᴰ.head e ↦
          subst (λ z. Apart (shares_rmt h.board) z o.res) (sym e)
            (check_one-Apart h owner earlier mine x c o
              (check_from-ok h owner (earlier ++ (x ∷ [])) m' xs c' k')
              (subst (λ z. unnumbered z ≡ false) e n) m d u)
    ]

-- A descriptor that the check lets pass holds no hardware that another owner's claim holds, a claim
-- that is being released included, unless both may share it, and puts no line of a shared bus on
-- another pin than theirs.
pub check-Apart :
    (h : HwClaims) (owner : Text) (d : HwDescriptor) (r : HwResource) (o : HwClaim)
    → (check h owner d).ok ≡ true
    → Memᴰ r d.res
    → unnumbered r ≡ false
    → Memᴰ o h.claims
    → o.owner ≢ owner
    → unnumbered o.res ≡ false
    → Apart (shares_rmt h.board) r o.res
unfolding check
check-Apart h owner d r o k = check_from-Apart h owner [] (λ _. 0) d.res good r o k
