-- ===== src/Hw/Laws/Kept.antt =====
-- What an evaluation leaves claimed, lib/ESPRack/src/hw/HwClaims.cpp and HwRegistry.cpp.
use mathlib.Core.List.{Memᴰ}
use esp_rack.Prelude.{
  ℕ, ◌≡◌, refl, ◌∙◌, ◌⊎◌, inl, inr, arith, Bool, true, false, not, ◌||◌, ◌==◌, List, [], ◌∷◌, ◌++◌,
  Bool-cases, any, if_split, sym, subst, none, some,
}
use esp_rack.Hw.{
  Text, HwResource, HwDescriptor, HwClaim, HwClaims, check, eq_ℤ, is_kind, not_configured,
  release_all, replace, evaluate, missing, HwState, ok, was_ok, unset, let_go, take_all, erase_if,
  claim_of, give_up, same_resource, taken_back,
}
use esp_rack.Hw.Laws.Stay.{
  Stays, eq_ℤ_trans, three, same_trans, same_refl, Stays-self, Stays-tail, append_left, append_last,
  not_both, erase_if-keeps, eq_of,
}

-- One resource taken: what stayed is on the list, or the new claim is on the same resource.
take-Stays :
    (o : Text) (r : HwResource) (c : HwClaim) (cs : List HwClaim)
    → Stays cs c
    → Stays (erase_if (taken_back o r) cs ++ (claim_of o r ∷ [])) c
take-Stays o r c cs s = elim (Bool-cases (taken_back o r s.by)) [
  | inr f ↦ record {
    by = s.by;
    mem = append_left s.by (claim_of o r) _ (erase_if-keeps (taken_back o r) s.by cs f s.mem);
    owner = s.owner;
    res = s.res;
  }
  | inl t ↦
      (let (_, i, j) = three s.by.releasing (s.by.owner == o) (same_resource s.by.res r) t in
        record {
          by = claim_of o r;
          mem = append_last (claim_of o r) _;
          owner = sym (eq_of s.by.owner o i) ∙ s.owner;
          res = same_trans c.res s.by.res r s.res j;
        })
]

take_all-Stays :
    (o : Text) (rs : List HwResource) (c : HwClaim) (cs : List HwClaim)
    → Stays cs c
    → Stays (take_all o rs cs) c
unfolding take_all
take_all-Stays o [] c cs s = s
take_all-Stays o (r ∷ rs) c cs s =
    take_all-Stays o rs c _ (
      if_split (λ l. Stays l c) (eq_ℤ r.index not_configured) (λ _. s) (λ _. take-Stays o r c cs s))

not_true : ¬ (false ≡ true)
not_true h = cc

other_one : (a b : Bool) → a ≡ false → (a || b) ≡ true → b ≡ true
other_one a b h i = ground arith

-- A resource that is on the list is claimed.
take_all-any :
    (o : Text) (rs : List HwResource) (c : HwClaim) (cs : List HwClaim)
    → c.owner ≡ o
    → eq_ℤ c.res.index not_configured ≡ false
    → any (same_resource c.res) rs ≡ true
    → Stays (take_all o rs cs) c
unfolding take_all
take_all-any o [] c cs e n h = absurd (not_true h)
take_all-any o (r ∷ rs) c cs e n h = elim (Bool-cases (same_resource c.res r)) [
  | inl t ↦ take_all-Stays o rs c _ (
      if_split (λ l. Stays l c) (eq_ℤ r.index not_configured)
        (λ u. absurd (
          not_both (eq_ℤ c.res.index not_configured)
            (eq_ℤ_trans c.res.index r.index not_configured
              (three (is_kind c.res.kind r.kind) (eq_ℤ c.res.index r.index) (eq_ℤ c.res.bus r.bus)
                t).1
              u)
            n))
        (λ _. record {
          by = claim_of o r;
          mem = append_last (claim_of o r) _;
          owner = sym e;
          res = t;
        }))
  | inr f ↦ take_all-any o rs c _ e n (other_one (same_resource c.res r) _ f h)
]

mine_of : (a b : Bool) → (not a || b) ≡ false → a ≡ true
mine_of a b h = ground arith

-- The claims that an evaluation of the owner leaves to it: another's, one that is being let go, and
-- any where what was applied may be in use.
abbrev pub is_safe : Text → Bool → HwClaim → Bool
is_safe o applied c = not (c.owner == o) || c.releasing || applied

kept :
    (a applied m : Bool) → (a || not applied) ≡ true → m ≡ false → (m || applied) ≡ true → a ≡ true
kept a applied m h e s = ground arith

any_none : (c : HwClaim) → ¬ (any (same_resource c.res) [] ≡ true)
any_none c h = cc

-- A claim stays when resources are let go under it, or it is to be taken again.
let_go-Stays :
    (o : Text) (rs : List HwResource) (applied : Bool) (now : ℕ) (c : HwClaim) (cs : List HwClaim)
    → Memᴰ c cs
    → is_safe o applied c ≡ true
    → Stays (let_go o rs applied now cs) c ⊎ ((c.owner ≡ o) × (any (same_resource c.res) rs ≡ true))
unfolding let_go
let_go-Stays o rs applied now c [] m w = elim m [ ]
let_go-Stays o rs applied now c (x ∷ xs) (Memᴰ.tail m) w =
    let rest = let_go o rs applied now xs in
    elim (let_go-Stays o rs applied now c xs m w) [
      | inr q ↦ inr q
      | inl s ↦ inl (
          if_split (λ l. Stays l c) (not (x.owner == o) || x.releasing) (λ _. Stays-tail x c rest s)
            (λ _.
              if_split (λ l. Stays l c) (any (same_resource x.res) rs || not applied) (λ _. s)
                (λ _. Stays-tail (give_up x now) c rest s)))
    ]
let_go-Stays o rs applied now c (x ∷ xs) (Memᴰ.head e) w =
    let rest = let_go o rs applied now xs in
    let G : HwClaim → List HwClaim → Type 0 =
      λ z l. Stays l z ⊎ ((z.owner ≡ o) × (any (same_resource z.res) rs ≡ true)) in
    let safe : is_safe o applied x ≡ true = subst (λ z. is_safe o applied z ≡ true) e w in
    subst (λ z. G z (let_go o rs applied now (x ∷ xs))) (sym e)
      (if_split (G x) (not (x.owner == o) || x.releasing)
        (λ _. inl (Stays-self x (x ∷ rest) (Memᴰ.head refl)))
        (λ h.
          if_split (G x) (any (same_resource x.res) rs || not applied)
            (λ k. inr (
              eq_of x.owner o (mine_of (x.owner == o) x.releasing h),
              kept (any (same_resource x.res) rs) applied (not (x.owner == o) || x.releasing) k h
                  safe,
            ))
            (λ _. inl (record {
              by = give_up x now;
              mem = Memᴰ.head refl;
              owner = refl;
              res = same_refl x.res;
            }))))

module _ (h : HwClaims) (id : Text) (applied : Bool) (now : ℕ) (c : HwClaim) where
  replace-Stays :
      (d : HwDescriptor)
      → Memᴰ c h.claims
      → is_safe id applied c ≡ true
      → eq_ℤ c.res.index not_configured ≡ false
      → Stays (replace h id d applied now).claims c
  unfolding replace
  replace-Stays d m w n =
      let left = let_go id d.res applied now h.claims in
      elim (let_go-Stays id d.res applied now c h.claims m w) [
        | inl s ↦ take_all-Stays id d.res c left s
        | inr (e, k) ↦ take_all-any id d.res c left e n k
      ]

  release_all-Stays :
      Memᴰ c h.claims → is_safe id applied c ≡ true → Stays (release_all h id applied now).claims c
  unfolding release_all
  release_all-Stays m w = elim (let_go-Stays id [] applied now c h.claims m w) [
    | inl s ↦ s
    | inr (_, k) ↦ absurd (any_none c k)
  ]

-- Whatever the evaluation of an instance comes to, a configured claim is still a claim of its owner on
-- that resource behind it where it is another owner's, is being let go, or the instance was Ok
-- before.
pub evaluate-Stays :
    (h : HwClaims) (id : Text) (state : HwState) (d : HwDescriptor) (now : ℕ) (c : HwClaim)
    → Memᴰ c h.claims
    → is_safe id (was_ok state) c ≡ true
    → eq_ℤ c.res.index not_configured ≡ false
    → Stays (evaluate h id state d now).1.claims c
unfolding evaluate
evaluate-Stays h id state d now c m w n =
    let applied : Bool = was_ok state in
    let P : HwState × HwClaims → Type 0 = λ z. Stays z.1.claims c in
    let gone = release_all-Stays h id applied now c m w in
    if_split P d.disabled (λ _. gone)
      (λ _.
        if_split P (not (check h id d).ok) (λ _. gone)
          (λ _.
            elim (missing d)
              as (λ r. P (elim r as (λ _. HwState × HwClaims) [
                | none ↦ (ok, replace h id d applied now)
                | some r ↦ (unset, release_all h id applied now)
              ])) [ some r ↦ gone | none ↦ replace-Stays h id applied now c d m w n ]))
