-- ===== src/Hw/Laws/Release.antt =====
-- Claims given up and let go, lib/ESPRack/src/hw/HwClaims.cpp and HwRegistry.cpp.
use esp_rack.Prelude.{
  ℕ, ◌≡◌, refl, ◌∙◌, arith, Bool, true, false, not, ◌&&◌, ◌||◌, ◌==◌, List, [], ◌∷◌, ◌++◌,
  if◌then◌else◌, any, ap, if_split, sym, none, some, ◌+◌,
}
use esp_rack.Hw.{
  Text, HwResource, HwDescriptor, HwClaim, HwClaims, check, eq_ℤ, not_configured, release_all,
  replace, released, remove, releasing_count, evaluate, missing, HwState, ok, unset, was_ok, let_go,
  take_all, erase_if, count_if, claim_of, give_up, same_resource, taken_back,
}

abbrev owned : Text → HwClaim → Bool
owned id c = c.owner == id

-- A conditional that only puts claims of `id` in or out.
erase-cons_owned :
    (id : Text) (x : HwClaim) (xs : List HwClaim)
    → (x.owner == id) ≡ true
    → erase_if (owned id) (x ∷ xs) ≡ erase_if (owned id) xs
unfolding erase_if
erase-cons_owned id x xs h =
    ap (λ b. if b then erase_if (owned id) xs else x ∷ erase_if (owned id) xs) h

erase-cons :
    (p : HwClaim → Bool) (x : HwClaim) (xs ys : List HwClaim)
    → erase_if p xs ≡ erase_if p ys
    → erase_if p (x ∷ xs) ≡ erase_if p (x ∷ ys)
unfolding erase_if
erase-cons p x xs ys h = ap (λ l. if p x then l else x ∷ l) h

erase-append_owned :
    (id : Text) (x : HwClaim) (xs : List HwClaim)
    → (x.owner == id) ≡ true
    → erase_if (owned id) (xs ++ (x ∷ [])) ≡ erase_if (owned id) xs
unfolding erase_if
erase-append_owned id x [] h = erase-cons_owned id x [] h
erase-append_owned id x (y ∷ ys) h =
    erase-cons (owned id) y (ys ++ (x ∷ [])) ys (erase-append_owned id x ys h)

-- Erasing some of the claims of `id` before all of them.
erase-erase_owned :
    (id : Text) (p : HwClaim → Bool) (xs : List HwClaim)
    → ((c : HwClaim) → p c ≡ true → (c.owner == id) ≡ true)
    → erase_if (owned id) (erase_if p xs) ≡ erase_if (owned id) xs
unfolding erase_if
erase-erase_owned id p [] h = refl
erase-erase_owned id p (x ∷ xs) h =
    let i = erase-erase_owned id p xs h in
    if_split (λ l. erase_if (owned id) l ≡ erase_if (owned id) (x ∷ xs)) (p x)
      (λ t. i ∙ sym (erase-cons_owned id x xs (h x t)))
      (λ _. erase-cons (owned id) x (erase_if p xs) xs i)

both : (a b : Bool) → (a && b) ≡ true → (a ≡ true) × (b ≡ true)
both a b h = ground arith

middle : (a b c : Bool) → (a && b && c) ≡ true → b ≡ true
middle a b c h = ground arith

self : (n : ℕ) → (n == n) ≡ true
self n = ground arith

mine_of : (a b : Bool) → (not a || b) ≡ false → a ≡ true
mine_of a b h = ground arith

let_go-erase :
    (id : Text) (rs : List HwResource) (applied : Bool) (now : ℕ) (cs : List HwClaim)
    → erase_if (owned id) (let_go id rs applied now cs) ≡ erase_if (owned id) cs
unfolding let_go
let_go-erase id rs applied now [] = refl
let_go-erase id rs applied now (x ∷ xs) =
    let rest = let_go id rs applied now xs in
    let i = let_go-erase id rs applied now xs in
    let P : List HwClaim → Type 0 = λ l. erase_if (owned id) l ≡ erase_if (owned id) (x ∷ xs) in
    if_split P (not (x.owner == id) || x.releasing) (λ _. erase-cons (owned id) x rest xs i)
      (λ h.
        (let mine = mine_of (x.owner == id) x.releasing h in
          let gone = i ∙ sym (erase-cons_owned id x xs mine) in
          if_split P (any (same_resource x.res) rs || not applied) (λ _. gone)
            (λ _. erase-cons_owned id (give_up x now) rest mine ∙ gone)))

take_all-erase :
    (id : Text) (rs : List HwResource) (cs : List HwClaim)
    → erase_if (owned id) (take_all id rs cs) ≡ erase_if (owned id) cs
unfolding take_all
take_all-erase id [] cs = refl
take_all-erase id (r ∷ rs) cs =
    take_all-erase id rs _
    ∙ if_split (λ l. erase_if (owned id) l ≡ erase_if (owned id) cs) (eq_ℤ r.index not_configured)
        (λ _. refl)
        (λ _.
          erase-append_owned id (claim_of id r) (erase_if (taken_back id r) cs) (self id)
          ∙ erase-erase_owned id (taken_back id r) cs
              (λ c h. middle c.releasing (c.owner == id) (same_resource c.res r) h))

release_all-remove :
    (h : HwClaims) (id : Text) (applied : Bool) (now : ℕ)
    → remove (release_all h id applied now) id ≡ remove h id
unfolding remove release_all
release_all-remove h id applied now =
    ap (λ l. record h { claims = l }) (let_go-erase id [] applied now h.claims)

replace-remove :
    (h : HwClaims) (id : Text) (d : HwDescriptor) (applied : Bool) (now : ℕ)
    → remove (replace h id d applied now) id ≡ remove h id
unfolding remove replace
replace-remove h id d applied now =
    ap (λ l. record h { claims = l })
      (take_all-erase id d.res (let_go id d.res applied now h.claims)
        ∙ let_go-erase id d.res applied now h.claims)

-- An evaluation of an instance, whatever comes of it, leaves what the others hold, and the board and
-- the reserved resources.
pub evaluate-remove :
    (h : HwClaims) (id : Text) (state : HwState) (d : HwDescriptor) (now : ℕ)
    → remove (evaluate h id state d now).1 id ≡ remove h id
unfolding evaluate
evaluate-remove h id state d now =
    let P : HwState × HwClaims → Type 0 = λ z. remove z.1 id ≡ remove h id in
    let applied = was_ok state in
    let gone = release_all-remove h id applied now in
    if_split P d.disabled (λ _. gone)
      (λ _.
        if_split P (not (check h id d).ok) (λ _. gone)
          (λ _.
            elim (missing d)
              as (λ m. P (elim m as (λ _. HwState × HwClaims) [
                | none ↦ (ok, replace h id d applied now)
                | some r ↦ (unset, release_all h id applied now)
              ])) [ some r ↦ gone | none ↦ replace-remove h id d applied now ]))

count-zero : (b : Bool) (n : ℕ) → b ≡ false → n ≡ 0 → (if b then 1 else 0) + n ≡ 0
count-zero b n h e = ground arith

count-erase : (p : HwClaim → Bool) (cs : List HwClaim) → count_if p (erase_if p cs) ≡ 0
unfolding count_if erase_if
count-erase p [] = refl
count-erase p (x ∷ xs) =
    if_split (λ l. count_if p l ≡ 0) (p x) (λ _. count-erase p xs)
      (λ h. count-zero (p x) (count_if p (erase_if p xs)) h (count-erase p xs))

-- Once its owner says that it let go, none of its claims is being released, and the others' are as
-- they were.
pub released_lem :
    (h : HwClaims) (id : Text)
    → (releasing_count (released h id) id ≡ 0) × (remove (released h id) id ≡ remove h id)
unfolding releasing_count released remove
released_lem h id = (
  count-erase (λ c. c.releasing && (c.owner == id)) h.claims,
  ap (λ l. record h { claims = l })
      (erase-erase_owned id (λ c. c.releasing && (c.owner == id)) h.claims
        (λ c k. (both c.releasing (c.owner == id) k).1)),
)
