-- ===== src/Hw/Claims.antt =====
-- lib/ESPRack/src/hw/HwClaims.cpp: when two resources are the same hardware, and the operations that
-- change the claims.
use esp_rack.Prelude.{
  ℕ, ◌+◌, Bool, true, false, not, ◌&&◌, ◌||◌, List, [], ◌∷◌, ◌++◌, any, ltb, ◌==◌, if◌then◌else◌,
}
use esp_rack.Prelude.Int.{ℤ, pos, negsuc}
use esp_rack.Prelude.Word.{u8, sub32}
use esp_rack.Hw.Types.{
  Text, HwKind, i2c_addr, rmt_tx, rmt_rx, other, is_kind, eq_ℤ, not_configured, HwResource,
  HwDescriptor, is_pin, HwClaim, HwClaims,
}

abbrev pub is_rmt : HwKind → Bool
is_rmt rmt_tx = true
is_rmt rmt_rx = true
is_rmt _ = false

-- `busOf`.
abbrev pub bus_of : HwResource → ℤ
bus_of r = elim r.bus [ pos n ↦ pos n | negsuc _ ↦ pos 0 ]

abbrev pub same_role : HwResource → HwResource → Bool
same_role a b = a.role == b.role

-- `sameThing`.
unfoldable pub same_thing : HwResource → HwResource → Bool → Bool
same_thing a b shared_rmt =
    if is_pin a.kind && is_pin b.kind
    then eq_ℤ a.index b.index
    else if shared_rmt && is_rmt a.kind && is_rmt b.kind
    then eq_ℤ a.index b.index
    else if not (is_kind a.kind b.kind)
    then false
    else if is_kind a.kind i2c_addr
    then eq_ℤ (bus_of a) (bus_of b) && eq_ℤ a.index b.index
    else if is_kind a.kind other
    then false
    else eq_ℤ a.index b.index

unfoldable pub sharable : HwResource → HwResource → Bool
sharable a b =
    if not a.shared || not b.shared || is_kind a.kind i2c_addr
    then false
    else if is_pin a.kind
    then is_kind a.kind b.kind && eq_ℤ a.bus b.bus && same_role a b
    else true

-- `countOthers`: a uint8_t.
abbrev pub counts_for : HwKind → Text → HwClaim → Bool
counts_for kind owner c =
    is_kind c.res.kind kind && not (c.owner == owner) && not (eq_ℤ c.res.index not_configured)

unfoldable pub count_if : (HwClaim → Bool) → List HwClaim → ℕ
count_if p [] = 0
count_if p (c ∷ cs) = (if p c then 1 else 0) + count_if p cs

unfoldable pub count_others : HwClaims → HwKind → Text → ℕ
count_others h kind owner = u8 (
    count_if (counts_for kind owner) h.claims
    + count_if (λ c. is_kind c.res.kind kind) h.reserved_claims)

-- The loops that erase the claims of which `p` holds.
unfoldable pub erase_if : (HwClaim → Bool) → List HwClaim → List HwClaim
erase_if p [] = []
erase_if p (c ∷ cs) = if p c then erase_if p cs else c ∷ erase_if p cs

abbrev pub claim_of : Text → HwResource → HwClaim
claim_of owner r = record { owner = owner; res = r; releasing = false; releasing_since = 0 }

unfoldable pub remove : HwClaims → Text → HwClaims
remove h owner = record h { claims = erase_if (λ c. c.owner == owner) h.claims }

-- The loop of `set`.
unfoldable pub push_all : Text → List HwResource → List HwClaim → List HwClaim
push_all owner [] cs = cs
push_all owner (r ∷ rs) cs =
    push_all owner rs (if eq_ℤ r.index not_configured then cs else cs ++ (claim_of owner r ∷ []))

unfoldable pub set_claims : HwClaims → Text → HwDescriptor → HwClaims
unfolding remove
set_claims h owner d = record h { claims = push_all owner d.res (remove h owner).claims }

-- `sameResource`.
abbrev pub same_resource : HwResource → HwResource → Bool
same_resource a b = is_kind a.kind b.kind && eq_ℤ a.index b.index && eq_ℤ a.bus b.bus

abbrev pub give_up : HwClaim → ℕ → HwClaim
give_up c now = record c { releasing = true; releasing_since = now }

-- The first loop of `replace`; with no resource kept it is the loop of `releaseAll`.
unfoldable pub let_go : Text → List HwResource → Bool → ℕ → List HwClaim → List HwClaim
let_go owner rs applied now [] = []
let_go owner rs applied now (c ∷ cs) =
    let rest : List HwClaim = let_go owner rs applied now cs in
    if not (c.owner == owner) || c.releasing
    then c ∷ rest
    else if any (same_resource c.res) rs || not applied
    then rest
    else give_up c now ∷ rest

abbrev pub taken_back : Text → HwResource → HwClaim → Bool
taken_back owner r c = c.releasing && (c.owner == owner) && same_resource c.res r

-- The second.
unfoldable pub take_all : Text → List HwResource → List HwClaim → List HwClaim
take_all owner [] cs = cs
take_all owner (r ∷ rs) cs = take_all owner rs (
    if eq_ℤ r.index not_configured
    then cs
    else erase_if (taken_back owner r) cs ++ (claim_of owner r ∷ []))

unfoldable pub replace : HwClaims → Text → HwDescriptor → Bool → ℕ → HwClaims
replace h owner d applied now = record h {
  claims = take_all owner d.res (let_go owner d.res applied now h.claims);
}

unfoldable pub release_all : HwClaims → Text → Bool → ℕ → HwClaims
release_all h owner applied now = record h { claims = let_go owner [] applied now h.claims }

unfoldable pub released : HwClaims → Text → HwClaims
released h owner = record h { claims = erase_if (λ c. c.releasing && (c.owner == owner)) h.claims }

unfoldable pub releasing_count : HwClaims → Text → ℕ
releasing_count h owner = count_if (λ c. c.releasing && (c.owner == owner)) h.claims

-- The loop of `releasingAgeMs`.
unfoldable pub oldest : Text → ℕ → List HwClaim → ℕ → ℕ
oldest owner now [] age = age
oldest owner now (c ∷ cs) age = oldest owner now cs (
    if not c.releasing || not (c.owner == owner)
    then age
    else if ltb age (sub32 now c.releasing_since)
    then sub32 now c.releasing_since
    else age)

unfoldable pub releasing_age : HwClaims → Text → ℕ → ℕ
releasing_age h owner now = oldest owner now h.claims 0

-- `reserve`, with what it returns; `reason` is not null, the code's "reserved" included.
unfoldable pub reserve : HwClaims → HwResource → Text → Bool × HwClaims
reserve h r reason =
    if is_pin r.kind || elim r.index [ pos _ ↦ false | negsuc _ ↦ true ]
    then (false, h)
    else (true, record h { reserved_claims = h.reserved_claims ++ (claim_of reason r ∷ []) })
