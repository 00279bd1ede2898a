-- ===== src/Hw/Check.antt =====
-- `HwClaims::check`, lib/ESPRack/src/hw/HwClaims.cpp: would an owner holding a descriptor's resources
-- be valid against the board, the reserved resources and every other owner's claims? The text of
-- an answer is a constructor, the fragments it is printed from are left out.
use esp_rack.Prelude.{
  ℕ, ◌+◌, Bool, true, false, not, ◌&&◌, ◌||◌, none, some, List, [], ◌∷◌, ◌++◌, ltb, ◌==◌,
  if◌then◌else◌,
}
use esp_rack.Prelude.Int.{ℤ, pos, ltb_ℤ, leb_ℤ}
use esp_rack.Prelude.Word.{u8}
use esp_rack.Hw.Types.{
  Text, HwKind, gpio, uart, i2c_bus, i2c_addr, spi_bus, spi_cs, rmt_tx, rmt_rx, adc, ledc,
  pcnt_unit, other, is_kind, eq_ℤ, not_configured, any_channel, HwResource, HwDescriptor, is_pin,
  reserved, caution, BoardInfo, note, in_mask, HwClaim, HwClaims,
}
use esp_rack.Hw.Claims.{bus_of, is_rmt, same_role, same_thing, sharable, count_others}

pub data Reason : Type 0 where
  nothing no_such_gpio gpio_reserved gpio_note input_only adc2 no_such_spi no_such_port : Reason
  console address_reserved no_such_i2c no_channels no_such_channel exhausted : Reason
  rmt_exhausted used_twice reserved_for being_released used_by bus_elsewhere : Reason

pub record HwCheck : Type 0 where
  pub ok : Bool
  pub warning : Bool
  pub reason : Reason

abbrev pub good : HwCheck
good = record { ok = true; warning = false; reason = nothing }

unfoldable pub fail : HwCheck → Reason → HwCheck
fail c r = if not c.ok then c else record { ok = false; warning = false; reason = r }

unfoldable pub warn : HwCheck → Reason → HwCheck
warn c r = if not c.ok || c.warning then c else record c { warning = true; reason = r }

-- `budgetOf`.
abbrev pub budget_of : BoardInfo → HwKind → ℕ
budget_of b rmt_tx = b.rmt_tx
budget_of b rmt_rx = b.rmt_rx
budget_of b ledc = b.ledc
budget_of b pcnt_unit = b.pcnt
budget_of b uart = b.uarts
budget_of b i2c_bus = b.i2c_buses
budget_of b spi_bus = b.spi_buses
budget_of b _ = 0

abbrev pub shares_rmt : BoardInfo → Bool
shares_rmt b = ltb b.rmt_total (b.rmt_tx + b.rmt_rx)

-- `mine`, the array of the channels asked for so far.
abbrev pub Mine : Type 0
Mine = HwKind → ℕ

abbrev pub bump : Mine → HwKind → Mine
bump mine k x = if is_kind x k then u8 (mine x + 1) else mine x

abbrev pub noted : BoardInfo → HwCheck → ℤ → HwCheck
noted b c g = elim (note b g) [
  | none ↦ c
  | some n ↦ elim n.level [ reserved ↦ fail c gpio_reserved | caution ↦ warn c gpio_note ]
]

unfoldable pub check_pin : BoardInfo → HwCheck → HwResource → HwCheck
check_pin b c r =
    if not (in_mask b.valid_mask r.index)
    then fail c no_such_gpio
    else (let c1 : HwCheck = noted b c r.index in
        if not c1.ok
        then c1
        else if r.output && not (in_mask b.output_mask r.index)
        then fail c1 input_only
        else (let c2 : HwCheck =
              if is_kind r.kind adc && in_mask b.adc2_mask r.index then warn c1 adc2 else c1 in
            if is_kind r.kind spi_cs && leb_ℤ (pos b.spi_buses) r.bus
            then fail c2 no_such_spi
            else c2))

unfoldable pub check_port : BoardInfo → HwCheck → HwResource → HwCheck
check_port b c r =
    if ltb_ℤ r.index (pos 0) || leb_ℤ (pos (budget_of b r.kind)) r.index
    then fail c no_such_port
    else if is_kind r.kind uart && eq_ℤ r.index (pos 0) && b.uart0_console
    then fail c console
    else c

unfoldable pub check_addr : BoardInfo → HwCheck → HwResource → HwCheck
check_addr b c r =
    if ltb_ℤ r.index (pos 0x08) || ltb_ℤ (pos 0x77) r.index
    then fail c address_reserved
    else if leb_ℤ (pos b.i2c_buses) (bus_of r)
    then fail c no_such_i2c
    else c

-- Every RMT channel in use, `all`.
unfoldable pub all_rmt : HwClaims → Text → Mine → ℕ
all_rmt h owner mine =
    u8 (count_others h rmt_tx owner + count_others h rmt_rx owner + mine rmt_tx + mine rmt_rx)

unfoldable pub check_channel : HwClaims → Text → Mine → HwCheck → HwResource → HwCheck × Mine
check_channel h owner mine c r =
    let budget : ℕ = budget_of h.board r.kind in
    if budget == 0
    then (fail c no_channels, mine)
    else if not (eq_ℤ r.index any_channel) && (ltb_ℤ r.index (pos 0) || leb_ℤ (pos budget) r.index)
    then (fail c no_such_channel, mine)
    else (let m : Mine = bump mine r.kind in
        if ltb budget (count_others h r.kind owner + m r.kind)
        then (fail c exhausted, m)
        else if is_rmt r.kind && shares_rmt h.board && ltb h.board.rmt_total (all_rmt h owner m)
        then (fail c rmt_exhausted, m)
        else (c, m))

-- What the board allows.
unfoldable pub check_board : HwClaims → Text → Mine → HwCheck → HwResource → HwCheck × Mine
check_board h owner mine c r = elim r.kind [
  | gpio ↦ (check_pin h.board c r, mine)
  | adc ↦ (check_pin h.board c r, mine)
  | spi_cs ↦ (check_pin h.board c r, mine)
  | uart ↦ (check_port h.board c r, mine)
  | i2c_bus ↦ (check_port h.board c r, mine)
  | spi_bus ↦ (check_port h.board c r, mine)
  | i2c_addr ↦ (check_addr h.board c r, mine)
  | rmt_tx ↦ check_channel h owner mine c r
  | rmt_rx ↦ check_channel h owner mine c r
  | ledc ↦ check_channel h owner mine c r
  | pcnt_unit ↦ check_channel h owner mine c r
  | other ↦ (c, mine)
]

abbrev pub unnumbered : HwResource → Bool
unnumbered o = eq_ℤ o.index not_configured || eq_ℤ o.index any_channel

-- The same hardware, and not to be shared.
unfoldable pub clash : Bool → HwResource → HwResource → Bool
clash shared_rmt r o = same_thing r o shared_rmt && not (sharable r o)

-- One line of a shared bus on two pins.
unfoldable pub bus_clash : HwResource → HwResource → Bool
bus_clash r x =
    is_pin r.kind
    && r.shared
    && leb_ℤ (pos 0) r.bus
    && is_pin x.kind
    && x.shared
    && eq_ℤ x.bus r.bus
    && same_role x r
    && not (eq_ℤ x.index r.index)

unfoldable pub check_twice : Bool → HwResource → List HwResource → HwCheck → HwCheck
check_twice s r [] c = c
check_twice s r (o ∷ os) c =
    let rest : HwCheck → HwCheck = check_twice s r os in
    if not c.ok
    then c
    else if unnumbered o || eq_ℤ r.index any_channel
    then rest c
    else if clash s r o
    then rest (fail c used_twice)
    else rest c

unfoldable pub check_reserved : Bool → HwResource → List HwClaim → HwCheck → HwCheck
check_reserved s r [] c = c
check_reserved s r (o ∷ os) c =
    let rest : HwCheck = check_reserved s r os c in
    if same_thing r o.res s then fail c reserved_for else rest

unfoldable pub check_others : Bool → Text → HwResource → List HwClaim → HwCheck → HwCheck
check_others s owner r [] c = c
check_others s owner r (o ∷ os) c =
    let rest : HwCheck = check_others s owner r os c in
    if o.owner == owner || unnumbered o.res
    then rest
    else if clash s r o.res
    then fail c (if o.releasing then being_released else used_by)
    else if bus_clash r o.res
    then fail c bus_elsewhere
    else rest

-- After the board: the rest of the loop's body.
unfoldable pub check_claims : HwClaims → Text → List HwResource → HwResource → HwCheck → HwCheck
check_claims h owner earlier r c =
    let s : Bool = shares_rmt h.board in
    let c1 : HwCheck = check_twice s r earlier c in
    if eq_ℤ r.index any_channel
    then c1
    else (let c2 : HwCheck = check_reserved s r h.reserved_claims c1 in
        if not c2.ok then c2 else check_others s owner r h.claims c2)

unfoldable pub check_one :
    HwClaims → Text → List HwResource → Mine → HwResource → HwCheck → HwCheck × Mine
check_one h owner earlier mine r c =
    if eq_ℤ r.index not_configured
    then (c, mine)
    else (let (c1, m) = check_board h owner mine c r in
        (if not c1.ok then c1 else check_claims h owner earlier r c1, m))

unfoldable pub check_from :
    HwClaims → Text → List HwResource → Mine → List HwResource → HwCheck → HwCheck
check_from h owner earlier mine [] c = c
check_from h owner earlier mine (r ∷ rs) c =
    if not c.ok
    then c
    else (let (c', m) = check_one h owner earlier mine r c in
        check_from h owner (earlier ++ (r ∷ [])) m rs c')

unfoldable pub check : HwClaims → Text → HwDescriptor → HwCheck
unfolding check_from
check h owner d = check_from h owner [] (λ _. 0) d.res good
