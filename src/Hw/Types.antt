-- ===== src/Hw/Types.antt =====
-- lib/ESPRack/include/hw/HwResource.h and HwClaims.h: resources, descriptors, the board, claims. A
-- text (an owner's id, a role, a note's reason) is a number, since the code compares it only; a
-- null pointer is a number that no text has.
use esp_rack.Prelude.{
  ℕ, ◌/◌, ◌%◌, ◌^◌, Bool, true, false, not, ◌&&◌, Option, none, some, List, [], ◌∷◌, ◌++◌, length,
  ltb, leb, ◌==◌, if◌then◌else◌,
}
use esp_rack.Prelude.Int.{ℤ, pos, negsuc}

abbrev pub Text : Type 0
Text = ℕ

pub data HwKind : Type 0 where
  gpio uart i2c_bus i2c_addr spi_bus spi_cs rmt_tx rmt_rx adc ledc pcnt_unit other : HwKind

-- The enumeration's value.
abbrev pub code : HwKind → ℕ
code gpio = 0
code uart = 1
code i2c_bus = 2
code i2c_addr = 3
code spi_bus = 4
code spi_cs = 5
code rmt_tx = 6
code rmt_rx = 7
code adc = 8
code ledc = 9
code pcnt_unit = 10
code other = 11

abbrev pub is_kind : HwKind → HwKind → Bool
is_kind a b = code a == code b

-- Equality of int16_t and int8_t values.
abbrev pub eq_ℤ : ℤ → ℤ → Bool
eq_ℤ (pos m) (pos n) = m == n
eq_ℤ (negsuc m) (negsuc n) = m == n
eq_ℤ _ _ = false

abbrev pub not_configured : ℤ
not_configured = negsuc 0

abbrev pub any_channel : ℤ
any_channel = negsuc 1

-- The bits of `flags` are fields.
pub record HwResource : Type 0 where
  pub kind : HwKind
  pub index : ℤ
  pub bus : ℤ
  pub shared : Bool
  pub optional : Bool
  pub output : Bool
  pub role : Text

pub record HwDescriptor : Type 0 where
  pub res : List HwResource
  pub disabled : Bool

abbrev pub max_res : ℕ
max_res = 12

-- `add`; none when the descriptor is full.
unfoldable pub add : HwDescriptor → HwResource → Option HwDescriptor
add d r = if leb max_res (length d.res) then none else some (record d { res = d.res ++ (r ∷ []) })

abbrev pub is_missing : HwResource → Bool
is_missing r = eq_ℤ r.index not_configured && not r.optional

unfoldable pub missing_in : List HwResource → Option HwResource
missing_in [] = none
missing_in (r ∷ rs) = if is_missing r then some r else missing_in rs

unfoldable pub missing : HwDescriptor → Option HwResource
missing d = missing_in d.res

-- `hwIsPin`.
abbrev pub is_pin : HwKind → Bool
is_pin gpio = true
is_pin adc = true
is_pin spi_cs = true
is_pin _ = false

pub data PinLevel : Type 0 where
  reserved caution : PinLevel

pub record PinNote : Type 0 where
  pub gpio : ℤ
  pub level : PinLevel
  pub reason : Text

-- `BoardInfo`, less its names.
pub record BoardInfo : Type 0 where
  pub valid_mask : ℕ
  pub output_mask : ℕ
  pub adc2_mask : ℕ
  pub uarts : ℕ
  pub i2c_buses : ℕ
  pub spi_buses : ℕ
  pub rmt_tx : ℕ
  pub rmt_rx : ℕ
  pub rmt_total : ℕ
  pub ledc : ℕ
  pub pcnt : ℕ
  pub uart0_console : Bool
  pub notes : List PinNote

abbrev pub max_notes : ℕ
max_notes = 32

-- `addNote`, with what it returns.
unfoldable pub add_note : BoardInfo → PinNote → Bool × BoardInfo
add_note b n =
    if leb max_notes (length b.notes)
    then (false, b)
    else (true, record b { notes = b.notes ++ (n ∷ []) })

-- The loop of `note`, from a note on, with what it found so far.
unfoldable pub note_from : List PinNote → ℤ → Option PinNote → Option PinNote
note_from [] pin found = found
note_from (n ∷ ns) pin found =
    let rest : Option PinNote → Option PinNote = note_from ns pin in
    if not (eq_ℤ n.gpio pin) then rest found else elim n.level [
      | reserved ↦ some n
      | caution ↦ rest (elim found [ none ↦ some n | some f ↦ some f ])
    ]

unfoldable pub note : BoardInfo → ℤ → Option PinNote
note b pin = note_from b.notes pin none

-- `gpio >= 0 && gpio < 64 && ((mask >> gpio) & 1)`.
abbrev pub in_mask : ℕ → ℤ → Bool
in_mask mask (pos g) = ltb g 64 && (mask / 2 ^ g % 2 == 1)
in_mask mask (negsuc _) = false

pub record HwClaim : Type 0 where
  pub owner : Text
  pub res : HwResource
  pub releasing : Bool
  pub releasing_since : ℕ

-- The instance's state.
pub data HwState : Type 0 where
  ok unset conflict off : HwState

-- `HwClaims`.
pub record HwClaims : Type 0 where
  pub board : BoardInfo
  pub claims : List HwClaim
  pub reserved_claims : List HwClaim
