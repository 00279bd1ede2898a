-- ===== src/Hw/Board.antt =====
-- `boardInfoFor` of lib/ESPRack/src/hw/HwClaims.cpp over lib/ESPRack/include/hw/BoardTables.h, with
-- every chip's table, as a PC compiles it. A note's reason is a number; those of the strapping pins,
-- which differ in their texts only, are one.
use esp_rack.Prelude.{ℕ, ◌+◌, ◌-◌, ◌/◌, ◌%◌, ◌^◌, Bool, List, [], ◌∷◌, ◌==◌, if◌then◌else◌}
use esp_rack.Prelude.Int.{pos}
use esp_rack.Hw.Types.{Text, PinLevel, reserved, caution, BoardInfo, add_note}

pub data HwChip : Type 0 where
  esp32 esp32_s3 esp32_c3 esp32_c6 unknown : HwChip

pub record BoardFlags : Type 0 where
  pub psram : Bool
  pub octal_psram_or_flash : Bool
  pub usb_in_use : Bool
  pub uart0_console : Bool

-- `ChipBudget`.
pub record ChipBudget : Type 0 where
  pub uarts : ℕ
  pub i2c_buses : ℕ
  pub spi_buses : ℕ
  pub rmt_tx : ℕ
  pub rmt_rx : ℕ
  pub rmt_total : ℕ
  pub ledc : ℕ
  pub pcnt : ℕ

abbrev pub budget : ℕ → ℕ → ℕ → ℕ → ℕ → ℕ → ℕ → ℕ → ChipBudget
budget u i s t r n l p = record {
  uarts = u;
  i2c_buses = i;
  spi_buses = s;
  rmt_tx = t;
  rmt_rx = r;
  rmt_total = n;
  ledc = l;
  pcnt = p;
}

-- `kEsp32Budget` and the others.
abbrev pub budget_for : HwChip → ChipBudget
budget_for esp32 = budget 3 2 2 8 8 8 16 8
budget_for esp32_s3 = budget 3 2 2 4 4 8 8 4
budget_for esp32_c3 = budget 2 1 1 2 2 4 6 0
budget_for esp32_c6 = budget 2 1 1 2 2 4 6 4
budget_for unknown = budget 3 2 2 8 8 16 16 8

-- The reasons.
abbrev pub why_flash : Text
why_flash = 1

abbrev pub why_psram : Text
why_psram = 2

abbrev pub why_octal : Text
why_octal = 3

abbrev pub why_console : Text
why_console = 4

abbrev pub why_boot_log : Text
why_boot_log = 5

abbrev pub why_usb : Text
why_usb = 6

abbrev pub why_strapping : Text
why_strapping = 7

-- `kEsp32Flash` and the others.
abbrev pub flash_pins : HwChip → List ℕ
flash_pins esp32 = 6 ∷ 7 ∷ 8 ∷ 9 ∷ 10 ∷ 11 ∷ []
flash_pins esp32_s3 = 27 ∷ 28 ∷ 29 ∷ 30 ∷ 31 ∷ 32 ∷ []
flash_pins esp32_c3 = 12 ∷ 13 ∷ 14 ∷ 15 ∷ 16 ∷ 17 ∷ []
flash_pins esp32_c6 = 24 ∷ 25 ∷ 26 ∷ 27 ∷ 28 ∷ 29 ∷ 30 ∷ []
flash_pins unknown = []

-- `kEsp32Psram` and `kS3PsramCs`.
abbrev pub psram_pins : HwChip → List ℕ
psram_pins esp32 = 16 ∷ 17 ∷ []
psram_pins esp32_s3 = 26 ∷ []
psram_pins _ = []

-- `kS3Octal`.
abbrev pub octal_pins : HwChip → List ℕ
octal_pins esp32_s3 = 33 ∷ 34 ∷ 35 ∷ 36 ∷ 37 ∷ []
octal_pins _ = []

-- `kEsp32Uart0` and the others.
abbrev pub uart0_pins : HwChip → List ℕ
uart0_pins esp32 = 1 ∷ 3 ∷ []
uart0_pins esp32_s3 = 43 ∷ 44 ∷ []
uart0_pins esp32_c3 = 21 ∷ 20 ∷ []
uart0_pins esp32_c6 = 16 ∷ 17 ∷ []
uart0_pins unknown = []

-- `kS3Usb` and the others.
abbrev pub usb_pins : HwChip → List ℕ
usb_pins esp32_s3 = 19 ∷ 20 ∷ []
usb_pins esp32_c3 = 18 ∷ 19 ∷ []
usb_pins esp32_c6 = 12 ∷ 13 ∷ []
usb_pins _ = []

-- The strapping pins, in the order of the notes.
abbrev pub strapping_pins : HwChip → List ℕ
strapping_pins esp32 = 0 ∷ 2 ∷ 5 ∷ 12 ∷ 15 ∷ []
strapping_pins esp32_s3 = 0 ∷ 3 ∷ 45 ∷ 46 ∷ []
strapping_pins esp32_c3 = 2 ∷ 8 ∷ 9 ∷ []
strapping_pins esp32_c6 = 4 ∷ 5 ∷ 8 ∷ 9 ∷ 15 ∷ []
strapping_pins unknown = []

-- `kEsp32Adc2` and the others.
abbrev pub adc2_pins : HwChip → List ℕ
adc2_pins esp32 = 4 ∷ 0 ∷ 2 ∷ 15 ∷ 13 ∷ 12 ∷ 14 ∷ 27 ∷ 25 ∷ 26 ∷ []
adc2_pins esp32_s3 = 11 ∷ 12 ∷ 13 ∷ 14 ∷ 15 ∷ 16 ∷ 17 ∷ 18 ∷ 19 ∷ 20 ∷ []
adc2_pins esp32_c3 = 5 ∷ []
adc2_pins _ = []

-- `mask | (1 << pin)` and `mask & ~(1 << pin)`.
abbrev pub with_bit : ℕ → ℕ → ℕ
with_bit mask pin = if mask / 2 ^ pin % 2 == 1 then mask else mask + 2 ^ pin

abbrev pub without_bit : ℕ → ℕ → ℕ
without_bit mask pin = if mask / 2 ^ pin % 2 == 1 then mask - 2 ^ pin else mask

-- `maskOf`.
unfoldable pub with_bits : ℕ → List ℕ → ℕ
with_bits mask [] = mask
with_bits mask (p ∷ ps) = with_bits (with_bit mask p) ps

unfoldable pub without_bits : ℕ → List ℕ → ℕ
without_bits mask [] = mask
without_bits mask (p ∷ ps) = without_bits (without_bit mask p) ps

-- `kEsp32ValidMask` and the others; every bit of an unknown chip's.
unfoldable pub valid_pins : HwChip → ℕ
unfolding without_bits
valid_pins esp32 = without_bits 0xffffffffff (24 ∷ 28 ∷ 29 ∷ 30 ∷ 31 ∷ [])
valid_pins esp32_s3 = without_bits 0x1ffffffffffff (22 ∷ 23 ∷ 24 ∷ 25 ∷ [])
valid_pins esp32_c3 = 2 ^ 22 - 1
valid_pins esp32_c6 = 2 ^ 31 - 1
valid_pins unknown = 2 ^ 64 - 1

-- `kEsp32OutputMask`; every pin of the others drives.
unfoldable pub output_pins : HwChip → ℕ
unfolding without_bits valid_pins
output_pins esp32 = without_bits (valid_pins esp32) (34 ∷ 35 ∷ 36 ∷ 37 ∷ 38 ∷ 39 ∷ [])
output_pins chip = valid_pins chip

-- The lambda `reserve`, and its like for a caution.
unfoldable pub note_pins : BoardInfo → PinLevel → List ℕ → Text → BoardInfo
note_pins b level [] why = b
note_pins b level (p ∷ ps) why =
    note_pins (add_note b (record { gpio = pos p; level = level; reason = why })).1 level ps why

abbrev pub note_if : Bool → BoardInfo → PinLevel → List ℕ → Text → BoardInfo
note_if t b level ps why = if t then note_pins b level ps why else b

-- The board before its notes.
unfoldable pub bare_board : HwChip → BoardFlags → BoardInfo
unfolding with_bits
bare_board chip f =
    let c = budget_for chip in
    record {
      valid_mask = valid_pins chip;
      output_mask = output_pins chip;
      adc2_mask = with_bits 0 (adc2_pins chip);
      uarts = c.uarts;
      i2c_buses = c.i2c_buses;
      spi_buses = c.spi_buses;
      rmt_tx = c.rmt_tx;
      rmt_rx = c.rmt_rx;
      rmt_total = c.rmt_total;
      ledc = c.ledc;
      pcnt = c.pcnt;
      uart0_console = f.uart0_console;
      notes = [];
    }

unfoldable pub board_info_for : HwChip → BoardFlags → BoardInfo
unfolding bare_board
board_info_for chip f =
    let b1 = note_pins (bare_board chip f) reserved (flash_pins chip) why_flash in
    let b2 = note_if f.psram b1 reserved (psram_pins chip) why_psram in
    let b3 = note_if f.octal_psram_or_flash b2 reserved (octal_pins chip) why_octal in
    let b4 =
      if f.uart0_console
      then note_pins b3 reserved (uart0_pins chip) why_console
      else note_pins b3 caution (uart0_pins chip) why_boot_log in
    let b5 = note_if f.usb_in_use b4 reserved (usb_pins chip) why_usb in
    note_pins b5 caution (strapping_pins chip) why_strapping
