-- ===== src/Hw/Laws/Board.antt =====
-- The notes of the boards, lib/ESPRack/src/hw/HwClaims.cpp.
use esp_rack.Prelude.{
  ℕ, ◌+◌, ◌<◌, ◌≤◌, ◌≡◌, refl, arith, Bool, true, false, List, [], ◌∷◌, length, length-append, leb,
  if◌then◌else◌, if_split,
}
use esp_rack.Prelude.Int.{pos}
use esp_rack.Hw.{
  Text, PinLevel, PinNote, reserved, BoardInfo, max_notes, add_note, HwChip, esp32, esp32_s3,
  esp32_c3, esp32_c6, unknown, BoardFlags, board_info_for, bare_board, note_pins, note_if,
  flash_pins, psram_pins, octal_pins, uart0_pins, usb_pins, strapping_pins, why_flash, why_psram,
  why_octal, why_console, why_boot_log, why_usb, why_strapping, caution,
}

add_note-length : (b : BoardInfo) (n : PinNote) → length (add_note b n).1.notes ≤ length b.notes + 1
unfolding add_note
add_note-length b n =
    if_split (λ (z : Bool × BoardInfo). length z.1.notes ≤ length b.notes + 1)
      (leb max_notes (length b.notes)) (λ _. omega arith)
      (λ _. omega (arith, length-append b.notes (n ∷ [])))

note_pins-length :
    (b : BoardInfo) (l : PinLevel) (ps : List ℕ) (why : Text)
    → length (note_pins b l ps why).notes ≤ length b.notes + length ps
unfolding note_pins
note_pins-length b l [] why = omega arith
note_pins-length b l (p ∷ ps) why =
    let n : PinNote = record { gpio = pos p; level = l; reason = why } in
    omega (arith, note_pins-length (add_note b n).1 l ps why, add_note-length b n)

note_if-length :
    (t : Bool) (b : BoardInfo) (l : PinLevel) (ps : List ℕ) (why : Text)
    → length (note_if t b l ps why).notes ≤ length b.notes + length ps
note_if-length true b l ps why = note_pins-length b l ps why
note_if-length false b l ps why = omega arith

-- All the pins that a chip's notes can be about.
all_pins : HwChip → ℕ
all_pins chip =
    length (flash_pins chip)
    + length (psram_pins chip)
    + length (octal_pins chip)
    + length (uart0_pins chip)
    + length (usb_pins chip)
    + length (strapping_pins chip)

all_pins-lt : (chip : HwChip) → all_pins chip < max_notes
unfolding all_pins
all_pins-lt esp32 = omega arith
all_pins-lt esp32_s3 = omega arith
all_pins-lt esp32_c3 = omega arith
all_pins-lt esp32_c6 = omega arith
all_pins-lt unknown = omega arith

abbrev console_notes : Bool → BoardInfo → List ℕ → BoardInfo
console_notes t b ps =
    if t then note_pins b reserved ps why_console else note_pins b caution ps why_boot_log

console-length :
    (t : Bool) (b : BoardInfo) (ps : List ℕ)
    → length (console_notes t b ps).notes ≤ length b.notes + length ps
console-length true b ps = note_pins-length b reserved ps why_console
console-length false b ps = note_pins-length b caution ps why_boot_log

bare-notes : (chip : HwChip) (f : BoardFlags) → length (bare_board chip f).notes ≡ 0
unfolding bare_board
bare-notes chip f = refl

fits :
    (b0 b1 b2 b3 b4 b5 b6 : BoardInfo) (chip : HwChip)
    → length b0.notes ≡ 0
    → length b1.notes ≤ length b0.notes + length (flash_pins chip)
    → length b2.notes ≤ length b1.notes + length (psram_pins chip)
    → length b3.notes ≤ length b2.notes + length (octal_pins chip)
    → length b4.notes ≤ length b3.notes + length (uart0_pins chip)
    → length b5.notes ≤ length b4.notes + length (usb_pins chip)
    → length b6.notes ≤ length b5.notes + length (strapping_pins chip)
    → length b6.notes < max_notes
unfolding all_pins
fits b0 b1 b2 b3 b4 b5 b6 chip h h1 h2 h3 h4 h5 h6 = omega (arith, all_pins-lt chip)

-- The table of notes has room for those of every chip, and then one of the consumer's at least: no
-- reservation of `boardInfoFor` is dropped.
pub board-notes :
    (chip : HwChip) (f : BoardFlags) → length (board_info_for chip f).notes < max_notes
unfolding board_info_for all_pins
board-notes chip f =
    let b0 = bare_board chip f in
    let b1 = note_pins b0 reserved (flash_pins chip) why_flash in
    let b2 = note_if f.psram b1 reserved (psram_pins chip) why_psram in
    let b3 = note_if f.octal_psram_or_flash b2 reserved (octal_pins chip) why_octal in
    let b4 = console_notes f.uart0_console b3 (uart0_pins chip) in
    let b5 = note_if f.usb_in_use b4 reserved (usb_pins chip) why_usb in
    fits b0 b1 b2 b3 b4 b5 (board_info_for chip f) chip (bare-notes chip f)
      (note_pins-length b0 reserved (flash_pins chip) why_flash)
      (note_if-length f.psram b1 reserved (psram_pins chip) why_psram)
      (note_if-length f.octal_psram_or_flash b2 reserved (octal_pins chip) why_octal)
      (console-length f.uart0_console b3 (uart0_pins chip))
      (note_if-length f.usb_in_use b4 reserved (usb_pins chip) why_usb)
      (note_pins-length b5 caution (strapping_pins chip) why_strapping)
