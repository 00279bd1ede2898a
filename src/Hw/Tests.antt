-- ===== src/Hw/Tests.antt =====
-- Runs of lib/ESPRack/src/hw/HwClaims.cpp on one board, and what its theorems say of them.
use mathlib.Core.List.{Memᴰ}
use esp_rack.Prelude.{ℕ, suc, ◌≡◌, refl, arith, true, false, List, [], ◌∷◌}
use esp_rack.Prelude.Int.{pos, negsuc}
use esp_rack.Hw.{
  Text, gpio, uart, HwKind, HwResource, HwDescriptor, HwClaim, HwClaims, BoardInfo, claim_of,
  shares_rmt, check, evaluate, ok, conflict, released, releasing_count, remove, Call, on_update,
  on_released, on_reserve, on_reserve_gpio, run_calls, new_registry, BoardFlags, board_info_for,
  validate, esp32_s3, max_notes,
}
use esp_rack.Hw.Laws.Exclusion.{Apart, check-Apart}
use esp_rack.Hw.Laws.Held.{Exclusive, new_registry-Exclusive}
use esp_rack.Hw.Laws.Kept.{evaluate-Stays}
use esp_rack.Hw.Laws.Stay.{Stays}

abbrev board : BoardInfo
board = record {
  valid_mask = 0xffffffffff;
  output_mask = 0xffffffff;
  adc2_mask = 0;
  uarts = 3;
  i2c_buses = 2;
  spi_buses = 2;
  rmt_tx = 8;
  rmt_rx = 8;
  rmt_total = 8;
  ledc = 16;
  pcnt = 8;
  uart0_console = true;
  notes = [];
}

abbrev res : HwKind → ℕ → HwResource
res k n = record {
  kind = k;
  index = pos n;
  bus = negsuc 0;
  shared = false;
  optional = false;
  output = false;
  role = 0;
}

abbrev desc : List HwResource → HwDescriptor
desc rs = record { res = rs; disabled = false }

abbrev modem : HwDescriptor
modem = desc (res uart 1 ∷ res gpio 17 ∷ [])

abbrev relay : HwDescriptor
relay = desc (res gpio 18 ∷ [])

abbrev held : HwClaims
held = record {
  board = board;
  claims = claim_of 1 (res uart 1) ∷ claim_of 1 (res gpio 17) ∷ [];
  reserved_claims = [];
}

relay_passes : (check held 2 relay).ok ≡ true
unfolding check esp_rack.Hw.check_one esp_rack.Hw.check_board esp_rack.Hw.check_pin esp_rack.Hw.note
    esp_rack.Hw.note_from esp_rack.Hw.check_claims esp_rack.Hw.check_reserved
    esp_rack.Hw.check_twice esp_rack.Hw.check_others esp_rack.Hw.clash esp_rack.Hw.same_thing
    esp_rack.Hw.bus_clash
relay_passes = refl

same_pin_conflicts : (evaluate held 2 conflict modem 50).0 ≡ conflict
unfolding evaluate check esp_rack.Hw.check_one esp_rack.Hw.check_board esp_rack.Hw.check_port
    esp_rack.Hw.check_claims esp_rack.Hw.check_reserved esp_rack.Hw.check_twice
    esp_rack.Hw.check_others esp_rack.Hw.clash esp_rack.Hw.same_thing esp_rack.Hw.sharable
    esp_rack.Hw.fail
same_pin_conflicts = refl

one_two : ¬ (suc 0 ≡ 2)
one_two e = absurd (omega arith)

check-Apart_example : Apart (shares_rmt board) (res gpio 18) (res gpio 17)
check-Apart_example =
    check-Apart held 2 relay (res gpio 18) (claim_of 1 (res gpio 17)) relay_passes (Memᴰ.head refl)
      refl (Memᴰ.tail (Memᴰ.head refl)) (λ e. one_two e) refl

abbrev calls : List Call
calls =
    on_update 1 modem 10
    ∷ on_reserve_gpio (pos 4) 9
    ∷ on_update 2 modem 20
    ∷ on_update 1 relay 30
    ∷ on_released 1
    ∷ on_update 2 modem 40
    ∷ []

new_registry-Exclusive_example : Exclusive (run_calls (new_registry board) calls).held
new_registry-Exclusive_example = new_registry-Exclusive board calls

evaluate-Stays_example : Stays (evaluate held 1 ok relay 100).1.claims (claim_of 1 (res gpio 17))
evaluate-Stays_example =
    evaluate-Stays held 1 ok relay 100 (claim_of 1 (res gpio 17)) (Memᴰ.tail (Memᴰ.head refl)) refl
      refl

abbrev all_flags : BoardFlags
all_flags = record {
  psram = true;
  octal_psram_or_flash = true;
  usb_in_use = true;
  uart0_console = true;
}

flash_pin_reserved :
    (check (new_registry (board_info_for esp32_s3 all_flags)).held 1 (desc (res gpio 30 ∷ []))).ok
    ≡ false
unfolding check esp_rack.Hw.check_one esp_rack.Hw.check_board esp_rack.Hw.check_pin board_info_for
    esp_rack.Hw.note_pins esp_rack.Hw.add_note esp_rack.Hw.valid_pins esp_rack.Hw.note
    esp_rack.Hw.note_from esp_rack.Hw.fail
flash_pin_reserved = refl
