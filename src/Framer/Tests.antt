-- ===== src/Framer/Tests.antt =====
-- Three bytes and a pause, through lib/ESPRack/src/hw/Rs485Framer.cpp.
use esp_rack.Prelude.{◌≡◌, ◌⊎◌, refl, arith, true, false, List, [], ◌∷◌, ◌++◌, length}
use esp_rack.Prelude.Int.{pos}
use esp_rack.Framer.{Framer, Frame, crc16, crc_ok, on_byte, max_bytes}
use esp_rack.Framer.Laws.{bytes_of, IsValid, on_byte-bytes, Input, byte, look}

abbrev quiet_line : Framer
quiet_line = record {
  timing = record { char_us = 573; t15_us = 859; t35_us = 2005 };
  cur = record {
    bytes = [];
    crc_holds = false;
    gap_t15 = false;
    overrun = false;
    junk_prefix = false;
    first_us = pos 0;
    last_us = pos 0;
  };
  is_open = false;
  last = pos 0;
}

-- The Modbus example: 01 04 02 FF FF has the CRC B8 80.
crc_of_example : crc16 (0x01 ∷ 0x04 ∷ 0x02 ∷ 0xff ∷ 0xff ∷ []) ≡ 0x80b8
unfolding crc16 esp_rack.Framer.crc_from esp_rack.Framer.crc_bits
crc_of_example = refl

example_holds : crc_ok (0x01 ∷ 0x04 ∷ 0x02 ∷ 0xff ∷ 0xff ∷ 0xb8 ∷ 0x80 ∷ []) ≡ true
unfolding crc_ok crc16 esp_rack.Framer.crc_from esp_rack.Framer.crc_bits
example_holds = refl

quiet_line-IsValid : IsValid quiet_line
quiet_line-IsValid = record { bounded = omega arith; empty = λ _. refl }

on_byte-bytes_example :
    (bytes_of (on_byte quiet_line 5 (pos 100) false).0
        ++ (on_byte quiet_line 5 (pos 100) false).1.cur.bytes
      ≡ 5 ∷ [])
    ⊎ (((on_byte quiet_line 5 (pos 100) false).1.cur.overrun ≡ true)
        × (length (on_byte quiet_line 5 (pos 100) false).1.cur.bytes ≡ max_bytes)
        × (bytes_of (on_byte quiet_line 5 (pos 100) false).0
              ++ (on_byte quiet_line 5 (pos 100) false).1.cur.bytes
            ≡ []))
on_byte-bytes_example = on_byte-bytes quiet_line 5 (pos 100) false quiet_line-IsValid

abbrev inputs : List Input
inputs =
    byte 5 (pos 100) false ∷ byte 6 (pos 700) false ∷ look (pos 9000) ∷ byte 7 (pos 9500) false ∷ []
