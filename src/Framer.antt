-- ===== src/Framer.antt =====
-- lib/ESPRack/include/hw/Rs485Framer.h and lib/ESPRack/src/hw/Rs485Framer.cpp: bytes with their times
-- into RS485 frames. A time is an int64_t, here an integer; a frame's bytes are the part of its
-- array that is in use, and its flags are the ones that the framer sets, each a field.
mod Tests
pub mod Laws
use Prim.Native.Nat.{bit_xor}
use esp_rack.Prelude.{
  ℕ, zero, suc, ◌+◌, ◌-◌, ◌*◌, ◌/◌, ◌%◌, Bool, true, false, not, ◌&&◌, ◌||◌, Option, none, some,
  List, [], ◌∷◌, ◌++◌, length, get_or, take, ltb, leb, ◌==◌, if◌then◌else◌,
}
use esp_rack.Prelude.Int.{ℤ, pos, ◌+ℤ◌, ◌-ℤ◌, ltb_ℤ, leb_ℤ}
use esp_rack.Prelude.Word.{u32}

pub record Timing : Type 0 where
  pub char_us : ℕ
  pub t15_us : ℕ
  pub t35_us : ℕ

pub data Parity : Type 0 where
  no_parity even odd : Parity

-- The part of `Rs485Config` that the timing is made of.
pub record Rs485Config : Type 0 where
  pub baud : ℕ
  pub parity : Parity
  pub stop_bits : ℕ
  pub t15_us : ℕ
  pub t35_us : ℕ

abbrev parity_bits : Parity → ℕ
parity_bits no_parity = 0
parity_bits _ = 1

-- `bits` characters' time in microseconds, rounded up.
abbrev char_time : ℕ → ℕ → ℕ
char_time bits baud = u32 ((bits * 1000000 + baud - 1) / baud)

unfoldable pub timing_for : Rs485Config → Timing
timing_for cfg =
    let baud : ℕ = if cfg.baud == 0 then 9600 else cfg.baud in
    let bits : ℕ = 9 + parity_bits cfg.parity + (if leb 2 cfg.stop_bits then 2 else 1) in
    let c11 : ℕ = char_time 11 baud in
    record {
      char_us = char_time bits baud;
      t15_us =
          if not (cfg.t15_us == 0)
          then cfg.t15_us
          else if ltb 19200 baud
          then 750
          else u32 (c11 * 3) / 2;
      t35_us =
          if not (cfg.t35_us == 0)
          then cfg.t35_us
          else if ltb 19200 baud
          then 1750
          else u32 (c11 * 7) / 2;
    }

-- The inner loop of `crc16`, `n` rounds.
unfoldable pub crc_bits : ℕ → ℕ → ℕ
crc_bits zero c = c
crc_bits (suc n) c = crc_bits n (if c % 2 == 1 then bit_xor (c / 2) 0xa001 else c / 2)

unfoldable pub crc_from : ℕ → List ℕ → ℕ
crc_from c [] = c
crc_from c (b ∷ bs) = crc_from (crc_bits 8 (bit_xor c b)) bs

unfoldable pub crc16 : List ℕ → ℕ
crc16 d = crc_from 0xffff d

unfoldable pub crc_ok : List ℕ → Bool
crc_ok d =
    let n : ℕ = length d in
    if ltb n 3
    then false
    else (let c : ℕ = crc16 (take (n - 2) d) in
        (get_or d (n - 2) 0 == c % 256) && (get_or d (n - 1) 0 == c / 256))

pub record Frame : Type 0 where
  pub bytes : List ℕ
  pub crc_holds : Bool
  pub gap_t15 : Bool
  pub overrun : Bool
  pub junk_prefix : Bool
  pub first_us : ℤ
  pub last_us : ℤ

abbrev pub max_bytes : ℕ
max_bytes = 256

pub record Framer : Type 0 where
  pub timing : Timing
  pub cur : Frame
  pub is_open : Bool
  pub last : ℤ

-- `len = 0; flags = 0`.
abbrev pub emptied : Frame → Frame
emptied f = record f {
  bytes = [];
  crc_holds = false;
  gap_t15 = false;
  overrun = false;
  junk_prefix = false;
}

unfoldable pub reset : Framer → Timing → Framer
reset f t = record { timing = t; cur = emptied f.cur; is_open = false; last = pos 0 }

-- The bytes behind the leading 0xFF ones.
unfoldable pub skip_ff : List ℕ → List ℕ
skip_ff [] = []
skip_ff (b ∷ bs) = if b == 0xff then skip_ff bs else b ∷ bs

-- The frame that `close` gives.
unfoldable pub closed_frame : Frame → Frame
closed_frame c =
    if crc_ok c.bytes
    then record c { crc_holds = true }
    else if ltb (length (skip_ff c.bytes)) (length c.bytes) && crc_ok (skip_ff c.bytes)
    then record c { junk_prefix = true }
    else c

unfoldable pub close : Framer → Frame × Framer
close f = (closed_frame f.cur, record f { cur = emptied f.cur; is_open = false })

-- The first half of `onByte`: the open frame is closed, or has a gap.
unfoldable pub before_byte : Framer → ℤ → Option Frame × Framer
before_byte f t =
    let silence : ℤ = t -ℤ f.last -ℤ pos f.timing.char_us in
    if not f.is_open
    then (none, f)
    else if leb_ℤ (pos f.timing.t35_us) silence
    then (some (close f).0, (close f).1)
    else if ltb_ℤ (pos f.timing.t15_us) silence
    then (none, record f { cur = record (f.cur) { gap_t15 = true } })
    else (none, f)

-- The second: a frame is begun where none is open, and takes the byte.
unfoldable pub take_byte : Framer → ℕ → ℤ → Bool → Framer
take_byte f b t lost =
    let c : Frame = if f.is_open then f.cur else record (emptied f.cur) { first_us = t } in
    let d : Frame = record c { overrun = c.overrun || lost; last_us = t } in
    record f {
      cur =
          if ltb (length d.bytes) max_bytes
          then record d { bytes = d.bytes ++ (b ∷ []) }
          else record d { overrun = true };
      is_open = true;
      last = t;
    }

-- `onByte`, with the closed frame.
unfoldable pub on_byte : Framer → ℕ → ℤ → Bool → Option Frame × Framer
on_byte f b t lost = let (out, g) = before_byte f t in (out, take_byte g b t lost)

unfoldable pub poll : Framer → ℤ → Option Frame × Framer
poll f now =
    if not f.is_open || ltb_ℤ (now -ℤ f.last) (pos f.timing.t35_us)
    then (none, f)
    else (some (close f).0, (close f).1)

unfoldable pub deadline_us : Framer → ℤ
deadline_us f = if f.is_open then f.last +ℤ pos f.timing.t35_us else pos 0
