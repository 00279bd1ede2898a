-- ===== src/Ota/Writer.antt =====
-- The methods of `OtaWriter`, of lib/ESPRack/src/system/OtaWriter.cpp, for the writer that is `me`
-- among the writers of the device. Texts are lists of characters; the time is an argument.
use Prim.Native.Nat.{bit_or}
use esp_rack.Prelude.{
  ℕ, ◌+◌, ◌-◌, ◌*◌, Bool, true, false, not, ◌&&◌, ◌||◌, Option, none, some, List, [], ◌∷◌, length,
  ltb, leb, ◌==◌, if◌then◌else◌,
}
use esp_rack.Prelude.Word.{u8, u32}
use esp_rack.Flash.{erases}
use esp_rack.Ota.Update.{Source, Update, or_unnamed, is_set, try_begin, progress, end_update}
use esp_rack.Ota.Types.{
  OtaError, no_error, err_md5, err_bad_md5, err_too_big, err_step, err_not_begun, err_busy, esp_err,
  longest_write, Partition, EspOta, Ota,
}

unfoldable pub hex_digit : ℕ → Option ℕ
hex_digit c =
    if leb 48 c && leb c 57
    then some (c - 48)
    else (if leb 97 c && leb c 102
        then some (c - 97 + 10)
        else (if leb 65 c && leb c 70 then some (c - 65 + 10) else none))

abbrev pub push_byte : Option ℕ → Option ℕ → Option (List ℕ) → Option (List ℕ)
push_byte (some hi) (some lo) (some bytes) = some (u8 (bit_or (hi * 16) lo) ∷ bytes)
push_byte _ _ _ = none

-- The loop over the pairs of digits.
unfoldable pub hex_bytes : List ℕ → Option (List ℕ)
hex_bytes [] = some []
hex_bytes (c ∷ []) = none
hex_bytes (c ∷ (d ∷ cs)) = push_byte (hex_digit c) (hex_digit d) (hex_bytes cs)

unfoldable pub parse_md5 : List ℕ → Option (List ℕ)
parse_md5 hex = if not (length hex == 32) then none else hex_bytes hex

abbrev pub same_bytes : List ℕ → List ℕ → Bool
same_bytes [] [] = true
same_bytes (x ∷ xs) (y ∷ ys) = (x == y) && same_bytes xs ys
same_bytes _ _ = false

abbrev pub is_no_error : OtaError → Bool
is_no_error no_error = true
is_no_error _ = false

abbrev pub has_part : Option Partition → Bool
has_part none = false
has_part (some p) = true

-- `part->address == running->address`.
abbrev pub slot_of : Option Partition → Option Partition → ℕ
slot_of none running = 0
slot_of (some p) none = p.size
slot_of (some p) (some r) = if p.address == r.address then 0 else p.size

module _ {P Ctx : Type 0} (io : EspOta P Ctx) where
  unfoldable pub free_slot_size : P → ℕ
  free_slot_size p = slot_of (io.next_partition p) (io.running_partition p)

module _ {P Ctx : Type 0} where
  abbrev pub claim_updated : Ota P Ctx → Source → ℕ → Bool × Update → Bool × Ota P Ctx
  claim_updated s src me (false, u) = (false, record s { owner = none; update = u })
  claim_updated s src me (true, u) =
      (true, record s { owner = some me; update = u; w = record s.w { source = some src } })

  abbrev pub claim_free : Ota P Ctx → Option ℕ → Source → ℕ → ℕ → Bool × Ota P Ctx
  claim_free s (some o) src me now = (false, s)
  claim_free s none src me now = claim_updated s src me (try_begin s.update (some src) now)

  unfoldable pub claim : Ota P Ctx → Option Source → ℕ → ℕ → Bool × Ota P Ctx
  claim s source me now =
      if is_set s.w.source then (true, s) else claim_free s s.owner (or_unnamed source) me now

  unfoldable pub unclaim : Ota P Ctx → Ota P Ctx
  unclaim s = if not (is_set s.w.source) then s else record s {
    w = record s.w { source = none };
    update = (end_update s.update s.w.source).1;
    owner = none;
  }

  abbrev pub reserved : Bool × Ota P Ctx → Bool × Ota P Ctx
  reserved (got, s) =
      (got, record s { w = record s.w { error = if got then no_error else err_busy } })

  unfoldable pub reserve : Ota P Ctx → Option Source → ℕ → ℕ → Bool × Ota P Ctx
  reserve s source me now =
      if is_set s.w.source then (false, s) else reserved (claim s source me now)

module _ {P Ctx : Type 0} (io : EspOta P Ctx) where
  -- `if (_handle) (void)esp_ota_abort(_handle)`.
  abbrev pub drop_handle : Ota P Ctx → P
  drop_handle s = if s.w.handle == 0 then s.esp else io.ota_abort s.esp s.w.handle

  unfoldable pub abort : Ota P Ctx → Ota P Ctx
  abort s = unclaim (record s { esp = drop_handle s; w = record s.w { handle = 0; ended = false } })

  unfoldable pub fail : Ota P Ctx → OtaError → Bool × Ota P Ctx
  fail s err = (
    false,
    abort
        (record s { w = record s.w { error = if is_no_error s.w.error then err else s.w.error } }),
  )

  -- The start of `begin`: the image under way is dropped.
  abbrev pub fresh : Ota P Ctx → Ota P Ctx
  fresh s = record s {
    esp = drop_handle s;
    w = record s.w {
      handle = 0;
      error = no_error;
      written = 0;
      erases = 0;
      ended = false;
      md5 = false;
    };
  }

  abbrev pub begun : Ota P Ctx → ℕ → ℕ × ℕ × P → Bool × Ota P Ctx
  begun s now (e, h, p) = if not (e == 0) then fail (record s { esp = p }) (esp_err e) else (
    true,
    record s { esp = p; w = record s.w { handle = h }; update = progress s.update now },
  )

  abbrev pub begin_md5 : Ota P Ctx → ℕ → Partition → Option (List ℕ) → Bool × Ota P Ctx
  begin_md5 s now part none = fail s err_bad_md5
  begin_md5 s now part (some want) =
      let t : Ota P Ctx = record s {
        w = record s.w { md5_want = want; md5 = true; md5_ctx = io.md5_init };
      } in
      begun t now (io.ota_begin t.esp part)

  -- `md5Hex && *md5Hex`.
  abbrev pub begin_hex : Ota P Ctx → ℕ → Partition → Option (List ℕ) → Bool × Ota P Ctx
  begin_hex s now part none = begun s now (io.ota_begin s.esp part)
  begin_hex s now part (some []) = begun s now (io.ota_begin s.esp part)
  begin_hex s now part (some (c ∷ cs)) = begin_md5 s now part (parse_md5 (c ∷ cs))

  abbrev pub begin_part : Ota P Ctx → ℕ → ℕ → Option (List ℕ) → Option Partition → Bool × Ota P Ctx
  begin_part s now hint hex none =
      fail (record s { w = record s.w { part = none; slot_size = 0 } }) (esp_err 0x105)
  begin_part s now hint hex (some part) =
      let t : Ota P Ctx = record s { w = record s.w { part = some part; slot_size = part.size } } in
      if ltb part.size hint then fail t err_too_big else begin_hex t now part hex

  abbrev pub begin_claimed : ℕ → ℕ → Option (List ℕ) → Bool × Ota P Ctx → Bool × Ota P Ctx
  begin_claimed now hint hex (false, s) = fail s err_busy
  begin_claimed now hint hex (true, s) = begin_part s now hint hex (io.next_partition s.esp)

  unfoldable pub begin : Ota P Ctx → Option Source → ℕ → Option (List ℕ) → ℕ → ℕ → Bool × Ota P Ctx
  begin s source hint hex me now = begin_claimed now hint hex (claim (fresh s) source me now)

  abbrev pub wrote_image : Ota P Ctx → List ℕ → ℕ → ℕ × P → Bool × Ota P Ctx
  wrote_image s bytes now (e, p) =
      if not (e == 0) then fail (record s { esp = p }) (esp_err e) else (
        true,
        record s {
          esp = p;
          update = progress s.update now;
          w = record s.w {
            md5_ctx = if s.w.md5 then io.md5_update s.w.md5_ctx bytes else s.w.md5_ctx;
            erases = u32 (s.w.erases + erases s.w.written (length bytes));
            written = u32 (s.w.written + length bytes);
          };
        },
      )

  unfoldable pub write : Ota P Ctx → List ℕ → ℕ → Bool × Ota P Ctx
  write s bytes now =
      if (s.w.handle == 0) || s.w.ended
      then fail s err_not_begun
      else (if ltb longest_write (length bytes)
          then fail s err_step
          else (if length bytes == 0
              then (true, s)
              else (if ltb s.w.slot_size (u32 (s.w.written + length bytes))
                  then fail s err_too_big
                  else wrote_image s bytes now (io.ota_write s.esp s.w.handle bytes))))

  abbrev pub ended_so : Ota P Ctx → ℕ × P → Bool × Ota P Ctx
  ended_so s (e, p) =
      if not (e == 0)
      then fail (record s { esp = p }) (esp_err e)
      else (true, record s { esp = p; w = record s.w { ended = true } })

  unfoldable pub end_image : Ota P Ctx → Bool × Ota P Ctx
  end_image s =
      if (s.w.handle == 0) || s.w.ended
      then fail s err_not_begun
      else (if s.w.md5 && not (same_bytes (io.md5_final s.w.md5_ctx) s.w.md5_want)
          then fail s err_md5
          else ended_so (record s { w = record s.w { handle = 0 } }) (io.ota_end s.esp s.w.handle))

  abbrev pub activated : Ota P Ctx → ℕ × P → Bool × Ota P Ctx
  activated s (e, p) =
      if not (e == 0) then fail (record s { esp = p }) (esp_err e) else (true, record s { esp = p })

  unfoldable pub activate : Ota P Ctx → Bool × Ota P Ctx
  activate s =
      if not s.w.ended || not (has_part s.w.part)
      then fail s err_not_begun
      else activated s (io.set_boot s.esp s.w.part)

  -- The step of `restartInto` in the restart, with PowerGuard's answer.
  unfoldable pub restart_step : Ota P Ctx → Bool → Ota P Ctx
  restart_step s allowed = if not s.w.ended then s else (if not allowed then s else (activate s).1)
