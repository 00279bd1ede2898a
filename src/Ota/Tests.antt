-- ===== src/Ota/Tests.antt =====
-- A small image on a platform that always says yes, and the properties at it.
use esp_rack.Prelude.{
  ℕ, ◌+◌, ◌%◌, ◌≤◌, ◌≡◌, refl, Bool, true, false, Option, none, some, List, [], ◌∷◌, arith, ap,
}
use esp_rack.Flash.Laws.{starts}
use esp_rack.Ota.Update.{Update, is_set, is_source}
use esp_rack.Ota.Types.{no_error, err_busy, Partition, EspOta, Writer, Ota}
use esp_rack.Ota.Writer.{parse_md5, begin, write, end_image, same_bytes, reserve}
use esp_rack.Ota.Calls.{
  Call, reserves, begins, writes, ends, activates, aborts, do_call, Device, device_call,
  device_calls,
}
use esp_rack.Ota.Laws.Idle.{gave_up}
use esp_rack.Ota.Laws.Owners.{IsOwned, device_calls-exclusive, do_call-gave_up}
use esp_rack.Ota.Laws.Image.{planned_all, total, write_all}
use esp_rack.Ota.Laws.Whole.{SmallSlots, plan, Opened, HasMd5, image_written}

abbrev slot : Partition
slot = record { address = 0x10000; size = 8192 }

abbrev sum_bytes : ℕ → List ℕ → ℕ
sum_bytes c [] = c
sum_bytes c (b ∷ bs) = sum_bytes (c + b) bs

-- The digest is the sum of the bytes, sixteen times.
abbrev sixteen : ℕ → List ℕ
sixteen c =
    (c % 256)
    ∷ (c % 256)
    ∷ (c % 256)
    ∷ (c % 256)
    ∷ (c % 256)
    ∷ (c % 256)
    ∷ (c % 256)
    ∷ (c % 256)
    ∷ (c % 256)
    ∷ (c % 256)
    ∷ (c % 256)
    ∷ (c % 256)
    ∷ (c % 256)
    ∷ (c % 256)
    ∷ (c % 256)
    ∷ (c % 256)
    ∷ []

abbrev yes : EspOta (Unit {0}) ℕ
yes = record {
  next_partition = λ p. some slot;
  running_partition = λ p. none;
  ota_begin = λ p part. (0, 1, p);
  ota_write = λ p h bytes. (0, p);
  ota_end = λ p h. (0, p);
  ota_abort = λ p h. p;
  set_boot = λ p part. (0, p);
  md5_init = 0;
  md5_update = λ c bytes. sum_bytes c bytes;
  md5_final = λ c. sixteen c;
}

abbrev size_or_zero : Option Partition → ℕ
size_or_zero none = 0
size_or_zero (some q) = q.size

yes-SmallSlots : SmallSlots yes
yes-SmallSlots p part e = let s : 8192 ≡ part.size = ap size_or_zero e in omega arith

-- "0303...03".
abbrev hex : List ℕ
hex =
    48 ∷ 51 ∷ 48 ∷ 51 ∷ 48 ∷ 51 ∷ 48 ∷ 51 ∷ 48 ∷ 51 ∷ 48 ∷ 51 ∷ 48 ∷ 51 ∷ 48 ∷ 51 ∷ 48 ∷ 51 ∷ 48
    ∷ 51 ∷ 48 ∷ 51 ∷ 48 ∷ 51 ∷ 48 ∷ 51 ∷ 48 ∷ 51 ∷ 48 ∷ 51 ∷ 48 ∷ 51 ∷ []

abbrev idle : Writer ℕ
idle = record {
  handle = 0;
  part = none;
  source = none;
  ended = false;
  md5 = false;
  md5_want = [];
  md5_ctx = 0;
  written = 0;
  erases = 0;
  slot_size = 0;
  error = no_error;
}

abbrev quiet : Update
quiet = record { source = none; last_ms = 0; stall_ms = 60000 }

abbrev at_first : Ota (Unit {0}) ℕ
at_first = record { w = idle; owner = none; update = quiet; esp = tt }

abbrev was_begun : Bool × Ota (Unit {0}) ℕ
was_begun = begin yes at_first (some 1) 3 (some hex) 0 5

abbrev chunks : List (List ℕ × ℕ)
chunks = (1 ∷ [], 6) ∷ ((2 ∷ [], 7) ∷ [])

begun_yes : was_begun ≡ (true, was_begun.1)
unfolding begin esp_rack.Ota.Writer.claim esp_rack.Ota.Update.try_begin
    esp_rack.Ota.Update.under_way parse_md5 esp_rack.Ota.Writer.hex_bytes
    esp_rack.Ota.Writer.hex_digit
begun_yes = refl

abbrev two_bytes : Ota (Unit {0}) ℕ
two_bytes = (write yes (write yes was_begun.1 (1 ∷ []) 6).1 (2 ∷ []) 7).1

written_yes : write_all yes was_begun.1 chunks ≡ some two_bytes
unfolding write_all write begin esp_rack.Ota.Writer.claim esp_rack.Ota.Update.try_begin
    esp_rack.Ota.Update.under_way parse_md5 esp_rack.Ota.Writer.hex_bytes
    esp_rack.Ota.Writer.hex_digit
written_yes = refl

abbrev was_ended : Bool × Ota (Unit {0}) ℕ
was_ended = end_image yes two_bytes

ended_yes : was_ended ≡ (true, was_ended.1)
unfolding end_image write begin esp_rack.Ota.Writer.claim esp_rack.Ota.Update.try_begin
    esp_rack.Ota.Update.under_way parse_md5 esp_rack.Ota.Writer.hex_bytes
    esp_rack.Ota.Writer.hex_digit
ended_yes = refl

image_written_example :
    (was_ended.1.w.written ≡ total yes chunks)
    × (was_ended.1.w.erases ≡ starts 0 (total yes chunks))
    × (total yes chunks ≤ was_begun.1.w.slot_size)
    × Opened yes was_begun.1
    × (was_ended.1.esp
        ≡ (yes.ota_end
            (planned_all yes (plan yes was_begun.1) chunks).flash
            was_begun.1.w.handle).1)
    × HasMd5 yes (some hex) chunks was_begun.1
image_written_example =
    image_written yes at_first was_begun.1 two_bytes was_ended.1 (some 1) 3 (some hex) 0 5 chunks
      yes-SmallSlots begun_yes written_yes ended_yes

-- A write before anything was begun.
write_no : (do_call yes at_first 0 (writes (1 ∷ []) 6)).0 ≡ false
unfolding do_call write esp_rack.Ota.Writer.fail
write_no = refl

do_call-gave_up_example : gave_up (do_call yes at_first 0 (writes (1 ∷ []) 6)).1.w ≡ true
do_call-gave_up_example = do_call-gave_up yes 0 at_first (writes (1 ∷ []) 6) refl refl refl write_no

abbrev device : Device (Unit {0}) ℕ
device = record { writers = λ i. idle; owner_of = none; reported = quiet; platform = tt }

device-IsOwned : IsOwned device
device-IsOwned i = (refl, refl)

-- The second writer finds the update taken.
abbrev two_ask : List (ℕ × Call)
two_ask = (3, reserves (some 1) 0) ∷ ((4, begins (some 2) 0 none 1) ∷ [])

third_holds : is_set ((device_calls yes device two_ask).writers 3).source ≡ true
unfolding device_calls esp_rack.Ota.Calls.device_call do_call reserve esp_rack.Ota.Writer.claim
    esp_rack.Ota.Update.try_begin esp_rack.Ota.Update.under_way
third_holds = refl

fourth_busy : ((device_calls yes device two_ask).writers 4).error ≡ err_busy
unfolding device_calls esp_rack.Ota.Calls.device_call do_call begin esp_rack.Ota.Writer.claim
    reserve esp_rack.Ota.Update.try_begin esp_rack.Ota.Update.under_way esp_rack.Ota.Writer.fail
    esp_rack.Ota.Writer.abort esp_rack.Ota.Writer.unclaim
fourth_busy = refl

device_calls-exclusive_example :
    (is_set ((device_calls yes device two_ask).writers 4).source ≡ false)
    × ((device_call yes (device_calls yes device two_ask) 4 (writes (1 ∷ []) 6)).platform
        ≡ (device_calls yes device two_ask).platform)
    × ((device_call yes (device_calls yes device two_ask) 4 (writes (1 ∷ []) 6)).owner_of
        ≡ (device_calls yes device two_ask).owner_of)
    × ((device_call yes (device_calls yes device two_ask) 4 (writes (1 ∷ []) 6)).writers 3
        ≡ (device_calls yes device two_ask).writers 3)
device_calls-exclusive_example =
    device_calls-exclusive yes device two_ask 3 4 (writes (1 ∷ []) 6) device-IsOwned third_holds
      refl
