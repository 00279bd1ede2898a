-- ===== src/Persist/Scratch.antt =====
-- `RtcScratch<T>` of lib/ESPRack/include/persist/RtcScratch.h: two slots in RTC memory. A T is its
-- bytes. Whether the reset kept the memory is an argument of the calls.
use esp_rack.Prelude.{
  ℕ, ◌+◌, Bool, true, false, not, ◌&&◌, Option, none, some, List, ◌++◌, take, drop, ◌==◌,
  if◌then◌else◌,
}
use esp_rack.Prelude.Word.{u32, sub32, is_pos32}
use esp_rack.Persist.Crc.{crc32_ieee}
use esp_rack.Persist.Blob.{to_bytes}

pub record Slot : Type 0 where
  pub magic : ℕ
  pub seq : ℕ
  pub len : ℕ
  pub crc : ℕ
  pub payload : List ℕ

abbrev pub scratch_magic : ℕ
scratch_magic = 0x31435452

-- The two slots, `sizeof(T)` and whether `init` ran since boot.
pub record Scratch : Type 0 where
  pub s0 : Slot
  pub s1 : Slot
  pub size_of : ℕ
  pub initialised : Bool

unfoldable pub slot_crc : Slot → ℕ
slot_crc x = crc32_ieee x.payload (crc32_ieee (to_bytes 4 x.len) (crc32_ieee (to_bytes 4 x.seq) 0))

unfoldable pub is_good : Slot → ℕ → Bool
is_good x size_of = (x.magic == scratch_magic) && ((x.len == size_of) && (x.crc == slot_crc x))

-- Which slot a pointer to a slot points to; a null pointer is `none`.
pub data Which : Type 0 where
  first second : Which

abbrev pub slot_at : Scratch → Which → Slot
slot_at m first = m.s0
slot_at m second = m.s1

unfoldable pub newest_of : Bool → Bool → ℕ → ℕ → Option Which
newest_of a b seq0 seq1 =
    if a && b
    then some (if is_pos32 (sub32 seq1 seq0) then second else first)
    else (if a then some first else (if b then some second else none))

unfoldable pub newest : Scratch → Option Which
newest m = newest_of (is_good m.s0 m.size_of) (is_good m.s1 m.size_of) m.s0.seq m.s1.seq

unfoldable pub invalidate : Scratch → Scratch
invalidate m = record m {
  s0 = record m.s0 { magic = 0 };
  s1 = record m.s1 { magic = 0 };
  initialised = true;
}

unfoldable pub init : Scratch → Bool → Scratch
init m trusted =
    if m.initialised
    then m
    else (if not trusted
        then invalidate (record m { initialised = true })
        else record m { initialised = true })

-- The images that `valid`, `get` and `seq` read, behind `init`.
unfoldable pub valid_image : Scratch → Bool
valid_image m = elim (newest m) [ none ↦ false | some w ↦ true ]

abbrev pub image_in : Scratch → Option Which → Option (List ℕ)
image_in m none = none
image_in m (some w) = some (slot_at m w).payload

unfoldable pub image : Scratch → Option (List ℕ)
image m = image_in m (newest m)

unfoldable pub image_seq : Scratch → ℕ
image_seq m = elim (newest m) [ none ↦ 0 | some w ↦ (slot_at m w).seq ]

-- `commit` writes the slot that is not the newest.
abbrev pub target_of : Option Which → Which
target_of none = first
target_of (some first) = second
target_of (some second) = first

abbrev pub put_slot : Scratch → Which → Slot → Scratch
put_slot m first x = record m { s0 = x }
put_slot m second x = record m { s1 = x }

abbrev pub bump : ℕ → ℕ
bump n = let seq : ℕ = u32 (n + 1) in if seq == 0 then 1 else seq

abbrev pub next_seq : Scratch → Option Which → ℕ
next_seq m none = 1
next_seq m (some w) = bump (slot_at m w).seq

-- What the memory of the slot holds while `commit` runs, one store after another: a payload of
-- which k bytes are copied is k of the new bytes and the rest of the old.
pub data Stage : Type 0 where
  cleared : Stage
  copied : ℕ → Stage
  numbered sized summed marked : Stage

abbrev pub copied_slot : Slot → List ℕ → ℕ → Slot
copied_slot x v k = record x { magic = 0; payload = take k v ++ drop k x.payload }

abbrev pub whole_slot : Slot → List ℕ → Slot
whole_slot x v = record x { magic = 0; payload = v }

abbrev pub summed_slot : Slot → List ℕ → ℕ → ℕ → Slot
summed_slot x v seq len =
    let y : Slot = record (whole_slot x v) { seq = seq; len = len } in record y { crc = slot_crc y }

unfoldable pub slot_during : Stage → Slot → List ℕ → ℕ → ℕ → Slot
slot_during cleared x v seq len = record x { magic = 0 }
slot_during (copied k) x v seq len = copied_slot x v k
slot_during numbered x v seq len = record (whole_slot x v) { seq = seq }
slot_during sized x v seq len = record (whole_slot x v) { seq = seq; len = len }
slot_during summed x v seq len = summed_slot x v seq len
slot_during marked x v seq len = record (summed_slot x v seq len) { magic = scratch_magic }

-- The memory at a stage of a `commit`, behind `init`; at `marked` the commit is done.
unfoldable pub commit_during : Stage → Scratch → List ℕ → Scratch
commit_during stage m v =
    let n : Option Which = newest m in
    let w : Which = target_of n in
    put_slot m w (slot_during stage (slot_at m w) v (next_seq m n) m.size_of)

unfoldable pub commit : Scratch → Bool → List ℕ → Scratch
commit m trusted v = commit_during marked (init m trusted) v

unfoldable pub valid : Scratch → Bool → Bool
valid m trusted = valid_image (init m trusted)

unfoldable pub get_image : Scratch → Bool → Option (List ℕ)
get_image m trusted = image (init m trusted)

unfoldable pub seq_of : Scratch → Bool → ℕ
seq_of m trusted = image_seq (init m trusted)

-- `esp_reset_reason()`, and `rtcScratchTrusted` of lib/ESPRack/src/persist/RtcScratch.cpp.
pub data ResetReason : Type 0 where
  power_on ext_pin by_software panic int_wdt task_wdt other_wdt deep_sleep brownout other_reason :
      ResetReason

unfoldable pub scratch_trusted : ResetReason → Bool
scratch_trusted by_software = true
scratch_trusted panic = true
scratch_trusted int_wdt = true
scratch_trusted task_wdt = true
scratch_trusted other_wdt = true
scratch_trusted deep_sleep = true
scratch_trusted _ = false
