-- ===== src/Ota/Calls.antt =====
-- The calls of a writer's user in any order, and the writers of a device side by side: what one
-- claims the others find taken.
use esp_rack.Prelude.{ℕ, Bool, true, Option, List, [], ◌∷◌, ◌==◌, if◌then◌else◌}
use esp_rack.Ota.Update.{Source, Update}
use esp_rack.Ota.Types.{EspOta, Writer, Ota}
use esp_rack.Ota.Writer.{reserve, begin, write, end_image, activate, abort}

pub data Call : Type 0 where
  reserves : Option Source → ℕ → Call
  begins : Option Source → ℕ → Option (List ℕ) → ℕ → Call
  writes : List ℕ → ℕ → Call
  ends activates aborts : Call

module _ {P Ctx : Type 0} (io : EspOta P Ctx) where
  unfoldable pub do_call : Ota P Ctx → ℕ → Call → Bool × Ota P Ctx
  do_call s me (reserves source now) = reserve s source me now
  do_call s me (begins source hint hex now) = begin io s source hint hex me now
  do_call s me (writes bytes now) = write io s bytes now
  do_call s me ends = end_image io s
  do_call s me activates = activate io s
  do_call s me aborts = (true, abort io s)

-- The writers of a device, each by its number.
pub record Device (P Ctx : Type 0) : Type 0 where
  pub writers : ℕ → Writer Ctx
  pub owner_of : Option ℕ
  pub reported : Update
  pub platform : P

module _ {P Ctx : Type 0} where
  abbrev pub seen_by : Device P Ctx → ℕ → Ota P Ctx
  seen_by d i = record {
    w = d.writers i;
    owner = d.owner_of;
    update = d.reported;
    esp = d.platform;
  }

  abbrev pub left_by : Device P Ctx → ℕ → Ota P Ctx → Device P Ctx
  left_by d i s = record {
    writers = λ j. if j == i then s.w else d.writers j;
    owner_of = s.owner;
    reported = s.update;
    platform = s.esp;
  }

module _ {P Ctx : Type 0} (io : EspOta P Ctx) where
  unfoldable pub device_call : Device P Ctx → ℕ → Call → Device P Ctx
  device_call d i c = left_by d i (do_call io (seen_by d i) i c).1

  unfoldable pub device_calls : Device P Ctx → List (ℕ × Call) → Device P Ctx
  device_calls d [] = d
  device_calls d (c ∷ cs) = device_calls (device_call d c.0 c.1) cs
