-- ===== src/Pump/Session.antt =====
-- The tasks around lib/ESPRack/src/net/UploadPumpCore.cpp, as in lib/ESPRack/src/net/UploadPump.cpp:
-- the producer (push), the writer (run and driveFree: next, confirm, act) and a client that goes
-- (gone), interleaved in any order. Beside the core stands what the sink has been told, against the
-- contract of lib/ESPRack/include/net/UploadSink.h.
mod Tests
pub mod Calls
pub mod Protocol
pub mod Safety
use esp_rack.Prelude.{
  ℕ, zero, suc, Bool, true, false, not, ◌&&◌, ◌||◌, Option, List, [], ◌∷◌, ◌==◌, if◌then◌else◌,
}
use esp_rack.Prelude.Int.{ℤ, pos, negsuc}
use esp_rack.Pump.{
  Pump, UploadResult, Action, no_action, open_call, write_call, finish_call, abort_call, new_pump,
  is_some, accepting, begin, set_ring, take_ring, set_final, fail, note_progress, reserve, commit,
  window, confirm, next, claim, opened, wrote, finished, aborted, done,
}

-- What a sink has seen: nothing yet, opened, between two finish calls, a call that failed, a finish
-- that said done, the abort. `violation` is a call that its contract does not allow.
pub data Sink : Type 0 where
  fresh ready ending broken committed gone violation : Sink

-- The sink's answer to a call: `open` and `write` say whether they worked, `finish` a code.
pub record Answer : Type 0 where
  pub worked : Bool
  pub code : ℤ

abbrev pub on_open : Sink → Bool → Sink
on_open fresh true = ready
on_open fresh false = broken
on_open _ _ = violation

abbrev pub on_write : Sink → Bool → Sink
on_write ready true = ready
on_write ready false = broken
on_write _ _ = violation

abbrev pub finish_code : ℤ → Sink
finish_code (pos zero) = committed
finish_code (pos (suc zero)) = ending
finish_code (pos (suc (suc _))) = broken
finish_code (negsuc _) = broken

abbrev pub on_finish : Sink → ℤ → Sink
on_finish ready c = finish_code c
on_finish ending c = finish_code c
on_finish _ _ = violation

-- The first flag: the sink's finish may be taken back.
abbrev pub on_abort : Bool → Sink → Sink
on_abort revocable fresh = gone
on_abort revocable ready = gone
on_abort revocable broken = gone
on_abort true ending = gone
on_abort true committed = gone
on_abort _ _ = violation

abbrev pub told : Bool → Sink → Action → Answer → Sink
told r s no_action a = s
told r s open_call a = on_open s a.worked
told r s write_call a = on_write s a.worked
told r s finish_call a = on_finish s a.code
told r s abort_call a = on_abort r s

-- The call under way: none, one that `next` gave, the producer's own after `claim`.
pub data Call : Type 0 where
  no_call : Call
  planned : Action → Call
  direct : Call

pub record System : Type 0 where
  pub core : Pump
  pub call : Call
  pub sink : Sink

-- The switch of `UploadPump::act`: the core hears the sink's answer.
unfoldable pub heard : Pump → Action → ℕ → Answer → Pump
unfolding opened wrote finished aborted
heard p no_action n a = p
heard p open_call n a = opened p a.worked
heard p write_call n a = wrote p n a.worked true
heard p finish_call n a = finished p a.code
heard p abort_call n a = aborted p

-- `UploadPump::act`, with the time read at its end.
unfoldable pub act : Pump → Action → ℕ → Answer → ℕ → Pump
unfolding heard done note_progress
act p a n answer now = done (note_progress (heard p a n answer) now)

-- The direct branch of `UploadPump::push`: `open` if need be, then the write of `len` bytes.
unfoldable pub push_open : Pump → Bool → Bool × Pump
push_open p worked = if p.is_open then (true, p) else (worked, opened p worked)

unfoldable pub push_write : Bool × Pump → ℕ → Bool → Pump
push_write (ok, p) len worked = if ok && not (len == 0) then wrote p len worked false else p

unfoldable pub push_direct : Pump → ℕ → Bool → Bool → Bool → ℕ → Pump
push_direct p len final open_worked write_worked now =
    let q : Pump = push_write (push_open p open_worked) len write_worked in
    done (note_progress (if final then set_final q else q) now)

abbrev pub told_direct : Sink → Bool → ℕ → Bool → Bool → Sink
told_direct s is_open len open_worked write_worked =
    let s' : Sink = if is_open then s else on_open s open_worked in
    if (is_open || open_worked) && not (len == 0) then on_write s' write_worked else s'

pub data Event : Type 0 where
  begins : ℕ → ℕ → Bool → Event
  rings : Option ℕ → ℕ → Event
  reclaims : Event
  reserves commits : ℕ → Event
  last_pushed : Event
  fails : UploadResult → Event
  windows : Event
  claims : Event
  direct_write : ℕ → Bool → Bool → Bool → ℕ → Event
  takes confirms : Event
  acts : ℕ → Answer → ℕ → Event
  gives_back : Event

-- A session may begin only over a sink that was committed or aborted.
abbrev pub fresh_after : Sink → Sink
fresh_after committed = fresh
fresh_after gone = fresh
fresh_after _ = violation

abbrev pub is_some_call : Action → Bool
is_some_call no_action = false
is_some_call _ = true

abbrev pub planned_of : Action → Call
planned_of no_action = no_call
planned_of a = planned a

-- A task that takes the sink while the other one has it would call it twice at a time.
abbrev pub alone : Call → Sink → Sink
alone no_call s = s
alone _ s = violation

pub act_step : Pump → Call → Sink → ℕ → Answer → ℕ → System
unfolding act
act_step p no_call s n a now = record { core = p; call = no_call; sink = s }
act_step p direct s n a now = record { core = p; call = direct; sink = s }
act_step p (planned c) s n a now = record {
  core = act p c n a now;
  call = no_call;
  sink = told p.revocable s c a;
}

pub confirm_step : Pump → Call → Sink → System
unfolding confirm
confirm_step p (planned c) s = record { core = p; call = planned (confirm p c); sink = s }
confirm_step p c s = record { core = p; call = c; sink = s }

pub give_back_step : Pump → Call → Sink → System
unfolding done
give_back_step p no_call s = record { core = p; call = no_call; sink = s }
give_back_step p _ s = record { core = done p; call = no_call; sink = s }

pub direct_step : Pump → Call → Sink → ℕ → Bool → Bool → Bool → ℕ → System
direct_step p direct s len final open_worked write_worked now = record {
  core = push_direct p len final open_worked write_worked now;
  call = no_call;
  sink = told_direct s p.is_open len open_worked write_worked;
}
direct_step p c s len final open_worked write_worked now = record { core = p; call = c; sink = s }

-- One event. The two tasks keep the turns that the core's answers give them: a call is made by the
-- task that holds it, the writer acts on what `next` gave, the producer claims while `accepting`.
unfoldable pub step : System → Event → System
unfolding act_step confirm_step give_back_step direct_step
step s (begins h now r) =
    let (ok, p) = begin s.core h now r in
    if ok then record s { core = p; sink = fresh_after s.sink } else s
step s (rings b n) = if is_some s.core.buf then s else record s { core = set_ring s.core b n }
step s reclaims = record s { core = (take_ring s.core).1 }
step s (reserves n) = record s { core = (reserve s.core n).2 }
step s (commits n) = record s { core = commit s.core n }
step s last_pushed = record s { core = set_final s.core }
step s (fails r) = record s { core = fail s.core r }
step s windows = record s { core = (window s.core).1 }
step s claims =
    let (ok, p) = claim s.core in
    if accepting s.core && ok
    then record { core = p; call = direct; sink = alone s.call s.sink }
    else s
step s (direct_write n f o w now) = direct_step s.core s.call s.sink n f o w now
step s takes =
    let (a, spans, n, p) = next s.core in
    if is_some_call a
    then record { core = p; call = planned_of a; sink = alone s.call s.sink }
    else s
step s confirms = confirm_step s.core s.call s.sink
step s (acts n a now) = act_step s.core s.call s.sink n a now
step s gives_back = give_back_step s.core s.call s.sink

unfoldable pub run : System → List Event → System
run s [] = s
run s (e ∷ es) = run (step s e) es

-- Before the first upload.
abbrev pub start : System
start = record { core = new_pump; call = no_call; sink = gone }
