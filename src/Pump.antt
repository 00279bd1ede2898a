-- ===== src/Pump.antt =====
-- lib/ESPRack/include/net/UploadPumpCore.h and lib/ESPRack/src/net/UploadPumpCore.cpp: the
-- bookkeeping of an upload, one function for each method. A method that changes the object returns
-- the new one, behind its result. Numbers are uint32_t with their wrap written out. A pointer into
-- the ring is the offset from the ring's start; the ring itself is the name of the caller's buffer.
pub mod Session
mod Types
pub use Types.*
use esp_rack.Prelude.{
  ℕ, zero, suc, ◌+◌, ◌-◌, ◌%◌, Bool, true, false, not, ◌&&◌, ◌||◌, Option, none, some, ltb, leb,
  ◌==◌, if◌then◌else◌,
}
use esp_rack.Prelude.Int.{ℤ, pos, negsuc}
use esp_rack.Prelude.Word.{u32, sub32}
use esp_rack.Flash

unfoldable pub failed : Pump → Bool
failed p = not (is_success p.result)

unfoldable pub accepting : Pump → Bool
unfolding failed
accepting p = is_running p.phase && not (failed p) && not p.final

unfoldable pub can_begin : Pump → Bool
can_begin p = not (is_running p.phase) && not p.busy && not p.copying

unfoldable pub begin : Pump → ℕ → ℕ → Bool → Bool × Pump
unfolding can_begin
begin p hold_below now revocable =
    if can_begin p
    then (
      true,
      record {
        phase = running;
        result = success;
        busy = p.busy;
        copying = p.copying;
        is_open = false;
        live = true;
        finishing = false;
        revocable = revocable;
        final = false;
        held = false;
        buf = p.buf;
        size = p.size;
        rd = 0;
        used = 0;
        written = 0;
        hold_below = hold_below;
        holds = 0;
        progress_at = now;
      },
    )
    else (false, p)

unfoldable pub set_ring : Pump → Option ℕ → ℕ → Pump
set_ring p buf size =
    let buf' : Option ℕ = if size == 0 then none else buf in
    record p { buf = buf'; size = if is_some buf' then size else 0; rd = 0; used = 0 }

-- `settle`.
unfoldable pub settle : Pump → Pump
settle p = record p { phase = settled }

unfoldable pub take_ring : Pump → Option ℕ × Pump
unfolding failed
take_ring p =
    if not (is_some p.buf) || p.copying || p.busy
    then (none, p)
    else if is_running p.phase && not (failed p)
    then (none, p)
    else (p.buf, record p { buf = none; size = 0; rd = 0; used = 0 })

-- `final()`.
unfoldable pub set_final : Pump → Pump
set_final p = if is_running p.phase then record p { final = true } else p

unfoldable pub fail : Pump → UploadResult → Pump
unfolding failed settle
fail p r =
    if not (is_running p.phase) || is_success r
    then p
    else let q : Pump = if failed p then p else record p { result = r } in
      if not q.live && not q.busy then settle q else q

unfoldable pub note_progress : Pump → ℕ → Pump
note_progress p now = record p { progress_at = now }

unfoldable pub stalled : Pump → ℕ → ℕ → Bool
stalled p now limit_ms = leb limit_ms (sub32 now p.progress_at)

-- `room()` of the ring.
unfoldable pub room : Pump → ℕ
room p = sub32 p.size p.used

-- The two pieces of `len` bytes from offset `at` on, going round at `size`.
abbrev pub split : ℕ → ℕ → ℕ → Span × Span
split size at len =
    let first : ℕ = if ltb len (sub32 size at) then len else sub32 size at in
    (
      record { data_at = some at; len = first },
      if ltb first len then record { data_at = some 0; len = len - first } else no_span,
    )

unfoldable pub reserve : Pump → ℕ → Bool × (Span × Span) × Pump
unfolding accepting fail room
reserve p len =
    if not (accepting p) || not (is_some p.buf)
    then (false, (no_span, no_span), p)
    else if ltb (room p) len
    then (false, (no_span, no_span), fail p overflow)
    else if len == 0
    then (true, (no_span, no_span), p)
    else (true, split p.size (u32 (p.rd + p.used) % p.size) len, record p { copying = true })

unfoldable pub commit : Pump → ℕ → Pump
commit p len =
    let q : Pump =
      if p.copying && is_running p.phase then record p { used = u32 (p.used + len) } else p in
    record q { copying = false }

unfoldable pub window : Pump → Window × Pump
unfolding accepting room
window p =
    if not (accepting p) || not (is_some p.buf)
    then if p.held then (reopen, record p { held = false }) else (open_window, p)
    else if p.held
    then if ltb (room p) p.hold_below then (hold, p) else (reopen, record p { held = false })
    else if ltb (room p) p.hold_below
    then (hold, record p { held = true; holds = u32 (p.holds + 1) })
    else (open_window, p)

unfoldable pub pending : Pump → Bool
unfolding failed Flash.room
pending p =
    if not (is_running p.phase) || p.busy
    then false
    else if p.finishing && not (failed p && p.revocable)
    then true
    else if failed p
    then p.live
    else not p.is_open || p.final || leb (Flash.room p.written) p.used

unfoldable pub peek : Pump → Action
unfolding pending failed
peek p =
    if not (pending p)
    then no_action
    else if p.finishing && not (failed p && p.revocable)
    then finish_call
    else if failed p
    then abort_call
    else if not p.is_open
    then open_call
    else if p.used == 0
    then finish_call
    else write_call

unfoldable pub confirm : Pump → Action → Action
unfolding failed
confirm p a =
    if not (failed p) || not (is_running p.phase)
    then a
    else if is_open_call a || is_write_call a || is_finish_call a && p.revocable
    then abort_call
    else a

-- `next` once `peek` has chosen: the action, the two pieces, their length, and the new state.
take_action : Pump → Action → Action × (Span × Span) × ℕ × Pump
unfolding Flash.step
take_action p no_action = (no_action, (no_span, no_span), 0, p)
take_action p finish_call =
    (finish_call, (no_span, no_span), 0, record p { busy = true; finishing = true })
take_action p write_call =
    let len : ℕ = Flash.step p.written p.used in
    (write_call, split p.size p.rd len, len, record p { busy = true })
take_action p open_call = (open_call, (no_span, no_span), 0, record p { busy = true })
take_action p abort_call = (abort_call, (no_span, no_span), 0, record p { busy = true })

unfoldable pub next : Pump → Action × (Span × Span) × ℕ × Pump
unfolding peek take_action
next p = take_action p (peek p)

unfoldable pub claim : Pump → Bool × Pump
unfolding failed
claim p =
    if not (is_running p.phase) || failed p || p.busy || p.copying || not (p.used == 0)
    then (false, p)
    else (true, record p { busy = true })

unfoldable pub opened : Pump → Bool → Pump
unfolding fail
opened p ok = if ok then record p { is_open = true } else fail p sink_failed

unfoldable pub wrote : Pump → ℕ → Bool → Bool → Pump
unfolding fail
wrote p n ok from_ring =
    if not ok
    then fail p sink_failed
    else let q : Pump = record p { written = u32 (p.written + n) } in
      if from_ring && not (p.size == 0)
      then (let m : ℕ = if ltb p.used n then p.used else n in
          record q { rd = u32 (p.rd + m) % p.size; used = p.used - m })
      else q

unfoldable pub finished : Pump → ℤ → Pump
unfolding fail settle failed
finished p (pos (suc zero)) = p
finished p (pos zero) =
    if failed p && p.revocable
    then record p { finishing = false }
    else settle (record p { finishing = false; is_open = false; live = false })
finished p r = fail (record p { finishing = false }) sink_failed

unfoldable pub aborted : Pump → Pump
unfolding settle
aborted p = settle (record p { is_open = false; live = false; finishing = false })

unfoldable pub done : Pump → Pump
unfolding failed settle
done p =
    let q : Pump = record p { busy = false } in
    if is_running q.phase && failed q && not q.live then settle q else q
