-- ===== src/Gate/Inv/Steps.antt =====
-- Any sequence of calls of lib/ESPRack/include/power/WriteGateCore.h.
use Prim.Native.String.{String}
use esp_rack.Prelude.{ℕ, arith, Bool, true, false, Option, List, [], ◌∷◌}
use esp_rack.Prelude.Int.{ℤ}
use esp_rack.Gate.{
  Gate, Config, new_gate, configure, add_holder, open_window, close_quiet, close_forecast,
  window_open, open_windows, is_free, clamp, join, quit, enter, would_go, force, leave,
  note_deferred, reset_stats,
}
use esp_rack.Gate.Inv.{IsValid}
use esp_rack.Gate.Inv.Sweep.{window_open-IsValid, clamp-IsValid}
use esp_rack.Gate.Inv.Holders.{
  add_holder-IsValid, open_window-IsValid, close_quiet-IsValid, close_forecast-IsValid,
}
use esp_rack.Gate.Inv.Ask.{decide-IsValid, leave-IsValid, force-IsValid, join-IsValid, quit-IsValid}

-- A call, with the power guard's answer where one is asked for.
pub data Call : Type 0 where
  configures : Config → Call
  adds : Option String → Call
  opens closes : ℤ → ℕ → Call
  forecasts : ℤ → ℕ → ℤ → Call
  looks counts frees joins : ℕ → Call
  quits : ℕ → Call
  enters asks : Bool → ℕ → ℕ → Bool → ℕ → Call
  forces : Bool → ℕ → ℕ → Call
  leaves : ℕ → ℕ → Call
  defers resets : Call

unfoldable pub step : Gate → Call → Gate
step g (configures c) = configure g c
step g (adds name) = (add_holder g name).1
step g (opens h now) = open_window g h now
step g (closes h now) = close_quiet g h now
step g (forecasts h now p) = close_forecast g h now p
step g (looks now) = (window_open g now).1
step g (counts now) = (open_windows g now).1
step g (frees now) = (is_free g now).1
step g (joins now) = (join g now).1
step g (quits t) = quit g t
step g (enters a now since free t) = (enter g a now since free t).1
step g (asks a now since free t) = (would_go g a now since free t).1
step g (forces a now since) = (force g a now since).1
step g (leaves now since) = leave g now since
step g defers = note_deferred g
step g resets = reset_stats g

unfoldable pub run : Gate → List Call → Gate
run g [] = g
run g (c ∷ cs) = run (step g c) cs

step-IsValid : (g : Gate) (c : Call) → IsValid g → IsValid (step g c)
unfolding step configure open_windows is_free enter would_go note_deferred reset_stats
step-IsValid g (configures c) v = ground arith
step-IsValid g (adds name) v = add_holder-IsValid g name v
step-IsValid g (opens h now) v = open_window-IsValid g h now v
step-IsValid g (closes h now) v = close_quiet-IsValid g h now v
step-IsValid g (forecasts h now p) v = close_forecast-IsValid g h now p v
step-IsValid g (looks now) v = window_open-IsValid g now v
step-IsValid g (counts now) v = window_open-IsValid g now v
step-IsValid g (frees now) v =
    window_open-IsValid (clamp g now).1 (clamp g now).0 (clamp-IsValid g now v)
step-IsValid g (joins now) v = join-IsValid g now v
step-IsValid g (quits t) v = quit-IsValid g t v
step-IsValid g (enters a now since free t) v = decide-IsValid g a now since free t true v
step-IsValid g (asks a now since free t) v = decide-IsValid g a now since free t false v
step-IsValid g (forces a now since) v = force-IsValid g a now since v
step-IsValid g (leaves now since) v = leave-IsValid g now since v
step-IsValid g defers v = ground arith
step-IsValid g resets v = ground arith

run-IsValid : (g : Gate) (cs : List Call) → IsValid g → IsValid (run g cs)
unfolding run
run-IsValid g [] v = v
run-IsValid g (c ∷ cs) v = run-IsValid (step g c) cs (step-IsValid g c v)

-- After any calls on a new gate: four holders and sixteen tickets are the most there are, a window
-- was opened before one is open, the pause is on exactly while no window is open after a first one,
-- and an overlap of a write and a window is only counted while a window is open.
pub new-run-IsValid : (cs : List Call) → IsValid (run new_gate cs)
new-run-IsValid cs = run-IsValid new_gate cs (ground arith)
