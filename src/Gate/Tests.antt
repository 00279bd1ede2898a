-- ===== src/Gate/Tests.antt =====
-- Runs of the gate of lib/ESPRack/src/power/WriteGateCore.cpp.
use esp_rack.Prelude.{
  All, suc, ◌<◌, ◌≤◌, ◌≡◌, ◌≢◌, sym, subst, refl, arith, true, false, none, some, List, [], ◌∷◌,
}
use esp_rack.Prelude.Word.{sub32}
use esp_rack.Prelude.Int.{pos}
use esp_rack.Gate.{
  window_open, Gate, Holder, no_holder, new_gate, go, wait, enter, would_go, is_go, join, quit,
  waited_of, clamp, head_of, give_up,
}
use esp_rack.Gate.Inv.{IsValid, any_open}
use esp_rack.Gate.Inv.Steps.{Call, adds, opens, closes, joins, enters, leaves, run, new-run-IsValid}
use esp_rack.Gate.Laws.Exclusion.{
  asked, is_free_now, Through, TakesTurn, enter-Through, enter-exclusive,
}
use esp_rack.Gate.Laws.Progress.{would_go-enter, enter_bounded_wait}
use esp_rack.Gate.Laws.Windows.{window_open-Young}
use esp_rack.Gate.Laws.Queue.{ahead}

-- One holder whose window ended at 200.
abbrev paused : Gate
paused = record new_gate {
  count = 1;
  ever_used = true;
  seen = true;
  last_now = 200;
  last_end = 200;
  pause = true;
}

-- One holder whose window has been open since 99000.
abbrev windowed : Gate
windowed = record new_gate {
  holders =
      record no_holder { is_open = true; opened_at = 99000 }
      ∷ no_holder
      ∷ no_holder
      ∷ no_holder
      ∷ [];
  count = 1;
  ever_used = true;
  seen = true;
  last_now = 99000;
}

abbrev queued : Gate
queued = record new_gate { queue = 7 ∷ 8 ∷ []; next_ticket = 9 }

paused_goes : (enter paused true 100000 90000 false 0).0.verdict ≡ go
unfolding enter esp_rack.Gate.decide esp_rack.Gate.window_open esp_rack.Gate.expire
    esp_rack.Gate.after_sweep esp_rack.Gate.sweep clamp esp_rack.Gate.sweep_one
    esp_rack.Gate.no_window esp_rack.Gate.in_pause esp_rack.Gate.free_now esp_rack.Gate.idle
    esp_rack.Gate.pause_left esp_rack.Gate.forecast_left esp_rack.Gate.grant
paused_goes = refl

forced_goes : (enter windowed true 100000 0 false 0).0.verdict ≡ go
unfolding enter esp_rack.Gate.decide esp_rack.Gate.window_open esp_rack.Gate.expire
    esp_rack.Gate.after_sweep esp_rack.Gate.sweep clamp esp_rack.Gate.sweep_one
    esp_rack.Gate.in_window head_of esp_rack.Gate.grant
forced_goes = refl

young_waits : (enter windowed true 100000 99900 false 0).0.verdict ≡ wait
unfolding enter esp_rack.Gate.decide esp_rack.Gate.window_open esp_rack.Gate.expire
    esp_rack.Gate.after_sweep esp_rack.Gate.sweep clamp esp_rack.Gate.sweep_one
    esp_rack.Gate.in_window head_of
young_waits = refl

windowed-IsValid : IsValid windowed
windowed-IsValid = ground arith

windowed_head : head_of (clamp windowed 100000).1 0 ≡ true
unfolding head_of clamp
windowed_head = refl

windowed_alone : (asked windowed 100000).writing ≡ 0
unfolding esp_rack.Gate.window_open esp_rack.Gate.expire esp_rack.Gate.after_sweep
    esp_rack.Gate.sweep clamp esp_rack.Gate.sweep_one
windowed_alone = refl

windowed_pause : (asked windowed 100000).pause_taken ≡ false
unfolding esp_rack.Gate.window_open esp_rack.Gate.expire esp_rack.Gate.after_sweep
    esp_rack.Gate.sweep clamp esp_rack.Gate.sweep_one
windowed_pause = refl

windowed_limit : give_up (asked windowed 100000).config ≡ 12000
unfolding esp_rack.Gate.window_open esp_rack.Gate.expire esp_rack.Gate.after_sweep
    esp_rack.Gate.sweep clamp esp_rack.Gate.sweep_one
windowed_limit = refl

windowed_wait : waited_of (clamp windowed 100000).0 0 ≡ 100000
unfolding clamp
windowed_wait = refl

windowed_waited : give_up (asked windowed 100000).config ≤ waited_of (clamp windowed 100000).0 0
windowed_waited =
    subst (λ n. give_up (asked windowed 100000).config ≤ n) (sym windowed_wait)
      (subst (λ n. n ≤ 100000) (sym windowed_limit) (omega arith))

enter-Through_example :
    (true ≡ true)
    × Through
        (asked windowed 100000)
        (waited_of (clamp windowed 100000).0 0)
        (is_free_now (asked windowed 100000) (clamp windowed 100000).0)
        false
        (head_of (clamp windowed 100000).1 0)
        (any_open (asked windowed 100000).holders)
    × TakesTurn
        (asked windowed 100000)
        (is_free_now (asked windowed 100000) (clamp windowed 100000).0)
        (any_open (asked windowed 100000).holders)
        (enter windowed true 100000 0 false 0)
enter-Through_example = enter-Through windowed true 100000 0 false 0 forced_goes

enter-exclusive_example :
    (paused.writing ≡ 0) × ((enter paused true 100000 90000 false 0).1.writing ≡ 1)
enter-exclusive_example = enter-exclusive paused true 100000 90000 false 0 refl paused_goes

enter_bounded_wait_example : (enter windowed true 100000 0 false 0).0.verdict ≡ go
enter_bounded_wait_example =
    enter_bounded_wait windowed 100000 0 0 windowed-IsValid windowed_head windowed_alone
      windowed_pause windowed_waited

would_go-enter_example :
    ((would_go windowed true 100000 0 false 0).0
      ≡ is_go (enter windowed true 100000 0 false 0).0.verdict)
    × ((would_go windowed true 100000 0 false 0).1 ≡ asked windowed 100000)
would_go-enter_example = would_go-enter windowed true 100000 0 false 0

behind : ahead (join queued 5).0 queued.queue ≡ none
unfolding join ahead
behind = refl

eighth : ahead 8 queued.queue ≡ some 1
unfolding ahead
eighth = refl

seven_eight : suc 6 ≢ 8
seven_eight e = absurd (omega arith)

abbrev calls : List Call
calls =
    adds (some "gps")
    ∷ opens (pos 0) 100
    ∷ joins 150
    ∷ enters true 200 150 false 1
    ∷ closes (pos 0) 300
    ∷ enters true 400 150 false 1
    ∷ leaves 500 400
    ∷ []

new-run-IsValid_example : IsValid (run new_gate calls)
new-run-IsValid_example = new-run-IsValid calls

window_open-Young_example :
    All
      (λ x. x.is_open ≡ true → sub32 (clamp windowed 100000).0 x.opened_at < 2000)
      (window_open windowed 100000).1.holders
window_open-Young_example = window_open-Young windowed 100000
