-- ===== src/Gate/Inv/Ask.antt =====
-- The calls of a writer, lib/ESPRack/src/power/WriteGateCore.cpp, keep the gate's invariant.
use esp_rack.Prelude.{
  ℕ, ◌+◌, ◌≤◌, ◌≡◌, arith, Bool, true, false, none, List, [], ◌∷◌, length, length-append, ◌==◌,
  if◌then◌else◌, if_elim, if_split, sym, ◌∙◌, not, ◌&&◌,
}
use esp_rack.Prelude.Word.{u16}
use esp_rack.Gate.{
  Gate, Decision, clamp, window_open, Left, count_refused, start_overlap, end_overlap, join, quit,
  without, pause_left, idle, grant, in_window, no_window, in_pause, between, decide, force, leave,
}
use esp_rack.Gate.Inv.{any_open, IsValid}
use esp_rack.Gate.Inv.Sweep.{window_open-IsValid, clamp-IsValid, window_open-any_open}

grant-IsValid :
    (g : Gate) (now since : ℕ) (forced in_pause window commit : Bool)
    → (window ≡ true → any_open g.holders ≡ true)
    → IsValid g
    → IsValid (grant g now since forced in_pause window commit).1
unfolding grant start_overlap
grant-IsValid g now since forced in_pause window commit o v = ground arith

refused-IsValid : (g : Gate) → IsValid g → IsValid (count_refused g)
refused-IsValid g v = ground arith

taken-IsValid : (g : Gate) → IsValid g → IsValid (record g { pause_taken = true })
taken-IsValid g v = ground arith

between-IsValid :
    (g : Gate) (now since : ℕ) (first commit : Bool) (waited : ℕ) (l : Left) (quiet : Bool)
    → IsValid g
    → IsValid (between g now since first commit waited l quiet).1
unfolding between
between-IsValid g now since first commit waited l quiet v =
    if_elim (λ (r : Decision × Gate). IsValid r.1) _
      (grant-IsValid _ now since _ true false commit (λ e. cc)
        (if_elim IsValid (commit && g.pause) (taken-IsValid g v) v))
      v

no_window-IsValid :
    (g : Gate) (now since : ℕ) (free first commit : Bool) (waited : ℕ)
    → IsValid g
    → IsValid (no_window g now since free first commit waited).1
unfolding no_window in_pause
no_window-IsValid g now since free first commit waited v = ground (
  arith,
  grant-IsValid g now since false false false commit (λ e. cc) v,
  between-IsValid g now since first commit waited (pause_left g.config.idle_time now g.holders none)
      (idle g now) v,
)

in_window-IsValid :
    (g : Gate) (now since : ℕ) (free first commit : Bool) (waited : ℕ)
    → any_open g.holders ≡ true
    → IsValid g
    → IsValid (in_window g now since free first commit waited).1
unfolding in_window
in_window-IsValid g now since free first commit waited o v =
    if_elim (λ (r : Decision × Gate). IsValid r.1) _
      (grant-IsValid g now since true false true commit (λ e. o) v) v

pub decide-IsValid :
    (g : Gate) (allowed : Bool) (now since : ℕ) (free : Bool) (t : ℕ) (commit : Bool)
    → IsValid g
    → IsValid (decide g allowed now since free t commit).1
unfolding decide
decide-IsValid g allowed now since free t commit v =
    let (now', h) = clamp g now in
    let vh = clamp-IsValid g now v in
    if_elim (λ (r : Decision × Gate). IsValid r.1) (not allowed)
      (if_elim IsValid commit (refused-IsValid h vh) vh)
      (if_split (λ (r : Decision × Gate). IsValid r.1) (window_open h now').0
        (λ e.
          in_window-IsValid (window_open h now').1 now' since free _ commit _
            (sym (window_open-any_open h now') ∙ e) (window_open-IsValid h now' vh))
        (λ e.
          no_window-IsValid (window_open h now').1 now' since free _ commit _
            (window_open-IsValid h now' vh)))

pub leave-IsValid : (g : Gate) (now since : ℕ) → IsValid g → IsValid (leave g now since)
unfolding leave end_overlap
leave-IsValid g now since v = ground (arith, clamp-IsValid g now v)

pub force-IsValid :
    (g : Gate) (allowed : Bool) (now since : ℕ) → IsValid g → IsValid (force g allowed now since).1
unfolding force
force-IsValid g allowed now since v =
    let (now', h) = clamp g now in
    let vh = clamp-IsValid g now v in
    if_elim (λ (r : Decision × Gate). IsValid r.1) (not allowed) (refused-IsValid h vh)
      (grant-IsValid _ now' since true false (window_open h now').0 true
        (λ e. ground (arith, window_open-any_open h now', e))
        (if_elim IsValid _ (taken-IsValid _ (window_open-IsValid h now' vh))
          (window_open-IsValid h now' vh)))

pub join-IsValid : (g : Gate) (now : ℕ) → IsValid g → IsValid (join g now).1
unfolding join
join-IsValid g now v =
    let n : ℕ = if g.next_ticket == 0 then u16 (g.next_ticket + 1) else g.next_ticket in
    ground (arith, length-append g.queue (n ∷ []))

length-without : (t : ℕ) (xs : List ℕ) → length (without t xs) ≤ length xs
unfolding without
length-without t [] = omega arith
length-without t (x ∷ xs) = ground (arith, length-without t xs)

pub quit-IsValid : (g : Gate) (t : ℕ) → IsValid g → IsValid (quit g t)
unfolding quit
quit-IsValid g t v = ground (arith, length-without t g.queue)
