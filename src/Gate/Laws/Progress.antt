-- ===== src/Gate/Laws/Progress.antt =====
-- When a writer of lib/ESPRack/src/power/WriteGateCore.cpp gets its turn, and what it is told else.
use esp_rack.Prelude.{
  ℕ, ◌<◌, ◌≤◌, ◌≡◌, ◌⊎◌, refl, sym, ◌∙◌, arith, if_split, if◌then◌else◌, Bool, true, false, none,
}
use esp_rack.Gate.{
  Gate, go, wait, Decision, Left, clamp, window_open, idle, pause_left, head_of, give_up, waited_of,
  grant, in_window, no_window, between, only_when_free, in_pause, decide, enter, would_go, is_go,
}
use esp_rack.Gate.Inv.{any_open, IsValid}
use esp_rack.Gate.Inv.Sweep.{window_open-any_open, window_open-IsValid, clamp-IsValid}
use esp_rack.Gate.Laws.Exclusion.{asked, asked-Kept}

-- The verdict is the same whether the question takes something or not.
in_window-commit :
    (g : Gate) (now since : ℕ) (only_free first : Bool) (waited : ℕ)
    → (in_window g now since only_free first false waited).0
      ≡ (in_window g now since only_free first true waited).0
unfolding in_window grant
in_window-commit g now since only_free first waited = ground arith

between-commit :
    (g : Gate) (now since : ℕ) (first : Bool) (waited : ℕ) (l : Left) (quiet : Bool)
    → (between g now since first false waited l quiet).0
      ≡ (between g now since first true waited l quiet).0
unfolding between grant
between-commit g now since first waited l quiet = ground arith

in_pause-commit :
    (g : Gate) (now since : ℕ) (only_free first : Bool) (waited : ℕ) (l : Left) (quiet : Bool)
    → (in_pause g now since only_free first false waited l quiet).0
      ≡ (in_pause g now since only_free first true waited l quiet).0
unfolding in_pause grant
in_pause-commit g now since only_free first waited l quiet =
    ground (arith, between-commit g now since first waited l quiet)

no_window-commit :
    (g : Gate) (now since : ℕ) (only_free first : Bool) (waited : ℕ)
    → (no_window g now since only_free first false waited).0
      ≡ (no_window g now since only_free first true waited).0
unfolding no_window
no_window-commit g now since only_free first waited =
    in_pause-commit g now since only_free first waited _ _

decide-commit :
    (g : Gate) (allowed : Bool) (now since : ℕ) (only_free : Bool) (t : ℕ)
    → (decide g allowed now since only_free t false).0
      ≡ (decide g allowed now since only_free t true).0
unfolding decide
decide-commit g allowed now since only_free t = ground (
  arith,
  in_window-commit (asked g now) (clamp g now).0 since only_free (head_of (clamp g now).1 t)
      (waited_of (clamp g now).0 since),
  no_window-commit (asked g now) (clamp g now).0 since only_free (head_of (clamp g now).1 t)
      (waited_of (clamp g now).0 since),
)

module _ (g : Gate) (now since : ℕ) where
  in_window-kept :
      (only_free first : Bool) (waited : ℕ)
      → (in_window g now since only_free first false waited).1 ≡ g
  unfolding in_window grant
  in_window-kept only_free first waited = ground arith

  between-kept :
      (first : Bool) (waited : ℕ) (l : Left) (quiet : Bool)
      → (between g now since first false waited l quiet).1 ≡ g
  unfolding between grant
  between-kept first waited l quiet = ground arith

  in_pause-kept :
      (only_free first : Bool) (waited : ℕ) (l : Left) (quiet : Bool)
      → (in_pause g now since only_free first false waited l quiet).1 ≡ g
  unfolding in_pause grant
  in_pause-kept only_free first waited l quiet = ground (arith, between-kept first waited l quiet)

  no_window-kept :
      (only_free first : Bool) (waited : ℕ)
      → (no_window g now since only_free first false waited).1 ≡ g
  unfolding no_window
  no_window-kept only_free first waited = in_pause-kept only_free first waited _ _

decide-kept :
    (g : Gate) (allowed : Bool) (now since : ℕ) (only_free : Bool) (t : ℕ)
    → (decide g allowed now since only_free t false).1
      ≡ (if allowed then asked g now else (clamp g now).1)
unfolding decide
decide-kept g false now since only_free t = refl
decide-kept g true now since only_free t = ground (
  arith,
  in_window-kept (asked g now) (clamp g now).0 since only_free (head_of (clamp g now).1 t)
      (waited_of (clamp g now).0 since),
  no_window-kept (asked g now) (clamp g now).0 since only_free (head_of (clamp g now).1 t)
      (waited_of (clamp g now).0 since),
)

-- `wouldGo` answers as `enter` would, and takes nothing: it notes the time and, where the power guard
-- lets writers through, ends the windows past their limit.
pub would_go-enter :
    (g : Gate) (allowed : Bool) (now since : ℕ) (only_free : Bool) (t : ℕ)
    → ((would_go g allowed now since only_free t).0
        ≡ is_go (enter g allowed now since only_free t).0.verdict)
      × ((would_go g allowed now since only_free t).1
          ≡ (if allowed then asked g now else (clamp g now).1))
unfolding would_go enter
would_go-enter g allowed now since only_free t = (
  rw (decide-commit g allowed now since only_free t) refl,
  decide-kept g allowed now since only_free t,
)

-- The branches let a writer through that waited long enough.
in_window-go :
    (g : Gate) (now since waited : ℕ)
    → g.writing ≡ 0
    → give_up g.config ≤ waited
    → (in_window g now since false true true waited).0.verdict ≡ go
unfolding in_window grant
in_window-go g now since waited w h = ground arith

in_pause-go :
    (g : Gate) (now since waited : ℕ) (l : Left) (quiet : Bool)
    → g.writing ≡ 0
    → g.pause_taken ≡ false
    → (g.pause ≡ true) ⊎ (quiet ≡ true)
    → give_up g.config ≤ waited
    → (in_pause g now since false true true waited l quiet).0.verdict ≡ go
unfolding in_pause between grant
in_pause-go g now since waited l quiet w p q h = ground arith

no_window-go :
    (g : Gate) (now since waited : ℕ)
    → IsValid g
    → any_open g.holders ≡ false
    → g.writing ≡ 0
    → g.pause_taken ≡ false
    → give_up g.config ≤ waited
    → (no_window g now since false true true waited).0.verdict ≡ go
unfolding no_window idle
no_window-go g now since waited v o w p h = in_pause-go g now since waited _ _ w p (ground arith) h

-- On a well-formed gate, a writer at the head of the queue that takes pauses too and has waited for
-- maxWaitMs and maxWindowMs together is let through, in a window or not, when nobody writes, the
-- turn of the pause is not taken and the power guard lets writers through.
pub enter_bounded_wait :
    (g : Gate) (now since t : ℕ)
    → IsValid g
    → head_of (clamp g now).1 t ≡ true
    → (asked g now).writing ≡ 0
    → (asked g now).pause_taken ≡ false
    → give_up (asked g now).config ≤ waited_of (clamp g now).0 since
    → (enter g true now since false t).0.verdict ≡ go
unfolding enter decide
enter_bounded_wait g now since t v first w p h =
    let (now', c) = clamp g now in
    let v' = window_open-IsValid c now' (clamp-IsValid g now v) in
    rw first (
      if_split (λ (r : Decision × Gate). r.0.verdict ≡ go) (window_open c now').0
        (λ e. in_window-go (asked g now) now' since (waited_of now' since) w h)
        (λ e.
          no_window-go (asked g now) now' since (waited_of now' since) v'
            (sym (window_open-any_open c now') ∙ e) w p h))

module _ (g : Gate) (now since : ℕ) where
  in_window-retry :
      (only_free first commit : Bool) (waited : ℕ)
      → (in_window g now since only_free first commit waited).0.verdict ≡ wait
      → 0 < (in_window g now since only_free first commit waited).0.retry
  unfolding in_window grant
  in_window-retry only_free first commit waited h = ground arith

  between-retry :
      (first commit : Bool) (waited : ℕ) (l : Left) (quiet : Bool)
      → (between g now since first commit waited l quiet).0.verdict ≡ wait
      → 0 < (between g now since first commit waited l quiet).0.retry
  unfolding between grant
  between-retry first commit waited l quiet h = ground arith

  in_pause-retry :
      (only_free first commit : Bool) (waited : ℕ) (l : Left) (quiet : Bool)
      → 0 < g.config.max_window
      → (in_pause g now since only_free first commit waited l quiet).0.verdict ≡ wait
      → 0 < (in_pause g now since only_free first commit waited l quiet).0.retry
  unfolding in_pause grant only_when_free
  in_pause-retry only_free first commit waited l quiet m h =
      ground (arith, between-retry first commit waited l quiet)

-- A writer told to wait is told to ask again after some time, never at once.
pub enter-retry :
    (g : Gate) (allowed : Bool) (now since : ℕ) (only_free : Bool) (t : ℕ)
    → 0 < g.config.max_window
    → (enter g allowed now since only_free t).0.verdict ≡ wait
    → 0 < (enter g allowed now since only_free t).0.retry
unfolding enter decide no_window
enter-retry g allowed now since only_free t m h = ground (
  arith,
  (asked-Kept g now).config,
  in_window-retry (asked g now) (clamp g now).0 since only_free (head_of (clamp g now).1 t) true
      (waited_of (clamp g now).0 since),
  in_pause-retry (asked g now) (clamp g now).0 since only_free (head_of (clamp g now).1 t) true
      (waited_of (clamp g now).0 since)
      (pause_left (asked g now).config.idle_time (clamp g now).0 (asked g now).holders none)
      (idle (asked g now) (clamp g now).0),
)
