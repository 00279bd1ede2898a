-- ===== src/Gate/Laws/Exclusion.antt =====
-- Who `enter` lets through, lib/ESPRack/src/power/WriteGateCore.cpp.
use esp_rack.Prelude.{ℕ, ◌≤◌, ◌≡◌, ◌⊎◌, refl, sym, ◌∙◌, arith, Bool, true, false, none}
use esp_rack.Gate.{
  Gate, go, Decision, Left, clamp, window_open, idle, pause_left, head_of, give_up, waited_of,
  grant, start_overlap, in_window, no_window, between, only_when_free, free_now, in_pause, decide,
  enter,
}
use esp_rack.Gate.Inv.{any_open}
use esp_rack.Gate.Inv.Sweep.{Kept, window_open-Kept, clamp-Kept, Kept-trans, window_open-any_open}

-- The gate that a question at `now` is decided on: the time clamped, windows past their limit ended.
abbrev pub asked : Gate → ℕ → Gate
asked g now = (window_open (clamp g now).1 (clamp g now).0).1

-- No window lately, and none forecast within a window's longest time.
pub is_free_now : Gate → ℕ → Bool
is_free_now g now = free_now g (pause_left g.config.idle_time now g.holders none) (idle g now)

pub asked-Kept : (g : Gate) (now : ℕ) → Kept g (asked g now)
asked-Kept g now = Kept-trans g (clamp g now).1 _ (clamp-Kept g now) (window_open-Kept _ _)

writing-grant :
    (g : Gate) (now since : ℕ) (forced in_pause window : Bool)
    → g.writing ≡ 0
    → (grant g now since forced in_pause window true).1.writing ≡ 1
unfolding grant start_overlap
writing-grant g now since forced in_pause window e = ground arith

-- What it takes to be let through. `free`: the gate is free; `window`: a window is open.
pub record Through (g : Gate) (waited : ℕ) (free only_free first window : Bool) : Type 0 where
  pub alone : g.ever_used ≡ true → g.writing ≡ 0
  pub turn :
      (window ≡ false) × (free ≡ true) ⊎ ((first ≡ true) × (only_free ≡ false) × (g.writing ≡ 0))
  pub by_force : window ≡ true → give_up g.config ≤ waited
  pub one_per_pause : window ≡ false → free ≡ false → g.pause_taken ≡ false

in_window-Through :
    (g : Gate) (now since : ℕ) (free only_free first commit : Bool) (waited : ℕ)
    → (in_window g now since only_free first commit waited).0.verdict ≡ go
    → Through g waited free only_free first true
unfolding in_window
in_window-Through g now since free only_free first commit waited h = ground arith

between-Through :
    (g : Gate) (now since : ℕ) (first commit free : Bool) (waited : ℕ) (l : Left) (quiet : Bool)
    → (between g now since first commit waited l quiet).0.verdict ≡ go
    → Through g waited free false first false
unfolding between
between-Through g now since first commit free waited l quiet h = ground arith

in_pause-Through :
    (g : Gate) (now since : ℕ) (only_free first commit : Bool) (waited : ℕ) (l : Left)
    (quiet : Bool)
    → (in_pause g now since only_free first commit waited l quiet).0.verdict ≡ go
    → Through g waited (free_now g l quiet) only_free first false
unfolding in_pause only_when_free
in_pause-Through g now since only_free first commit waited l quiet h =
    ground (arith, between-Through g now since first commit (free_now g l quiet) waited l quiet)

no_window-Through :
    (g : Gate) (now since : ℕ) (only_free first commit : Bool) (waited : ℕ)
    → (no_window g now since only_free first commit waited).0.verdict ≡ go
    → Through g waited (is_free_now g now) only_free first false
unfolding no_window is_free_now
no_window-Through g now since only_free first commit waited h =
    in_pause-Through g now since only_free first commit waited _ _ h

decide-Through :
    (g : Gate) (allowed : Bool) (now since : ℕ) (only_free : Bool) (t : ℕ) (commit : Bool)
    → (decide g allowed now since only_free t commit).0.verdict ≡ go
    → (allowed ≡ true)
      × Through
          (asked g now)
          (waited_of (clamp g now).0 since)
          (is_free_now (asked g now) (clamp g now).0)
          only_free
          (head_of (clamp g now).1 t)
          (window_open (clamp g now).1 (clamp g now).0).0
unfolding decide
decide-Through g allowed now since only_free t commit h = ground (
  arith,
  in_window-Through (asked g now) (clamp g now).0 since (is_free_now (asked g now) (clamp g now).0)
      only_free (head_of (clamp g now).1 t) commit (waited_of (clamp g now).0 since),
  no_window-Through (asked g now) (clamp g now).0 since only_free (head_of (clamp g now).1 t) commit
      (waited_of (clamp g now).0 since),
)

-- The pause's one turn is taken: outside windows, where the gate is not free and a pause is on.
abbrev pub TakesTurn : Gate → Bool → Bool → Decision × Gate → Type 0
TakesTurn g free window r =
    window ≡ false → free ≡ false → g.pause ≡ true → r.0.verdict ≡ go → r.1.pause_taken ≡ true

between-TakesTurn :
    (g : Gate) (now since : ℕ) (first free : Bool) (waited : ℕ) (l : Left) (quiet : Bool)
    → TakesTurn g free false (between g now since first true waited l quiet)
unfolding between grant
between-TakesTurn g now since first free waited l quiet o f p h = ground arith

in_pause-TakesTurn :
    (g : Gate) (now since : ℕ) (only_free first : Bool) (waited : ℕ) (l : Left) (quiet : Bool)
    → TakesTurn g
        (free_now g l quiet)
        false
        (in_pause g now since only_free first true waited l quiet)
unfolding in_pause only_when_free
in_pause-TakesTurn g now since only_free first waited l quiet o f p h =
    ground (arith, between-TakesTurn g now since first false waited l quiet refl refl p)

no_window-TakesTurn :
    (g : Gate) (now since : ℕ) (only_free first : Bool) (waited : ℕ)
    → TakesTurn g (is_free_now g now) false (no_window g now since only_free first true waited)
unfolding no_window is_free_now
no_window-TakesTurn g now since only_free first waited o f p h =
    in_pause-TakesTurn g now since only_free first waited _ _ o f p h

decide-TakesTurn :
    (g : Gate) (allowed : Bool) (now since : ℕ) (only_free : Bool) (t : ℕ)
    → TakesTurn
        (asked g now)
        (is_free_now (asked g now) (clamp g now).0)
        (window_open (clamp g now).1 (clamp g now).0).0
        (decide g allowed now since only_free t true)
unfolding decide
decide-TakesTurn g allowed now since only_free t o f p h = ground (
  arith,
  no_window-TakesTurn (asked g now) (clamp g now).0 since only_free (head_of (clamp g now).1 t)
      (waited_of (clamp g now).0 since) refl f p,
)

-- A writer that `enter` lets through had the power guard's leave. Where the gate is not free, it is
-- at the head of the queue (or the queue is empty), takes pauses too and nobody else writes; while a
-- window is open it has also waited for maxWaitMs and maxWindowMs together, and outside windows
-- the turn of the pause was not taken, and is taken behind the call where a pause is on. Windows
-- past their limit are ended first. Where the gate is free nothing is said of the turn.
pub enter-Through :
    (g : Gate) (allowed : Bool) (now since : ℕ) (only_free : Bool) (t : ℕ)
    → (enter g allowed now since only_free t).0.verdict ≡ go
    → (allowed ≡ true)
      × Through
          (asked g now)
          (waited_of (clamp g now).0 since)
          (is_free_now (asked g now) (clamp g now).0)
          only_free
          (head_of (clamp g now).1 t)
          (any_open (asked g now).holders)
      × TakesTurn
          (asked g now)
          (is_free_now (asked g now) (clamp g now).0)
          (any_open (asked g now).holders)
          (enter g allowed now since only_free t)
unfolding enter
enter-Through g allowed now since only_free t h =
    rw (← window_open-any_open (clamp g now).1 (clamp g now).0) (
      let d = decide-Through g allowed now since only_free t true h in
      (d.0, d.1, decide-TakesTurn g allowed now since only_free t))

in_window-writing :
    (g : Gate) (now since : ℕ) (only_free first : Bool) (waited : ℕ)
    → g.writing ≡ 0
    → (in_window g now since only_free first true waited).0.verdict ≡ go
    → (in_window g now since only_free first true waited).1.writing ≡ 1
unfolding in_window
in_window-writing g now since only_free first waited e h =
    ground (arith, writing-grant g now since true false true e)

between-writing :
    (g : Gate) (now since : ℕ) (first : Bool) (waited : ℕ) (l : Left) (quiet : Bool)
    → g.writing ≡ 0
    → (between g now since first true waited l quiet).0.verdict ≡ go
    → (between g now since first true waited l quiet).1.writing ≡ 1
unfolding between grant
between-writing g now since first waited l quiet e h = ground arith

in_pause-writing :
    (g : Gate) (now since : ℕ) (only_free first : Bool) (waited : ℕ) (l : Left) (quiet : Bool)
    → g.writing ≡ 0
    → (in_pause g now since only_free first true waited l quiet).0.verdict ≡ go
    → (in_pause g now since only_free first true waited l quiet).1.writing ≡ 1
unfolding in_pause only_when_free
in_pause-writing g now since only_free first waited l quiet e h = ground (
  arith,
  writing-grant g now since false false false e,
  between-writing g now since first waited l quiet e,
)

no_window-writing :
    (g : Gate) (now since : ℕ) (only_free first : Bool) (waited : ℕ)
    → g.writing ≡ 0
    → (no_window g now since only_free first true waited).0.verdict ≡ go
    → (no_window g now since only_free first true waited).1.writing ≡ 1
unfolding no_window
no_window-writing g now since only_free first waited e h =
    in_pause-writing g now since only_free first waited _ _ e h

decide-writing :
    (g : Gate) (allowed : Bool) (now since : ℕ) (only_free : Bool) (t : ℕ)
    → (asked g now).writing ≡ 0
    → (decide g allowed now since only_free t true).0.verdict ≡ go
    → (decide g allowed now since only_free t true).1.writing ≡ 1
unfolding decide
decide-writing g allowed now since only_free t e h = ground (
  arith,
  in_window-writing (asked g now) (clamp g now).0 since only_free (head_of (clamp g now).1 t)
      (waited_of (clamp g now).0 since) e,
  no_window-writing (asked g now) (clamp g now).0 since only_free (head_of (clamp g now).1 t)
      (waited_of (clamp g now).0 since) e,
)

-- Once a holder has opened a window on this gate, `enter` lets a writer through only while nobody
-- writes, and then it is the only one that does.
pub enter-exclusive :
    (g : Gate) (allowed : Bool) (now since : ℕ) (only_free : Bool) (t : ℕ)
    → g.ever_used ≡ true
    → (enter g allowed now since only_free t).0.verdict ≡ go
    → (g.writing ≡ 0) × ((enter g allowed now since only_free t).1.writing ≡ 1)
unfolding enter
enter-exclusive g allowed now since only_free t u h =
    let k = asked-Kept g now in
    let (_, th) = decide-Through g allowed now since only_free t true h in
    let quiet : (asked g now).writing ≡ 0 = th.alone (k.ever_used ∙ u) in
    (sym k.writing ∙ quiet, decide-writing g allowed now since only_free t quiet h)
