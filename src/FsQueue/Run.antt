-- ===== src/FsQueue/Run.antt =====
-- `run`, `close`, `shutdown`, `status` and `forEachPending` of `FsWriteQueue`. What the locks, the write gate and the clock answer
-- are arguments of the calls; a pointer to a slot is its index.
use esp_rack.Prelude.{
  ℕ, Bool, true, false, not, ◌||◌, Option, none, some, List, [], ◌∷◌, ◌==◌, leb, if◌then◌else◌,
}
use esp_rack.Prelude.Word.{sub32}
use esp_rack.FsQueue.Types.{Lookup, found, missing, lock_busy, FsIo, Status, FsQueue}
use esp_rack.FsQueue.Slots.{find_status, pending_list, sort_last, from_start}
use esp_rack.FsQueue.Queue.{advance, take_op}

-- What the platform answers while `run` runs, and whether a restart closed the queue meanwhile.
pub record RunAsked : Type 0 where
  pub locked : Bool
  pub slot_ok : Bool
  pub step_locked : Bool
  pub closed_since : Bool

abbrev pub run_done : ℕ
run_done = 0

abbrev pub run_on_power : ℕ
run_on_power = 0xffff_ffff

-- A turn of the loop of `shutdown`: the time, the lock and the slot.
pub record Turn : Type 0 where
  pub now : ℕ
  pub locked : Bool
  pub slot_ok : Bool

module _ {F Vol Str : Type 0} where
  abbrev pub close : FsQueue F Vol Str → FsQueue F Vol Str
  close q = record q { closed = true }

module _ {F Vol Str : Type 0} (io : FsIo F Vol Str) where
  abbrev pub run_step : FsQueue F Vol Str → RunAsked → ℕ → ℕ × FsQueue F Vol Str
  run_step q a i =
      if not a.slot_ok
      then (run_on_power, q)
      else (if not a.step_locked
          then (20, q)
          else (1, if q.closed then q else (advance io q i).queue))

  abbrev pub run_taken : RunAsked → Option ℕ × FsQueue F Vol Str → ℕ × FsQueue F Vol Str
  run_taken a (none, q) = (run_done, q)
  run_taken a (some i, q) = run_step (record q { closed = q.closed || a.closed_since }) a i

  unfoldable pub run : FsQueue F Vol Str → RunAsked → ℕ × FsQueue F Vol Str
  run q a =
      if q.closed
      then (run_done, q)
      else (if not a.locked then (20, q) else run_taken a (take_op q))

  abbrev pub turn_taken :
      Turn
      → (FsQueue F Vol Str → FsQueue F Vol Str)
      → Option ℕ × FsQueue F Vol Str
      → FsQueue F Vol Str
  turn_taken t on (none, q) = q
  turn_taken t on (some i, q) = if not t.slot_ok then q else on (advance io q i).queue

  -- The loop of `shutdown`, for the turns that the platform answers.
  unfoldable pub shutdown_turns : List Turn → FsQueue F Vol Str → ℕ → ℕ → FsQueue F Vol Str
  shutdown_turns [] q t0 bound = q
  shutdown_turns (t ∷ ts) q t0 bound = elim (leb bound (sub32 t.now t0) || not t.locked) [
    | true ↦ q
    | false ↦ turn_taken t (λ q2. shutdown_turns ts q2 t0 bound) (take_op q)
  ]

  unfoldable pub shutdown : FsQueue F Vol Str → Bool → List Turn → ℕ → ℕ → FsQueue F Vol Str
  shutdown q step_locked turns t0 bound =
      if not step_locked then close q else shutdown_turns turns (close q) t0 bound

module _ {Str : Type 0} where
  abbrev pub status_found : Option (Status Str) → Lookup × Option (Status Str)
  status_found none = (missing, none)
  status_found (some s) = (found, some s)

module _ {F Vol Str : Type 0} where
  -- The answer and `out`.
  unfoldable pub status : FsQueue F Vol Str → Bool → ℕ → Lookup × Option (Status Str)
  status q locked id =
      if id == 0
      then (missing, none)
      else (if not locked then (lock_busy, none) else status_found (find_status q.ops id))

  -- The writes that `f` is handed, in order.
  unfoldable pub for_each_pending : FsQueue F Vol Str → Bool → Option (List (Status Str))
  for_each_pending q locked =
      if not locked then none else some (from_start (sort_last (pending_list q.ops) []) [])
