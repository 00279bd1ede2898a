-- ===== src/FsQueue/Queue.antt =====
-- The calls of `FsWriteQueue`. What the locks, the write gate and the clock answer
-- are arguments of the calls; a pointer to a slot is its index.
use esp_rack.Prelude.{
  go_on, ℕ, zero, suc, ◌+◌, Bool, true, false, not, ◌&&◌, ◌||◌, Option, none, some, ◌==◌,
  if◌then◌else◌, get_elem?, set,
}
use esp_rack.Prelude.Word.{u32}
use esp_rack.FsQueue.Types.{
  FsResult, fs_ok, queued, busy, Kind, State, empty, going, waiting, running, free_steps, FsIo, Op,
  is_ok_result, is_remove_tree, FsQueue,
}
use esp_rack.FsQueue.Step.{Stepped, step}
use esp_rack.FsQueue.Slots.{free_slot, oldest, pending, finish, set_state}

-- What the platform answers while `submit` runs: the slots' lock, the write gate, whether a job
-- could run it later, the step lock, whether a module holds windows.
pub record Asked : Type 0 where
  pub locked : Bool
  pub passed : Bool
  pub can_defer : Bool
  pub step_locked : Bool
  pub has_holders : Bool

abbrev pub step_cap : Kind → Asked → ℕ
step_cap kind a = if is_remove_tree kind && a.has_holders then free_steps else 0xffff_ffff

-- How the locked half of `submit` ends.
pub data Taken : Type 0 where
  turned_away : Taken
  kept : ℕ → Taken
  at_once : ℕ → ℕ → Taken

-- What `advance` leaves.
pub record Advanced (F Vol Str : Type 0) : Type 0 where
  pub more_to_go : Bool
  pub answer_of : FsResult
  pub queue : FsQueue F Vol Str

-- `_next` and the number it gives: never 0.
abbrev pub next_id : ℕ → ℕ
next_id n = let m : ℕ = u32 (n + 1) in if m == 0 then 1 else m

module _ {Vol Str : Type 0} where
  abbrev pub new_op : ℕ → Kind → Vol → Str → Str → State → Op Vol Str
  new_op id kind vol path to state = record {
    id = id;
    kind = kind;
    vol = vol;
    path = path;
    to = to;
    state = state;
    result = fs_ok;
    steps = 0;
  }

module _ {F Vol Str : Type 0} where
  unfoldable pub submit_into :
      FsQueue F Vol Str → Asked → Kind → Vol → Str → Str → ℕ → Taken × FsQueue F Vol Str
  submit_into q a kind vol path to i =
      let on : Bool = (pending q.ops == 0) && a.passed in
      let id : ℕ = next_id q.next in
      if not on && not a.can_defer then (turned_away, q) else (
        if on then at_once i id else kept id,
        record q {
          next = id;
          ops = set q.ops i (new_op id kind vol path to (if on then going else waiting));
        },
      )

  abbrev pub submit_slot :
      FsQueue F Vol Str → Asked → Kind → Vol → Str → Str → Option ℕ → Taken × FsQueue F Vol Str
  submit_slot q a kind vol path to none = (turned_away, q)
  submit_slot q a kind vol path to (some i) = submit_into q a kind vol path to i

  -- The half of `submit` under the slots' lock.
  unfoldable pub submit_locked :
      FsQueue F Vol Str → Asked → Kind → Vol → Str → Str → Taken × FsQueue F Vol Str
  submit_locked q a kind vol path to =
      if not a.locked || q.closed
      then (turned_away, q)
      else submit_slot q a kind vol path to (free_slot q.ops)

  unfoldable pub op_after : Op Vol Str → Stepped F → Op Vol Str
  op_after o r =
      let counted : Op Vol Str =
        if is_ok_result r.answer then record o { steps = u32 (o.steps + 1) } else o in
      if is_ok_result r.answer && r.more then counted else finish counted r.answer

module _ {F Vol Str : Type 0} (io : FsIo F Vol Str) where
  unfoldable pub advance_op : FsQueue F Vol Str → ℕ → Op Vol Str → Advanced F Vol Str
  advance_op q i o =
      let r : Stepped F = step io q.fs o.kind o.vol o.path o.to o.steps in
      record {
        more_to_go = is_ok_result r.answer && r.more;
        answer_of = r.answer;
        queue = record q { ops = set q.ops i (op_after o r); fs = r.left };
      }

  abbrev pub advance_at : FsQueue F Vol Str → ℕ → Option (Op Vol Str) → Advanced F Vol Str
  advance_at q i none = record { more_to_go = false; answer_of = fs_ok; queue = q }
  advance_at q i (some o) = advance_op q i o

  unfoldable pub advance : FsQueue F Vol Str → ℕ → Advanced F Vol Str
  advance q i = advance_at q i (get_elem? q.ops i)

  -- The loop of `submit`, for the steps that `cap` leaves.
  unfoldable pub advances : ℕ → FsQueue F Vol Str → ℕ → Advanced F Vol Str
  advances zero q i = record { more_to_go = true; answer_of = fs_ok; queue = q }
  advances (suc cap) q i =
      let r : Advanced F Vol Str = advance q i in go_on r.more_to_go r (λ u. advances cap r.queue i)

  -- The half of `submit` that goes at once: the answer, `*id` and the queue.
  abbrev pub went : ℕ → ℕ → Advanced F Vol Str → FsResult × ℕ × FsQueue F Vol Str
  went i id r =
      if r.more_to_go
      then (queued, id, record r.queue { ops = set_state r.queue.ops i waiting })
      else (r.answer_of, id, r.queue)

  unfoldable pub submit_going :
      FsQueue F Vol Str → Asked → Kind → ℕ → ℕ → FsResult × ℕ × FsQueue F Vol Str
  submit_going q a kind i id =
      if not a.step_locked
      then (busy, 0, record q { ops = set_state q.ops i empty })
      else went i id (advances (step_cap kind a) q i)

  abbrev pub submit_taken :
      Asked → Kind → Taken × FsQueue F Vol Str → FsResult × ℕ × FsQueue F Vol Str
  submit_taken a kind (turned_away, q) = (busy, 0, q)
  submit_taken a kind (kept id, q) = (queued, id, q)
  submit_taken a kind (at_once i id, q) = submit_going q a kind i id

  unfoldable pub submit :
      FsQueue F Vol Str → Asked → Kind → Vol → Str → Str → FsResult × ℕ × FsQueue F Vol Str
  submit q a kind vol path to = submit_taken a kind (submit_locked q a kind vol path to)

module _ {F Vol Str : Type 0} where
  -- `take`, once it has the lock.
  abbrev pub take_at : FsQueue F Vol Str → Option ℕ → Option ℕ × FsQueue F Vol Str
  take_at q none = (none, q)
  take_at q (some i) = (some i, record q { ops = set_state q.ops i running })

  unfoldable pub take_op : FsQueue F Vol Str → Option ℕ × FsQueue F Vol Str
  take_op q = take_at q (oldest q.ops)
