-- ===== src/FsQueue/Slots.antt =====
-- The slots of `FsWriteQueue`, of modules/filesystem/include/FsWriteQueue.h: which is free, which is
-- the oldest, and the copies handed out. A pointer to a slot is its index.
use esp_rack.Prelude.{
  ℕ, zero, suc, ◌+◌, not, ◌||◌, Option, none, some, List, [], ◌∷◌, ◌==◌, if◌then◌else◌,
}
use esp_rack.Prelude.Word.{sub32, is_neg32}
use esp_rack.FsQueue.Types.{
  FsResult, State, finished, unsuccessful, Op, is_live, is_kept, is_empty_state, is_ok_result,
  Status,
}

-- The best slot so far, with its number: the older one stays.
abbrev pub older_of : Option (ℕ × ℕ) → ℕ → ℕ → Option (ℕ × ℕ)
older_of none i id = some (i, id)
older_of (some (j, best)) i id = if is_neg32 (sub32 id best) then some (i, id) else some (j, best)

abbrev pub index_of : Option (ℕ × ℕ) → Option ℕ
index_of none = none
index_of (some (i, id)) = some i

module _ {Vol Str : Type 0} where
  -- `freeSlot`: a free slot, else the oldest finished one.
  unfoldable pub free_from : List (Op Vol Str) → ℕ → Option (ℕ × ℕ) → Option ℕ
  free_from [] i best = index_of best
  free_from (o ∷ os) i best =
      if is_empty_state o.state
      then some i
      else free_from os (i + 1) (if is_live o then best else older_of best i o.id)

  unfoldable pub free_slot : List (Op Vol Str) → Option ℕ
  free_slot ops = free_from ops 0 none

  -- The loop of `take`: the oldest kept write.
  unfoldable pub oldest_from : List (Op Vol Str) → ℕ → Option (ℕ × ℕ) → Option (ℕ × ℕ)
  oldest_from [] i best = best
  oldest_from (o ∷ os) i best =
      oldest_from os (i + 1) (if is_kept o then older_of best i o.id else best)

  unfoldable pub oldest : List (Op Vol Str) → Option ℕ
  oldest ops = index_of (oldest_from ops 0 none)

  unfoldable pub pending : List (Op Vol Str) → ℕ
  pending [] = 0
  pending (o ∷ os) = (if is_live o then 1 else 0) + pending os

  abbrev pub finish : Op Vol Str → FsResult → Op Vol Str
  finish o r = record o { result = r; state = if is_ok_result r then finished else unsuccessful }

  unfoldable pub set_state : List (Op Vol Str) → ℕ → State → List (Op Vol Str)
  set_state [] i s = []
  set_state (o ∷ os) zero s = record o { state = s } ∷ os
  set_state (o ∷ os) (suc i) s = o ∷ set_state os i s

  abbrev pub copy : Op Vol Str → Status Str
  copy o = record {
    id = o.id;
    kind = o.kind;
    state = o.state;
    result = o.result;
    steps = o.steps;
    path = o.path;
  }

  -- The loop of `status`: the first slot in use with the number.
  unfoldable pub find_status : List (Op Vol Str) → ℕ → Option (Status Str)
  find_status [] id = none
  find_status (o ∷ os) id =
      if is_empty_state o.state || not (o.id == id) then find_status os id else some (copy o)

  -- `forEachPending`: the copies, and its insertion sort; the sorted part is kept last first.
  unfoldable pub pending_list : List (Op Vol Str) → List (Status Str)
  pending_list [] = []
  pending_list (o ∷ os) = if is_live o then copy o ∷ pending_list os else pending_list os

module _ {Str : Type 0} where
  unfoldable pub insert_last : Status Str → List (Status Str) → List (Status Str)
  insert_last x [] = x ∷ []
  insert_last x (y ∷ ys) = if is_neg32 (sub32 x.id y.id) then y ∷ insert_last x ys else x ∷ (y ∷ ys)

  unfoldable pub sort_last : List (Status Str) → List (Status Str) → List (Status Str)
  sort_last [] sorted = sorted
  sort_last (x ∷ xs) sorted = sort_last xs (insert_last x sorted)

  -- The array behind the sort, from its start.
  unfoldable pub from_start : List (Status Str) → List (Status Str) → List (Status Str)
  from_start [] after = after
  from_start (x ∷ xs) after = from_start xs (x ∷ after)
