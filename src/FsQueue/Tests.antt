-- ===== src/FsQueue/Tests.antt =====
-- Runs of the write queue on a small file system, and its properties at them.
use esp_rack.Prelude.{
  get_elem?, ℕ, zero, suc, ◌+◌, ◌<◌, ◌≡◌, ◌≢◌, refl, Bool, true, false, Option, none, some, List,
  [], ◌∷◌, arith, ◌==◌, if◌then◌else◌, All, leb,
}
use esp_rack.FsQueue.Types.{
  fs_ok, mkdir, remove_tree, State, empty, waiting, running, PathKind, nothing, a_file, a_directory,
  FsIo, Op, Status, FsQueue,
}
use esp_rack.FsQueue.Step.{step, remove_tree_from}
use esp_rack.FsQueue.Slots.{copy, oldest, pending, pending_list}
use esp_rack.FsQueue.Queue.{Asked, submit, new_op, advances}
use esp_rack.FsQueue.Run.{RunAsked, run, close, for_each_pending}
use esp_rack.FsQueue.Laws.Step.{Written, step-Written, Counts}
use esp_rack.FsQueue.Laws.Tree.{remove_tree-ends, Agree, advances-remove_tree_from}
use esp_rack.FsQueue.Laws.Slots.{Near, Oldest, oldest-Oldest}
use esp_rack.FsQueue.Laws.Submit.{submit-Lives, PutOff, submit-PutOff}
use esp_rack.FsQueue.Laws.Run.{
  RunWrote, run-RunWrote, asks, runs, closes, do_calls, do_calls-closed,
}
use esp_rack.FsQueue.Laws.Status.{
  count, unfinished, IsNearOp, OldestFirst, for_each_pending-OldestFirst,
}

-- A directory, path 0, with files 1 to n; whether it is there.
abbrev Small : Type 0
Small = ℕ × Bool

abbrev small_kind : Small → Unit {0} → ℕ → PathKind
small_kind (n, there) v zero = if there then a_directory else nothing
small_kind (n, there) v (suc k) = if leb (suc k) n then a_file else nothing

abbrev small_exists : Small → Unit {0} → ℕ → Bool
small_exists (n, there) v zero = there
small_exists (n, there) v (suc k) = leb (suc k) n

abbrev small_child : Small → Unit {0} → ℕ → Option (ℕ × Bool)
small_child (zero, there) v p = none
small_child (suc n, there) v p = some (suc n, false)

abbrev small_mkdir : Small → Unit {0} → ℕ → Bool × Small
small_mkdir (n, there) v p = (true, (n, true))

abbrev small_remove : Small → Unit {0} → ℕ → Bool × Small
small_remove (zero, there) v p = (false, (zero, there))
small_remove (suc n, there) v p = (true, (n, there))

abbrev small_rmdir : Small → Unit {0} → ℕ → Bool × Small
small_rmdir (zero, true) v p = (true, (zero, false))
small_rmdir (n, there) v p = (false, (n, there))

abbrev small_io : FsIo Small (Unit {0}) ℕ
small_io = record {
  kind_of = small_kind;
  path_exists = small_exists;
  first_child = small_child;
  do_mkdir = small_mkdir;
  do_remove = small_remove;
  do_rmdir = small_rmdir;
  do_rename = λ f v p to. (false, f);
  same_path = λ p q. p == q;
}

abbrev small_size : Small → ℕ
small_size (n, there) = n + (if there then 1 else 0)

small_removes :
    (f : Small) (v : Unit {0}) (p : ℕ)
    → (small_remove f v p).0 ≡ true
    → small_size (small_remove f v p).1 < small_size f
small_removes (zero, there) v p h = absurd (ground arith)
small_removes (suc n, there) v p h = omega arith

small_unlinks :
    (f : Small) (v : Unit {0}) (p : ℕ)
    → (small_rmdir f v p).0 ≡ true
    → small_size (small_rmdir f v p).1 < small_size f
small_unlinks (zero, true) v p h = omega arith
small_unlinks (zero, false) v p h = absurd (ground arith)
small_unlinks (suc n, there) v p h = absurd (ground arith)

small-Counts : Counts small_io small_size
small-Counts = record { removes = small_removes; unlinks = small_unlinks }

abbrev no_op : Op (Unit {0}) ℕ
no_op = new_op 0 mkdir tt 0 0 empty

abbrev tree_op : ℕ → State → Op (Unit {0}) ℕ
tree_op id s = new_op id remove_tree tt 0 0 s

abbrev queue_of : Op (Unit {0}) ℕ → Op (Unit {0}) ℕ → FsQueue Small (Unit {0}) ℕ
queue_of a b = record {
  ops = a ∷ b ∷ no_op ∷ no_op ∷ no_op ∷ no_op ∷ no_op ∷ no_op ∷ [];
  next = 7;
  closed = false;
  fs = (3, true);
}

abbrev free_gate : Asked
free_gate = record {
  locked = true;
  passed = true;
  can_defer = true;
  step_locked = true;
  has_holders = false;
}

abbrev gate_with_windows : Asked
gate_with_windows = record free_gate { has_holders = true }

-- A tree goes at once through a free gate; two files are left where modules hold windows.
at_once_all :
    (submit small_io (queue_of no_op no_op) free_gate remove_tree tt 0 0).2.fs ≡ (0, false)
unfolding submit esp_rack.FsQueue.Queue.submit_locked esp_rack.FsQueue.Slots.free_slot
    esp_rack.FsQueue.Slots.free_from esp_rack.FsQueue.Queue.submit_into pending
    esp_rack.FsQueue.Queue.submit_going advances esp_rack.FsQueue.Queue.advance
    esp_rack.FsQueue.Queue.advance_op step esp_rack.FsQueue.Step.walk
    esp_rack.FsQueue.Queue.op_after
at_once_all = refl

at_once_answer : (submit small_io (queue_of no_op no_op) free_gate remove_tree tt 0 0).0 ≡ fs_ok
unfolding submit esp_rack.FsQueue.Queue.submit_locked esp_rack.FsQueue.Slots.free_slot
    esp_rack.FsQueue.Slots.free_from esp_rack.FsQueue.Queue.submit_into pending
    esp_rack.FsQueue.Queue.submit_going advances esp_rack.FsQueue.Queue.advance
    esp_rack.FsQueue.Queue.advance_op step esp_rack.FsQueue.Step.walk
    esp_rack.FsQueue.Queue.op_after
at_once_answer = refl

step-Written_example :
    Written small_io tt (3, true) (step small_io (3, true) remove_tree tt 0 0 0).left
step-Written_example = step-Written small_io (3, true) remove_tree tt 0 0 0

remove_tree-ends_example : (remove_tree_from small_io 5 0 (3, true) tt 0 0).more ≡ false
remove_tree-ends_example =
    remove_tree-ends small_io small_size small-Counts 5 0 (3, true) tt 0 0 (omega arith)

advances-remove_tree_from_example :
    Agree small_io
      (advances small_io 2 (queue_of (tree_op 3 running) no_op) 0)
      (remove_tree_from small_io 2 0 (3, true) tt 0 0)
advances-remove_tree_from_example =
    advances-remove_tree_from small_io 2 (queue_of (tree_op 3 running) no_op) 0 (tree_op 3 running)
      0 refl refl

abbrev two_kept : FsQueue Small (Unit {0}) ℕ
two_kept = queue_of (tree_op 6 waiting) (tree_op 5 waiting)

two_kept-Near : Near 0 two_kept.ops
two_kept-Near = ground arith

oldest-Oldest_example : Oldest 0 two_kept.ops 1
unfolding oldest esp_rack.FsQueue.Slots.oldest_from
oldest-Oldest_example = oldest-Oldest 0 two_kept.ops 1 (omega arith) two_kept-Near refl

two_pending_count : pending two_kept.ops ≡ 2
unfolding pending
two_pending_count = refl

two_pending : pending two_kept.ops ≢ 0
two_pending e = absurd (ground (arith, two_pending_count))

submit-Lives_example :
    get_elem? (submit small_io two_kept free_gate mkdir tt 0 0).2.ops 1 ≡ some (tree_op 5 waiting)
submit-Lives_example =
    submit-Lives small_io two_kept free_gate mkdir tt 0 0 1 (tree_op 5 waiting) refl refl

submit-PutOff_example :
    PutOff small_io two_kept mkdir tt 0 0 (submit small_io two_kept free_gate mkdir tt 0 0)
submit-PutOff_example = submit-PutOff small_io two_kept free_gate mkdir tt 0 0 two_pending

abbrev run_free : RunAsked
run_free = record { locked = true; slot_ok = true; step_locked = true; closed_since = false }

run_once : (run small_io two_kept run_free).1.fs ≡ (2, true)
unfolding run esp_rack.FsQueue.Queue.take_op oldest esp_rack.FsQueue.Slots.oldest_from
    esp_rack.FsQueue.Queue.advance esp_rack.FsQueue.Slots.set_state
    esp_rack.FsQueue.Queue.advance_op step esp_rack.FsQueue.Step.walk
run_once = refl

run-RunWrote_example : RunWrote small_io 0 two_kept (run small_io two_kept run_free).1.fs
run-RunWrote_example = run-RunWrote small_io 0 two_kept run_free (omega arith) two_kept-Near

abbrev run_closing : RunAsked
run_closing = record { locked = true; slot_ok = true; step_locked = true; closed_since = true }

do_calls-closed_example :
    (do_calls small_io two_kept (runs run_closing ∷ (closes ∷ (asks free_gate mkdir tt 0 0 ∷ [])))
      ≡ close (run small_io two_kept run_closing).1)
    × ((do_calls small_io two_kept
          (runs run_closing ∷ (closes ∷ (asks free_gate mkdir tt 0 0 ∷ [])))).fs
        ≡ (3, true))
do_calls-closed_example =
    do_calls-closed small_io two_kept run_closing (asks free_gate mkdir tt 0 0 ∷ []) refl

abbrev two_listed : List (Status ℕ)
two_listed = copy (tree_op 5 waiting) ∷ copy (tree_op 6 waiting) ∷ []

two_listed_so : for_each_pending two_kept true ≡ some two_listed
unfolding for_each_pending esp_rack.FsQueue.Slots.from_start esp_rack.FsQueue.Slots.sort_last
    pending_list esp_rack.FsQueue.Slots.insert_last
two_listed_so = refl

two_pending_near : All (IsNearOp 0) two_kept.ops
two_pending_near = (
  (omega arith, omega arith),
  (
    (omega arith, omega arith),
    (
      (omega arith, omega arith),
      (
        (omega arith, omega arith),
        (
          (omega arith, omega arith),
          (
            (omega arith, omega arith),
            ((omega arith, omega arith), ((omega arith, omega arith), tt)),
          ),
        ),
      ),
    ),
  ),
)

for_each_pending-OldestFirst_example :
    OldestFirst 0 two_listed
    × ((p : Status ℕ → Bool) → count p two_listed ≡ unfinished p two_kept.ops)
for_each_pending-OldestFirst_example =
    for_each_pending-OldestFirst 0 two_kept two_listed (omega arith) two_pending_near two_listed_so
