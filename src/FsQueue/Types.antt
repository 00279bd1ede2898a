-- ===== src/FsQueue/Types.antt =====
-- The data of modules/filesystem/include/FsWriteQueue.h, and the Io that it runs on.
use esp_rack.Prelude.{ℕ, Bool, true, false, Option, List}

pub data FsResult : Type 0 where
  fs_ok not_found not_mounted read_only invalid_path io_error exists queued busy : FsResult

pub data Kind : Type 0 where
  mkdir remove remove_tree rename : Kind

pub data State : Type 0 where
  empty going waiting running finished unsuccessful : State

pub data Lookup : Type 0 where
  found missing lock_busy : Lookup

abbrev pub slots : ℕ
slots = 8

abbrev pub free_steps : ℕ
free_steps = 4

abbrev pub max_depth : ℕ
max_depth = 64

-- What a path is: -1, 0 and 1 of `kind`.
pub data PathKind : Type 0 where
  nothing a_file a_directory : PathKind

-- The primitives of the Io on a file system F, with volumes Vol and paths Str. A write hands on
-- the file system it leaves; `first_child` says whether the child is a directory.
pub record FsIo (F Vol Str : Type 0) : Type 0 where
  pub kind_of : F → Vol → Str → PathKind
  pub path_exists : F → Vol → Str → Bool
  pub first_child : F → Vol → Str → Option (Str × Bool)
  pub do_mkdir : F → Vol → Str → Bool × F
  pub do_remove : F → Vol → Str → Bool × F
  pub do_rmdir : F → Vol → Str → Bool × F
  pub do_rename : F → Vol → Str → Str → Bool × F
  pub same_path : Str → Str → Bool

-- A kept or finished write.
pub record Op (Vol Str : Type 0) : Type 0 where
  pub id : ℕ
  pub kind : Kind
  pub vol : Vol
  pub path : Str
  pub to : Str
  pub state : State
  pub result : FsResult
  pub steps : ℕ

abbrev pub is_live_state : State → Bool
is_live_state going = true
is_live_state waiting = true
is_live_state running = true
is_live_state _ = false

abbrev pub is_kept_state : State → Bool
is_kept_state waiting = true
is_kept_state running = true
is_kept_state _ = false

abbrev pub is_empty_state : State → Bool
is_empty_state empty = true
is_empty_state _ = false

module _ {Vol Str : Type 0} where
  abbrev pub is_live : Op Vol Str → Bool
  is_live o = is_live_state o.state

  abbrev pub is_kept : Op Vol Str → Bool
  is_kept o = is_kept_state o.state

abbrev pub is_ok_result : FsResult → Bool
is_ok_result fs_ok = true
is_ok_result _ = false

abbrev pub is_remove_tree : Kind → Bool
is_remove_tree remove_tree = true
is_remove_tree _ = false

-- `Status`, the copy of a slot that is handed out.
pub record Status (Str : Type 0) : Type 0 where
  pub id : ℕ
  pub kind : Kind
  pub state : State
  pub result : FsResult
  pub steps : ℕ
  pub path : Str

-- The queue: its slots, the last number given, whether a restart began, and the file system.
pub record FsQueue (F Vol Str : Type 0) : Type 0 where
  pub ops : List (Op Vol Str)
  pub next : ℕ
  pub closed : Bool
  pub fs : F
