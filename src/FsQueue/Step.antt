-- ===== src/FsQueue/Step.antt =====
-- `step` and `removeTree` of modules/filesystem/include/FsWriteQueue.h: one bounded flash operation,
-- and a tree removed by many.
use esp_rack.Prelude.{
  go_on, ◌==◌, ℕ, zero, suc, ◌+◌, Bool, true, false, not, ◌&&◌, Option, none, some, if◌then◌else◌,
}
use esp_rack.Prelude.Word.{u32}
use esp_rack.FsQueue.Types.{
  FsResult, fs_ok, not_found, io_error, exists, Kind, mkdir, remove, remove_tree, rename, PathKind,
  nothing, a_file, a_directory, FsIo, max_depth, is_ok_result,
}

-- The answer of a step, whether more is to go, and the file system it leaves.
pub record Stepped (F : Type 0) : Type 0 where
  pub answer : FsResult
  pub more : Bool
  pub left : F

abbrev pub only : {F : Type 0} → FsResult → F → Stepped F
only r f = record { answer = r; more = false; left = f }

-- `op ? FsResult::OK : FsResult::IO_ERROR` of a write.
abbrev pub wrote : {F : Type 0} → Bool × F → Stepped F
wrote (true, f) = only fs_ok f
wrote (false, f) = only io_error f

-- A write that did the step, with more to go as told.
abbrev pub wrote_more : {F : Type 0} → Bool → Bool × F → Stepped F
wrote_more more (true, f) = record { answer = fs_ok; more = more; left = f }
wrote_more more (false, f) = only io_error f

module _ {F Vol Str : Type 0} (io : FsIo F Vol Str) where
  unfoldable pub make_dir : F → Vol → Str → Stepped F
  make_dir f vol path =
      if io.path_exists f vol path then only exists f else wrote (io.do_mkdir f vol path)

  unfoldable pub rename_path : F → Vol → Str → Str → Stepped F
  rename_path f vol path to =
      if not (io.path_exists f vol path)
      then only not_found f
      else (if io.path_exists f vol to then only exists f else wrote (io.do_rename f vol path to))

  abbrev pub remove_kind : PathKind → F → Vol → Str → Stepped F
  remove_kind nothing f vol path = only not_found f
  remove_kind a_file f vol path = wrote (io.do_remove f vol path)
  remove_kind a_directory f vol path = wrote (io.do_rmdir f vol path)

  -- What is done at a directory's first child, `on` going down to one that is a directory.
  abbrev pub at_child : F → Vol → Str → Str → (Str → Stepped F) → Option (Str × Bool) → Stepped F
  at_child f vol root dir on none = wrote_more (not (io.same_path dir root)) (io.do_rmdir f vol dir)
  at_child f vol root dir on (some (child, false)) = wrote_more true (io.do_remove f vol child)
  at_child f vol root dir on (some (child, true)) = on child

  -- Down the first children from `dir`, `deep` levels at most, in the tree at `root`.
  unfoldable pub walk : ℕ → F → Vol → Str → Str → Stepped F
  walk zero f vol root dir =
      at_child f vol root dir (λ child. only io_error f) (io.first_child f vol dir)
  walk (suc deep) f vol root dir =
      at_child f vol root dir (λ child. walk deep f vol root child) (io.first_child f vol dir)

  abbrev pub remove_tree_kind : PathKind → F → Vol → Str → ℕ → Stepped F
  remove_tree_kind nothing f vol path done = only (if done == 0 then not_found else fs_ok) f
  remove_tree_kind a_file f vol path done = wrote (io.do_remove f vol path)
  remove_tree_kind a_directory f vol path done = walk max_depth f vol path path

  unfoldable pub step : F → Kind → Vol → Str → Str → ℕ → Stepped F
  step f mkdir vol path to done = make_dir f vol path
  step f rename vol path to done = rename_path f vol path to
  step f remove vol path to done = remove_kind (io.kind_of f vol path) f vol path
  step f remove_tree vol path to done = remove_tree_kind (io.kind_of f vol path) f vol path done

  -- `removeTree`, for so many steps at most; `no_path` is `Str()`. Once they are used up the
  -- answer says that more is to go.
  unfoldable pub remove_tree_from : ℕ → ℕ → F → Vol → Str → Str → Stepped F
  remove_tree_from zero n f vol root no_path = record { answer = fs_ok; more = true; left = f }
  remove_tree_from (suc fuel) n f vol root no_path =
      let r : Stepped F = step f remove_tree vol root no_path n in
      go_on (is_ok_result r.answer && r.more) r
        (λ u. remove_tree_from fuel (u32 (n + 1)) r.left vol root no_path)
