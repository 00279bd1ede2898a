-- ===== src/FsQueue/Laws/Step.antt =====
-- What one step of a write does to the file system.
use esp_rack.Prelude.{
  subst, ℕ, zero, suc, ◌<◌, ◌≡◌, refl, sym, Bool, true, false, not, Option, none, some, arith,
  if_split,
}
use esp_rack.FsQueue.Types.{
  FsResult, fs_ok, io_error, Kind, mkdir, remove, remove_tree, rename, PathKind, nothing, a_file,
  a_directory, FsIo, max_depth,
}
use esp_rack.FsQueue.Step.{
  Stepped, only, wrote, wrote_more, make_dir, rename_path, remove_kind, at_child, walk,
  remove_tree_kind, step,
}

module _ {F Vol Str : Type 0} (io : FsIo F Vol Str) where
  -- Nothing was written, or one operation of the Io.
  pub data Written (vol : Vol) : F → F → Type 0 where
    untouched : {f : F} → Written vol f f
    made : {f : F} (path : Str) → Written vol f (io.do_mkdir f vol path).1
    removed : {f : F} (path : Str) → Written vol f (io.do_remove f vol path).1
    unlinked : {f : F} (path : Str) → Written vol f (io.do_rmdir f vol path).1
    renamed : {f : F} (path to : Str) → Written vol f (io.do_rename f vol path to).1

  wrote_left : (p : Bool × F) → (wrote p).left ≡ p.1
  wrote_left (true, f) = refl
  wrote_left (false, f) = refl

  wrote_more_left : (more : Bool) (p : Bool × F) → (wrote_more more p).left ≡ p.1
  wrote_more_left more (true, f) = refl
  wrote_more_left more (false, f) = refl

  make_dir-Written : (f : F) (vol : Vol) (path : Str) → Written vol f (make_dir io f vol path).left
  unfolding make_dir
  make_dir-Written f vol path =
      if_split (λ (r : Stepped F). Written vol f r.left) (io.path_exists f vol path)
        (λ t. untouched)
        (λ t. subst (Written vol f) (sym (wrote_left (io.do_mkdir f vol path))) (made path))

  rename_path-Written :
      (f : F) (vol : Vol) (path to : Str) → Written vol f (rename_path io f vol path to).left
  unfolding rename_path
  rename_path-Written f vol path to =
      if_split (λ (r : Stepped F). Written vol f r.left) (not (io.path_exists f vol path))
        (λ t. untouched)
        (λ t.
          if_split (λ (r : Stepped F). Written vol f r.left) (io.path_exists f vol to)
            (λ t. untouched)
            (λ t.
              subst (Written vol f) (sym (wrote_left (io.do_rename f vol path to)))
                (renamed path to)))

  remove_kind-Written :
      (k : PathKind) (f : F) (vol : Vol) (path : Str)
      → Written vol f (remove_kind io k f vol path).left
  remove_kind-Written nothing f vol path = untouched
  remove_kind-Written a_file f vol path =
      subst (Written vol f) (sym (wrote_left (io.do_remove f vol path))) (removed path)
  remove_kind-Written a_directory f vol path =
      subst (Written vol f) (sym (wrote_left (io.do_rmdir f vol path))) (unlinked path)

  at_child-Written :
      (f : F) (vol : Vol) (root dir : Str) (on : Str → Stepped F) (c : Option (Str × Bool))
      → ((child : Str) → Written vol f (on child).left)
      → Written vol f (at_child io f vol root dir on c).left
  at_child-Written f vol root dir on none h =
      subst (Written vol f) (sym (wrote_more_left _ (io.do_rmdir f vol dir))) (unlinked dir)
  at_child-Written f vol root dir on (some (child, false)) h =
      subst (Written vol f) (sym (wrote_more_left _ (io.do_remove f vol child))) (removed child)
  at_child-Written f vol root dir on (some (child, true)) h = h child

  walk-Written :
      (deep : ℕ) (f : F) (vol : Vol) (root dir : Str)
      → Written vol f (walk io deep f vol root dir).left
  unfolding walk
  walk-Written zero f vol root dir =
      at_child-Written f vol root dir _ (io.first_child f vol dir) (λ c. untouched)
  walk-Written (suc deep) f vol root dir =
      at_child-Written f vol root dir _ (io.first_child f vol dir)
        (λ c. walk-Written deep f vol root c)

  remove_tree_kind-Written :
      (k : PathKind) (f : F) (vol : Vol) (path : Str) (done : ℕ)
      → Written vol f (remove_tree_kind io k f vol path done).left
  remove_tree_kind-Written nothing f vol path done = untouched
  remove_tree_kind-Written a_file f vol path done =
      subst (Written vol f) (sym (wrote_left (io.do_remove f vol path))) (removed path)
  remove_tree_kind-Written a_directory f vol path done = walk-Written max_depth f vol path path

  -- A step of any write makes one directory, removes one entry, renames one path or writes
  -- nothing, however deep the tree.
  pub step-Written :
      (f : F) (kind : Kind) (vol : Vol) (path to : Str) (done : ℕ)
      → Written vol f (step io f kind vol path to done).left
  unfolding step
  step-Written f mkdir vol path to done = make_dir-Written f vol path
  step-Written f rename vol path to done = rename_path-Written f vol path to
  step-Written f remove vol path to done = remove_kind-Written (io.kind_of f vol path) f vol path
  step-Written f remove_tree vol path to done =
      remove_tree_kind-Written (io.kind_of f vol path) f vol path done

  -- What the file system promises of a removal that went well: of what `size` counts there is less.
  pub record Counts (size : F → ℕ) : Type 0 where
    pub removes :
        (f : F) (vol : Vol) (path : Str)
        → (io.do_remove f vol path).0 ≡ true
        → size (io.do_remove f vol path).1 < size f
    pub unlinks :
        (f : F) (vol : Vol) (path : Str)
        → (io.do_rmdir f vol path).0 ≡ true
        → size (io.do_rmdir f vol path).1 < size f

  -- A step that leaves more to go went well and left less.
  abbrev Less : (F → ℕ) → F → Stepped F → Type 0
  Less size f r = r.more ≡ true → (r.answer ≡ fs_ok) × (size r.left < size f)

  only-Less : (size : F → ℕ) (f : F) (a : FsResult) → Less size f (only a f)
  only-Less size f a h = absurd (ground arith)

  wrote-Less : (size : F → ℕ) (f : F) (p : Bool × F) → Less size f (wrote p)
  wrote-Less size f (true, g) h = absurd (ground arith)
  wrote-Less size f (false, g) h = absurd (ground arith)

  wrote_more-Less :
      (size : F → ℕ) (f : F) (more : Bool) (p : Bool × F)
      → (p.0 ≡ true → size p.1 < size f)
      → Less size f (wrote_more more p)
  wrote_more-Less size f more (true, g) k h = (refl, k refl)
  wrote_more-Less size f more (false, g) k h = absurd (ground arith)

  module _ (size : F → ℕ) (counts : Counts size) where
    at_child-Less :
        (f : F) (vol : Vol) (root dir : Str) (on : Str → Stepped F) (c : Option (Str × Bool))
        → ((child : Str) → Less size f (on child))
        → Less size f (at_child io f vol root dir on c)
    at_child-Less f vol root dir on none h =
        wrote_more-Less size f _ (io.do_rmdir f vol dir) (counts.unlinks f vol dir)
    at_child-Less f vol root dir on (some (child, false)) h =
        wrote_more-Less size f true (io.do_remove f vol child) (counts.removes f vol child)
    at_child-Less f vol root dir on (some (child, true)) h = h child

    walk-Less :
        (deep : ℕ) (f : F) (vol : Vol) (root dir : Str) → Less size f (walk io deep f vol root dir)
    unfolding walk
    walk-Less zero f vol root dir =
        at_child-Less f vol root dir _ (io.first_child f vol dir) (λ c. only-Less size f io_error)
    walk-Less (suc deep) f vol root dir =
        at_child-Less f vol root dir _ (io.first_child f vol dir) (λ c. walk-Less deep f vol root c)

    remove_tree_kind-Less :
        (k : PathKind) (f : F) (vol : Vol) (path : Str) (done : ℕ)
        → Less size f (remove_tree_kind io k f vol path done)
    remove_tree_kind-Less nothing f vol path done = only-Less size f _
    remove_tree_kind-Less a_file f vol path done = wrote-Less size f (io.do_remove f vol path)
    remove_tree_kind-Less a_directory f vol path done = walk-Less max_depth f vol path path

    pub tree_step-Less :
        (f : F) (vol : Vol) (path to : Str) (done : ℕ)
        → Less size f (step io f remove_tree vol path to done)
    unfolding step
    tree_step-Less f vol path to done =
        remove_tree_kind-Less (io.kind_of f vol path) f vol path done
