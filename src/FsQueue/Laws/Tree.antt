-- ===== src/FsQueue/Laws/Tree.antt =====
-- A tree removed at once and a step at a time.
use esp_rack.Prelude.{
  go_on, subst, ℕ, zero, suc, ◌+◌, ◌<◌, ◌≡◌, refl, sym, ◌∙◌, ap, Bool, true, false, ◌&&◌, some,
  arith, get_elem?, get_elem?-set_self, Bool-cases, inl, inr,
}
use esp_rack.Prelude.Word.{u32}
use esp_rack.FsQueue.Types.{FsResult, fs_ok, Kind, remove_tree, FsIo, is_ok_result, Op, FsQueue}
use esp_rack.FsQueue.Step.{Stepped, step, remove_tree_from}
use esp_rack.FsQueue.Queue.{Advanced, op_after, advance_op, advance_at, advance, advances}
use esp_rack.FsQueue.Laws.Step.{Counts, tree_step-Less}

is_ok_fs_ok : (r : FsResult) → r ≡ fs_ok → is_ok_result r ≡ true
is_ok_fs_ok r e = rw e refl

module _ {F Vol Str : Type 0} (io : FsIo F Vol Str) where
  abbrev tree_more : F → ℕ → Vol → Str → Str → Bool
  tree_more f n vol root no_path =
      is_ok_result (step io f remove_tree vol root no_path n).answer
      && (step io f remove_tree vol root no_path n).more

  -- `remove_tree_from` in its two branches.
  tree_goes_on :
      (fuel n : ℕ) (f : F) (vol : Vol) (root no_path : Str)
      → tree_more f n vol root no_path ≡ true
      → remove_tree_from io (suc fuel) n f vol root no_path
        ≡ remove_tree_from io fuel
            (u32 (n + 1))
            (step io f remove_tree vol root no_path n).left
            vol
            root
            no_path
  unfolding remove_tree_from
  tree_goes_on fuel n f vol root no_path h =
      ap
        (λ b. go_on b (step io f remove_tree vol root no_path n) (λ u.
          remove_tree_from io fuel (u32 (n + 1)) (step io f remove_tree vol root no_path n).left vol
            root no_path))
        h

  tree_ends :
      (fuel n : ℕ) (f : F) (vol : Vol) (root no_path : Str)
      → tree_more f n vol root no_path ≡ false
      → remove_tree_from io (suc fuel) n f vol root no_path
        ≡ step io f remove_tree vol root no_path n
  unfolding remove_tree_from
  tree_ends fuel n f vol root no_path h =
      ap
        (λ b. go_on b (step io f remove_tree vol root no_path n) (λ u.
          remove_tree_from io fuel (u32 (n + 1)) (step io f remove_tree vol root no_path n).left vol
            root no_path))
        h

  module _ (size : F → ℕ) (counts : Counts io size) where
    stepped_ends :
        (f : F) (n : ℕ) (vol : Vol) (root no_path : Str)
        → tree_more f n vol root no_path ≡ false
        → (step io f remove_tree vol root no_path n).more ≡ false
    stepped_ends f n vol root no_path h = ground (
      arith,
      tree_step-Less io size counts f vol root no_path n,
      is_ok_fs_ok (step io f remove_tree vol root no_path n).answer,
    )

    -- Where each removal leaves less of what `size` counts, `removeTree` ends after that many
    -- steps and one more at the latest: it never goes on for ever.
    pub remove_tree-ends :
        (fuel n : ℕ) (f : F) (vol : Vol) (root no_path : Str)
        → size f < fuel
        → (remove_tree_from io fuel n f vol root no_path).more ≡ false
    remove_tree-ends zero n f vol root no_path h = absurd (omega arith)
    remove_tree-ends (suc fuel) n f vol root no_path h =
        elim (Bool-cases (tree_more f n vol root no_path)) [
          | inl t ↦
              subst (λ (r : Stepped F). r.more ≡ false)
                (sym (tree_goes_on fuel n f vol root no_path t))
                (remove_tree-ends fuel (u32 (n + 1)) (step io f remove_tree vol root no_path n).left
                  vol root no_path
                  (ground (arith, tree_step-Less io size counts f vol root no_path n)))
          | inr e ↦
              subst (λ (r : Stepped F). r.more ≡ false)
                (sym (tree_ends fuel n f vol root no_path e)) (stepped_ends f n vol root no_path e)
        ]

  -- The write of a tree advanced, and the tree removed.
  abbrev pub Agree : Advanced F Vol Str → Stepped F → Type 0
  Agree r t =
      (r.queue.fs ≡ t.left)
      × (r.more_to_go ≡ (is_ok_result t.answer && t.more))
      × (r.answer_of ≡ t.answer)

  Agree-go_on :
      (b c : Bool) (r : Advanced F Vol Str) (t : Stepped F) (on : Unit {0} → Advanced F Vol Str)
      (ot : Unit {0} → Stepped F)
      → b ≡ c
      → Agree r t
      → (b ≡ true → Agree (on tt) (ot tt))
      → Agree (go_on b r on) (go_on c t ot)
  Agree-go_on true true r t on ot e h k = k refl
  Agree-go_on false false r t on ot e h k = h
  Agree-go_on true false r t on ot e h k = absurd (ground arith)
  Agree-go_on false true r t on ot e h k = absurd (ground arith)

  op_after_more :
      (o : Op Vol Str) (r : Stepped F)
      → (is_ok_result r.answer && r.more) ≡ true
      → op_after o r ≡ record o { steps = u32 (o.steps + 1) }
  unfolding op_after
  op_after_more o r h = ground arith

  tree_step_to :
      (f : F) (kind : Kind) (vol : Vol) (path to no_path : Str) (n : ℕ)
      → kind ≡ remove_tree
      → step io f kind vol path to n ≡ step io f remove_tree vol path no_path n
  unfolding step
  tree_step_to f kind vol path to no_path n k = rw k refl

  advance_agrees :
      (q : FsQueue F Vol Str) (i : ℕ) (o : Op Vol Str) (no_path : Str)
      → get_elem? q.ops i ≡ some o
      → o.kind ≡ remove_tree
      → Agree (advance io q i) (step io q.fs remove_tree o.vol o.path no_path o.steps)
  unfolding advance advance_op
  advance_agrees q i o no_path g k =
      rw (g, tree_step_to q.fs o.kind o.vol o.path o.to no_path o.steps k) (refl, refl, refl)

  advance_slot :
      (q : FsQueue F Vol Str) (i : ℕ) (o : Op Vol Str)
      → get_elem? q.ops i ≡ some o
      → (advance io q i).more_to_go ≡ true
      → get_elem? (advance io q i).queue.ops i ≡ some (record o { steps = u32 (o.steps + 1) })
  unfolding advance advance_op
  advance_slot q i o g m =
      subst
        (λ x.
          (advance_at io q i x).more_to_go ≡ true
          → get_elem? (advance_at io q i x).queue.ops i
            ≡ some (record o { steps = u32 (o.steps + 1) }))
        (sym g)
        (λ n.
          get_elem?-set_self q.ops i (op_after o (step io q.fs o.kind o.vol o.path o.to o.steps)) o
            g
          ∙ ap some (op_after_more o (step io q.fs o.kind o.vol o.path o.to o.steps) n))
        m

  -- A tree's write advanced so many steps, a step each time, leaves the file system and answers as
  -- `removeTree` does at once for so many steps, from any point of the removal on.
  pub advances-remove_tree_from :
      (cap : ℕ) (q : FsQueue F Vol Str) (i : ℕ) (o : Op Vol Str) (no_path : Str)
      → get_elem? q.ops i ≡ some o
      → o.kind ≡ remove_tree
      → Agree (advances io cap q i) (remove_tree_from io cap o.steps q.fs o.vol o.path no_path)
  unfolding advances remove_tree_from
  advances-remove_tree_from zero q i o no_path g k = (refl, refl, refl)
  advances-remove_tree_from (suc cap) q i o no_path g k =
      let a = advance_agrees q i o no_path g k in
      Agree-go_on (advance io q i).more_to_go (tree_more q.fs o.steps o.vol o.path no_path)
        (advance io q i) (step io q.fs remove_tree o.vol o.path no_path o.steps)
        (λ u. advances io cap (advance io q i).queue i)
        (λ u.
          remove_tree_from io cap (u32 (o.steps + 1))
            (step io q.fs remove_tree o.vol o.path no_path o.steps).left o.vol o.path no_path)
        a.1 a
        (λ m.
          subst
            (λ f.
              Agree (advances io cap (advance io q i).queue i)
                (remove_tree_from io cap (u32 (o.steps + 1)) f o.vol o.path no_path))
            a.0
            (advances-remove_tree_from cap (advance io q i).queue i
              (record o { steps = u32 (o.steps + 1) }) no_path (advance_slot q i o g m) k))
