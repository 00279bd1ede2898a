-- ===== src/FsQueue/Laws/Run.antt =====
-- The FlashWriter job and the restart of modules/filesystem/include/FsWriteQueue.h.
use esp_rack.Prelude.{
  ℕ, zero, suc, ◌^◌, ◌<◌, ◌≡◌, refl, ◌∙◌, ap, true, not, ◌||◌, Option, none, some, List, [], ◌∷◌,
  arith, Bool, get_elem?, inl, inr, ◌⊎◌, if_split,
}
use esp_rack.FsQueue.Types.{Kind, State, running, FsIo, Op, FsQueue}
use esp_rack.FsQueue.Step.{step}
use esp_rack.FsQueue.Slots.{oldest, set_state}
use esp_rack.FsQueue.Queue.{
  Taken, Asked, advance_op, advance, take_at, take_op, submit, submit_locked, submit_taken,
}
use esp_rack.FsQueue.Run.{RunAsked, run_taken, run, close}
use esp_rack.FsQueue.Laws.Slots.{Near, Oldest, oldest-Oldest}

module _ {Vol Str : Type 0} where
  get_elem?-set_state_self :
      (ops : List (Op Vol Str)) (i : ℕ) (s : State) (o : Op Vol Str)
      → get_elem? ops i ≡ some o
      → get_elem? (set_state ops i s) i ≡ some (record o { state = s })
  unfolding set_state
  get_elem?-set_state_self [] i s o h = absurd (ground arith)
  get_elem?-set_state_self (x ∷ os) zero s o h = ground arith
  get_elem?-set_state_self (x ∷ os) (suc i) s o h = get_elem?-set_state_self os i s o h

module _ {F Vol Str : Type 0} (io : FsIo F Vol Str) where
  -- A run wrote nothing, or took the step that the write in slot i is at.
  abbrev pub Stepping : FsQueue F Vol Str → ℕ → F → Type 0
  Stepping q i f =
      (o : Op Vol Str) × (get_elem? q.ops i ≡ some o)
      × (f ≡ (step io q.fs o.kind o.vol o.path o.to o.steps).left)

  abbrev pub RunWrote : ℕ → FsQueue F Vol Str → F → Type 0
  RunWrote base q f = (f ≡ q.fs) ⊎ ((i : ℕ) × Oldest base q.ops i × Stepping q i f)

  advance-fs :
      (q : FsQueue F Vol Str) (i : ℕ) (o : Op Vol Str)
      → get_elem? q.ops i ≡ some o
      → (advance io q i).queue.fs ≡ (step io q.fs o.kind o.vol o.path o.to o.steps).left
  unfolding advance advance_op
  advance-fs q i o h = rw h refl

  run_taken-RunWrote :
      (base : ℕ) (q : FsQueue F Vol Str) (a : RunAsked) (r : Option ℕ)
      → base < 2 ^ 32
      → Near base q.ops
      → oldest q.ops ≡ r
      → RunWrote base q (run_taken io a (take_at q r)).1.fs
  run_taken-RunWrote base q a none hb n e = inl refl
  run_taken-RunWrote base q a (some i) hb n e =
      let o = oldest-Oldest base q.ops i hb n e in
      let q2 : FsQueue F Vol Str = record q {
        closed = q.closed || a.closed_since;
        ops = set_state q.ops i running;
      } in
      if_split (λ (x : ℕ × FsQueue F Vol Str). RunWrote base q x.1.fs) (not a.slot_ok)
        (λ t. inl refl)
        (λ t.
          if_split (λ (x : ℕ × FsQueue F Vol Str). RunWrote base q x.1.fs) (not a.step_locked)
            (λ t. inl refl)
            (λ t.
              if_split (λ (x : FsQueue F Vol Str). RunWrote base q x.fs) q2.closed (λ t. inl refl)
                (λ t. inr (
                  i,
                  o,
                  (
                    o.0,
                    o.1,
                    advance-fs q2 i (record o.0 { state = running })
                        (get_elem?-set_state_self q.ops i running o.0 o.1),
                  ),
                ))))

  -- The FlashWriter job writes nothing or takes one step of the oldest kept write, from where that
  -- write is, where the numbers of the kept writes can be told apart by age.
  pub run-RunWrote :
      (base : ℕ) (q : FsQueue F Vol Str) (a : RunAsked)
      → base < 2 ^ 32
      → Near base q.ops
      → RunWrote base q (run io q a).1.fs
  unfolding run take_op
  run-RunWrote base q a hb n =
      if_split (λ (x : ℕ × FsQueue F Vol Str). RunWrote base q x.1.fs) q.closed (λ t. inl refl)
        (λ t.
          if_split (λ (x : ℕ × FsQueue F Vol Str). RunWrote base q x.1.fs) (not a.locked)
            (λ t. inl refl) (λ t. run_taken-RunWrote base q a (oldest q.ops) hb n refl))

  -- Calls in any order, but for the restart's flush.
  pub data Call : Type 0 where
    asks : Asked → Kind → Vol → Str → Str → Call
    runs : RunAsked → Call
    closes : Call

  pub do_call : FsQueue F Vol Str → Call → FsQueue F Vol Str
  unfolding submit run
  do_call q (asks a kind vol path to) = (submit io q a kind vol path to).2
  do_call q (runs a) = (run io q a).1
  do_call q closes = close q

  pub do_calls : FsQueue F Vol Str → List Call → FsQueue F Vol Str
  unfolding do_call
  do_calls q [] = q
  do_calls q (c ∷ cs) = do_calls (do_call q c) cs

  closed_run : (q : FsQueue F Vol Str) (a : RunAsked) → q.closed ≡ true → (run io q a).1 ≡ q
  unfolding run
  closed_run q a h = rw h refl

  closed_submit :
      (q : FsQueue F Vol Str) (a : Asked) (kind : Kind) (vol : Vol) (path to : Str)
      → q.closed ≡ true
      → (submit io q a kind vol path to).2 ≡ q
  unfolding submit submit_locked
  closed_submit q a kind vol path to h =
      if_split (λ (p : Taken × FsQueue F Vol Str). (submit_taken io a kind p).2 ≡ q)
        (not a.locked || q.closed) (λ t. refl) (λ t. absurd (ground arith))

  do_calls_still : (q : FsQueue F Vol Str) (cs : List Call) → q.closed ≡ true → do_calls q cs ≡ q
  unfolding do_calls do_call
  do_calls_still q [] h = refl
  do_calls_still q (asks a kind vol path to ∷ cs) h =
      let e = closed_submit q a kind vol path to h in
      ap (λ x. do_calls x cs) e ∙ do_calls_still q cs h
  do_calls_still q (runs a ∷ cs) h =
      ap (λ x. do_calls x cs) (closed_run q a h) ∙ do_calls_still q cs h
  do_calls_still q (closes ∷ cs) h =
      let e : close q ≡ q = ground arith in ap (λ x. do_calls x cs) e ∙ do_calls_still q cs h

  closed_meanwhile : (c d : Bool) → d ≡ true → (c || d) ≡ true
  closed_meanwhile c d h = ground arith

  run_taken-closed :
      (q : FsQueue F Vol Str) (a : RunAsked) (r : Option ℕ)
      → a.closed_since ≡ true
      → (run_taken io a (take_at q r)).1.fs ≡ q.fs
  run_taken-closed q a none h = refl
  run_taken-closed q a (some i) h =
      let c : (q.closed || a.closed_since) ≡ true = closed_meanwhile q.closed a.closed_since h in
      rw c (
        if_split (λ (x : ℕ × FsQueue F Vol Str). x.1.fs ≡ q.fs) (not a.slot_ok) (λ t. refl)
          (λ t.
            if_split (λ (x : ℕ × FsQueue F Vol Str). x.1.fs ≡ q.fs) (not a.step_locked) (λ t. refl)
              (λ t. refl)))

  run-closed :
      (q : FsQueue F Vol Str) (a : RunAsked) → a.closed_since ≡ true → (run io q a).1.fs ≡ q.fs
  unfolding run take_op
  run-closed q a h =
      if_split (λ (x : ℕ × FsQueue F Vol Str). x.1.fs ≡ q.fs) q.closed (λ t. refl)
        (λ t.
          if_split (λ (x : ℕ × FsQueue F Vol Str). x.1.fs ≡ q.fs) (not a.locked) (λ t. refl)
            (λ t. run_taken-closed q a (oldest q.ops) h))

  -- A run of the FlashWriter job during which a restart closes the queue, between what it took and
  -- its step, writes nothing, and behind the close no call of submit or run, in whatever order,
  -- writes anything or changes a slot. Each submit is a whole call before or behind the close.
  pub do_calls-closed :
      (q : FsQueue F Vol Str) (a : RunAsked) (cs : List Call)
      → a.closed_since ≡ true
      → (do_calls q (runs a ∷ (closes ∷ cs)) ≡ close (run io q a).1)
        × ((do_calls q (runs a ∷ (closes ∷ cs))).fs ≡ q.fs)
  unfolding do_calls do_call
  do_calls-closed q a cs h =
      let e = do_calls_still (close (run io q a).1) cs refl in
      (e, ap (λ (x : FsQueue F Vol Str). x.fs) e ∙ run-closed q a h)
