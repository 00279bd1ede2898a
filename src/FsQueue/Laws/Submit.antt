-- ===== src/FsQueue/Laws/Submit.antt =====
-- A new write: what it leaves of the writes that are kept, and when it may go at once.
use esp_rack.Prelude.{
  ℕ, zero, suc, ◌≡◌, ◌≢◌, refl, sym, ◌∙◌, ap, Bool, true, false, not, ◌&&◌, ◌||◌, Option, none,
  some, List, [], ◌∷◌, arith, get_elem?, set, Option-cases, inl, inr, ◌⊎◌, if◌then◌else◌, if_split,
  go_on_elim, ◌==◌, get_elem?-set_ne, get_elem?-set_self,
}
use esp_rack.FsQueue.Types.{
  FsResult, queued, busy, Kind, State, empty, going, waiting, FsIo, Op, is_live, FsQueue,
}
use esp_rack.FsQueue.Slots.{free_slot, pending, set_state}
use esp_rack.FsQueue.Queue.{
  Asked, Taken, new_op, next_id, submit_into, submit_slot, submit_locked, Advanced, advance_op,
  advance_at, advance, advances, step_cap, went, submit_going, submit_taken, submit,
}
use esp_rack.FsQueue.Laws.Slots.{free_slot-dead}

pending_false : (n : ℕ) (passed : Bool) → n ≢ 0 → ((n == 0) && passed) ≡ false
pending_false n passed h = ground arith

module _ {Vol Str : Type 0} where
  pub get_elem?-set_state :
      (ops : List (Op Vol Str)) (i j : ℕ) (s : State)
      → i ≢ j
      → get_elem? (set_state ops i s) j ≡ get_elem? ops j
  unfolding set_state
  get_elem?-set_state [] i j s h = refl
  get_elem?-set_state (o ∷ os) zero zero s h = absurd (h refl)
  get_elem?-set_state (o ∷ os) zero (suc j) s h = refl
  get_elem?-set_state (o ∷ os) (suc i) zero s h = refl
  get_elem?-set_state (o ∷ os) (suc i) (suc j) s h =
      get_elem?-set_state os i j s (λ e. h (ap suc e))

  -- Two lists of slots that agree but for one slot.
  abbrev pub SameBut : ℕ → List (Op Vol Str) → List (Op Vol Str) → Type 0
  SameBut i a b = (j : ℕ) → i ≢ j → get_elem? a j ≡ get_elem? b j

  pub SameBut-trans :
      (i : ℕ) (a b c : List (Op Vol Str)) → SameBut i a b → SameBut i b c → SameBut i a c
  SameBut-trans i a b c p q = λ j n. p j n ∙ q j n

  -- The live writes of a queue are in another as they were.
  abbrev Lives : List (Op Vol Str) → List (Op Vol Str) → Type 0
  Lives a b =
      (j : ℕ) (o : Op Vol Str) → get_elem? a j ≡ some o → is_live o ≡ true → get_elem? b j ≡ some o

  abbrev Dead : List (Op Vol Str) → ℕ → Type 0
  Dead ops i = (o : Op Vol Str) × (get_elem? ops i ≡ some o) × (is_live o ≡ false)

  Dead-apart :
      (i j : ℕ) (ops : List (Op Vol Str)) (o : Op Vol Str)
      → Dead ops i
      → get_elem? ops j ≡ some o
      → is_live o ≡ true
      → i ≢ j
  Dead-apart i j ops o d g l e =
      let s : some d.0 ≡ some o = sym d.1 ∙ ap (get_elem? ops) e ∙ g in ground arith

  SameBut-Lives : (i : ℕ) (a b : List (Op Vol Str)) → Dead a i → SameBut i b a → Lives a b
  SameBut-Lives i a b d s j o g l = s j (Dead-apart i j a o d g l) ∙ g

module _ {F Vol Str : Type 0} (io : FsIo F Vol Str) where
  pub advance-SameBut : (q : FsQueue F Vol Str) (i : ℕ) → SameBut i (advance io q i).queue.ops q.ops
  unfolding advance advance_op
  advance-SameBut q i =
      elim (Option-cases (get_elem? q.ops i))
        as (λ x. SameBut i (advance_at io q i (get_elem? q.ops i)).queue.ops q.ops) [
          | inl n ↦ λ j d. rw n refl
          | inr s ↦ λ j d. rw s.1 (get_elem?-set_ne q.ops i j _ d)
        ]

  advances-SameBut :
      (cap : ℕ) (q : FsQueue F Vol Str) (i : ℕ) → SameBut i (advances io cap q i).queue.ops q.ops
  unfolding advances
  advances-SameBut zero q i = λ j d. refl
  advances-SameBut (suc cap) q i =
      go_on_elim (λ (r : Advanced F Vol Str). SameBut i r.queue.ops q.ops)
        (advance io q i).more_to_go (advance io q i) (λ u. advances io cap (advance io q i).queue i)
        (advance-SameBut q i)
        (SameBut-trans i _ (advance io q i).queue.ops q.ops
          (advances-SameBut cap (advance io q i).queue i) (advance-SameBut q i))

  went-SameBut :
      (i id : ℕ) (ops : List (Op Vol Str)) (r : Advanced F Vol Str)
      → SameBut i r.queue.ops ops
      → SameBut i (went io i id r).2.ops ops
  went-SameBut i id ops r h =
      if_split (λ (x : FsResult × ℕ × FsQueue F Vol Str). SameBut i x.2.ops ops) r.more_to_go
        (λ t. λ j d. get_elem?-set_state r.queue.ops i j waiting d ∙ h j d) (λ t. h)

  submit_going-SameBut :
      (q : FsQueue F Vol Str) (a : Asked) (kind : Kind) (i id : ℕ)
      → SameBut i (submit_going io q a kind i id).2.ops q.ops
  unfolding submit_going
  submit_going-SameBut q a kind i id =
      if_split (λ (r : FsResult × ℕ × FsQueue F Vol Str). SameBut i r.2.ops q.ops)
        (not a.step_locked) (λ t. λ j d. get_elem?-set_state q.ops i j empty d)
        (λ t. went-SameBut i id q.ops _ (advances-SameBut (step_cap kind a) q i))

  submit_into-Lives :
      (q : FsQueue F Vol Str) (a : Asked) (kind : Kind) (vol : Vol) (path to : Str) (i : ℕ)
      → Dead q.ops i
      → Lives q.ops (submit_taken io a kind (submit_into q a kind vol path to i)).2.ops
  unfolding submit_into
  submit_into-Lives q a kind vol path to i d =
      let on : Bool = (pending q.ops == 0) && a.passed in
      let op : Op Vol Str =
        new_op (next_id q.next) kind vol path to (if on then going else waiting) in
      let q2 : FsQueue F Vol Str = record q { next = next_id q.next; ops = set q.ops i op } in
      if_split (λ (p : Taken × FsQueue F Vol Str). Lives q.ops (submit_taken io a kind p).2.ops)
        (not on && not a.can_defer) (λ t. λ j o e l. e)
        (λ t.
          if_split (λ x. Lives q.ops (submit_taken io a kind (x, q2)).2.ops) on
            (λ y. SameBut-Lives i q.ops (submit_going io q2 a kind i (next_id q.next)).2.ops d (
              SameBut-trans i _ q2.ops q.ops (submit_going-SameBut q2 a kind i (next_id q.next))
                (λ j n. get_elem?-set_ne q.ops i j op n)))
            (λ y. SameBut-Lives i q.ops q2.ops d (λ j n. get_elem?-set_ne q.ops i j op n)))

  submit_slot-Lives :
      (q : FsQueue F Vol Str) (a : Asked) (kind : Kind) (vol : Vol) (path to : Str) (s : Option ℕ)
      → free_slot q.ops ≡ s
      → Lives q.ops (submit_taken io a kind (submit_slot q a kind vol path to s)).2.ops
  submit_slot-Lives q a kind vol path to none e = λ j o g l. g
  submit_slot-Lives q a kind vol path to (some i) e =
      submit_into-Lives q a kind vol path to i (free_slot-dead q.ops i e)

  -- A new write, whether it goes at once, is kept or is turned away, leaves every write that is
  -- going, kept or running as it was, in its slot.
  pub submit-Lives :
      (q : FsQueue F Vol Str) (a : Asked) (kind : Kind) (vol : Vol) (path to : Str) (j : ℕ)
      (o : Op Vol Str)
      → get_elem? q.ops j ≡ some o
      → is_live o ≡ true
      → get_elem? (submit io q a kind vol path to).2.ops j ≡ some o
  unfolding submit submit_locked
  submit-Lives q a kind vol path to j o g l =
      if_split (λ (p : Taken × FsQueue F Vol Str). Lives q.ops (submit_taken io a kind p).2.ops)
        (not a.locked || q.closed) (λ t. λ j o g l. g)
        (λ t. submit_slot-Lives q a kind vol path to (free_slot q.ops) refl) j o g l

  -- Turned away with the queue as it was, or kept: in a slot, under the next number, with nothing
  -- written.
  abbrev pub KeptIn : FsQueue F Vol Str → Kind → Vol → Str → Str → FsQueue F Vol Str → Type 0
  KeptIn q kind vol path to q2 =
      (i : ℕ) × (get_elem? q2.ops i ≡ some (new_op (next_id q.next) kind vol path to waiting))

  abbrev pub PutOff :
      FsQueue F Vol Str → Kind → Vol → Str → Str → FsResult × ℕ × FsQueue F Vol Str → Type 0
  PutOff q kind vol path to r =
      ((r.0 ≡ busy) × (r.2 ≡ q))
      ⊎ ((r.0 ≡ queued) × (r.1 ≡ next_id q.next) × (r.2.fs ≡ q.fs) × KeptIn q kind vol path to r.2)

  submit_into-PutOff :
      (q : FsQueue F Vol Str) (a : Asked) (kind : Kind) (vol : Vol) (path to : Str) (i : ℕ)
      → pending q.ops ≢ 0
      → Dead q.ops i
      → PutOff q kind vol path to (submit_taken io a kind (submit_into q a kind vol path to i))
  unfolding submit_into
  submit_into-PutOff q a kind vol path to i n d =
      let on : Bool = (pending q.ops == 0) && a.passed in
      let off : on ≡ false = pending_false (pending q.ops) a.passed n in
      rw off (
        if_split
          (λ (p : Taken × FsQueue F Vol Str). PutOff q kind vol path to (submit_taken io a kind p))
          (not a.can_defer) (λ t. inl (refl, refl))
          (λ t. inr (
            refl,
            refl,
            refl,
            (
              i,
              get_elem?-set_self q.ops i (new_op (next_id q.next) kind vol path to waiting) d.0 d.1,
            ),
          )))

  submit_slot-PutOff :
      (q : FsQueue F Vol Str) (a : Asked) (kind : Kind) (vol : Vol) (path to : Str) (s : Option ℕ)
      → pending q.ops ≢ 0
      → free_slot q.ops ≡ s
      → PutOff q kind vol path to (submit_taken io a kind (submit_slot q a kind vol path to s))
  submit_slot-PutOff q a kind vol path to none n e = inl (refl, refl)
  submit_slot-PutOff q a kind vol path to (some i) n e =
      submit_into-PutOff q a kind vol path to i n (free_slot-dead q.ops i e)

  -- While a write is going, kept or running, a new one is turned away with the queue as it was, or
  -- it is kept: it waits in a slot under the next number, with nothing written.
  pub submit-PutOff :
      (q : FsQueue F Vol Str) (a : Asked) (kind : Kind) (vol : Vol) (path to : Str)
      → pending q.ops ≢ 0
      → PutOff q kind vol path to (submit io q a kind vol path to)
  unfolding submit submit_locked
  submit-PutOff q a kind vol path to n =
      if_split
        (λ (p : Taken × FsQueue F Vol Str). PutOff q kind vol path to (submit_taken io a kind p))
        (not a.locked || q.closed) (λ t. inl (refl, refl))
        (λ t. submit_slot-PutOff q a kind vol path to (free_slot q.ops) n refl)
