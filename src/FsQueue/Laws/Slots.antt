-- ===== src/FsQueue/Laws/Slots.antt =====
-- The slots: what `take` and `freeSlot` pick, and what is pending.
use esp_rack.Prelude.{
  ◌&&◌, ltb, if◌then◌else◌, if_split, if_elim, subst, ℕ, suc, ◌+◌, ◌^◌, ◌<◌, ◌≤◌, ◌≡◌, refl, sym,
  Bool, true, false, Option, none, some, List, [], ◌∷◌, arith, get_elem?, All,
}
use esp_rack.Prelude.Word.{sub32, is_neg32}
use esp_rack.FsQueue.Types.{State, Op, is_live_state, is_live, is_kept, is_empty_state}
use esp_rack.FsQueue.Slots.{older_of, index_of, free_from, free_slot, oldest_from, oldest}

-- The best slot so far: no number is older.
abbrev NotOlder : ℕ → ℕ → Option (ℕ × ℕ) → Type 0
NotOlder base id none = ⊥
NotOlder base id (some (i, best)) = sub32 best base ≤ sub32 id base

abbrev NearBest : ℕ → Option (ℕ × ℕ) → Type 0
NearBest base none = Unit
NearBest base (some (i, best)) = (best < 2 ^ 32) × (sub32 best base < 2 ^ 31)

older_NotOlder :
    (base i id : ℕ) (best : Option (ℕ × ℕ))
    → base < 2 ^ 32
    → id < 2 ^ 32
    → sub32 id base < 2 ^ 31
    → NearBest base best
    → NotOlder base id (older_of best i id)
      × NearBest base (older_of best i id)
      × ((old : ℕ) → NotOlder base old best → NotOlder base old (older_of best i id))
older_NotOlder base i id none hb h k n = (omega arith, (h, k), λ old x. absurd x)
older_NotOlder base i id (some (j, best)) hb h k n = ground arith

-- Where the scan's answer comes from.
abbrev From : (ℕ → ℕ → Type 0) → Option (ℕ × ℕ) → Type 0
From P none = Unit
From P (some (j, id)) = P j id

From-older :
    (P : ℕ → ℕ → Type 0) (i id : ℕ) (best : Option (ℕ × ℕ))
    → From P best
    → P i id
    → From P (older_of best i id)
From-older P i id none h p = p
From-older P i id (some (j, b)) h p = if_elim (From P) (is_neg32 (sub32 id b)) p h

next_none :
    (b : Bool) (best : Option (ℕ × ℕ)) (i id : ℕ)
    → (if b then older_of best i id else best) ≡ none
    → (best ≡ none) × (b ≡ false)
next_none b best i id e = ground arith

live_none :
    (b : Bool) (best : Option (ℕ × ℕ)) (i id : ℕ)
    → (if b then best else older_of best i id) ≡ none
    → (best ≡ none) × (b ≡ true)
live_none b best i id e = ground arith

empty_dead : (s : State) → is_empty_state s ≡ true → is_live_state s ≡ false
empty_dead s e = ground arith

add_zero : (i k : ℕ) → some i ≡ some k → 0 + i ≡ k
add_zero i k e = ground arith

index_of-none : (r : Option (ℕ × ℕ)) → index_of r ≡ none → r ≡ none
index_of-none none e = refl
index_of-none (some (i, id)) e = absurd (ground arith)

module _ {Vol Str : Type 0} where
  -- The numbers of the kept writes are less than half their range after some base, which is how
  -- 32-bit numbers that wrap are told older or newer.
  abbrev pub Near : ℕ → List (Op Vol Str) → Type 0
  Near base ops =
      All (λ (o : Op Vol Str). (o.id < 2 ^ 32) × (is_kept o ≡ true → sub32 o.id base < 2 ^ 31)) ops

  scanned :
      (base i : ℕ) (o : Op Vol Str) (best : Option (ℕ × ℕ))
      → base < 2 ^ 32
      → (o.id < 2 ^ 32) × (is_kept o ≡ true → sub32 o.id base < 2 ^ 31)
      → NearBest base best
      → let next : Option (ℕ × ℕ) = if is_kept o then older_of best i o.id else best in
        (is_kept o ≡ true → NotOlder base o.id next)
        × NearBest base next
        × ((old : ℕ) → NotOlder base old best → NotOlder base old next)
  scanned base i o best hb h n =
      if_split
        (λ next.
          (is_kept o ≡ true → NotOlder base o.id next)
          × NearBest base next
          × ((old : ℕ) → NotOlder base old best → NotOlder base old next))
        (is_kept o)
        (λ t. let s = older_NotOlder base i o.id best hb h.0 (h.1 t) n in (λ u. s.0, s.1, s.2))
        (λ f. (λ t. absurd (ground arith), n, λ old x. x))

  -- The scan: what it ends with is no newer than any kept write it met, nor than what it began with.
  oldest_from_lem :
      (base : ℕ) (ops : List (Op Vol Str)) (i : ℕ) (best : Option (ℕ × ℕ))
      → base < 2 ^ 32
      → Near base ops
      → NearBest base best
      → All (λ (o : Op Vol Str). is_kept o ≡ true → NotOlder base o.id (oldest_from ops i best)) ops
        × ((old : ℕ) → NotOlder base old best → NotOlder base old (oldest_from ops i best))
  unfolding oldest_from
  oldest_from_lem base [] i best hb n k = (tt, λ old h. h)
  oldest_from_lem base (o ∷ os) i best hb n k =
      let s = scanned base i o best hb n.0 k in
      let r =
        oldest_from_lem base os (i + 1) (if is_kept o then older_of best i o.id else best) hb n.1
          s.1 in
      ((λ t. r.1 o.id (s.0 t), r.0), λ old h. r.1 old (s.2 old h))

  oldest_from-From :
      (P : ℕ → ℕ → Type 0) (ops : List (Op Vol Str)) (i : ℕ) (best : Option (ℕ × ℕ))
      → From P best
      → ((j : ℕ) (o : Op Vol Str) → get_elem? ops j ≡ some o → is_kept o ≡ true → P (j + i) o.id)
      → From P (oldest_from ops i best)
  unfolding oldest_from
  oldest_from-From P [] i best h k = h
  oldest_from-From P (o ∷ os) i best h k =
      oldest_from-From P os (i + 1) (if is_kept o then older_of best i o.id else best)
        (if_split (From P) (is_kept o)
          (λ t. From-older P i o.id best h (subst (λ n. P n o.id) (omega arith) (k 0 o refl t)))
          (λ f. h))
        (λ j p e t. subst (λ n. P n p.id) (omega arith) (k (suc j) p e t))

  -- The slot that `take` picks holds a kept write, and no kept write is older, where the numbers of
  -- the kept writes are told apart by age at all.
  abbrev pub Oldest : ℕ → List (Op Vol Str) → ℕ → Type 0
  Oldest base ops i =
      (o : Op Vol Str) × (get_elem? ops i ≡ some o)
      × (is_kept o ≡ true)
      × All (λ (p : Op Vol Str). (is_kept p && ltb (sub32 p.id base) (sub32 o.id base)) ≡ false) ops

  none_older :
      (base id : ℕ) (ops : List (Op Vol Str))
      → All (λ (p : Op Vol Str). is_kept p ≡ true → sub32 id base ≤ sub32 p.id base) ops
      → All (λ (p : Op Vol Str). (is_kept p && ltb (sub32 p.id base) (sub32 id base)) ≡ false) ops
  none_older base id [] a = tt
  none_older base id (p ∷ ps) a = (not_older p a.0, none_older base id ps a.1)
    where
      not_older :
          (p : Op Vol Str)
          → (is_kept p ≡ true → sub32 id base ≤ sub32 p.id base)
          → (is_kept p && ltb (sub32 p.id base) (sub32 id base)) ≡ false
      not_older p h = ground (arith, h)

  abbrev Held : List (Op Vol Str) → ℕ → ℕ → Type 0
  Held ops j id = (o : Op Vol Str) × (get_elem? ops j ≡ some o) × (is_kept o ≡ true) × (o.id ≡ id)

  found-Oldest :
      (base : ℕ) (ops : List (Op Vol Str)) (i : ℕ) (r : Option (ℕ × ℕ))
      → From (Held ops) r
      → All (λ (p : Op Vol Str). is_kept p ≡ true → NotOlder base p.id r) ops
      → index_of r ≡ some i
      → Oldest base ops i
  found-Oldest base ops i none h a e = absurd (ground arith)
  found-Oldest base ops i (some (j, id)) h a e =
      let k : j ≡ i = ground arith in
      (
        h.0,
        subst (λ n. get_elem? ops n ≡ some h.0) k h.1,
        h.2,
        subst
            (λ n.
              All (λ (p : Op Vol Str). (is_kept p && ltb (sub32 p.id base) (sub32 n base)) ≡ false)
                ops)
            (sym h.3) (none_older base id ops a),
      )

  -- Where the numbers of the kept writes can be told apart by age, the slot that `take` picks holds
  -- a kept write and no kept write is older.
  pub oldest-Oldest :
      (base : ℕ) (ops : List (Op Vol Str)) (i : ℕ)
      → base < 2 ^ 32
      → Near base ops
      → oldest ops ≡ some i
      → Oldest base ops i
  unfolding oldest
  oldest-Oldest base ops i hb n e =
      found-Oldest base ops i (oldest_from ops 0 none)
        (oldest_from-From (Held ops) ops 0 none tt
          (λ j o g t. subst (λ k. Held ops k o.id) (omega arith) (o, g, t, refl)))
        (oldest_from_lem base ops 0 none hb n tt).0 e

  oldest_from_some :
      (ops : List (Op Vol Str)) (i : ℕ) (best : Option (ℕ × ℕ))
      → oldest_from ops i best ≡ none
      → (best ≡ none) × All (λ (o : Op Vol Str). is_kept o ≡ false) ops
  unfolding oldest_from
  oldest_from_some [] i best e = (e, tt)
  oldest_from_some (o ∷ os) i best e =
      let r = oldest_from_some os (i + 1) (if is_kept o then older_of best i o.id else best) e in
      let n = next_none (is_kept o) best i o.id r.0 in (n.0, (n.1, r.1))

  -- A kept write is never passed over: `take` picks none only where there is none.
  pub oldest-none :
      (ops : List (Op Vol Str))
      → oldest ops ≡ none
      → All (λ (o : Op Vol Str). is_kept o ≡ false) ops
  unfolding oldest
  oldest-none ops e = (oldest_from_some ops 0 none (index_of-none (oldest_from ops 0 none) e)).1

  -- The slot for a new write is never a live one's.
  free_from_lem :
      (P : ℕ → Type 0) (ops : List (Op Vol Str)) (i k : ℕ) (best : Option (ℕ × ℕ))
      → From (λ j id. P j) best
      → ((j : ℕ) (o : Op Vol Str) → get_elem? ops j ≡ some o → is_live o ≡ false → P (j + i))
      → free_from ops i best ≡ some k
      → P k
  unfolding free_from
  free_from_lem P [] i k none h g e = absurd (ground arith)
  free_from_lem P [] i k (some (j, id)) h g e = subst P (ground arith) h
  free_from_lem P (o ∷ os) i k best h g e =
      if_split (λ r. r ≡ some k → P k) (is_empty_state o.state) {x = some i}
        {y = free_from os (i + 1) (if is_live o then best else older_of best i o.id)}
        (λ t f. subst P (add_zero i k f) (g 0 o refl (empty_dead o.state t)))
        (λ t f.
          free_from_lem P os (i + 1) k (if is_live o then best else older_of best i o.id)
            (if_split (From (λ j id. P j)) (is_live o) (λ l. h)
              (λ l. From-older (λ j id. P j) i o.id best h (subst P (omega arith) (g 0 o refl l))))
            (λ j p q l. subst P (omega arith) (g (suc j) p q l)) f)
        e

  pub free_slot-dead :
      (ops : List (Op Vol Str)) (k : ℕ)
      → free_slot ops ≡ some k
      → (o : Op Vol Str) × (get_elem? ops k ≡ some o) × (is_live o ≡ false)
  unfolding free_slot
  free_slot-dead ops k e =
      free_from_lem (λ j. (o : Op Vol Str) × (get_elem? ops j ≡ some o) × (is_live o ≡ false)) ops 0
        k none tt (λ j o g l. (o, subst (λ n. get_elem? ops n ≡ some o) (omega arith) g, l)) e

  free_from-none :
      (ops : List (Op Vol Str)) (i : ℕ) (best : Option (ℕ × ℕ))
      → free_from ops i best ≡ none
      → (best ≡ none) × All (λ (o : Op Vol Str). is_live o ≡ true) ops
  unfolding free_from
  free_from-none [] i best e = (index_of-none best e, tt)
  free_from-none (o ∷ os) i best e =
      if_split (λ r. r ≡ none → (best ≡ none) × All (λ (o : Op Vol Str). is_live o ≡ true) (o ∷ os))
        (is_empty_state o.state) {x = some i}
        {y = free_from os (i + 1) (if is_live o then best else older_of best i o.id)}
        (λ t f. absurd (ground arith))
        (λ t f.
          let r = free_from-none os (i + 1) (if is_live o then best else older_of best i o.id) f in
          let n = live_none (is_live o) best i o.id r.0 in (n.0, (n.1, r.1)))
        e

  -- A new write is turned away for want of a slot only where every slot holds a live write.
  pub free_slot-none :
      (ops : List (Op Vol Str))
      → free_slot ops ≡ none
      → All (λ (o : Op Vol Str). is_live o ≡ true) ops
  unfolding free_slot
  free_slot-none ops e = (free_from-none ops 0 none e).1
