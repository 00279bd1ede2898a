-- ===== src/FsQueue/Laws/Status.antt =====
-- What forEachPending hands out: the writes that are not finished, and their order.
use esp_rack.Prelude.{
  subst, ℕ, ◌+◌, ◌^◌, ◌<◌, ◌≤◌, ◌≡◌, refl, Bool, true, false, some, List, [], ◌∷◌, arith,
  if◌then◌else◌, if_split, if_elim, All,
}
use esp_rack.Prelude.Word.{sub32, is_neg32}
use esp_rack.FsQueue.Types.{Op, is_live_state, Status, FsQueue}
use esp_rack.FsQueue.Slots.{copy, pending_list, insert_last, sort_last, from_start}
use esp_rack.FsQueue.Run.{for_each_pending}

module _ {Str : Type 0} where
  abbrev pub count : (Status Str → Bool) → List (Status Str) → ℕ
  count p [] = 0
  count p (x ∷ xs) = (if p x then 1 else 0) + count p xs

  -- The age of a write after a base, and lists by age: the newest first, and the oldest first.
  abbrev age : ℕ → Status Str → ℕ
  age base x = sub32 x.id base

  abbrev pub NearStatus : ℕ → Status Str → Type 0
  NearStatus base x = (x.id < 2 ^ 32) × (sub32 x.id base < 2 ^ 31)

  abbrev NewestFirst : ℕ → List (Status Str) → Type 0
  NewestFirst base [] = Unit
  NewestFirst base (x ∷ xs) =
      All (λ (y : Status Str). sub32 y.id base ≤ sub32 x.id base) xs × NewestFirst base xs

  abbrev pub OldestFirst : ℕ → List (Status Str) → Type 0
  OldestFirst base [] = Unit
  OldestFirst base (x ∷ xs) =
      All (λ (y : Status Str). sub32 x.id base ≤ sub32 y.id base) xs × OldestFirst base xs

  count-insert_last :
      (p : Status Str → Bool) (x : Status Str) (ys : List (Status Str))
      → count p (insert_last x ys) ≡ (if p x then 1 else 0) + count p ys
  unfolding insert_last
  count-insert_last p x [] = refl
  count-insert_last p x (y ∷ ys) = ground (arith, count-insert_last p x ys)

  count-sort_last :
      (p : Status Str → Bool) (xs ys : List (Status Str))
      → count p (sort_last xs ys) ≡ count p xs + count p ys
  unfolding sort_last
  count-sort_last p [] ys = omega arith
  count-sort_last p (x ∷ xs) ys =
      omega (arith, count-sort_last p xs (insert_last x ys), count-insert_last p x ys)

  count-from_start :
      (p : Status Str → Bool) (xs ys : List (Status Str))
      → count p (from_start xs ys) ≡ count p xs + count p ys
  unfolding from_start
  count-from_start p [] ys = omega arith
  count-from_start p (x ∷ xs) ys = omega (arith, count-from_start p xs (x ∷ ys))

  All-insert_last :
      (P : Status Str → Type 0) (x : Status Str) (ys : List (Status Str))
      → P x
      → All P ys
      → All P (insert_last x ys)
  unfolding insert_last
  All-insert_last P x [] px h = (px, tt)
  All-insert_last P x (y ∷ ys) px h =
      if_elim (All P) (is_neg32 (sub32 x.id y.id)) (h.0, All-insert_last P x ys px h.1) (px, h)

  age_le_trans :
      (base k : ℕ) (x : Status Str) (ys : List (Status Str))
      → sub32 x.id base ≤ k
      → All (λ (y : Status Str). sub32 y.id base ≤ sub32 x.id base) ys
      → All (λ (y : Status Str). sub32 y.id base ≤ k) ys
  age_le_trans base k x [] h a = tt
  age_le_trans base k x (y ∷ ys) h a = (omega (arith, a.0), age_le_trans base k x ys h a.1)

  older_le :
      (base : ℕ) (x y : Status Str)
      → base < 2 ^ 32
      → NearStatus base x
      → NearStatus base y
      → ((is_neg32 (sub32 x.id y.id) ≡ true → sub32 x.id base ≤ sub32 y.id base)
          × (is_neg32 (sub32 x.id y.id) ≡ false → sub32 y.id base ≤ sub32 x.id base))
  older_le base x y hb nx ny = (λ t. ground arith, λ f. ground arith)

  insert_last-NewestFirst :
      (base : ℕ) (x : Status Str) (ys : List (Status Str))
      → base < 2 ^ 32
      → NearStatus base x
      → All (NearStatus base) ys
      → NewestFirst base ys
      → NewestFirst base (insert_last x ys)
  unfolding insert_last
  insert_last-NewestFirst base x [] hb nx n h = (tt, tt)
  insert_last-NewestFirst base x (y ∷ ys) hb nx n h =
      let o = older_le base x y hb nx n.0 in
      if_split (NewestFirst base) (is_neg32 (sub32 x.id y.id))
        (λ t. (
          All-insert_last (λ (z : Status Str). sub32 z.id base ≤ sub32 y.id base) x ys (o.0 t) h.0,
          insert_last-NewestFirst base x ys hb nx n.1 h.1,
        ))
        (λ f. ((o.1 f, age_le_trans base (sub32 x.id base) y ys (o.1 f) h.0), h))

  sort_last-NewestFirst :
      (base : ℕ) (xs ys : List (Status Str))
      → base < 2 ^ 32
      → All (NearStatus base) xs
      → All (NearStatus base) ys
      → NewestFirst base ys
      → NewestFirst base (sort_last xs ys)
  unfolding sort_last
  sort_last-NewestFirst base [] ys hb nx ny h = h
  sort_last-NewestFirst base (x ∷ xs) ys hb nx ny h =
      sort_last-NewestFirst base xs (insert_last x ys) hb nx.1
        (All-insert_last (NearStatus base) x ys nx.0 ny)
        (insert_last-NewestFirst base x ys hb nx.0 ny h)

  below :
      (base : ℕ) (x : Status Str) (xs ys : List (Status Str))
      → All (λ (z : Status Str). sub32 z.id base ≤ sub32 x.id base) xs
      → All (λ (z : Status Str). All (λ (y : Status Str). sub32 z.id base ≤ sub32 y.id base) ys) xs
      → All
          (λ (z : Status Str). All (λ (y : Status Str). sub32 z.id base ≤ sub32 y.id base) (x ∷ ys))
          xs
  below base x [] ys h k = tt
  below base x (z ∷ zs) ys h k = ((h.0, k.0), below base x zs ys h.1 k.1)

  All-empty :
      (base : ℕ) (xs : List (Status Str))
      → All (λ (x : Status Str). All (λ (y : Status Str). sub32 x.id base ≤ sub32 y.id base) []) xs
  All-empty base [] = tt
  All-empty base (x ∷ xs) = (tt, All-empty base xs)

  from_start-OldestFirst :
      (base : ℕ) (xs ys : List (Status Str))
      → NewestFirst base xs
      → OldestFirst base ys
      → All (λ (x : Status Str). All (λ (y : Status Str). sub32 x.id base ≤ sub32 y.id base) ys) xs
      → OldestFirst base (from_start xs ys)
  unfolding from_start
  from_start-OldestFirst base [] ys h k b = k
  from_start-OldestFirst base (x ∷ xs) ys h k b =
      from_start-OldestFirst base xs (x ∷ ys) h.1 (b.0, k) (below base x xs ys h.0 b.1)

module _ {Vol Str : Type 0} where
  -- The writes in the slots that are going, kept or running and of which p holds, counted.
  abbrev pub unfinished : (Status Str → Bool) → List (Op Vol Str) → ℕ
  unfinished p [] = 0
  unfinished p (o ∷ os) =
      (if is_live_state o.state then (if p (copy o) then 1 else 0) else 0) + unfinished p os

  abbrev pub IsNearOp : ℕ → Op Vol Str → Type 0
  IsNearOp base o = (o.id < 2 ^ 32) × (sub32 o.id base < 2 ^ 31)

  count-pending_list :
      (p : Status Str → Bool) (os : List (Op Vol Str)) → count p (pending_list os) ≡ unfinished p os
  unfolding pending_list
  count-pending_list p [] = refl
  count-pending_list p (o ∷ os) = ground (arith, count-pending_list p os)

  pending_list-Near :
      (base : ℕ) (os : List (Op Vol Str))
      → All (IsNearOp base) os
      → All (NearStatus base) (pending_list os)
  unfolding pending_list
  pending_list-Near base [] h = tt
  pending_list-Near base (o ∷ os) h =
      let rest = pending_list-Near base os h.1 in
      if_elim (All (NearStatus base)) (is_live_state o.state) (h.0, rest) rest

module _ {F Vol Str : Type 0} where
  -- `forEachPending` hands out every write in the slots that is going, kept or running, as often as
  -- it stands there, and no other, the oldest first, where the numbers in the slots can be told
  -- apart by age.
  pub for_each_pending-OldestFirst :
      (base : ℕ) (q : FsQueue F Vol Str) (l : List (Status Str))
      → base < 2 ^ 32
      → All (IsNearOp base) q.ops
      → for_each_pending q true ≡ some l
      → OldestFirst base l × ((p : Status Str → Bool) → count p l ≡ unfinished p q.ops)
  unfolding for_each_pending
  for_each_pending-OldestFirst base q l hb near e =
      let n = pending_list-Near base q.ops near in
      let e2 : from_start (sort_last (pending_list q.ops) []) [] ≡ l = ground arith in
      subst (λ l. OldestFirst base l × ((p : Status Str → Bool) → count p l ≡ unfinished p q.ops))
        e2
        (
          from_start-OldestFirst base (sort_last (pending_list q.ops) []) []
              (sort_last-NewestFirst base (pending_list q.ops) [] hb n tt tt) tt
              (All-empty base (sort_last (pending_list q.ops) [])),
          λ p. omega (
            arith,
            count-from_start p (sort_last (pending_list q.ops) []) [],
            count-sort_last p (pending_list q.ops) [],
            count-pending_list p q.ops,
          ),
        )
