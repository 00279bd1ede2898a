-- ===== src/Gate/Laws/Queue.antt =====
-- The queue of the blocking writers, lib/ESPRack/src/power/WriteGateCore.cpp.
use esp_rack.Prelude.{
  ℕ, suc, ◌+◌, ◌<◌, ◌≡◌, ◌≢◌, ◌⊎◌, inl, inr, arith, Option, none, some, List, [], ◌∷◌, ◌++◌, ◌==◌,
  if◌then◌else◌, length, Option-cases, ◌-◌,
}
use esp_rack.Prelude.Word.{u16}
use esp_rack.Gate.{Gate, max_queue, join, quit, without}

-- How many tickets stand before one in the queue.
unfoldable pub ahead : ℕ → List ℕ → Option ℕ
ahead t [] = none
ahead t (x ∷ xs) =
    if x == t then some 0 else elim (ahead t xs) [ none ↦ none | some k ↦ some (suc k) ]

ahead-append : (t u k : ℕ) (xs : List ℕ) → ahead t xs ≡ some k → ahead t (xs ++ u ∷ []) ≡ some k
unfolding ahead
ahead-append t u k [] h = cc
ahead-append t u k (x ∷ xs) h = elim (Option-cases (ahead t xs)) [
  | inl e ↦ ground arith
  | inr (j, e) ↦ ground (arith, ahead-append t u j xs e)
]

ahead-without :
    (t u k : ℕ) (xs : List ℕ)
    → u ≢ t
    → ahead t xs ≡ some k
    → (ahead t (without u xs) ≡ some k) ⊎ ((0 < k) × (ahead t (without u xs) ≡ some (k - 1)))
unfolding ahead without
ahead-without t u k [] n h = cc
ahead-without t u k (x ∷ xs) n h = elim (Option-cases (ahead t xs)) [
  | inl e ↦ ground arith
  | inr (j, e) ↦ ground (arith, ahead-without t u j xs n e)
]

ahead-last : (t : ℕ) (xs : List ℕ) → ahead t xs ≡ none → ahead t (xs ++ t ∷ []) ≡ some (length xs)
unfolding ahead
ahead-last t [] h = ground arith
ahead-last t (x ∷ xs) h = ground (arith, ahead-last t xs)

abbrev ticket_of : Gate → ℕ
ticket_of g = if g.next_ticket == 0 then u16 (g.next_ticket + 1) else g.next_ticket

-- A new ticket is not 0 and, where it is not in the queue already, stands behind everyone who waits.
pub join_behind :
    (g : Gate) (now : ℕ)
    → length g.queue < max_queue
    → ahead (join g now).0 g.queue ≡ none
    → ((join g now).0 ≢ 0) × (ahead (join g now).0 (join g now).1.queue ≡ some (length g.queue))
unfolding join
join_behind g now h n = (ground arith, ground (arith, ahead-last (ticket_of g) g.queue))

-- No ticket gets more in front of it when another writer joins.
pub join-ahead :
    (g : Gate) (now t k : ℕ) → ahead t g.queue ≡ some k → ahead t (join g now).1.queue ≡ some k
unfolding join
join-ahead g now t k h = ground (arith, ahead-append t (ticket_of g) k g.queue h)

-- When another writer stops waiting a ticket keeps its place or moves up by one.
pub quit-ahead :
    (g : Gate) (t u k : ℕ)
    → u ≢ t
    → ahead t g.queue ≡ some k
    → (ahead t (quit g u).queue ≡ some k) ⊎ ((0 < k) × (ahead t (quit g u).queue ≡ some (k - 1)))
unfolding quit
quit-ahead g t u k n h = ground (arith, ahead-without t u k g.queue n h)
