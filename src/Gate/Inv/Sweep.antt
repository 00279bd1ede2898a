-- ===== src/Gate/Inv/Sweep.antt =====
-- The loop of `windowOpen`, lib/ESPRack/src/power/WriteGateCore.cpp, and what the call leaves.
use esp_rack.Prelude.{
  ℕ, suc, ◌<◌, ◌≡◌, refl, ap, arith, true, false, ◌||◌, List, [], ◌∷◌, All, length,
}
use esp_rack.Prelude.Word.{sub32}
use esp_rack.Gate.{
  Holder, Gate, Sweep, clamp, sweep_one, sweep, no_sweep, after_sweep, expire, window_open,
  end_window, end_overlap,
}
use esp_rack.Gate.Inv.{any_open, IsValid}

module _ (max_window now : ℕ) where
  length-sweep : (xs : List Holder) (s : Sweep) → length (sweep max_window now xs s).0 ≡ length xs
  unfolding sweep
  length-sweep [] s = refl
  length-sweep (x ∷ xs) s = ap suc (length-sweep xs (sweep_one max_window now x s).1)

  -- The answer: some window was open before, or is open still.
  sweep-still_open :
      (xs : List Holder) (s : Sweep)
      → (sweep max_window now xs s).1.still_open
        ≡ (s.still_open || any_open (sweep max_window now xs s).0)
  unfolding sweep sweep_one
  sweep-still_open [] s = ground arith
  sweep-still_open (x ∷ xs) s = ground (arith, sweep-still_open xs (sweep_one max_window now x s).1)

  -- A window is closed by the loop exactly where the loop says that one ended.
  sweep-ended :
      (xs : List Holder) (s : Sweep)
      → let (ys, u) = sweep max_window now xs s in
        (s.ended ≡ true → u.ended ≡ true)
        × (any_open xs ≡ true → any_open ys ≡ false → u.ended ≡ true)
        × (any_open xs ≡ false → (any_open ys ≡ false) × (u.ended ≡ s.ended))
  unfolding sweep sweep_one
  sweep-ended [] s = ground arith
  sweep-ended (x ∷ xs) s = ground (arith, sweep-ended xs (sweep_one max_window now x s).1)

  -- Every window that the loop leaves open is younger than the limit.
  pub sweep-young :
      (xs : List Holder) (s : Sweep)
      → All
          (λ x. x.is_open ≡ true → sub32 now x.opened_at < max_window)
          (sweep max_window now xs s).0
  unfolding sweep sweep_one
  sweep-young [] s = tt
  sweep-young (x ∷ xs) s = (ground arith, sweep-young xs (sweep_one max_window now x s).1)

pub clamp-IsValid : (g : Gate) (now : ℕ) → IsValid g → IsValid (clamp g now).1
unfolding clamp
clamp-IsValid g now v = ground arith

-- What `windowOpen` leaves alone.
pub record Kept (g r : Gate) : Type 0 where
  pub config : r.config ≡ g.config
  pub count : r.count ≡ g.count
  pub ever_used : r.ever_used ≡ g.ever_used
  pub writing : r.writing ≡ g.writing
  pub queue : r.queue ≡ g.queue

after_sweep-Kept : (g : Gate) (xs : List Holder) (s : Sweep) → Kept g (after_sweep g (xs, s)).1
unfolding after_sweep end_window end_overlap
after_sweep-Kept g xs s = ground arith

pub clamp-Kept : (g : Gate) (now : ℕ) → Kept g (clamp g now).1
unfolding clamp
clamp-Kept g now = ground arith

pub Kept-trans : (g h r : Gate) → Kept g h → Kept h r → Kept g r
Kept-trans g h r a b = ground arith

pub window_open-Kept : (g : Gate) (now : ℕ) → Kept g (window_open g now).1
unfolding window_open expire
window_open-Kept g now =
    Kept-trans g (clamp g now).1 _ (clamp-Kept g now) (after_sweep-Kept (clamp g now).1 _ _)

after_sweep-any_open :
    (g : Gate) (xs : List Holder) (s : Sweep)
    → s.still_open ≡ any_open xs
    → (after_sweep g (xs, s)).0 ≡ any_open (after_sweep g (xs, s)).1.holders
unfolding after_sweep end_window end_overlap
after_sweep-any_open g xs s e = ground arith

-- The answer of `windowOpen` is whether a window is open in the gate that it leaves.
pub window_open-any_open :
    (g : Gate) (now : ℕ) → (window_open g now).0 ≡ any_open (window_open g now).1.holders
unfolding window_open expire
window_open-any_open g now =
    let (t, h) = clamp g now in
    after_sweep-any_open h _ _ (sweep-still_open h.config.max_window t h.holders (no_sweep h))

after_sweep-IsValid :
    (g : Gate) (xs : List Holder) (s : Sweep)
    → IsValid g
    → length xs ≡ length g.holders
    → s.still_open ≡ any_open xs
    → (any_open g.holders ≡ true → any_open xs ≡ false → s.ended ≡ true)
    → (any_open g.holders ≡ false → (any_open xs ≡ false) × (s.ended ≡ false))
    → IsValid (after_sweep g (xs, s)).1
unfolding after_sweep end_window end_overlap
after_sweep-IsValid g xs s v l o e n = ground arith

pub window_open-IsValid : (g : Gate) (now : ℕ) → IsValid g → IsValid (window_open g now).1
unfolding window_open expire
window_open-IsValid g now v =
    let (t, h) = clamp g now in
    let m : ℕ = h.config.max_window in
    let (_, closes, none_open) = sweep-ended m t h.holders (no_sweep h) in
    after_sweep-IsValid h _ _ (clamp-IsValid g now v) (length-sweep m t h.holders (no_sweep h))
      (sweep-still_open m t h.holders (no_sweep h)) closes none_open

after_sweep-holders :
    (g : Gate) (xs : List Holder) (s : Sweep) → (after_sweep g (xs, s)).1.holders ≡ xs
unfolding after_sweep end_window end_overlap
after_sweep-holders g xs s = ground arith
