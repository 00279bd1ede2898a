-- ===== src/Gate/Inv/Holders.antt =====
-- The calls of a holder, lib/ESPRack/src/power/WriteGateCore.cpp, keep the gate's invariant.
use Prim.Native.String.{String}
use esp_rack.Prelude.{
  ℕ, zero, suc, ◌<◌, ◌≡◌, inl, inr, refl, arith, Bool, true, false, Option, List, [], ◌∷◌, length,
  length-set, set, get_or, ltb, ltb→lt, Bool-cases,
}
use esp_rack.Prelude.Int.{ℤ, pos, negsuc}
use esp_rack.Gate.{
  Holder, no_holder, Gate, max_holders, clamp, add_holder, open_at, open_window, close_registered,
  close_at, close_quiet, close_forecast, holder_at, window_open, open_holder, close_holder,
  or_unnamed, start_overlap, end_overlap, end_window,
}
use esp_rack.Gate.Inv.{any_open, IsValid}
use esp_rack.Gate.Inv.Sweep.{window_open-IsValid, clamp-IsValid}

any_open-set :
    (xs : List Holder) (i : ℕ) (x : Holder)
    → i < length xs
    → x.is_open ≡ true
    → any_open (set xs i x) ≡ true
any_open-set [] i x h o = absurd (omega arith)
any_open-set (y ∷ xs) zero x h o = ground arith
any_open-set (y ∷ xs) (suc i) x h o = ground (arith, any_open-set xs i x)

-- A holder's name does not open it.
any_open-set_named :
    (xs : List Holder) (i : ℕ) (n : String)
    → any_open (set xs i (record (get_or xs i no_holder) { name = n })) ≡ any_open xs
any_open-set_named [] i n = refl
any_open-set_named (y ∷ xs) zero n = refl
any_open-set_named (y ∷ xs) (suc i) n = ground (arith, any_open-set_named xs i n)

any_open_of_get :
    (xs : List Holder) (i : ℕ) → (get_or xs i no_holder).is_open ≡ true → any_open xs ≡ true
any_open_of_get [] i h = cc
any_open_of_get (y ∷ xs) zero h = ground arith
any_open_of_get (y ∷ xs) (suc i) h = ground (arith, any_open_of_get xs i)

pub add_holder-IsValid :
    (g : Gate) (name : Option String) → IsValid g → IsValid (add_holder g name).1
unfolding add_holder
add_holder-IsValid g name v = ground (
  arith,
  any_open-set_named g.holders g.count (or_unnamed name),
  length-set g.holders g.count
      (record (get_or g.holders g.count no_holder) { name = or_unnamed name }),
)

open_holder-IsValid :
    (g : Gate) (i now : ℕ) → i < max_holders → IsValid g → IsValid (open_holder g i now)
unfolding open_holder start_overlap
open_holder-IsValid g i now h v =
    let x : Holder = record (holder_at g i) { is_open = true; opened_at = now; forecast = false } in
    ground (arith, any_open-set g.holders i x, length-set g.holders i x)

open_at-IsValid : (g : Gate) (i now : ℕ) → i < max_holders → IsValid g → IsValid (open_at g i now)
unfolding open_at
open_at-IsValid g i now h v =
    let v' = window_open-IsValid g now v in
    ground (arith, v', open_holder-IsValid (window_open g now).1 i now h v')

pub open_window-IsValid : (g : Gate) (h : ℤ) (now : ℕ) → IsValid g → IsValid (open_window g h now)
unfolding open_window
open_window-IsValid g (negsuc h) now v = v
open_window-IsValid g (pos h) now v = elim (Bool-cases (ltb h g.count)) [
  | inl e ↦
      rw (e, open_window)
        (open_at-IsValid (clamp g now).1 h (clamp g now).0
          (omega (arith, ltb→lt h g.count e, v.registered)) (clamp-IsValid g now v))
  | inr e ↦ rw (e, open_window) v
]

close_holder-IsValid :
    (g : Gate) (i now : ℕ) (f : Bool) (n : ℕ)
    → any_open g.holders ≡ true
    → IsValid g
    → IsValid (close_holder g i now f n)
unfolding close_holder end_window end_overlap
close_holder-IsValid g i now f n o v =
    let x : Holder = record (holder_at g i) { is_open = false; forecast = f; next_at = n } in
    ground (arith, length-set g.holders i x)

close_registered-IsValid :
    (g : Gate) (i now : ℕ) (f : Bool) (n : ℕ) → IsValid g → IsValid (close_registered g i now f n)
unfolding close_registered
close_registered-IsValid g i now f n v =
    let v' = window_open-IsValid g now v in
    let g' = (window_open g now).1 in
    ground (arith, v', any_open_of_get g'.holders i, close_holder-IsValid g' i now f n)

close_at-IsValid :
    (g : Gate) (h : ℤ) (now : ℕ) (f : Bool) (n : ℕ) → IsValid g → IsValid (close_at g h now f n)
unfolding close_at
close_at-IsValid g (negsuc h) now f n v = v
close_at-IsValid g (pos h) now f n v = elim (Bool-cases (ltb h g.count)) [
  | inl e ↦ rw (e, close_at) (close_registered-IsValid g h now f n v)
  | inr e ↦ rw (e, close_at) v
]

pub close_quiet-IsValid : (g : Gate) (h : ℤ) (now : ℕ) → IsValid g → IsValid (close_quiet g h now)
unfolding close_quiet
close_quiet-IsValid g h now v = close_at-IsValid _ h _ false 0 (clamp-IsValid g now v)

pub close_forecast-IsValid :
    (g : Gate) (h : ℤ) (now : ℕ) (p : ℤ) → IsValid g → IsValid (close_forecast g h now p)
unfolding close_forecast
close_forecast-IsValid g h now p v = close_at-IsValid _ h _ true _ (clamp-IsValid g now v)
