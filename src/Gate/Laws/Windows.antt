-- ===== src/Gate/Laws/Windows.antt =====
-- How long a window lasts, lib/ESPRack/src/power/WriteGateCore.cpp.
use esp_rack.Prelude.{ℕ, ◌<◌, ◌≡◌, arith, true, ◌&&◌, not, List, All, subst, sym, if_elim, refl}
use esp_rack.Prelude.Word.{sub32}
use esp_rack.Gate.{
  Holder, Gate, Sweep, clamp, window_open, expire, after_sweep, sweep, no_sweep, end_window,
  end_overlap,
}
use esp_rack.Gate.Inv.Sweep.{sweep-young, clamp-Kept}

end_window-holders : (g : Gate) (at : ℕ) → (end_window g at).holders ≡ g.holders
unfolding end_window end_overlap
end_window-holders g at = ground arith

after_sweep-holders :
    (g : Gate) (xs : List Holder) (s : Sweep) → (after_sweep g (xs, s)).1.holders ≡ xs
unfolding after_sweep
after_sweep-holders g xs s =
    if_elim (λ (r : Gate). r.holders ≡ xs) (s.ended && not s.still_open)
      (end_window-holders _ s.end_at) refl

-- A window that is open, at the time it was asked at.
Young : ℕ → ℕ → Holder → Type 0
Young limit now x = x.is_open ≡ true → sub32 now x.opened_at < limit

expire-Young : (g : Gate) (now : ℕ) → All (Young g.config.max_window now) (expire g now).1.holders
unfolding expire Young
expire-Young g now =
    let (xs, s) = sweep g.config.max_window now g.holders (no_sweep g) in
    subst (All (Young g.config.max_window now)) (sym (after_sweep-holders g xs s))
      (sweep-young g.config.max_window now g.holders (no_sweep g))

-- No window outlives maxWindowMs: once the gate was asked, each holder's window that is still open is
-- younger than that at the (clamped) time.
pub window_open-Young :
    (g : Gate) (now : ℕ)
    → All
        (λ x. x.is_open ≡ true → sub32 (clamp g now).0 x.opened_at < g.config.max_window)
        (window_open g now).1.holders
unfolding window_open Young
window_open-Young g now =
    let (now', c) = clamp g now in
    subst (λ cfg. All (Young cfg.max_window now') (expire c now').1.holders)
      (clamp-Kept g now).config (expire-Young c now')
