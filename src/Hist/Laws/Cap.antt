-- ===== src/Hist/Laws/Cap.antt =====
-- What retention leaves, against the cap.
use esp_rack.Prelude.{
  ℕ, ◌+◌, ◌^◌, ◌≤◌, ◌<◌, ◌≡◌, ◌≢◌, refl, sym, subst, Bool, true, false, ◌||◌, ◌&&◌, List, [], ◌∷◌,
  arith, ◌⊎◌, inl, inr, ltb,
}
use esp_rack.Hist.Retain.{SegInfo, more, horizon_of, retention}
use esp_rack.Hist.Laws.Retain.{
  all_bytes, fresh_bytes, live, kept_bytes, newest_bytes, over_cap, wanted, retention-wanted,
}

turn_kept :
    (m o k : Bool) (s : SegInfo) (a b : ℕ)
    → a ≤ b
    → fresh_bytes (m && (o || k)) s + a ≤ fresh_bytes (m && o) s + b
turn_kept false o k s a b h = omega arith
turn_kept true false false s a b h = omega arith
turn_kept true false true s a b h = omega arith
turn_kept true true k s a b h = omega arith

kept_bytes-wanted :
    (h max_bytes : ℕ) (ss : List SegInfo) → kept_bytes (wanted h max_bytes ss) ≤ live h ss
kept_bytes-wanted h max_bytes [] = omega arith
kept_bytes-wanted h max_bytes (s ∷ ss) =
    turn_kept (more ss) (ltb s.newest_t h) (over_cap max_bytes (live h (s ∷ ss))) s _ _
      (kept_bytes-wanted h max_bytes ss)

-- What stays fits, or it is the newest segment alone.
abbrev pub Trimmed : ℕ → ℕ → ℕ → Type 0
Trimmed max_bytes newest kept = (kept ≤ max_bytes) ⊎ (kept ≡ newest)

Trimmed-same :
    (max_bytes newest kept : ℕ)
    → Trimmed max_bytes newest kept
    → Trimmed max_bytes newest (0 + kept)
Trimmed-same max_bytes newest kept (inl h) = inl (omega arith)
Trimmed-same max_bytes newest kept (inr h) = inr (omega arith)

turn-Trimmed :
    (o k : Bool) (s : SegInfo) (max_bytes newest kept live_rest : ℕ)
    → kept ≤ live_rest
    → (k ≡ false → fresh_bytes o s + live_rest ≤ max_bytes)
    → Trimmed max_bytes newest kept
    → Trimmed max_bytes newest (fresh_bytes (o || k) s + kept)
turn-Trimmed true k s max_bytes newest kept live_rest le under t =
    Trimmed-same max_bytes newest kept t
turn-Trimmed false true s max_bytes newest kept live_rest le under t =
    Trimmed-same max_bytes newest kept t
turn-Trimmed false false s max_bytes newest kept live_rest le under t =
    inl (omega (arith, le, under refl))

under_cap : (max_bytes n : ℕ) → max_bytes ≢ 0 → over_cap max_bytes n ≡ false → n ≤ max_bytes
under_cap max_bytes n nz e = ground arith

wanted-Trimmed :
    (h max_bytes : ℕ) (ss : List SegInfo)
    → max_bytes ≢ 0
    → Trimmed max_bytes (newest_bytes ss) (kept_bytes (wanted h max_bytes ss))
wanted-Trimmed h max_bytes [] nz = inl (omega arith)
wanted-Trimmed h max_bytes (s ∷ []) nz = inr (omega arith)
wanted-Trimmed h max_bytes (s ∷ (r ∷ ss)) nz =
    turn-Trimmed (ltb s.newest_t h) (over_cap max_bytes (live h (s ∷ (r ∷ ss)))) s max_bytes _ _
      (live h (r ∷ ss)) (kept_bytes-wanted h max_bytes (r ∷ ss))
      (under_cap max_bytes (live h (s ∷ (r ∷ ss))) nz) (wanted-Trimmed h max_bytes (r ∷ ss) nz)

-- Where there is a cap, and all the lengths add up to less than 2 ^ 64, what `retention` leaves has
-- no more bytes than the cap, or as many as the newest segment alone.
pub retention-Trimmed :
    (ss : List SegInfo) (now keep_s max_bytes : ℕ)
    → all_bytes ss < 2 ^ 64
    → max_bytes ≢ 0
    → Trimmed max_bytes (newest_bytes ss) (kept_bytes (retention ss now keep_s max_bytes))
retention-Trimmed ss now keep_s max_bytes b nz =
    subst (λ ms. Trimmed max_bytes (newest_bytes ss) (kept_bytes ms))
      (sym (retention-wanted ss now keep_s max_bytes b))
      (wanted-Trimmed (horizon_of now keep_s) max_bytes ss nz)
