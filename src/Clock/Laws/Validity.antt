-- ===== src/Clock/Laws/Validity.antt =====
-- The clock's validity and its uncertainty, lib/ESPRack/src/time/TimeArbiter.cpp.
use esp_rack.Prelude.{
  ℕ, ◌+◌, ◌*◌, ◌^◌, ◌<◌, ◌≤◌, ◌≡◌, ◌∙◌, ap, arith, Bool, true, false, ltb, not, ◌&&◌, if◌then◌else◌,
}
use native.Mathlib.Nat.{mul-le-mul_right}
use esp_rack.Clock.{
  TimeSource, no_source, rtc_hold, manual, ext_rtc, gps, ntp, Policy, Now, Arbiter, mono_age, drift,
  uncertainty, valid, accept, u64, saturate,
}

age_mono : (m n t : ℕ) → m ≤ n → mono_age m t ≤ mono_age n t
age_mono m n t h = ground arith

u64_mono : (a b : ℕ) → a ≤ b → b < 2 ^ 64 → u64 a ≤ u64 b
u64_mono a b h w = omega arith

drift_mono : (p : Policy) (a b : ℕ) → a ≤ b → b * p.hold_drift_ppm < 2 ^ 64 → drift p a ≤ drift p b
drift_mono p a b h w =
    let i =
      u64_mono (a * p.hold_drift_ppm) (b * p.hold_drift_ppm) (mul-le-mul_right p.hold_drift_ppm h)
        w in
    omega arith

drift-bound : (p : Policy) (a : ℕ) → drift p a < 2 ^ 63
drift-bound p a = omega arith

saturate_mono : (a b : ℕ) → a ≤ b → saturate a ≤ saturate b
saturate_mono a b h = ground arith

known : ℕ → Policy → ℕ → ℕ
known acc p age = saturate (u64 (acc + drift p age))

known_mono :
    (acc : ℕ) (p : Policy) (a b : ℕ)
    → a ≤ b
    → b * p.hold_drift_ppm < 2 ^ 64
    → acc < 2 ^ 32
    → known acc p a ≤ known acc p b
unfolding known
known_mono acc p a b h w r =
    let i = drift_mono p a b h w in
    let j = drift-bound p b in
    saturate_mono (u64 (acc + drift p a)) (u64 (acc + drift p b))
      (u64_mono (acc + drift p a) (acc + drift p b) (omega arith) (omega arith))

valid_of : (has : Bool) (k l m : ℕ) → k ≤ l → (has && ltb l m) ≡ true → (has && ltb k m) ≡ true
valid_of has k l m h v = ground arith

pick_mono :
    (has : Bool) (k l : ℕ)
    → k ≤ l
    → (if not has then 0xffffffff else k) ≤ (if not has then 0xffffffff else l)
pick_mono true k l h = h
pick_mono false k l h = omega arith

-- As time passes with no call the clock's uncertainty only grows, as long as the drift fits 64 bits.
pub uncertainty-mono :
    (a : Arbiter) (earlier later : Now)
    → earlier.mono ≤ later.mono
    → mono_age later.mono a.ref_mono * a.policy.hold_drift_ppm < 2 ^ 64
    → a.ref_acc < 2 ^ 32
    → uncertainty a earlier ≤ uncertainty a later
unfolding uncertainty known
uncertainty-mono a earlier later h w r =
    pick_mono a.has_ref (known a.ref_acc a.policy (mono_age earlier.mono a.ref_mono))
      (known a.ref_acc a.policy (mono_age later.mono a.ref_mono))
      (known_mono a.ref_acc a.policy (mono_age earlier.mono a.ref_mono)
        (mono_age later.mono a.ref_mono) (age_mono earlier.mono later.mono a.ref_mono h) w r)

-- As time passes with no call a clock that is not valid does not become valid, as long as the drift
-- fits 64 bits.
pub valid_earlier :
    (a : Arbiter) (earlier later : Now)
    → earlier.mono ≤ later.mono
    → mono_age later.mono a.ref_mono * a.policy.hold_drift_ppm < 2 ^ 64
    → a.ref_acc < 2 ^ 32
    → valid a later ≡ true
    → valid a earlier ≡ true
unfolding valid
valid_earlier a earlier later h w r v =
    valid_of a.has_ref (uncertainty a earlier) (uncertainty a later) a.policy.max_uncertainty
      (uncertainty-mono a earlier later h w r) v

drift-zero : (p : Policy) → drift p 0 ≡ 0
drift-zero p = omega arith

fresh-known :
    (acc : ℕ) (p : Policy) (m : ℕ)
    → acc < 0xffffffff
    → saturate (u64 (acc + drift p (mono_age m m))) ≡ acc
fresh-known acc p m h =
    let i : mono_age m m ≡ 0 = ground arith in
    let j : drift p (mono_age m m) ≡ 0 = ap (drift p) i ∙ drift-zero p in ground arith

pub accept-valid :
    (a : Arbiter) (src : TimeSource) (now : Now) (acc : ℕ)
    → acc < 0xffffffff
    → valid (accept a src now acc) now ≡ ltb acc a.policy.max_uncertainty
unfolding valid uncertainty accept
accept-valid a no_source now acc h =
    ap (λ u. ltb u a.policy.max_uncertainty) (fresh-known acc a.policy now.mono h)
accept-valid a rtc_hold now acc h =
    ap (λ u. ltb u a.policy.max_uncertainty) (fresh-known acc a.policy now.mono h)
accept-valid a manual now acc h =
    ap (λ u. ltb u a.policy.max_uncertainty) (fresh-known acc a.policy now.mono h)
accept-valid a ext_rtc now acc h =
    ap (λ u. ltb u a.policy.max_uncertainty) (fresh-known acc a.policy now.mono h)
accept-valid a gps now acc h =
    ap (λ u. ltb u a.policy.max_uncertainty) (fresh-known acc a.policy now.mono h)
accept-valid a ntp now acc h =
    ap (λ u. ltb u a.policy.max_uncertainty) (fresh-known acc a.policy now.mono h)
