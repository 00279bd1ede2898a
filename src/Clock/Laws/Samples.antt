-- ===== src/Clock/Laws/Samples.antt =====
-- What an offered sample does to the clock, `submit` of lib/ESPRack/src/time/TimeArbiter.cpp.
use esp_rack.Prelude.{ℕ, ◌≡◌, refl, subst, arith, Bool, true, false, not, ◌||◌, if◌then◌else◌}
use esp_rack.Prelude.Int.{ℤ, pos}
use esp_rack.Clock.{
  TimeSource, src_of, Now, Arbiter, Src, Verdict, TimeSample, SubmitResult, applied, confirmed,
  submit, submit_eligible, take_sample, turned_down, put, pend, unconfirmed, is_big_jump, eligible,
  base_of, delta_of, applied_utc, eval_dispute, record_base, valid, plausible, is_source,
}

-- A sample was accepted: the clock is its source's from now on.
unfoldable pub taken : SubmitResult → Bool
taken applied = true
taken confirmed = true
taken _ = false

-- What validity, staleness and uncertainty are read from.
pub record Clock : Type 0 where
  pub known : Bool
  pub since : ℕ
  pub accuracy : ℕ
  pub by_ntp_gps : Bool
  pub ntp_gps_since : ℕ
  pub ntp_gps_age : ℕ

unfoldable pub clock_of : Arbiter → Clock
clock_of a = record {
  known = a.has_ref;
  since = a.ref_mono;
  accuracy = a.ref_acc;
  by_ntp_gps = a.has_ntp_gps;
  ntp_gps_since = a.ntp_gps_mono;
  ntp_gps_age = a.ntp_gps_bias;
}

-- One verdict, by what it does to the clock `c`: a sample that is not taken leaves the clock, a step
-- is a step to the sample's time.
Sound : Clock → ℤ → Verdict × Arbiter → Type 0
Sound c utc (v, b) =
    (taken v.result ≡ false → clock_of b ≡ c)
    × (v.step_clock ≡ true → (v.result ≡ applied) × (v.set_utc ≡ utc))

take_sample-Sound :
    (c : Clock) (a : Arbiter) (smp : TimeSample) (now : Now) (w : Bool)
    → Sound c (applied_utc smp now) (take_sample a smp now w)
unfolding take_sample Sound taken
take_sample-Sound c a smp now w = ground arith

turned_down-Sound :
    (a b : Arbiter) (r : SubmitResult) (d utc : ℤ) (w : Bool)
    → clock_of b ≡ clock_of a
    → Sound (clock_of a) utc (turned_down r d w, b)
unfolding Sound
turned_down-Sound a b r d utc w h = (λ _. h, λ p. cc)

put-clock : (a : Arbiter) (src : TimeSource) (s : Src) → clock_of (put a src s) ≡ clock_of a
unfolding clock_of
put-clock a src s = refl

seen-clock :
    (a : Arbiter) (src : TimeSource) (b d : ℤ) (m : ℕ) (now : Now)
    → clock_of (eval_dispute (record_base a src b m d) now) ≡ clock_of a
unfolding clock_of eval_dispute record_base
seen-clock a src b d m now = refl

if-Sound :
    (t : Bool) (c : Clock) (utc : ℤ) (x y : Verdict × Arbiter)
    → (t ≡ true → Sound c utc x)
    → (t ≡ false → Sound c utc y)
    → Sound c utc (if t then x else y)
if-Sound true c utc x y f g = f refl
if-Sound false c utc x y f g = g refl

submit_eligible-Sound :
    (a : Arbiter) (smp : TimeSample) (now : Now) (w : Bool)
    → Sound (clock_of a) (applied_utc smp now) (submit_eligible a smp now w)
unfolding submit_eligible
submit_eligible-Sound a smp now w =
    let (_, s') = pend a.policy (src_of a.sources smp.src) (base_of smp) smp.sample_mono in
    if-Sound (is_big_jump a.policy smp (delta_of smp now) w) _ _ _ _
      (λ _.
        if-Sound (unconfirmed a.policy s' smp.sample_mono) _ _ _ _
          (λ _. turned_down-Sound a _ _ _ _ w (put-clock a smp.src s'))
          (λ _. take_sample-Sound _ _ smp now w))
      (λ _. take_sample-Sound _ _ smp now w)

submit-Sound :
    (a : Arbiter) (smp : TimeSample) (now : Now)
    → Sound (clock_of a) (applied_utc smp now) (submit a smp now)
unfolding submit
submit-Sound a smp now =
    let w = valid a now in
    let b =
      eval_dispute (record_base a smp.src (base_of smp) smp.sample_mono (delta_of smp now)) now in
    if-Sound (not (is_source smp.src) || not (plausible a smp.utc_ms)) _ _ _ _
      (λ _. turned_down-Sound a a _ (pos 0) _ w refl)
      (λ _.
        if-Sound (not (eligible b smp now w)) _ _ _ _
          (λ _. turned_down-Sound a b _ (delta_of smp now) _ w (seen-clock a _ _ _ _ _))
          (λ _.
            subst (λ c. Sound c (applied_utc smp now) (submit_eligible b smp now w))
              (seen-clock a _ _ _ _ _) (submit_eligible-Sound b smp now w)))

-- A sample that is not taken leaves the clock as it was: what validity, staleness and uncertainty are
-- read from.
pub submit-kept :
    (a : Arbiter) (smp : TimeSample) (now : Now)
    → taken (submit a smp now).0.result ≡ false
    → clock_of (submit a smp now).1 ≡ clock_of a
unfolding Sound
submit-kept a smp now h = (submit-Sound a smp now).0 h

-- The clock is stepped only for an applied sample, to the sample's time.
pub submit-step :
    (a : Arbiter) (smp : TimeSample) (now : Now)
    → (submit a smp now).0.step_clock ≡ true
    → ((submit a smp now).0.result ≡ applied) × ((submit a smp now).0.set_utc ≡ applied_utc smp now)
unfolding Sound
submit-step a smp now h = (submit-Sound a smp now).1 h
