-- ===== src/Clock/Laws/Jumps.antt =====
-- Jumps of a valid clock by more than `bigJumpMs`, `submit` of
-- lib/ESPRack/src/time/TimeArbiter.cpp; what an accepted sample is worth.
use esp_rack.Prelude.{
  ℕ, ◌+◌, ◌<◌, ◌≤◌, ◌≡◌, refl, subst, arith, Bool, true, false, not, ◌||◌, ltb, if◌then◌else◌,
  if_split,
}
use esp_rack.Prelude.Int.{ℤ, abs_ℕ, ◌-ℤ◌}
use esp_rack.Clock.{
  TimeSource, no_source, rtc_hold, manual, ext_rtc, gps, ntp, src_of, Policy, Now, Arbiter, Src,
  Verdict, TimeSample, pending, rejected_unconfirmed, submit, submit_eligible, take_sample,
  turned_down, put, pend, unconfirmed, is_big_jump, eligible, base_of, delta_of, eval_dispute,
  record_base, valid, plausible, is_source, mono_age,
}
use esp_rack.Clock.Laws.Samples.{taken}
use esp_rack.Clock.Laws.Ranks.{seen}
use esp_rack.Clock.Laws.Validity.{accept-valid}

-- Three samples or how many the policy asks for agreed, over a time long enough.
pub record Agreed (p : Policy) (s : Src) (base : ℤ) (mono : ℕ) : Type 0 where
  pub enough : p.big_jump_confirm ≤ s.pend_count + 1
  pub close : abs_ℕ (base -ℤ s.pend_base) ≤ p.cross_check
  pub long : p.big_jump_spread ≤ mono_age mono s.pend_first_mono

pend-Agreed :
    (p : Policy) (s : Src) (base : ℤ) (mono : ℕ)
    → 1 < p.big_jump_confirm
    → unconfirmed p (pend p s base mono).1 mono ≡ false
    → Agreed p s base mono
unfolding pend unconfirmed
pend-Agreed p s base mono c h = record {
  enough = ground arith;
  close = ground arith;
  long = ground arith;
}

Jump : Policy → Src → ℤ → ℕ → Verdict × Arbiter → Type 0
Jump p s base mono (v, _) = taken v.result ≡ true → Agreed p s base mono

none_turned_down : (b : Bool) → ¬ (taken (if b then rejected_unconfirmed else pending) ≡ true)
unfolding taken
none_turned_down b h = ground arith

turned_down-Jump :
    (b : Bool) (p : Policy) (s : Src) (base d : ℤ) (mono : ℕ) (w : Bool) (a : Arbiter)
    → Jump p s base mono (turned_down (if b then rejected_unconfirmed else pending) d w, a)
unfolding Jump taken
turned_down-Jump b p s base d mono w a h = absurd (none_turned_down b h)

submit_eligible-Jump :
    (a : Arbiter) (smp : TimeSample) (now : Now) (w : Bool)
    → 1 < a.policy.big_jump_confirm
    → is_big_jump a.policy smp (delta_of smp now) w ≡ true
    → Jump a.policy
        (src_of a.sources smp.src)
        (base_of smp)
        smp.sample_mono
        (submit_eligible a smp now w)
unfolding submit_eligible Jump
submit_eligible-Jump a smp now w c j =
    let s = src_of a.sources smp.src in
    let P = Jump a.policy s (base_of smp) smp.sample_mono in
    let (r, s') = pend a.policy s (base_of smp) smp.sample_mono in
    if_split P (is_big_jump a.policy smp (delta_of smp now) w)
      (λ _.
        if_split P (unconfirmed a.policy s' smp.sample_mono)
          (λ _.
            turned_down-Jump r a.policy s (base_of smp) (delta_of smp now) smp.sample_mono w
              (put a smp.src s'))
          (λ u _. pend-Agreed a.policy s (base_of smp) smp.sample_mono c u))
      (λ k. absurd (ground arith))

none_taken : ¬ (false ≡ true)
none_taken p = cc

-- Two sources' states with the same pending set.
record Pending (s t : Src) : Type 0 where
  pub count : s.pend_count ≡ t.pend_count
  pub from : s.pend_base ≡ t.pend_base
  pub since : s.pend_first_mono ≡ t.pend_first_mono

seen-Pending :
    (a : Arbiter) (src : TimeSource) (b d : ℤ) (m : ℕ) (now : Now)
    → Pending
        (src_of (eval_dispute (record_base a src b m d) now).sources src)
        (src_of a.sources src)
unfolding eval_dispute record_base
seen-Pending a no_source b d m now = record { count = refl; from = refl; since = refl }
seen-Pending a rtc_hold b d m now = record { count = refl; from = refl; since = refl }
seen-Pending a manual b d m now = record { count = refl; from = refl; since = refl }
seen-Pending a ext_rtc b d m now = record { count = refl; from = refl; since = refl }
seen-Pending a gps b d m now = record { count = refl; from = refl; since = refl }
seen-Pending a ntp b d m now = record { count = refl; from = refl; since = refl }

Pending-Agreed :
    (p : Policy) (s t : Src) (base : ℤ) (mono : ℕ)
    → Pending s t
    → Agreed p s base mono
    → Agreed p t base mono
Pending-Agreed p s t base mono q h = record {
  enough = subst (λ n. p.big_jump_confirm ≤ n + 1) q.count h.enough;
  close = subst (λ b. abs_ℕ (base -ℤ b) ≤ p.cross_check) q.from h.close;
  long = subst (λ m. p.big_jump_spread ≤ mono_age mono m) q.since h.long;
}

seen-policy : (a : Arbiter) (smp : TimeSample) (now : Now) → (seen a smp now).policy ≡ a.policy
unfolding seen eval_dispute record_base
seen-policy a smp now = refl

-- Under a policy that asks for more than one sample to confirm a big jump (bigJumpConfirm above 1),
-- a plausible jump of a valid clock, by more than the policy's bound and neither from NTP nor an
-- operator, is taken only when earlier pending samples of the source agree with it to the
-- cross-check bound, are enough together with it, and span the time that the policy asks for.
pub submit-big_jump :
    (a : Arbiter) (smp : TimeSample) (now : Now)
    → 1 < a.policy.big_jump_confirm
    → is_big_jump a.policy smp (delta_of smp now) (valid a now) ≡ true
    → taken (submit a smp now).0.result ≡ true
    → Agreed a.policy (src_of a.sources smp.src) (base_of smp) smp.sample_mono
unfolding submit seen eval_dispute record_base Jump taken
submit-big_jump a smp now c j =
    let w = valid a now in
    let s = src_of a.sources smp.src in
    let P : Verdict × Arbiter → Type 0 =
      λ v. taken v.0.result ≡ true → Agreed a.policy s (base_of smp) smp.sample_mono in
    if_split P (not (is_source smp.src) || not (plausible a smp.utc_ms))
      (λ _ t. absurd (none_taken t))
      (λ _.
        if_split P (not (eligible (seen a smp now) smp now w)) (λ _ t. absurd (none_taken t))
          (λ _ t.
            Pending-Agreed a.policy (src_of (seen a smp now).sources smp.src) s (base_of smp)
              smp.sample_mono
              (seen-Pending a smp.src (base_of smp) (delta_of smp now) smp.sample_mono now)
              (submit_eligible-Jump (seen a smp now) smp now w c j t)))

Worth : Arbiter → TimeSample → Now → Verdict × Arbiter → Type 0
Worth a smp now v =
    taken v.0.result ≡ true → valid v.1 now ≡ ltb smp.accuracy a.policy.max_uncertainty

take_sample-Worth :
    (a : Arbiter) (smp : TimeSample) (now : Now) (w : Bool)
    → smp.accuracy < 0xffffffff
    → Worth a smp now (take_sample a smp now w)
unfolding take_sample Worth
take_sample-Worth a smp now w h _ = accept-valid a smp.src now smp.accuracy h

submit_eligible-Worth :
    (a : Arbiter) (smp : TimeSample) (now : Now) (w : Bool)
    → smp.accuracy < 0xffffffff
    → Worth a smp now (submit_eligible a smp now w)
unfolding submit_eligible Worth
submit_eligible-Worth a smp now w h =
    let s = src_of a.sources smp.src in
    let (r, s') = pend a.policy s (base_of smp) smp.sample_mono in
    if_split (Worth a smp now) (is_big_jump a.policy smp (delta_of smp now) w)
      (λ _.
        if_split (Worth a smp now) (unconfirmed a.policy s' smp.sample_mono)
          (λ _ t. absurd (none_turned_down r t))
          (λ _. take_sample-Worth (put a smp.src (record s' { pend_count = 0 })) smp now w h))
      (λ _. take_sample-Worth (put a smp.src (record s { pend_count = 0 })) smp now w h)

-- A taken sample makes the clock valid exactly when its accuracy is below the policy's bound.
pub submit-valid :
    (a : Arbiter) (smp : TimeSample) (now : Now)
    → smp.accuracy < 0xffffffff
    → taken (submit a smp now).0.result ≡ true
    → valid (submit a smp now).1 now ≡ ltb smp.accuracy a.policy.max_uncertainty
unfolding submit seen eval_dispute record_base Worth taken
submit-valid a smp now h =
    let w = valid a now in
    if_split (Worth a smp now) (not (is_source smp.src) || not (plausible a smp.utc_ms))
      (λ _ t. absurd (none_taken t))
      (λ _.
        if_split (Worth a smp now) (not (eligible (seen a smp now) smp now w))
          (λ _ t. absurd (none_taken t)) (λ _. submit_eligible-Worth (seen a smp now) smp now w h))
