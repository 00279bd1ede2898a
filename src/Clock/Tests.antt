-- ===== src/Clock/Tests.antt =====
-- Samples offered to the arbiter of lib/ESPRack/src/time/TimeArbiter.cpp.
use esp_rack.Prelude.{
  ℕ, suc, ◌+◌, ◌*◌, ◌^◌, ◌<◌, ◌≤◌, ◌≡◌, ◌≢◌, ◌↔◌, ◌∙◌, sym, subst, refl, arith, Bool, true, false,
  ltb,
}
use esp_rack.Prelude.Int.{ℤ, pos, negsuc}
use esp_rack.Clock.{
  TimeSource, no_source, manual, gps, ntp, rank, TimeSample, Policy, default_policy, Now, Arbiter,
  Src, new_src, new_arbiter, submit, rejected_outranked, applied, applied_utc, is_fresh, authority,
  accept, valid, stale, uncertainty, operator_override, base_of, src_of, mono_age, is_big_jump,
  delta_of, plausible,
}
use esp_rack.Clock.Laws.Jumps.{Agreed, submit-big_jump}
use esp_rack.Clock.Laws.Ranks.{submit-outranked}
use esp_rack.Clock.Laws.Samples.{taken}

abbrev fresh : Arbiter
fresh = new_arbiter default_policy

-- 2027-01-15, 100 s after the start.
abbrev now : Now
now = record { sys_utc = pos 1800000000000; mono = 100000 }

abbrev later : Now
later = record { sys_utc = pos 1800000060000; mono = 160000 }

abbrev sample : TimeSource → ℕ → TimeSample
sample s utc = record {
  src = s;
  utc_ms = pos utc;
  sample_mono = 99000;
  accuracy = 100;
  operator_flag = false;
}

-- A clock that GPS set 10 s ago, and two pending samples that jump by two hours.
abbrev by_gps : Arbiter
by_gps = record fresh {
  sources = record (fresh.sources) {
    of_gps = record new_src {
      accepted = true;
      accepted_mono = 90000;
      pend_count = 2;
      pend_base = pos 1800007100000;
      pend_first_mono = 60000;
    };
  };
  has_ref = true;
  ref_mono = 90000;
  ref_acc = 100;
  has_ntp_gps = true;
  ntp_gps_mono = 90000;
}

abbrev jump : TimeSample
jump = sample gps 1800007199000

gps_has_authority : authority by_gps now ≡ gps
unfolding authority is_fresh
gps_has_authority = refl

jump-taken : taken (submit by_gps jump now).0.result ≡ true
unfolding taken submit plausible esp_rack.Clock.eligible valid authority is_fresh
    esp_rack.Clock.eval_dispute esp_rack.Clock.record_base esp_rack.Clock.submit_eligible
    is_big_jump delta_of applied_utc esp_rack.Prelude.Int.◌+ℤ◌ esp_rack.Clock.unconfirmed
    esp_rack.Clock.pend base_of esp_rack.Clock.take_sample
jump-taken = refl

ntp_steps : (submit fresh (sample ntp 1800000050000) now).0.step_clock ≡ true
unfolding submit plausible esp_rack.Clock.eligible valid esp_rack.Clock.submit_eligible is_big_jump
    esp_rack.Clock.take_sample delta_of esp_rack.Prelude.Int.◌-ℤ◌ applied_utc
    esp_rack.Prelude.Int.◌+ℤ◌ esp_rack.Clock.eval_dispute esp_rack.Clock.record_base
ntp_steps = refl

ntp_taken : taken (submit fresh (sample ntp 1800000050000) now).0.result ≡ true
unfolding taken submit plausible esp_rack.Clock.eligible valid esp_rack.Clock.submit_eligible
    is_big_jump esp_rack.Clock.take_sample delta_of esp_rack.Prelude.Int.◌-ℤ◌ applied_utc
    esp_rack.Prelude.Int.◌+ℤ◌ esp_rack.Clock.eval_dispute esp_rack.Clock.record_base
ntp_taken = refl

past_turned_down : taken (submit by_gps (sample ntp 5) now).0.result ≡ false
unfolding taken submit plausible
past_turned_down = refl

gps_is_some : gps ≢ no_source
gps_is_some e = cc

manual_is_some : manual ≢ no_source
manual_is_some e = cc

is_jump : is_big_jump by_gps.policy jump (delta_of jump now) (valid by_gps now) ≡ true
unfolding is_big_jump valid delta_of esp_rack.Prelude.Int.◌-ℤ◌ applied_utc esp_rack.Prelude.Int.◌+ℤ◌
is_jump = refl

sane : plausible by_gps (pos 1800000050000) ≡ true
unfolding plausible
sane = refl

valid-later : valid by_gps later ≡ true
unfolding valid
valid-later = refl

below_ntp : rank (authority by_gps now) < rank ntp
below_ntp = subst (λ s. rank s < 5) (sym gps_has_authority) (omega arith)

some_source : authority by_gps now ≢ no_source
some_source e = absurd (gps_is_some (sym gps_has_authority ∙ e))

submit-big_jump_example :
    Agreed by_gps.policy (src_of by_gps.sources gps) (base_of jump) jump.sample_mono
submit-big_jump_example = submit-big_jump by_gps jump now (omega arith) is_jump jump-taken

submit-outranked_example :
    ((submit by_gps (sample manual 1800000050000) now).0.result ≡ rejected_outranked)
    ↔ (valid by_gps now ≡ true)
      × (rank manual < rank (authority by_gps now))
      × (stale by_gps now ≡ false)
      × (operator_override (sample manual 1800000050000) (authority by_gps now) ≡ false)
submit-outranked_example =
    submit-outranked by_gps (sample manual 1800000050000) now manual_is_some sane
