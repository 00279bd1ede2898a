-- ===== src/Clock/Submit.antt =====
-- lib/ESPRack/src/time/TimeArbiter.cpp: a sample is offered, the clock was set from outside, the
-- clock survived a reset.
use esp_rack.Prelude.{ℕ, ◌+◌, Bool, true, false, not, ◌&&◌, ◌||◌, ltb, leb, ◌==◌, if◌then◌else◌}
use esp_rack.Prelude.Int.{ℤ, pos, ◌+ℤ◌, ◌-ℤ◌, ltb_ℤ, abs_ℕ, pos_part}
use esp_rack.Clock.Types.{
  TimeSource, rtc_hold, rank, SubmitResult, applied, confirmed, pending, rejected_implausible,
  rejected_outranked, rejected_unconfirmed, TimeSample, Policy, Now, Verdict, Src, src_of, put_src,
  Arbiter, is_ntp, is_gps, is_manual, is_source,
}
use esp_rack.Clock.State.{
  u64, mono_age, plausible, drift, saturate, valid, stale, authority, accept, record_base,
  eval_dispute,
}

-- `applied`, `delta` and `base` of a sample.
unfoldable pub applied_utc : TimeSample → Now → ℤ
applied_utc smp now = smp.utc_ms +ℤ (pos now.mono -ℤ pos smp.sample_mono)

unfoldable pub delta_of : TimeSample → Now → ℤ
delta_of smp now = applied_utc smp now -ℤ now.sys_utc

unfoldable pub base_of : TimeSample → ℤ
base_of smp = smp.utc_ms -ℤ pos smp.sample_mono

unfoldable pub operator_override : TimeSample → TimeSource → Bool
operator_override smp auth =
    smp.operator_flag && is_manual smp.src && not (is_gps auth) && not (is_ntp auth)

-- `eligible`.
unfoldable pub eligible : Arbiter → TimeSample → Now → Bool → Bool
eligible a smp now was_valid =
    not was_valid
    || leb (rank (authority a now)) (rank smp.src)
    || stale a now
    || operator_override smp (authority a now)

unfoldable pub is_big_jump : Policy → TimeSample → ℤ → Bool → Bool
is_big_jump p smp delta was_valid =
    was_valid && ltb p.big_jump (abs_ℕ delta) && not (is_ntp smp.src) && not smp.operator_flag

-- The pending set with one more sample of a big jump: whether it was started over, and the source.
unfoldable pub pend : Policy → Src → ℤ → ℕ → Bool × Src
pend p s base mono =
    if s.pend_count == 0 || ltb p.cross_check (abs_ℕ (base -ℤ s.pend_base))
    then (ltb 0 s.pend_count, record s { pend_count = 1; pend_base = base; pend_first_mono = mono })
    else (false, if ltb s.pend_count 255 then record s { pend_count = s.pend_count + 1 } else s)

unfoldable pub unconfirmed : Policy → Src → ℕ → Bool
unconfirmed p s mono =
    ltb s.pend_count p.big_jump_confirm || ltb (mono_age mono s.pend_first_mono) p.big_jump_spread

abbrev pub put : Arbiter → TimeSource → Src → Arbiter
put a src s = record a { sources = put_src a.sources src s }

-- The last lines of `submit`: the sample is accepted, and steps the clock if it is off by enough.
unfoldable pub take_sample : Arbiter → TimeSample → Now → Bool → Verdict × Arbiter
take_sample a smp now was_valid =
    let delta : ℤ = delta_of smp now in
    (
      if ltb (abs_ℕ delta) (a.policy.step_min_ms smp.src)
          then record {
            result = confirmed;
            step_clock = false;
            set_utc = pos 0;
            offset = delta;
            was_valid = was_valid;
          }
          else record {
            result = applied;
            step_clock = true;
            set_utc = applied_utc smp now;
            offset = delta;
            was_valid = was_valid;
          },
      accept a smp.src now smp.accuracy,
    )

abbrev pub turned_down : SubmitResult → ℤ → Bool → Verdict
turned_down r offset was_valid = record {
  result = r;
  step_clock = false;
  set_utc = pos 0;
  offset = offset;
  was_valid = was_valid;
}

-- `submit` of an eligible sample.
unfoldable pub submit_eligible : Arbiter → TimeSample → Now → Bool → Verdict × Arbiter
submit_eligible a smp now was_valid =
    let s = src_of a.sources smp.src in
    if is_big_jump a.policy smp (delta_of smp now) was_valid
    then (let (restarted, s') = pend a.policy s (base_of smp) smp.sample_mono in
        if unconfirmed a.policy s' smp.sample_mono
        then (
          turned_down (if restarted then rejected_unconfirmed else pending) (delta_of smp now)
              was_valid,
          put a smp.src s',
        )
        else take_sample (put a smp.src (record s' { pend_count = 0 })) smp now was_valid)
    else take_sample (put a smp.src (record s { pend_count = 0 })) smp now was_valid

unfoldable pub submit : Arbiter → TimeSample → Now → Verdict × Arbiter
submit a smp now =
    let was_valid : Bool = valid a now in
    if not (is_source smp.src) || not (plausible a smp.utc_ms)
    then (turned_down rejected_implausible (pos 0) was_valid, a)
    else (let b =
          eval_dispute (record_base a smp.src (base_of smp) smp.sample_mono (delta_of smp now))
            now in
        if not (eligible b smp now was_valid)
        then (turned_down rejected_outranked (delta_of smp now) was_valid, b)
        else submit_eligible b smp now was_valid)

-- `kExternalNtpAccuracyMs`.
abbrev pub external_accuracy : ℕ
external_accuracy = 250

unfoldable pub external_sync : Arbiter → TimeSource → Now → ℤ → Bool → Verdict × Arbiter
external_sync a src now observed is_plausible =
    let was_valid : Bool = valid a now in
    if not (is_source src) || not is_plausible || not (plausible a now.sys_utc)
    then (turned_down rejected_implausible observed was_valid, a)
    else (let b =
          eval_dispute (record_base a src (now.sys_utc -ℤ pos now.mono) now.mono observed) now in
        let c = put b src (record (src_of b.sources src) { pend_count = 0 }) in
        (
          record {
            result = if ltb (abs_ℕ observed) (c.policy.step_min_ms src) then confirmed else applied;
            step_clock = false;
            set_utc = now.sys_utc;
            offset = observed;
            was_valid = was_valid;
          },
          accept c src now external_accuracy,
        ))

unfoldable pub restore_hold : Arbiter → TimeSource → ℤ → ℕ → Now → Arbiter
restore_hold a last last_sync acc now =
    if not (plausible a now.sys_utc)
    then a
    else (let age : ℕ =
          if ltb_ℤ last_sync now.sys_utc then pos_part (now.sys_utc -ℤ last_sync) else 0 in
        let b : Arbiter = record a {
          sources =
              put_src a.sources rtc_hold
                (record (src_of a.sources rtc_hold) { accepted = true; accepted_mono = now.mono });
          has_ref = true;
          ref_mono = now.mono;
          ref_acc = saturate (u64 (acc + drift a.policy age));
        } in
        if is_ntp last || is_gps last
        then record b { has_ntp_gps = true; ntp_gps_mono = now.mono; ntp_gps_bias = age }
        else b)
