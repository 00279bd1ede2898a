-- ===== src/Clock/State.antt =====
-- lib/ESPRack/src/time/TimeArbiter.cpp: validity, staleness, authority, and what a sample leaves.
use esp_rack.Prelude.{
  ℕ, suc, ◌+◌, ◌-◌, ◌*◌, ◌/◌, ◌%◌, ◌^◌, Bool, true, not, ◌&&◌, ◌||◌, List, [], ◌∷◌, ltb, leb, ◌==◌,
  if◌then◌else◌,
}
use esp_rack.Prelude.Int.{ℤ, pos, negsuc, sub_ℕ, ◌-ℤ◌, ltb_ℤ, leb_ℤ, abs_ℕ}
use esp_rack.Clock.Types.{
  TimeSource, no_source, rtc_hold, manual, ext_rtc, gps, ntp, Policy, Now, src_of, put_src, Arbiter,
  is_ntp, is_gps,
}

abbrev pub u64 : ℕ → ℕ
u64 n = n % 2 ^ 64

-- `monoAge`.
abbrev pub mono_age : ℕ → ℕ → ℕ
mono_age now then_ = if leb then_ now then now - then_ else 0

-- `utcMs / 1000`, toward 0.
abbrev pub seconds_of : ℤ → ℤ
seconds_of (pos n) = pos (n / 1000)
seconds_of (negsuc n) = sub_ℕ 0 (suc n / 1000)

abbrev pub max_sane_utc : ℤ
max_sane_utc = pos 4102444800

unfoldable pub plausible : Arbiter → ℤ → Bool
plausible a utc_ms =
    leb_ℤ a.policy.min_sane_utc (seconds_of utc_ms) && ltb_ℤ (seconds_of utc_ms) max_sane_utc

-- `age * holdDriftPpm / 1000000` in uint64_t.
abbrev pub drift : Policy → ℕ → ℕ
drift p age = u64 (age * p.hold_drift_ppm) / 1000000

-- A sum of milliseconds cut to uint32_t, below the value that means "nothing accepted".
abbrev pub saturate : ℕ → ℕ
saturate u = if ltb 0xfffffffe u then 0xfffffffe else u

unfoldable pub uncertainty : Arbiter → Now → ℕ
uncertainty a now =
    if not a.has_ref
    then 0xffffffff
    else saturate (u64 (a.ref_acc + drift a.policy (mono_age now.mono a.ref_mono)))

unfoldable pub valid : Arbiter → Now → Bool
unfolding uncertainty
valid a now = a.has_ref && ltb (uncertainty a now) a.policy.max_uncertainty

unfoldable pub stale : Arbiter → Now → Bool
stale a now =
    if not a.has_ntp_gps
    then true
    else ltb a.policy.stale_after (u64 (mono_age now.mono a.ntp_gps_mono + a.ntp_gps_bias))

-- The test of the loop of `authority`.
unfoldable pub is_fresh : Arbiter → Now → TimeSource → Bool
is_fresh a now r =
    let s = src_of a.sources r in
    not (a.policy.fresh_ms r == 0 || not s.accepted)
    && ltb (mono_age now.mono s.accepted_mono) (a.policy.fresh_ms r)

-- Its sources, in the order of the loop.
abbrev pub by_rank : List TimeSource
by_rank = ntp ∷ gps ∷ ext_rtc ∷ manual ∷ rtc_hold ∷ []

unfoldable pub first_fresh : Arbiter → Now → List TimeSource → TimeSource
first_fresh a now [] = no_source
first_fresh a now (r ∷ rs) = if is_fresh a now r then r else first_fresh a now rs

unfoldable pub authority : Arbiter → Now → TimeSource
unfolding first_fresh
authority a now = first_fresh a now by_rank

unfoldable pub offset_of : Arbiter → TimeSource → ℤ
offset_of a src = (src_of a.sources src).offset

unfoldable pub accept : Arbiter → TimeSource → Now → ℕ → Arbiter
accept a src now acc =
    let b : Arbiter = record a {
      sources =
          put_src a.sources src
            (record (src_of a.sources src) { accepted = true; accepted_mono = now.mono });
      has_ref = true;
      ref_mono = now.mono;
      ref_acc = acc;
    } in
    if is_ntp src || is_gps src
    then record b { has_ntp_gps = true; ntp_gps_mono = now.mono; ntp_gps_bias = 0 }
    else b

unfoldable pub record_base : Arbiter → TimeSource → ℤ → ℕ → ℤ → Arbiter
record_base a src base mono delta = record a {
  sources = put_src a.sources src (record (src_of a.sources src) {
    has_base = true;
    base = base;
    base_mono = mono;
    offset = delta;
  });
}

unfoldable pub fresh_base : Arbiter → TimeSource → Now → Bool
fresh_base a src now =
    let s = src_of a.sources src in
    s.has_base
    && ltb 0 (a.policy.fresh_ms src)
    && ltb (mono_age now.mono s.base_mono) (a.policy.fresh_ms src)

unfoldable pub eval_dispute : Arbiter → Now → Arbiter
unfolding fresh_base ◌-ℤ◌
eval_dispute a now = record a {
  disputed =
      fresh_base a ntp now
      && fresh_base a gps now
      && fresh_base a ext_rtc now
      && ltb a.policy.dispute_ms
          (abs_ℕ ((src_of a.sources ntp).base -ℤ (src_of a.sources gps).base))
      && leb (abs_ℕ ((src_of a.sources gps).base -ℤ (src_of a.sources ext_rtc).base))
          a.policy.cross_check;
}
