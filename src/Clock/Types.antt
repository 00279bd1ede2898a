-- ===== src/Clock/Types.antt =====
-- The types of lib/ESPRack/include/time/TimeArbiter.h.
use esp_rack.Prelude.{ℕ, Bool, true, false}
use esp_rack.Prelude.Int.{ℤ, pos}

-- `TimeSource`, lowest rank first; `no_source` is `None`.
pub data TimeSource : Type 0 where
  no_source rtc_hold manual ext_rtc gps ntp : TimeSource

abbrev pub rank : TimeSource → ℕ
rank no_source = 0
rank rtc_hold = 1
rank manual = 2
rank ext_rtc = 3
rank gps = 4
rank ntp = 5

pub data SubmitResult : Type 0 where
  applied confirmed pending rejected_implausible rejected_outranked rejected_unconfirmed :
      SubmitResult

-- `flags` has one bit, `kTimeFlagOperator`.
pub record TimeSample : Type 0 where
  pub src : TimeSource
  pub utc_ms : ℤ
  pub sample_mono : ℕ
  pub accuracy : ℕ
  pub operator_flag : Bool

-- `TimeArbiterPolicy`, its two arrays as functions of the source.
pub record Policy : Type 0 where
  pub fresh_ms : TimeSource → ℕ
  pub step_min_ms : TimeSource → ℕ
  pub hold_drift_ppm : ℕ
  pub max_uncertainty : ℕ
  pub stale_after : ℕ
  pub cross_check : ℕ
  pub dispute_ms : ℕ
  pub big_jump : ℕ
  pub big_jump_confirm : ℕ
  pub big_jump_spread : ℕ
  pub min_sane_utc : ℤ

abbrev default_fresh : TimeSource → ℕ
default_fresh ext_rtc = 604800000
default_fresh gps = 7200000
default_fresh ntp = 10800000
default_fresh _ = 0

abbrev default_step_min : TimeSource → ℕ
default_step_min manual = 1000
default_step_min ext_rtc = 1500
default_step_min gps = 1000
default_step_min _ = 0

abbrev pub default_policy : Policy
default_policy = record {
  fresh_ms = default_fresh;
  step_min_ms = default_step_min;
  hold_drift_ppm = 30;
  max_uncertainty = 600000;
  stale_after = 172800000;
  cross_check = 5000;
  dispute_ms = 300000;
  big_jump = 3600000;
  big_jump_confirm = 3;
  big_jump_spread = 30000;
  min_sane_utc = pos 1767225600;
}

pub record Now : Type 0 where
  pub sys_utc : ℤ
  pub mono : ℕ

pub record Verdict : Type 0 where
  pub result : SubmitResult
  pub step_clock : Bool
  pub set_utc : ℤ
  pub offset : ℤ
  pub was_valid : Bool

-- `Src`.
pub record Src : Type 0 where
  pub accepted_mono : ℕ
  pub base : ℤ
  pub base_mono : ℕ
  pub pend_base : ℤ
  pub pend_first_mono : ℕ
  pub offset : ℤ
  pub pend_count : ℕ
  pub accepted : Bool
  pub has_base : Bool

abbrev pub new_src : Src
new_src = record {
  accepted_mono = 0;
  base = pos 0;
  base_mono = 0;
  pend_base = pos 0;
  pend_first_mono = 0;
  offset = pos 0;
  pend_count = 0;
  accepted = false;
  has_base = false;
}

-- The array `_s`.
pub record Sources : Type 0 where
  pub of_rtc_hold : Src
  pub of_manual : Src
  pub of_ext_rtc : Src
  pub of_gps : Src
  pub of_ntp : Src

-- `_s[rank(src) - 1]`; `None` keeps no state, and no method reads or writes one for it.
abbrev pub src_of : Sources → TimeSource → Src
src_of s no_source = new_src
src_of s rtc_hold = s.of_rtc_hold
src_of s manual = s.of_manual
src_of s ext_rtc = s.of_ext_rtc
src_of s gps = s.of_gps
src_of s ntp = s.of_ntp

abbrev pub put_src : Sources → TimeSource → Src → Sources
put_src s no_source x = s
put_src s rtc_hold x = record s { of_rtc_hold = x }
put_src s manual x = record s { of_manual = x }
put_src s ext_rtc x = record s { of_ext_rtc = x }
put_src s gps x = record s { of_gps = x }
put_src s ntp x = record s { of_ntp = x }

pub record Arbiter : Type 0 where
  pub policy : Policy
  pub sources : Sources
  pub has_ref : Bool
  pub ref_mono : ℕ
  pub ref_acc : ℕ
  pub has_ntp_gps : Bool
  pub ntp_gps_mono : ℕ
  pub ntp_gps_bias : ℕ
  pub disputed : Bool

-- The constructor.
abbrev pub new_arbiter : Policy → Arbiter
new_arbiter p = record {
  policy = p;
  sources = record {
    of_rtc_hold = new_src;
    of_manual = new_src;
    of_ext_rtc = new_src;
    of_gps = new_src;
    of_ntp = new_src;
  };
  has_ref = false;
  ref_mono = 0;
  ref_acc = 0;
  has_ntp_gps = false;
  ntp_gps_mono = 0;
  ntp_gps_bias = 0;
  disputed = false;
}

abbrev pub is_ntp : TimeSource → Bool
is_ntp ntp = true
is_ntp _ = false

abbrev pub is_gps : TimeSource → Bool
is_gps gps = true
is_gps _ = false

abbrev pub is_manual : TimeSource → Bool
is_manual manual = true
is_manual _ = false

abbrev pub is_source : TimeSource → Bool
is_source no_source = false
is_source _ = true
