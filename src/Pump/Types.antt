-- ===== src/Pump/Types.antt =====
-- The types of lib/ESPRack/include/net/UploadPumpCore.h, and the constants of
-- lib/ESPRack/include/net/UploadSink.h.
use esp_rack.Prelude.{ℕ, Bool, true, false, Option, none, some}
use esp_rack.Prelude.Int.{ℤ, pos, negsuc}

-- `UploadResult`; `success` is `Ok`.
pub data UploadResult : Type 0 where
  success sink_failed overflow no_memory no_writer stalled_out client_gone : UploadResult

pub data Action : Type 0 where
  no_action open_call write_call finish_call abort_call : Action

pub data Window : Type 0 where
  open_window hold reopen : Window

pub data Phase : Type 0 where
  idle running settled : Phase

-- `data_at` is the offset in the ring, `none` the null pointer.
pub record Span : Type 0 where
  pub data_at : Option ℕ
  pub len : ℕ

abbrev pub no_span : Span
no_span = record { data_at = none; len = 0 }

pub record Pump : Type 0 where
  pub phase : Phase
  pub result : UploadResult
  pub busy : Bool
  pub copying : Bool
  pub is_open : Bool
  pub live : Bool
  pub finishing : Bool
  pub revocable : Bool
  pub final : Bool
  pub held : Bool
  pub buf : Option ℕ
  pub size : ℕ
  pub rd : ℕ
  pub used : ℕ
  pub written : ℕ
  pub hold_below : ℕ
  pub holds : ℕ
  pub progress_at : ℕ

-- The member initialisers.
abbrev pub new_pump : Pump
new_pump = record {
  phase = idle;
  result = success;
  busy = false;
  copying = false;
  is_open = false;
  live = false;
  finishing = false;
  revocable = false;
  final = false;
  held = false;
  buf = none;
  size = 0;
  rd = 0;
  used = 0;
  written = 0;
  hold_below = 0;
  holds = 0;
  progress_at = 0;
}

abbrev pub is_success : UploadResult → Bool
is_success success = true
is_success _ = false

abbrev pub is_running : Phase → Bool
is_running running = true
is_running _ = false

abbrev pub is_some {ℓ} : {A : Type ℓ} → Option A → Bool
is_some none = false
is_some (some _) = true

abbrev pub is_open_call : Action → Bool
is_open_call open_call = true
is_open_call _ = false

abbrev pub is_write_call : Action → Bool
is_write_call write_call = true
is_write_call _ = false

abbrev pub is_finish_call : Action → Bool
is_finish_call finish_call = true
is_finish_call _ = false

-- `UploadSink::kDone`, `kMore` and `kFailed`.
abbrev pub k_done : ℤ
k_done = pos 0

abbrev pub k_more : ℤ
k_more = pos 1

abbrev pub k_failed : ℤ
k_failed = negsuc 0
