-- ===== src/Ota/Update.antt =====
-- `FirmwareUpdate` of lib/ESPRack/src/system/FirmwareUpdate.cpp: which update the device reports. A
-- source is told by its address, here a number; the time is an argument.
use esp_rack.Prelude.{ℕ, Bool, true, false, ◌&&◌, Option, none, some, ltb, ◌==◌, if◌then◌else◌}
use esp_rack.Prelude.Word.{sub32}

abbrev pub Source : Type 0
Source = ℕ

-- "update".
abbrev pub unnamed : Source
unnamed = 0

-- `ESPRACK_FW_UPDATE_STALL_MS` is a setting of the build.
pub record Update : Type 0 where
  pub source : Option Source
  pub last_ms : ℕ
  pub stall_ms : ℕ

abbrev pub or_unnamed : Option Source → Source
or_unnamed none = unnamed
or_unnamed (some s) = s

abbrev pub is_set : Option Source → Bool
is_set none = false
is_set (some s) = true

unfoldable pub under_way : Update → ℕ → Bool
under_way u now = is_set u.source && ltb (sub32 now u.last_ms) u.stall_ms

abbrev pub begin_update : Update → Option Source → ℕ → Update
begin_update u source now = record u { last_ms = now; source = some (or_unnamed source) }

unfoldable pub try_begin : Update → Option Source → ℕ → Bool × Update
try_begin u source now = if under_way u now then (false, u) else (true, begin_update u source now)

abbrev pub progress : Update → ℕ → Update
progress u now = record u { last_ms = now }

abbrev pub is_source : Option Source → Source → Bool
is_source none s = false
is_source (some t) s = t == s

unfoldable pub end_update : Update → Option Source → Bool × Update
end_update u none = (false, u)
end_update u (some s) =
    if is_source u.source s then (true, record u { source = none }) else (false, u)
