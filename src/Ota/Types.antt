-- ===== src/Ota/Types.antt =====
-- The state of an `OtaWriter`, of lib/ESPRack/include/system/OtaWriter.h, and the calls of ESP-IDF
-- that it makes.
use esp_rack.Prelude.{ℕ, Bool, Option, List}
use esp_rack.Flash.{sector}
use esp_rack.Ota.Update.{Source, Update}

pub data OtaError : Type 0 where
  no_error err_md5 err_bad_md5 err_too_big err_step err_not_begun err_busy : OtaError
  esp_err : ℕ → OtaError

-- `kStep`.
abbrev pub longest_write : ℕ
longest_write = sector

pub record Partition : Type 0 where
  pub address : ℕ
  pub size : ℕ

-- The OTA calls of ESP-IDF on its state P: an `esp_err_t` is a number, 0 for `ESP_OK`. `Ctx` is the
-- state of the MD5 routines of the ROM.
pub record EspOta (P Ctx : Type 0) : Type 0 where
  pub next_partition : P → Option Partition
  pub running_partition : P → Option Partition
  pub ota_begin : P → Partition → ℕ × ℕ × P
  pub ota_write : P → ℕ → List ℕ → ℕ × P
  pub ota_end : P → ℕ → ℕ × P
  pub ota_abort : P → ℕ → P
  pub set_boot : P → Option Partition → ℕ × P
  pub md5_init : Ctx
  pub md5_update : Ctx → List ℕ → Ctx
  pub md5_final : Ctx → List ℕ

-- `OtaWriter`: a handle of 0 is none.
pub record Writer (Ctx : Type 0) : Type 0 where
  pub handle : ℕ
  pub part : Option Partition
  pub source : Option Source
  pub ended : Bool
  pub md5 : Bool
  pub md5_want : List ℕ
  pub md5_ctx : Ctx
  pub written : ℕ
  pub erases : ℕ
  pub slot_size : ℕ
  pub error : OtaError

-- A writer among the others: which of them holds the update, what is reported, the platform.
pub record Ota (P Ctx : Type 0) : Type 0 where
  pub w : Writer Ctx
  pub owner : Option ℕ
  pub update : Update
  pub esp : P
