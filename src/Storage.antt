-- ===== src/Storage.antt =====
-- src/storage.rs: the configuration in the last sector of the flash. The flash driver is a record of
-- its operations; each gives whether it succeeded and the flash afterwards.
pub mod Saved
pub mod Tests
use pico_fi.Config.{BridgeConfig}
use pico_fi.ConfigRecord.{encode_record, decode_record, record_size}
use pico_fi.Prelude.{Bytes, ℕ, ◌+◌, ◌-◌, ◌*◌, ◌%◌, ◌^◌, Bool, true, false, Option, none, some}

pub record FlashDriver (F : Type 0) : Type 0 where
  pub erase_size : ℕ
  pub blocking_read : F → ℕ → ℕ → Option Bytes
  pub blocking_erase : F → ℕ → ℕ → Bool × F
  pub blocking_write : F → ℕ → Bytes → Bool × F

abbrev pub flash_size_bytes : ℕ
flash_size_bytes = 2 * 1024 * 1024

module _ {F : Type 0} (driver : FlashDriver F) where
  abbrev pub config_sector_offset : ℕ
  config_sector_offset = (flash_size_bytes - driver.erase_size) % 2 ^ 32

  -- `decode_record` of what was read, if anything was
  abbrev pub decoded : Option Bytes → Option BridgeConfig
  decoded none = none
  decoded (some buf) = decode_record buf

  unfoldable pub load : F → Option BridgeConfig
  load flash = decoded (driver.blocking_read flash config_sector_offset record_size)

  abbrev pub erase_sector : F → Bool × F
  erase_sector flash =
      driver.blocking_erase flash config_sector_offset (config_sector_offset + driver.erase_size)

  -- The write, where the sector was erased.
  abbrev pub write_erased : Bytes → Bool × F → Bool × F
  write_erased buf (false, flash) = (false, flash)
  write_erased buf (true, flash) = driver.blocking_write flash config_sector_offset buf

  unfoldable pub save : F → BridgeConfig → Bool × F
  save flash config = write_erased (encode_record config) (erase_sector flash)

  unfoldable pub reset_storage : F → Bool × F
  reset_storage flash = erase_sector flash
