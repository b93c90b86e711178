-- ===== src/Storage/Saved.antt =====
-- What is saved is loaded, and an erased sector holds no configuration.
use pico_fi.Storage.{
  FlashDriver, config_sector_offset, load, save, reset_storage, write_erased, erase_sector, decoded,
}
use pico_fi.Config.{
  AddressMode, BridgeMode, UpstreamMode, UartPort, auto_mode, dhcp_mode, static_mode, tcp_client,
  tcp_server, BridgeConfig,
}
use pico_fi.ConfigRecord.{encode_record, decode_record, is_intact, encode_body}
use pico_fi.ConfigRecord.RoundTrip.{configured, decode_record-encode_record, port_of}
use pico_fi.Prelude.{
  length, replicate, Bytes, bytes_eq, Mac, ℕ, ◌^◌, ◌≤◌, ◌<◌, ◌≡◌, refl, sym, ap, ◌∙◌, Bool, true,
  false, none, some, arith,
}

-- What a NOR flash promises of the configuration's sector: a record fits it, a successful write to an erased sector is
-- read back, and a successful erase leaves bytes of 0xff.
pub record IsFlash {F : Type 0} (driver : FlashDriver F) : Type 0 where
  pub holds_record : 64 ≤ driver.erase_size
  pub read-write :
      (flash erased written : F) (bytes : Bytes)
      → erase_sector driver flash ≡ (true, erased)
      → driver.blocking_write erased (config_sector_offset driver) bytes ≡ (true, written)
      → driver.blocking_read written (config_sector_offset driver) (length bytes) ≡ some bytes
  pub read-erase :
      (flash erased : F) (n : ℕ)
      → n ≤ driver.erase_size
      → erase_sector driver flash ≡ (true, erased)
      → driver.blocking_read erased (config_sector_offset driver) n ≡ some (replicate n 0xff)

decode_record-ff : decode_record (replicate 64 0xff) ≡ none
unfolding decode_record is_intact bytes_eq
decode_record-ff = refl

length_configured :
    (d : Bool) (mac : Mac) (address : AddressMode) (bridge : BridgeMode) (up : UpstreamMode)
    (port : UartPort)
    → length (encode_record (configured d mac address bridge up port)) ≡ 64
unfolding encode_record encode_body
length_configured d mac auto_mode (tcp_client host p) up port = refl
length_configured d mac auto_mode (tcp_server p) up port = refl
length_configured d mac dhcp_mode (tcp_client host p) up port = refl
length_configured d mac dhcp_mode (tcp_server p) up port = refl
length_configured d mac (static_mode ip) (tcp_client host p) up port = refl
length_configured d mac (static_mode ip) (tcp_server p) up port = refl

length-encode_record : (config : BridgeConfig) → length (encode_record config) ≡ 64
length-encode_record config =
    length_configured config.discovery config.mac_address config.address_mode config.bridge_mode
      config.upstream_mode config.uart_port

module _ {F : Type 0} (driver : FlashDriver F) (laws : IsFlash driver) where
  saved :
      (flash : F) (bytes : Bytes) (r : Bool × F) {written : F}
      → erase_sector driver flash ≡ r
      → write_erased driver bytes r ≡ (true, written)
      → driver.blocking_read written (config_sector_offset driver) (length bytes) ≡ some bytes
  saved flash bytes (false, erased) q e = absurd (ground (arith, e))
  saved flash bytes (true, erased) {written} q e = laws.read-write flash erased written bytes q e

  -- A configuration whose port is a u16 is loaded after it was saved with success.
  pub load-save :
      (flash written : F) (config : BridgeConfig)
      → port_of config.bridge_mode < 2 ^ 16
      → save driver flash config ≡ (true, written)
      → load driver written ≡ some config
  unfolding save load
  load-save flash written config small e =
      let size : length (encode_record config) ≡ 64 = length-encode_record config in
      ap (decoded driver) (
        ap (driver.blocking_read written (config_sector_offset driver)) (sym size)
        ∙ saved flash (encode_record config) (erase_sector driver flash) refl e)
      ∙ decode_record-encode_record config small

  -- After a successful reset no configuration is loaded.
  pub load-reset_storage :
      (flash erased : F) → reset_storage driver flash ≡ (true, erased) → load driver erased ≡ none
  unfolding reset_storage load
  load-reset_storage flash erased e =
      ap (decoded driver) (laws.read-erase flash erased 64 laws.holds_record e) ∙ decode_record-ff
