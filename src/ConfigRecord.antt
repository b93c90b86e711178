-- ===== src/ConfigRecord.antt =====
-- src/config_record.rs: the 64-byte flash record of a configuration.
pub mod RoundTrip
pub mod Corruption
pub mod Tests
use pico_fi.Config.{
  AddressMode, auto_mode, dhcp_mode, static_mode, BridgeMode, tcp_client, tcp_server, UpstreamMode,
  uart, i2c, usb, spi, spi_echo, spi_static, spi_line_high, test_mode, UartPort, uart0, uart1,
  BridgeConfig,
}
use pico_fi.Prelude.{
  ◌==◌, if◌then◌else◌, take, replicate, Bytes, bytes_eq, at, blit, from_le16, le16, from_le32, le32,
  ip_bytes, mac_bytes, ip_at, mac_at, ℕ, ◌*◌, ◌%◌, ◌^◌, bit_xor, Bool, ◌&&◌, Option, none, some, [],
  ◌∷◌,
}

-- "PCFG"
abbrev pub config_magic : Bytes
config_magic = 80 ∷ 67 ∷ 70 ∷ 71 ∷ []

abbrev pub config_version : ℕ
config_version = 2

abbrev pub record_size : ℕ
record_size = 64

abbrev pub encode_address_mode : AddressMode → ℕ
encode_address_mode dhcp_mode = 0
encode_address_mode auto_mode = 2
encode_address_mode (static_mode ipv4) = 1

abbrev pub encode_bridge_mode : BridgeMode → ℕ
encode_bridge_mode (tcp_client host port) = 0
encode_bridge_mode (tcp_server port) = 1

abbrev pub encode_upstream_mode : UpstreamMode → ℕ
encode_upstream_mode uart = 0
encode_upstream_mode i2c = 1
encode_upstream_mode usb = 2
encode_upstream_mode test_mode = 3
encode_upstream_mode spi = 4
encode_upstream_mode spi_echo = 5
encode_upstream_mode spi_static = 6
encode_upstream_mode spi_line_high = 7

abbrev pub encode_uart_port : UartPort → ℕ
encode_uart_port uart0 = 0
encode_uart_port uart1 = 1

-- `hash ^= byte; hash = hash.wrapping_mul(0x0100_0193)`
unfoldable pub mix_byte : ℕ → ℕ → ℕ
mix_byte hash byte = bit_xor hash byte * 0x01000193 % 2 ^ 32

unfoldable pub mix_bytes : ℕ → Bytes → ℕ
mix_bytes hash [] = hash
mix_bytes hash (byte ∷ rest) = mix_bytes (mix_byte hash byte) rest

unfoldable pub checksum32 : Bytes → ℕ
checksum32 bytes = mix_bytes 0x811c9dc5 bytes

-- The matches of `encode_record` on the address mode and on the bridge mode.
abbrev pub put_address : Bytes → AddressMode → Bytes
put_address buf dhcp_mode = buf
put_address buf auto_mode = buf
put_address buf (static_mode ipv4) =
    blit
      (blit (blit (blit buf 12 (ip_bytes ipv4.address)) 16 (ipv4.prefix_len ∷ [])) 17
        (ip_bytes ipv4.gateway))
      21 (ip_bytes ipv4.dns)

abbrev pub put_bridge : Bytes → BridgeMode → Bytes
put_bridge buf (tcp_client host port) = blit (blit buf 26 (ip_bytes host)) 30 (le16 port)
put_bridge buf (tcp_server port) = blit buf 30 (le16 port)

-- The record before its checksum.
unfoldable pub encode_body : BridgeConfig → Bytes
encode_body config =
    let b0 = blit (replicate record_size 0xff) 0 config_magic in
    let b1 = blit b0 4 (config_version ∷ []) in
    let b2 = blit b1 5 (mac_bytes config.mac_address) in
    let b3 = blit b2 11 (encode_address_mode config.address_mode ∷ []) in
    let b4 = put_address b3 config.address_mode in
    let b5 = blit b4 25 (encode_bridge_mode config.bridge_mode ∷ []) in
    let b6 = put_bridge b5 config.bridge_mode in
    let b7 = blit b6 32 (encode_upstream_mode config.upstream_mode ∷ []) in
    let b8 = blit b7 33 (encode_uart_port config.uart_port ∷ []) in
    blit b8 34 ((if config.discovery then 0xa5 else 0) ∷ [])

unfoldable pub encode_record : BridgeConfig → Bytes
unfolding encode_body
encode_record config = let buf = encode_body config in blit buf 60 (le32 (checksum32 (take 60 buf)))

unfoldable pub decode_address : Bytes → Option AddressMode
decode_address buf =
    if at buf 11 == 0
    then some dhcp_mode
    else if at buf 11 == 2
    then some auto_mode
    else if at buf 11 == 1
    then some (
        static_mode (record {
          address = ip_at buf 12;
          prefix_len = at buf 16;
          gateway = ip_at buf 17;
          dns = ip_at buf 21;
        }))
    else none

unfoldable pub decode_bridge : Bytes → Option BridgeMode
decode_bridge buf =
    if at buf 25 == 0
    then some (tcp_client (ip_at buf 26) (from_le16 (at buf 30) (at buf 31)))
    else if at buf 25 == 1
    then some (tcp_server (from_le16 (at buf 30) (at buf 31)))
    else none

unfoldable pub decode_upstream : ℕ → Option UpstreamMode
decode_upstream b =
    if b == 0
    then some uart
    else if b == 1
    then some i2c
    else if b == 2
    then some usb
    else if b == 3
    then some test_mode
    else if b == 4
    then some spi
    else if b == 5
    then some spi_echo
    else if b == 6
    then some spi_static
    else if b == 7
    then some spi_line_high
    else none

unfoldable pub decode_uart : ℕ → Option UartPort
decode_uart b = if b == 0 then some uart0 else if b == 1 then some uart1 else none

-- The configuration, once every mode is decoded.
unfoldable pub assemble :
    Bytes
    → Option AddressMode
    → Option BridgeMode
    → Option UpstreamMode
    → Option UartPort
    → Option BridgeConfig
assemble buf (some address) (some bridge) (some upstream) (some port) = some (record {
  discovery = at buf 34 == 0xa5;
  mac_address = mac_at buf 5;
  address_mode = address;
  bridge_mode = bridge;
  upstream_mode = upstream;
  uart_port = port;
})
assemble buf _ _ _ _ = none

abbrev pub stored_checksum : Bytes → ℕ
stored_checksum buf = from_le32 (at buf 60) (at buf 61) (at buf 62) (at buf 63)

-- The magic, the version and the checksum.
unfoldable pub is_intact : Bytes → Bool
is_intact buf =
    bytes_eq (take 4 buf) config_magic
    && at buf 4 == config_version
    && checksum32 (take 60 buf) == stored_checksum buf

unfoldable pub decode_record : Bytes → Option BridgeConfig
unfolding is_intact assemble decode_address decode_bridge decode_upstream decode_uart
decode_record buf =
    if is_intact buf
    then assemble buf (decode_address buf) (decode_bridge buf) (decode_upstream (at buf 32))
        (decode_uart (at buf 33))
    else none
