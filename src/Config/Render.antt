-- ===== src/Config/Render.antt =====
-- src/config.rs: the rendering of a configuration into a text of at most 160 bytes. What does not
-- fit is left out whole, as the results of `push` and `push_str` are dropped.
use pico_fi.Config.{
  AddressMode, BridgeMode, UpstreamMode, UartPort, BridgeConfig, auto_mode, dhcp_mode, static_mode,
  tcp_client, tcp_server, uart, i2c, usb, spi, spi_echo, spi_static, spi_line_high, test_mode,
  uart0, uart1,
}
use pico_fi.Text.{codes}
use pico_fi.Prelude.{
  leb, ◌==◌, if◌then◌else◌, length, Bytes, at, Ip, Mac, ℕ, zero, suc, ◌+◌, ◌/◌, ◌%◌, [], ◌∷◌, ◌++◌,
}

abbrev pub capacity : ℕ
capacity = 160

-- `String::push_str`
unfoldable pub push_str : Bytes → Bytes → Bytes
push_str out s = if leb (length out + length s) capacity then out ++ s else out

-- `String::push`
abbrev pub push : Bytes → ℕ → Bytes
push out c = push_str out (c ∷ [])

-- The digits that the loop stores, the last one first, with room for `fuel` more.
abbrev pub digits : ℕ → ℕ → Bytes
digits zero n = []
digits (suc fuel) n =
    let rest = digits fuel (n / 10) in
    if n / 10 == 0 then (48 + n % 10) ∷ [] else (48 + n % 10) ∷ rest

-- `for idx in (0..used).rev()`
abbrev pub push_rev : Bytes → Bytes → Bytes
push_rev out [] = out
push_rev out (d ∷ ds) = push (push_rev out ds) d

abbrev pub push_u8 : Bytes → ℕ → Bytes
push_u8 out value = push_rev out (digits 3 value)

abbrev pub push_u16 : Bytes → ℕ → Bytes
push_u16 out value = push_rev out (digits 5 value)

abbrev pub push_ipv4 : Bytes → Ip → Bytes
push_ipv4 out ip =
    push_u8 (push (push_u8 (push (push_u8 (push (push_u8 out ip.a) 46) ip.b) 46) ip.c) 46) ip.d

-- `HEX[n]`
abbrev pub hex_digit : ℕ → ℕ
hex_digit n = at (codes "0123456789abcdef") n

abbrev pub push_hex_byte : Bytes → ℕ → Bytes
push_hex_byte out value = push (push out (hex_digit (value / 16))) (hex_digit (value % 16))

-- The bytes after the first, each behind a colon.
abbrev pub push_colon_bytes : Bytes → Bytes → Bytes
push_colon_bytes out [] = out
push_colon_bytes out (b ∷ bs) = push_colon_bytes (push_hex_byte (push out 58) b) bs

abbrev pub push_mac : Bytes → Mac → Bytes
push_mac out m = push_colon_bytes (push_hex_byte out m.a) (m.b ∷ m.c ∷ m.d ∷ m.e ∷ m.f ∷ [])

unfoldable pub push_address : Bytes → AddressMode → Bytes
push_address out auto_mode = push_str out (codes "ip=auto ")
push_address out dhcp_mode = push_str out (codes "ip=dhcp ")
push_address out (static_mode ipv4) =
    let o1 = push (push_ipv4 (push_str out (codes "ip=static ")) ipv4.address) 47 in
    let o2 = push_ipv4 (push_str (push_u8 o1 ipv4.prefix_len) (codes " gw=")) ipv4.gateway in
    push (push_ipv4 (push_str o2 (codes " dns=")) ipv4.dns) 32

unfoldable pub push_bridge : Bytes → BridgeMode → Bytes
push_bridge out (tcp_client host port) =
    push_u16 (push (push_ipv4 (push_str out (codes "mode=client dest=")) host) 58) port
push_bridge out (tcp_server port) = push_u16 (push_str out (codes "mode=server listen=")) port

unfoldable pub push_upstream : Bytes → UpstreamMode → Bytes
push_upstream out uart = push_str out (codes " upstream=uart")
push_upstream out i2c = push_str out (codes " upstream=i2c")
push_upstream out usb = push_str out (codes " upstream=usb")
push_upstream out spi = push_str out (codes " upstream=spi")
push_upstream out spi_echo = push_str out (codes " upstream=spi_echo")
push_upstream out spi_static = push_str out (codes " upstream=spi_static")
push_upstream out spi_line_high = push_str out (codes " upstream=spi_line_high")
push_upstream out test_mode = push_str out (codes " upstream=test")

unfoldable pub push_uart : Bytes → UartPort → Bytes
push_uart out uart0 = push_str out (codes " uart=uart0")
push_uart out uart1 = push_str out (codes " uart=uart1")

unfoldable pub render_config : BridgeConfig → Bytes
unfolding push_str push_address push_bridge push_upstream push_uart
render_config config =
    let o1 = push (push_mac (push_str [] (codes "mac=")) config.mac_address) 32 in
    let o2 = if config.discovery then push_str o1 (codes "discovery=on ") else o1 in
    let o3 = push_bridge (push_address o2 config.address_mode) config.bridge_mode in
    push_uart (push_upstream o3 config.upstream_mode) config.uart_port
