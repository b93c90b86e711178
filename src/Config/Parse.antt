-- ===== src/Config/Parse.antt =====
-- src/config.rs: the parsing of a shell line. Lines are ASCII.
use pico_fi.Config.{
  Ipv4Config, Command, help, show, start, set_dhcp, set_auto, set_discovery, set_static, set_client,
  set_server, set_upstream, reset, zero_ip, uart, i2c, usb, spi, spi_echo, spi_static,
  spi_line_high, test_mode,
}
use pico_fi.Text.{
  codes, split, split_once, split_words, trim_matches, is_whitespace, parse_unsigned,
}
use mathlib.Core.Option
use pico_fi.Prelude.{
  ltb, leb, if◌then◌else◌, Bytes, bytes_eq, Ip, Result, ok, err, ℕ, ◌+◌, true, false, ◌||◌, Option,
  none, some, List, [], ◌∷◌, map,
}

-- The error texts of the parser.
pub data ParseError : Type 0 where
  empty_command : ParseError
  expected_cidr : ParseError
  invalid_prefix : ParseError
  invalid_port : ParseError
  invalid_ipv4 : ParseError
  unknown_command : ParseError

abbrev pub and_then :
    {A B : Type 0} → Result ParseError A → (A → Result ParseError B) → Result ParseError B
and_then (ok a) f = f a
and_then (err e) f = err e

abbrev pub ok_or : {A : Type 0} → ParseError → Option A → Result ParseError A
ok_or e none = err e
ok_or e (some a) = ok a

unfoldable pub parse_port : Bytes → Result ParseError ℕ
parse_port value = ok_or invalid_port (parse_unsigned 65535 value)

-- The loop of `parse_ipv4` from the chunk `idx` on: the octets that it stores.
abbrev pub parse_octets : ℕ → List Bytes → Option (List ℕ)
parse_octets idx [] = some []
parse_octets idx (chunk ∷ chunks) =
    let rest = parse_octets (idx + 1) chunks in
    if leb 4 idx then none else elim (parse_unsigned 255 chunk) [
      | none ↦ none
      | some o ↦ elim rest [ none ↦ none | some os ↦ some (o ∷ os) ]
    ]

-- `count != 4`
abbrev pub four_octets : Option (List ℕ) → Result ParseError Ip
four_octets (some (a ∷ b ∷ c ∷ d ∷ [])) = ok (record { a = a; b = b; c = c; d = d })
four_octets _ = err invalid_ipv4

unfoldable pub parse_ipv4 : Bytes → Result ParseError Ip
parse_ipv4 value = four_octets (parse_octets 0 (split 46 value))

unfoldable pub parse_static : Bytes → Bytes → Bytes → Result ParseError Ipv4Config
parse_static cidr gateway dns =
    and_then (ok_or expected_cidr (split_once 47 cidr)) (λ (addr, prefix).
      and_then (ok_or invalid_prefix (parse_unsigned 255 prefix)) (λ prefix_len.
        if ltb 32 prefix_len
        then err invalid_prefix
        else and_then (parse_ipv4 addr) (λ a. and_then (parse_ipv4 gateway) (λ g.
          and_then (parse_ipv4 dns)
            (λ d. ok (record { address = a; prefix_len = prefix_len; gateway = g; dns = d }))))))

unfoldable pub parse_upstream : Bytes → Result ParseError Command
parse_upstream mode =
    if bytes_eq mode (codes "uart")
    then ok (set_upstream uart)
    else if bytes_eq mode (codes "i2c")
    then ok (set_upstream i2c)
    else if bytes_eq mode (codes "usb")
    then ok (set_upstream usb)
    else if bytes_eq mode (codes "spi")
    then ok (set_upstream spi)
    else if bytes_eq mode (codes "spi_echo") || bytes_eq mode (codes "spiecho")
    then ok (set_upstream spi_echo)
    else if bytes_eq mode (codes "spi_static") || bytes_eq mode (codes "spistatic")
    then ok (set_upstream spi_static)
    else if bytes_eq mode (codes "spi_line_high")
        || bytes_eq mode (codes "spilinehigh")
        || bytes_eq mode (codes "spi_line")
    then ok (set_upstream spi_line_high)
    else if bytes_eq mode (codes "test")
    then ok (set_upstream test_mode)
    else err unknown_command

-- The commands of one word, and `set` with one, two, three or four more words.
unfoldable pub parse_word : Bytes → Result ParseError Command
parse_word w =
    if bytes_eq w (codes "help")
    then ok help
    else if bytes_eq w (codes "show")
    then ok show
    else if bytes_eq w (codes "start")
    then ok start
    else if bytes_eq w (codes "reset")
    then ok reset
    else err unknown_command

unfoldable pub parse_set : Bytes → Result ParseError Command
parse_set w =
    if bytes_eq w (codes "auto")
    then ok set_auto
    else if bytes_eq w (codes "discover")
    then ok (set_client zero_ip 9000)
    else if bytes_eq w (codes "dhcp")
    then ok set_dhcp
    else err unknown_command

unfoldable pub parse_set_one : Bytes → Bytes → Result ParseError Command
parse_set_one w arg =
    if bytes_eq w (codes "discovery")
    then (if bytes_eq arg (codes "on")
        then ok (set_discovery true)
        else if bytes_eq arg (codes "off")
        then ok (set_discovery false)
        else err unknown_command)
    else if bytes_eq w (codes "server")
    then and_then (parse_port arg) (λ port. ok (set_server port))
    else if bytes_eq w (codes "upstream")
    then parse_upstream arg
    else err unknown_command

unfoldable pub parse_set_two : Bytes → Bytes → Bytes → Result ParseError Command
parse_set_two w host port =
    if bytes_eq w (codes "client")
    then and_then (parse_ipv4 host) (λ h. and_then (parse_port port) (λ p. ok (set_client h p)))
    else err unknown_command

unfoldable pub parse_set_three : Bytes → Bytes → Bytes → Bytes → Result ParseError Command
parse_set_three w cidr gateway dns =
    if bytes_eq w (codes "static")
    then and_then (parse_static cidr gateway dns) (λ ipv4. ok (set_static ipv4))
    else err unknown_command

unfoldable pub parse_tokens : List Bytes → Result ParseError Command
parse_tokens [] = err empty_command
parse_tokens (w ∷ []) = parse_word w
parse_tokens (w ∷ x ∷ []) = if bytes_eq w (codes "set") then parse_set x else err unknown_command
parse_tokens (w ∷ x ∷ y ∷ []) =
    if bytes_eq w (codes "set") then parse_set_one x y else err unknown_command
parse_tokens (w ∷ x ∷ y ∷ z ∷ []) =
    if bytes_eq w (codes "set") then parse_set_two x y z else err unknown_command
parse_tokens (w ∷ x ∷ y ∷ z ∷ v ∷ []) =
    if bytes_eq w (codes "set") then parse_set_three x y z v else err unknown_command
parse_tokens (w ∷ x ∷ y ∷ z ∷ v ∷ u ∷ ws) = err unknown_command

-- `collect` stands for heapless, which gathers the words in a vector of capacity eight; `none` is
-- its panic.
unfoldable pub parse_command :
    (List Bytes → Option (List Bytes)) → Bytes → Option (Result ParseError Command)
unfolding parse_tokens
parse_command collect line =
    Option.map (λ tokens. parse_tokens (map (trim_matches is_whitespace) tokens))
      (collect (split_words [] line))
