-- ===== src/Discovery/Tests.antt =====
-- The theorems on discovery messages, at one query.
use pico_fi.Discovery.{Message, pico, query, encode, decode, fields_ok}
use pico_fi.Discovery.Codec.{IsWire, decode-encode, encode-decode}
use pico_fi.Prelude.{Bytes, AreBytes, bytes_eq, ◌≡◌, refl, some, [], ◌∷◌, arith}

abbrev hello : Message
hello = record {
  kind = query;
  party = pico;
  port = 0;
  nonce = 0x0807060504030201;
  identity = record { a = 2; b = 3; c = 4; d = 5; e = 6; f = 7 };
}

hello-IsWire : IsWire hello
unfolding fields_ok
hello-IsWire = record { port_small = omega arith; nonce_small = omega arith; fits_kind = refl }

decode-encode_example : decode (encode hello) ≡ some hello
decode-encode_example = decode-encode hello hello-IsWire

-- Its 32 bytes.
abbrev wire : Bytes
wire =
    80 ∷ 67 ∷ 70 ∷ 73 ∷ 78 ∷ 68 ∷ 48 ∷ 49 ∷ 1 ∷ 2 ∷ 0 ∷ 0 ∷ 1 ∷ 2 ∷ 3 ∷ 4 ∷ 5 ∷ 6 ∷ 7 ∷ 8 ∷ 2 ∷ 3
    ∷ 4 ∷ 5 ∷ 6 ∷ 7 ∷ 0 ∷ 0 ∷ 0 ∷ 0 ∷ 0 ∷ 0 ∷ []

wire-AreBytes : AreBytes wire
wire-AreBytes = ground arith

encode-decode_example : (encode hello ≡ wire) × IsWire hello
unfolding decode bytes_eq
encode-decode_example = encode-decode wire hello wire-AreBytes refl
