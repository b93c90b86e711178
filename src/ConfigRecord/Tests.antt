-- ===== src/ConfigRecord/Tests.antt =====
-- The theorems on the flash record, at one configuration.
use pico_fi.Config.{BridgeConfig, static_mode, tcp_client, spi, uart1}
use pico_fi.ConfigRecord.{encode_record, decode_record, checksum32, mix_bytes, mix_byte}
use pico_fi.ConfigRecord.RoundTrip.{decode_record-encode_record}
use pico_fi.ConfigRecord.Corruption.{decode_record-set}
use pico_fi.Prelude.{set, AreBytes, Ip, ◌≡◌, refl, true, none, some, arith}

abbrev host : Ip
host = record { a = 192; b = 168; c = 10; d = 20 }

abbrev station : BridgeConfig
station = record {
  discovery = true;
  mac_address = record { a = 2; b = 1; c = 2; d = 3; e = 4; f = 5 };
  address_mode =
      static_mode (record { address = host; prefix_len = 24; gateway = host; dns = host });
  bridge_mode = tcp_client host 9000;
  upstream_mode = spi;
  uart_port = uart1;
}

decode_record-encode_record_example : decode_record (encode_record station) ≡ some station
decode_record-encode_record_example = decode_record-encode_record station (omega arith)

station-AreBytes : AreBytes (encode_record station)
unfolding encode_record checksum32 mix_bytes mix_byte
station-AreBytes = ground arith

decode_record-set_example : decode_record (set (encode_record station) 33 0) ≡ none
unfolding encode_record
decode_record-set_example =
    decode_record-set (encode_record station) 33 0 refl station-AreBytes
      decode_record-encode_record_example (omega arith) (omega arith) (omega arith)
