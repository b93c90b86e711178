-- ===== src/Storage/Tests.antt =====
-- The theorems on the storage, at a flash of one sector.
use pico_fi.ConfigRecord.{encode_record}
use pico_fi.Storage.{FlashDriver, load, save, config_sector_offset}
use pico_fi.Storage.Saved.{IsFlash, load-save}
use pico_fi.Config.{BridgeConfig, dhcp_mode, tcp_server, usb, uart0}
use pico_fi.I2cPacket.Mailboxes.{take-blit}
use pico_fi.Prelude.{
  leb, if◌then◌else◌, Bool-cases, length, take, replicate, Bytes, blit, length-blit, ℕ, zero, suc,
  ◌≤◌, ◌≡◌, refl, sym, ap, ◌∙◌, inl, inr, Bool, true, false, none, some, ◌∷◌, arith,
}

-- The sector holds 128 bytes here; what does not fit is refused.
abbrev one_sector : FlashDriver Bytes
one_sector = record {
  erase_size = 128;
  blocking_read = λ flash offset n. if leb n (length flash) then some (take n flash) else none;
  blocking_erase = λ flash from to. (true, replicate 128 0xff);
  blocking_write = λ flash offset bytes.
      if leb (length bytes) (length flash) then (true, blit flash 0 bytes) else (false, flash);
}

read_written :
    (erased written bytes : Bytes)
    → one_sector.blocking_write erased (config_sector_offset one_sector) bytes ≡ (true, written)
    → one_sector.blocking_read written (config_sector_offset one_sector) (length bytes) ≡ some bytes
read_written erased written bytes e = elim (Bool-cases (leb (length bytes) (length erased))) [
  | inl fits ↦
      let w : blit erased 0 bytes ≡ written = ground (arith, fits, e) in
      let size = length-blit erased 0 bytes in
      let t = take-blit erased bytes (ground (arith, fits)) in ground (arith, w, size, t, fits)
  | inr big ↦ absurd (ground (arith, big, e))
]

erased_byte : (n m : ℕ) → n ≤ m → take {A = ℕ} n (replicate m 0xff) ≡ replicate n 0xff
erased_byte zero m h = refl
erased_byte (suc n) zero h = absurd (omega arith)
erased_byte (suc n) (suc m) h = ap (◌∷◌ 0xff) (erased_byte n m (omega arith))

read_erased :
    (erased : Bytes) (n : ℕ)
    → n ≤ 128
    → replicate 128 0xff ≡ erased
    → one_sector.blocking_read erased (config_sector_offset one_sector) n ≡ some (replicate n 0xff)
read_erased erased n h e =
    let size : leb n 128 ≡ true = ground arith in
    ap (λ (b : Bytes). one_sector.blocking_read b (config_sector_offset one_sector) n) (sym e)
    ∙ rw size (ap some (erased_byte n 128 h))

one_sector-IsFlash : IsFlash one_sector
one_sector-IsFlash = record {
  holds_record = omega arith;
  read-write = λ flash erased written bytes q e. read_written erased written bytes e;
  read-erase = λ flash erased n h q. read_erased erased n h (ap (λ (r : Bool × Bytes). r.1) q);
}

abbrev station : BridgeConfig
station = record {
  discovery = false;
  mac_address = record { a = 2; b = 1; c = 2; d = 3; e = 4; f = 5 };
  address_mode = dhcp_mode;
  bridge_mode = tcp_server 9000;
  upstream_mode = usb;
  uart_port = uart0;
}

abbrev old : Bytes
old = replicate 128 7

load-save_example : load one_sector (save one_sector old station).1 ≡ some station
unfolding save encode_record
load-save_example =
    load-save one_sector one_sector-IsFlash old (save one_sector old station).1 station
      (omega arith) refl
