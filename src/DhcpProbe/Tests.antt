-- ===== src/DhcpProbe/Tests.antt =====
-- The theorems on DHCP frames, at an offer of a small network's router.
use pico_fi.DhcpProbe.{
  sum, fold, finish, discover, discover_head, is_offer, scan_options, note_option, bootp_of,
  options_of, ip_of, udp_of, ether_ok, ip_ok, udp_ok, bootp_ok, unicast,
}
use pico_fi.DhcpProbe.Options.{AreOffer, scan_options-AreOffer}
use pico_fi.DhcpProbe.Offer.{IsSound, IsDatagram, IsReply, is_offer-IsReply}
use pico_fi.Prelude.{
  length, Bytes, bytes_eq, slice, blit, be16, Mac, suc, ◌≡◌, refl, ◌↔◌, Bool, true, false, some, [],
  ◌∷◌,
}

abbrev client : Mac
client = record { a = 2; b = 1; c = 2; d = 3; e = 4; f = 5 }

-- The DISCOVER frame turned round: from the router, with an address and the options of an offer.
abbrev unsealed : Bytes
unsealed =
    blit
      (blit
        (blit
          (blit
            (blit (blit (discover client 77) 6 (2 ∷ 9 ∷ 8 ∷ 7 ∷ 6 ∷ 5 ∷ [])) 24
              (0 ∷ 0 ∷ 192 ∷ 168 ∷ 30 ∷ 1 ∷ []))
            34 (0 ∷ 67 ∷ 0 ∷ 68 ∷ []))
          42 (2 ∷ []))
        58 (192 ∷ 168 ∷ 30 ∷ 10 ∷ []))
      282 (53 ∷ 1 ∷ 2 ∷ 54 ∷ 4 ∷ 192 ∷ 168 ∷ 30 ∷ 1 ∷ 255 ∷ [])

abbrev offer_frame : Bytes
offer_frame = blit unsealed 24 (be16 (finish (sum (slice unsealed 14 20) 0)))

is_offer-IsReply_example : (is_offer offer_frame client 77 ≡ true) ↔ (
    IsSound offer_frame client
    × IsDatagram (ip_of offer_frame) (udp_of (ip_of offer_frame))
    × IsReply (bootp_of (ip_of offer_frame)) client 77
    × AreOffer (options_of (ip_of offer_frame)))
is_offer-IsReply_example = is_offer-IsReply offer_frame client 77

-- The frame is accepted.
offer_frame-accepted : is_offer offer_frame client 77 ≡ true
unfolding is_offer discover discover_head finish fold sum scan_options note_option ether_ok ip_ok
    udp_ok bootp_ok unicast bytes_eq
offer_frame-accepted = refl

abbrev two_options : Bytes
two_options = 53 ∷ 1 ∷ 2 ∷ 54 ∷ 4 ∷ 192 ∷ 168 ∷ 30 ∷ 1 ∷ 255 ∷ []

scan_options-AreOffer_example :
    ((answer : Bool) × (scan_options (suc (length two_options)) two_options (false, false)
        ≡ some answer))
    × ((scan_options (suc (length two_options)) two_options (false, false) ≡ some true)
        ↔ AreOffer two_options)
scan_options-AreOffer_example = scan_options-AreOffer two_options
