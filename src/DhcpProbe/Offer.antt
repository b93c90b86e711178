-- ===== src/DhcpProbe/Offer.antt =====
-- What a frame that `is_offer` accepts holds.
use pico_fi.DhcpProbe.Options.{AreOffer, scan_options-AreOffer}
use mathlib.Core.Option
use pico_fi.DhcpProbe.{
  is_offer, ether_ok, ip_ok, udp_ok, bootp_ok, ip_of, udp_of, bootp_of, options_of, ihl_of,
  total_of, scan_options, finish, sum, unicast, cookie,
}
use pico_fi.Prelude.{
  length, take, replicate, length-drop, at, from_le16, Bytes, bytes_eq, bytes_eq_iff, Bool-cases,
  slice, be32, Mac, mac_bytes, ℕ, suc, ◌+◌, ◌/◌, ◌%◌, ◌≤◌, ◌≡◌, sym, ap, ◌∙◌, ◌≢◌, ◌⊎◌, ◌↔◌, inl,
  inr, Bool, true, false, Option, none, some, [], ◌∷◌, arith,
}

-- An IPv4 frame to this client or to all, of one UDP packet from a host; the lengths agree with each
-- other and with the size of the frame, and the IP checksum holds.
pub record IsSound (frame : Bytes) (mac : Mac) : Type 0 where
  long_enough : 285 ≤ length frame
  ethertype : slice frame 12 2 ≡ 8 ∷ 0 ∷ []
  addressee : (take 6 frame ≡ mac_bytes mac) ⊎ (take 6 frame ≡ replicate 6 255)
  version : at (ip_of frame) 0 / 16 ≡ 4
  header_room : 20 ≤ ihl_of (ip_of frame)
  total_room : ihl_of (ip_of frame) + 251 ≤ total_of (ip_of frame)
  inside : 14 + total_of (ip_of frame) ≤ length frame
  protocol : at (ip_of frame) 9 ≡ 17
  whole : from_le16 (at (ip_of frame) 7) (at (ip_of frame) 6) % 16384 ≡ 0
  sender : unicast (slice (ip_of frame) 12 4) ≡ true
  checksum : finish (sum (take (ihl_of (ip_of frame)) (ip_of frame)) 0) ≡ 0

-- The UDP packet goes from the server's to the client's port, its length is what the IP header
-- leaves for it, and its checksum is absent or holds.
pub record IsDatagram (ip udp : Bytes) : Type 0 where
  ports : take 4 udp ≡ 0 ∷ 67 ∷ 0 ∷ 68 ∷ []
  len : from_le16 (at udp 5) (at udp 4) ≡ length udp
  reply_room : 251 ≤ length udp
  udp_checksum :
      (slice udp 6 2 ≡ 0 ∷ 0 ∷ []) ⊎ (finish (sum udp (sum (slice ip 12 8) (17 + length udp))) ≡ 0)

-- The reply is to this client, for this transaction, and offers a unicast address.
pub record IsReply (reply : Bytes) (mac : Mac) (xid : ℕ) : Type 0 where
  pending : xid ≢ 0
  reply_head : take 3 reply ≡ 2 ∷ 1 ∷ 6 ∷ []
  transaction : slice reply 4 4 ≡ be32 xid
  client : slice reply 28 6 ≡ mac_bytes mac
  offered : unicast (slice reply 16 4) ≡ true
  not_link_local : slice reply 16 2 ≢ 169 ∷ 254 ∷ []
  magic : slice reply 236 4 ≡ cookie

-- A test of bytes says what it tests.
bytes_true : (xs ys : Bytes) → bytes_eq xs ys ≡ true → xs ≡ ys
bytes_true xs ys = (bytes_eq_iff xs ys).0

bytes_false : (xs ys : Bytes) → bytes_eq xs ys ≡ false → xs ≢ ys
bytes_false xs ys other e = cc ((bytes_eq_iff xs ys).1 e, other)

is_true : (o : Option Bool) → Option.get_or o false ≡ true → o ≡ some true
is_true none e = absurd (ground arith)
is_true (some b) e = ap some e

-- The tests that `is_offer` joins.
guards :
    (frame : Bytes) (mac : Mac) (xid : ℕ)
    → let ip = ip_of frame in
      (is_offer frame mac xid ≡ true) ↔ (
        (ether_ok frame mac xid ≡ true)
        × (ip_ok ip ≡ true)
        × (udp_ok ip (udp_of ip) ≡ true)
        × (bootp_ok (bootp_of ip) mac xid ≡ true)
        × (Option.get_or
              (scan_options (suc (length (options_of ip))) (options_of ip) (false, false))
              false
            ≡ true))
unfolding is_offer
guards frame mac xid = (λ e. ground arith, λ h. ground arith)

ether_facts :
    (frame : Bytes) (mac : Mac) (xid : ℕ)
    → (ether_ok frame mac xid ≡ true) ↔ (
        (xid ≢ 0)
        × (285 ≤ length frame)
        × (bytes_eq (slice frame 12 2) (8 ∷ 0 ∷ []) ≡ true)
        × ((bytes_eq (take 6 frame) (mac_bytes mac) ≡ true)
            ⊎ (bytes_eq (take 6 frame) (replicate 6 255) ≡ true)))
unfolding ether_ok
ether_facts frame mac xid = (λ e. ground arith, λ h. ground arith)

ip_facts :
    (ip : Bytes)
    → (ip_ok ip ≡ true) ↔ (
        (at ip 0 / 16 ≡ 4)
        × (20 ≤ ihl_of ip)
        × (ihl_of ip + 251 ≤ total_of ip)
        × (total_of ip ≤ length ip)
        × (at ip 9 ≡ 17)
        × (from_le16 (at ip 7) (at ip 6) % 16384 ≡ 0)
        × (unicast (slice ip 12 4) ≡ true)
        × (finish (sum (take (ihl_of ip) ip) 0) ≡ 0))
unfolding ip_ok
ip_facts ip = (λ e. ground arith, λ h. ground arith)

udp_facts :
    (ip udp : Bytes)
    → (udp_ok ip udp ≡ true) ↔ (
        (bytes_eq (take 4 udp) (0 ∷ 67 ∷ 0 ∷ 68 ∷ []) ≡ true)
        × (251 ≤ from_le16 (at udp 5) (at udp 4))
        × (from_le16 (at udp 5) (at udp 4) ≡ length udp)
        × ((bytes_eq (slice udp 6 2) (0 ∷ 0 ∷ []) ≡ true)
            ⊎ (finish (sum udp (sum (slice ip 12 8) (17 + from_le16 (at udp 5) (at udp 4)))) ≡ 0)))
unfolding udp_ok
udp_facts ip udp = (λ e. ground arith, λ h. ground arith)

reply_facts :
    (reply : Bytes) (mac : Mac) (xid : ℕ)
    → (bootp_ok reply mac xid ≡ true) ↔ (
        (bytes_eq (take 3 reply) (2 ∷ 1 ∷ 6 ∷ []) ≡ true)
        × (bytes_eq (slice reply 4 4) (be32 xid) ≡ true)
        × (bytes_eq (slice reply 28 6) (mac_bytes mac) ≡ true)
        × (unicast (slice reply 16 4) ≡ true)
        × (bytes_eq (slice reply 16 2) (169 ∷ 254 ∷ []) ≡ false)
        × (bytes_eq (slice reply 236 4) cookie ≡ true))
unfolding bootp_ok
reply_facts reply mac xid = (λ e. ground arith, λ h. ground arith)

sound :
    (frame : Bytes) (mac : Mac) (xid : ℕ)
    → ether_ok frame mac xid ≡ true
    → ip_ok (ip_of frame) ≡ true
    → IsSound frame mac
sound frame mac xid link net =
    let (real, long, kind, to) = (ether_facts frame mac xid).0 link in
    let (four, header, total, room, udp, one, from, summed) = (ip_facts (ip_of frame)).0 net in
    record {
      long_enough = long;
      ethertype = bytes_true _ _ kind;
      addressee = elim to [ inl us ↦ inl (bytes_true _ _ us) | inr all ↦ inr (bytes_true _ _ all) ];
      version = four;
      header_room = header;
      total_room = total;
      inside = omega (arith, length-drop 14 frame, long);
      protocol = udp;
      whole = one;
      sender = from;
      checksum = summed;
    }

datagram : (ip udp : Bytes) → udp_ok ip udp ≡ true → IsDatagram ip udp
datagram ip udp e =
    let (port, room, same, summed) = (udp_facts ip udp).0 e in
    record {
      ports = bytes_true _ _ port;
      len = same;
      reply_room = omega (arith, same, room);
      udp_checksum = elim summed [
        | inl absent ↦ inl (bytes_true _ _ absent)
        | inr holds ↦
            inr (ap (λ n. finish (sum udp (sum (slice ip 12 8) (17 + n)))) (sym same) ∙ holds)
      ];
    }

reply_to :
    (reply : Bytes) (mac : Mac) (xid : ℕ)
    → xid ≢ 0
    → bootp_ok reply mac xid ≡ true
    → IsReply reply mac xid
reply_to reply mac xid real e =
    let (head, xids, macs, addr, foreign, cookies) = (reply_facts reply mac xid).0 e in
    record {
      pending = real;
      reply_head = bytes_true _ _ head;
      transaction = bytes_true _ _ xids;
      client = bytes_true _ _ macs;
      offered = addr;
      not_link_local = bytes_false _ _ foreign;
      magic = bytes_true _ _ cookies;
    }

bytes_test : {xs ys : Bytes} → xs ≡ ys → bytes_eq xs ys ≡ true
bytes_test {xs} {ys} = (bytes_eq_iff xs ys).1

bytes_differ : (xs ys : Bytes) → xs ≢ ys → bytes_eq xs ys ≡ false
bytes_differ xs ys other = elim (Bool-cases (bytes_eq xs ys)) [
  | inl same ↦ absurd (other (bytes_true xs ys same))
  | inr differ ↦ differ
]

ether_passes :
    (frame : Bytes) (mac : Mac) (xid : ℕ)
    → xid ≢ 0
    → IsSound frame mac
    → ether_ok frame mac xid ≡ true
ether_passes frame mac xid real v = (ether_facts frame mac xid).1 (
  real,
  v.long_enough,
  bytes_test v.ethertype,
  elim v.addressee [ inl us ↦ inl (bytes_test us) | inr all ↦ inr (bytes_test all) ],
)

ip_passes : (frame : Bytes) (mac : Mac) → IsSound frame mac → ip_ok (ip_of frame) ≡ true
ip_passes frame mac v = (ip_facts (ip_of frame)).1 (
  v.version,
  v.header_room,
  v.total_room,
  omega (arith, length-drop 14 frame, v.inside),
  v.protocol,
  v.whole,
  v.sender,
  v.checksum,
)

udp_passes : (ip udp : Bytes) → IsDatagram ip udp → udp_ok ip udp ≡ true
udp_passes ip udp v = (udp_facts ip udp).1 (
  bytes_test v.ports,
  omega (arith, v.len, v.reply_room),
  v.len,
  elim v.udp_checksum [
    | inl absent ↦ inl (bytes_test absent)
    | inr holds ↦ inr (ap (λ n. finish (sum udp (sum (slice ip 12 8) (17 + n)))) v.len ∙ holds)
  ],
)

reply_passes :
    (reply : Bytes) (mac : Mac) (xid : ℕ) → IsReply reply mac xid → bootp_ok reply mac xid ≡ true
reply_passes reply mac xid v = (reply_facts reply mac xid).1 (
  bytes_test v.reply_head,
  bytes_test v.transaction,
  bytes_test v.client,
  v.offered,
  bytes_differ _ _ v.not_link_local,
  bytes_test v.magic,
)

-- `is_offer` accepts exactly the frames that are one unfragmented IPv4 frame with a valid IP
-- checksum, to this client or to all, and as long as the IP header announces at least; with a UDP
-- datagram from the server's port to the client's, with the length that the IP header leaves and
-- a checksum that is absent or valid; with a reply in it to this client in this transaction with
-- a unicast address outside 169.254/16; and with the options of an offer.
pub is_offer-IsReply :
    (frame : Bytes) (mac : Mac) (xid : ℕ)
    → (is_offer frame mac xid ≡ true) ↔ (
        IsSound frame mac
        × IsDatagram (ip_of frame) (udp_of (ip_of frame))
        × IsReply (bootp_of (ip_of frame)) mac xid
        × AreOffer (options_of (ip_of frame)))
is_offer-IsReply frame mac xid =
    let ip = ip_of frame in
    let options = (scan_options-AreOffer (options_of ip)).1 in
    (
      λ e.
          let (link, net, udp, reply, offer) = (guards frame mac xid).0 e in
          (
            sound frame mac xid link net,
            datagram ip (udp_of ip) udp,
            reply_to (bootp_of ip) mac xid ((ether_facts frame mac xid).0 link).0 reply,
            options.0 (is_true _ offer),
          ),
      λ (v, u, r, o). (guards frame mac xid).1 (
        ether_passes frame mac xid r.pending v,
        ip_passes frame mac v,
        udp_passes ip (udp_of ip) u,
        reply_passes (bootp_of ip) mac xid r,
        ap (λ x. Option.get_or x false) (options.1 o),
      ),
    )
