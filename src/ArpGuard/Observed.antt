-- ===== src/ArpGuard/Observed.antt =====
-- What the guard reports of the received frames, and when it transmits.
use pico_fi.ArpGuard.{
  ProbeState, inspect, ip_to_u32, ip_from_u32, service, set_candidate, is_pending,
}
use pico_fi.Ipv4ll.{arp_conflict, arp_probe}
use pico_fi.DhcpProbe.{is_offer, discover}
use pico_fi.Prelude.{
  ◌==◌, if◌then◌else◌, ==_false, Bool-cases, if_true, if_false, take, drop, Bytes, AreBytes, Ip,
  Mac, ip_bytes, ℕ, zero, suc, ◌/◌, ◌%◌, ◌≡◌, refl, sym, ap, ◌∙◌, ◌≢◌, inl, inr, Bool, true, false,
  not, ◌&&◌, ◌||◌, Option, none, some, List, [], ◌∷◌, ◌++◌, ◌+◌, arith,
}

abbrev pub any {ℓ} : {A : Type ℓ} → (A → Bool) → List A → Bool
any p [] = false
any p (x ∷ xs) = p x || any p xs

abbrev pub inspect_all : ProbeState → List Bytes → ProbeState
inspect_all s [] = s
inspect_all s (b ∷ bs) = inspect_all (inspect s b) bs

-- An address survives the atomic that holds it.
pub ip_from_u32-ip_to_u32 : (ip : Ip) → AreBytes (ip_bytes ip) → ip_from_u32 (ip_to_u32 ip) ≡ ip
ip_from_u32-ip_to_u32 ip v =
    let n : ℕ = ip_to_u32 ip in
    let ea : n / 16777216 % 256 ≡ ip.a = omega arith in
    let eb : n / 65536 % 256 ≡ ip.b = omega arith in
    let ec : n / 256 % 256 ≡ ip.c = omega arith in
    let ed : n % 256 ≡ ip.d = omega arith in λ i. record { a = ea i; b = eb i; c = ec i; d = ed i }

-- What one inspection leaves alone, and what it reports.
record Inspected (s t : ProbeState) (b : Bytes) : Type 0 where
  mac_kept : t.mac ≡ s.mac
  candidate_kept : t.candidate_ip ≡ s.candidate_ip
  xid_kept : t.dhcp_xid ≡ s.dhcp_xid
  pending_kept : t.dhcp_pending ≡ s.dhcp_pending
  conflict_is : t.conflict ≡ (
      s.conflict
      || (not (s.candidate_ip == 0) && arp_conflict b s.mac (ip_from_u32 s.candidate_ip)))
  offer_is : t.dhcp_offer ≡ (
      s.dhcp_offer || (not (s.dhcp_xid == 0) && not s.dhcp_pending && is_offer b s.mac s.dhcp_xid))

inspect-Inspected : (s : ProbeState) (b : Bytes) → Inspected s (inspect s b) b
unfolding inspect
inspect-Inspected s b = ground arith

or_step : (f g a b c : Bool) → f ≡ (g || a) → b ≡ (f || c) → b ≡ (g || (a || c))
or_step f g a b c e h = ground arith

conflict_step :
    (s : ProbeState) (b : Bytes) (mac : Mac) (c : ℕ)
    → s.mac ≡ mac
    → s.candidate_ip ≡ c
    → (c == 0) ≡ false
    → (inspect s b).conflict ≡ (s.conflict || arp_conflict b mac (ip_from_u32 c))
conflict_step s b mac c em ec h =
    let found : (not (c == 0) && arp_conflict b mac (ip_from_u32 c))
        ≡ arp_conflict b mac (ip_from_u32 c) =
      rw h in
    (inspect-Inspected s b).conflict_is
    ∙ (λ i. s.conflict || (not (ec i == 0) && arp_conflict b (em i) (ip_from_u32 (ec i))))
    ∙ ap (λ (x : Bool). s.conflict || x) found

-- The conflict flag after a run of frames is set exactly if one of them conflicted.
inspect_all-conflict :
    (bs : List Bytes) (s : ProbeState) (mac : Mac) (c : ℕ)
    → s.mac ≡ mac
    → s.candidate_ip ≡ c
    → (c == 0) ≡ false
    → (inspect_all s bs).conflict ≡ (s.conflict || any (λ b. arp_conflict b mac (ip_from_u32 c)) bs)
inspect_all-conflict [] s mac c em ec h = ground arith
inspect_all-conflict (b ∷ bs) s mac c em ec h =
    let t = inspect-Inspected s b in
    or_step _ _ _ _ _ (conflict_step s b mac c em ec h)
      (inspect_all-conflict bs (inspect s b) mac c (t.mac_kept ∙ em) (t.candidate_kept ∙ ec) h)

-- From the moment a candidate other than 0.0.0.0 is set the guard reports a conflict exactly if one of the frames
-- received since is an ARP conflict for that candidate.
pub set_candidate-conflict :
    (s : ProbeState) (ip : Ip) (bs : List Bytes)
    → AreBytes (ip_bytes ip)
    → ip_to_u32 ip ≢ 0
    → (inspect_all (set_candidate s ip) bs).conflict ≡ any (λ b. arp_conflict b s.mac ip) bs
unfolding set_candidate
set_candidate-conflict s ip bs v h =
    inspect_all-conflict bs (set_candidate s ip) s.mac (ip_to_u32 ip) refl refl (==_false _ 0 h)
    ∙ ap (λ (x : Ip). any (λ b. arp_conflict b s.mac x) bs) (ip_from_u32-ip_to_u32 ip v)

offer_step :
    (s : ProbeState) (b : Bytes) (mac : Mac) (x : ℕ) (waits : Bool)
    → s.mac ≡ mac
    → s.dhcp_xid ≡ x
    → s.dhcp_pending ≡ waits
    → (inspect s b).dhcp_offer ≡ (s.dhcp_offer || (not (x == 0) && not waits && is_offer b mac x))
offer_step s b mac x waits em ex ew =
    (inspect-Inspected s b).offer_is
    ∙ (λ i. s.dhcp_offer || (not (ex i == 0) && not (ew i) && is_offer b (em i) (ex i)))

-- The offer flag after a run of frames: set before, or the DISCOVER has gone out and one of the
-- frames is an offer for its transaction.
pub inspect_all-offer :
    (bs : List Bytes) (s : ProbeState) (mac : Mac) (x : ℕ) (waits : Bool)
    → s.mac ≡ mac
    → s.dhcp_xid ≡ x
    → s.dhcp_pending ≡ waits
    → (inspect_all s bs).dhcp_offer
      ≡ (s.dhcp_offer || any (λ b. not (x == 0) && not waits && is_offer b mac x) bs)
inspect_all-offer [] s mac x waits em ex ew = ground arith
inspect_all-offer (b ∷ bs) s mac x waits em ex ew =
    let t = inspect-Inspected s b in
    or_step _ _ _ _ _ (offer_step s b mac x waits em ex ew) (
      inspect_all-offer bs (inspect s b) mac x waits (t.mac_kept ∙ em) (t.xid_kept ∙ ex)
        (t.pending_kept ∙ ew))

-- The DISCOVER that was requested.
abbrev pub due_dhcp : ProbeState → List Bytes
due_dhcp s = if s.dhcp_pending then discover s.mac s.dhcp_xid ∷ [] else []

-- What is to be transmitted: the ARP frame that was requested, if there is a candidate, and then the
-- DISCOVER that was requested.
abbrev pub due : ProbeState → List Bytes
due s =
    (if is_pending s && not (s.candidate_ip == 0)
      then arp_probe s.mac (ip_from_u32 s.candidate_ip) (s.command == 2) ∷ []
      else [])
    ++ due_dhcp s

abbrev pub frames_of : Option Bytes → List Bytes
frames_of none = []
frames_of (some frame) = frame ∷ []

-- Calls of `service`, each with the link and the grant of the driver; the frames they transmit.
abbrev pub service_all : ProbeState → List (Bool × Bool) → ProbeState × List Bytes
service_all s [] = (s, [])
service_all s ((up, grants) ∷ calls) =
    let (t, frame) = service s up grants in
    let (t', frames) = service_all t calls in (t', frames_of frame ++ frames)

-- The calls at which the link is up and a transmission is granted.
abbrev pub chances : List (Bool × Bool) → ℕ
chances [] = 0
chances ((up, grants) ∷ calls) = (if up && grants then 1 else 0) + chances calls

-- One call transmits the first of what is due if it can, and the rest stays due.
abbrev Serves : ProbeState → ℕ → ProbeState × Option Bytes → Type 0
Serves s n r = (frames_of r.1 ≡ take n (due s)) × (due r.0 ≡ drop n (due s))

Serves-as :
    (s : ProbeState) (n : ℕ) (r t : ProbeState × Option Bytes) (frames : List Bytes)
    → r ≡ t
    → due s ≡ frames
    → frames_of t.1 ≡ take n frames
    → due t.0 ≡ drop n frames
    → Serves s n r
Serves-as s n r t frames e d sent left = (
  ap (λ r. frames_of r.1) e ∙ sent ∙ sym (ap (take n) d),
  ap (λ r. due r.0) e ∙ left ∙ sym (ap (drop n) d),
)

Serves-arp :
    (s : ProbeState) (g : Bool)
    → (not (s.command == 0) && not (s.candidate_ip == 0)) ≡ true
    → Serves s (if g then 1 else 0) (service s true g)
unfolding service is_pending
Serves-arp s true e =
    Serves-as s 1 _ _ _ (if_true _ e) (ap (◌++ due_dhcp s) (if_true [] e)) refl refl
Serves-arp s false e = Serves-as s 0 _ _ _ (if_true _ e) refl refl refl

Serves-dhcp :
    (s : ProbeState) (g : Bool)
    → (not (s.command == 0) && not (s.candidate_ip == 0)) ≡ false
    → s.dhcp_pending ≡ true
    → Serves s (if g then 1 else 0) (service s true g)
unfolding service is_pending
Serves-dhcp s true e d =
    Serves-as s 1 _ (record s { dhcp_pending = false }, some (discover s.mac s.dhcp_xid))
      (discover s.mac s.dhcp_xid ∷ []) (if_false _ e ∙ if_true _ d)
      (ap (◌++ due_dhcp s) (if_false _ e) ∙ if_true [] d) refl (ap (◌++ []) (if_false _ e))
Serves-dhcp s false e d = Serves-as s 0 _ (s, none) _ (if_false _ e ∙ if_true _ d) refl refl refl

Serves-nothing :
    (s : ProbeState) (g : Bool)
    → (not (s.command == 0) && not (s.candidate_ip == 0)) ≡ false
    → s.dhcp_pending ≡ false
    → Serves s (if g then 1 else 0) (service s true g)
unfolding service is_pending
Serves-nothing s true e d =
    Serves-as s 1 _ (s, none) [] (if_false _ e ∙ if_false _ d)
      (ap (◌++ due_dhcp s) (if_false _ e) ∙ if_false (discover s.mac s.dhcp_xid ∷ []) d) refl
      (ap (◌++ due_dhcp s) (if_false _ e) ∙ if_false (discover s.mac s.dhcp_xid ∷ []) d)
Serves-nothing s false e d =
    Serves-as s 0 _ (s, none) _ (if_false _ e ∙ if_false _ d) refl refl refl

service-Serves :
    (s : ProbeState) (up grants : Bool)
    → Serves s (if up && grants then 1 else 0) (service s up grants)
unfolding service
service-Serves s false grants = (refl, refl)
service-Serves s true grants =
    elim (Bool-cases (not (s.command == 0) && not (s.candidate_ip == 0))) [
      | inl arp ↦ Serves-arp s grants arp
      | inr no_arp ↦ elim (Bool-cases s.dhcp_pending) [
        | inl dhcp ↦ Serves-dhcp s grants no_arp dhcp
        | inr no_dhcp ↦ Serves-nothing s grants no_arp no_dhcp
      ]
    ]

take_nil {ℓ} : {A : Type ℓ} (n : ℕ) → take {A = A} n [] ≡ []
take_nil zero = refl
take_nil (suc n) = refl

drop_nil {ℓ} : {A : Type ℓ} (n : ℕ) → drop {A = A} n [] ≡ []
drop_nil zero = refl
drop_nil (suc n) = refl

take_add {ℓ} :
    {A : Type ℓ} (m n : ℕ) (xs : List A) → take m xs ++ take n (drop m xs) ≡ take (m + n) xs
take_add zero n xs = ap (λ k. take k xs) (omega arith)
take_add (suc m) n [] = take_nil n ∙ sym (take_nil (suc m + n))
take_add (suc m) n (x ∷ xs) =
    let e : suc (m + n) ≡ suc m + n = omega arith in
    ap (◌∷◌ x) (take_add m n xs) ∙ ap (λ k. take k (x ∷ xs)) e

drop_add {ℓ} : {A : Type ℓ} (m n : ℕ) (xs : List A) → drop n (drop m xs) ≡ drop (m + n) xs
drop_add zero n xs = ap (λ k. drop k xs) (omega arith)
drop_add (suc m) n [] = drop_nil n ∙ sym (drop_nil (suc m + n))
drop_add (suc m) n (x ∷ xs) =
    let e : suc (m + n) ≡ suc m + n = omega arith in drop_add m n xs ∙ ap (λ k. drop k (x ∷ xs)) e

-- Whatever calls of `service` there are, the frames that they transmit are the first of what was
-- due, the ARP frame before the DISCOVER, one for each call at which the link is up and a
-- transmission is granted; nothing else is transmitted, nothing twice, and the rest stays due.
pub service_all-due :
    (calls : List (Bool × Bool)) (s : ProbeState)
    → ((service_all s calls).1 ≡ take (chances calls) (due s))
      × (due (service_all s calls).0 ≡ drop (chances calls) (due s))
service_all-due [] s = (refl, refl)
service_all-due ((up, grants) ∷ calls) s =
    let n : ℕ = if up && grants then 1 else 0 in
    let (sent, left) = service-Serves s up grants in
    let t = (service s up grants).0 in
    let (ih, ih') = service_all-due calls t in
    (
      (λ i. sent i ++ ih i)
          ∙ ap (λ xs. take n (due s) ++ take (chances calls) xs) left
          ∙ take_add n (chances calls) (due s),
      ih' ∙ ap (drop (chances calls)) left ∙ drop_add n (chances calls) (due s),
    )
