-- ===== src/Config/Decimal.antt =====
-- Addresses that are rendered are parsed back.
use pico_fi.Config.Parse.{parse_ipv4, four_octets, parse_octets}
use pico_fi.Config.Render.{digits, push_rev, push_str, push, push_u8, push_ipv4}
use pico_fi.Text.{parse_unsigned, split}
use pico_fi.Prelude.{
  ◌==◌, length, length-append, Bytes, AreBytes, Ip, ip_bytes, ok, ℕ, ◌+◌, ◌≤◌, ◌<◌, ◌≡◌, refl, sym,
  ap, ◌∙◌, false, some, [], ◌∷◌, ◌++◌, append-nil, append_assoc, arith,
}

-- The digits in the order in which they are written.
abbrev pub rev : Bytes → Bytes
rev [] = []
rev (d ∷ ds) = rev ds ++ (d ∷ [])

abbrev pub decimal : ℕ → Bytes
decimal n = rev (digits 3 n)

parse_unsigned-decimal : (n : ℕ) → n < 256 → parse_unsigned 255 (decimal n) ≡ some n
parse_unsigned-decimal n h = ground arith

push_fits : (out : Bytes) (c : ℕ) → length out < 160 → push out c ≡ out ++ (c ∷ [])
unfolding push_str
push_fits out c h = ground arith

length-rev : (ds : Bytes) → length (rev ds) ≡ length ds
length-rev [] = refl
length-rev (d ∷ ds) = omega (arith, length-append (rev ds) (d ∷ []), length-rev ds)

push_rev-rev : (out ds : Bytes) → length out + length ds ≤ 160 → push_rev out ds ≡ out ++ rev ds
push_rev-rev out [] h = sym (append-nil out)
push_rev-rev out (d ∷ ds) h =
    let e = push_rev-rev out ds (omega arith) in
    ap (λ o. push o d) e
    ∙ push_fits (out ++ rev ds) d (omega (arith, length-append out (rev ds), length-rev ds))
    ∙ append_assoc out (rev ds) (d ∷ [])

length-digits : (n : ℕ) → length (digits 3 n) ≤ 3
length-digits n = ground arith

-- No byte is a dot.
abbrev pub AreDigits : Bytes → Type 0
AreDigits [] = Unit {0}
AreDigits (c ∷ cs) = (48 ≤ c) × AreDigits cs

decimal-AreDigits : (n : ℕ) → AreDigits (decimal n)
decimal-AreDigits n = ground arith

split_dot : (w rest : Bytes) → AreDigits w → split 46 (w ++ 46 ∷ rest) ≡ w ∷ split 46 rest
split_dot [] rest v = refl
split_dot (c ∷ w) rest v =
    let apart : (c == 46) ≡ false = ground (arith, v.0) in rw (apart, split_dot w rest v.1) refl

split_end : (w : Bytes) → AreDigits w → split 46 w ≡ w ∷ []
split_end [] v = refl
split_end (c ∷ w) v =
    let apart : (c == 46) ≡ false = ground (arith, v.0) in rw (apart, split_end w v.1) refl

abbrev pub dotted : Ip → Bytes
dotted ip = decimal ip.a ++ 46 ∷ (decimal ip.b ++ 46 ∷ (decimal ip.c ++ 46 ∷ decimal ip.d))

split-dotted :
    (ip : Ip)
    → split 46 (dotted ip) ≡ decimal ip.a ∷ decimal ip.b ∷ decimal ip.c ∷ decimal ip.d ∷ []
split-dotted ip =
    split_dot (decimal ip.a) _ (decimal-AreDigits ip.a)
    ∙ ap (◌∷◌ (decimal ip.a)) (
        split_dot (decimal ip.b) _ (decimal-AreDigits ip.b)
        ∙ ap (◌∷◌ (decimal ip.b)) (
            split_dot (decimal ip.c) _ (decimal-AreDigits ip.c)
            ∙ ap (◌∷◌ (decimal ip.c)) (split_end (decimal ip.d) (decimal-AreDigits ip.d))))

octets_read :
    (w x y z : Bytes) (ip : Ip)
    → parse_unsigned 255 w ≡ some ip.a
    → parse_unsigned 255 x ≡ some ip.b
    → parse_unsigned 255 y ≡ some ip.c
    → parse_unsigned 255 z ≡ some ip.d
    → four_octets (parse_octets 0 (w ∷ x ∷ y ∷ z ∷ [])) ≡ ok ip
octets_read w x y z ip e0 e1 e2 e3 = rw (e0, e1, e2, e3) refl

parse_ipv4-dotted : (ip : Ip) → AreBytes (ip_bytes ip) → parse_ipv4 (dotted ip) ≡ ok ip
unfolding parse_ipv4
parse_ipv4-dotted ip v =
    let e0 = parse_unsigned-decimal ip.a v.0 in
    let e1 = parse_unsigned-decimal ip.b v.1.0 in
    let e2 = parse_unsigned-decimal ip.c v.1.1.0 in
    let e3 = parse_unsigned-decimal ip.d v.1.1.1.0 in
    ap (λ w. four_octets (parse_octets 0 w)) (split-dotted ip)
    ∙ octets_read (decimal ip.a) (decimal ip.b) (decimal ip.c) (decimal ip.d) ip e0 e1 e2 e3

push_u8-decimal : (out : Bytes) (n : ℕ) → length out + 3 ≤ 160 → push_u8 out n ≡ out ++ decimal n
push_u8-decimal out n h = push_rev-rev out (digits 3 n) (omega (arith, length-digits n))

length-decimal : (n : ℕ) → length (decimal n) ≤ 3
length-decimal n = omega (arith, length-digits n, length-rev (digits 3 n))

-- One octet and the dot behind it.
push_octet :
    (out : Bytes) (n : ℕ)
    → length out + 4 ≤ 160
    → push (push_u8 out n) 46 ≡ out ++ (decimal n ++ 46 ∷ [])
push_octet out n h =
    ap (λ o. push o 46) (push_u8-decimal out n (omega arith))
    ∙ push_fits (out ++ decimal n) 46
        (omega (arith, length-append out (decimal n), length-decimal n))
    ∙ append_assoc out (decimal n) (46 ∷ [])

length-octet : (out : Bytes) (n : ℕ) → length (out ++ (decimal n ++ 46 ∷ [])) ≤ length out + 4
length-octet out n = omega (
  arith,
  length-append out (decimal n ++ 46 ∷ []),
  length-append (decimal n) (46 ∷ []),
  length-decimal n,
)

-- Three octets and their dots.
abbrev octet : ℕ → Bytes
octet n = decimal n ++ 46 ∷ []

push_ipv4-dotted :
    (out : Bytes) (ip : Ip) → length out + 15 ≤ 160 → push_ipv4 out ip ≡ out ++ dotted ip
push_ipv4-dotted out ip h =
    let o1 = out ++ octet ip.a in
    let o2 = o1 ++ octet ip.b in
    let o3 = o2 ++ octet ip.c in
    let l1 = length-octet out ip.a in
    let l2 = length-octet o1 ip.b in
    let l3 = length-octet o2 ip.c in
    ap (λ o. push_u8 (push (push_u8 (push (push_u8 o ip.b) 46) ip.c) 46) ip.d)
      (push_octet out ip.a (omega arith))
    ∙ ap (λ o. push_u8 (push (push_u8 o ip.c) 46) ip.d) (push_octet o1 ip.b (omega (arith, l1)))
    ∙ ap (λ o. push_u8 o ip.d) (push_octet o2 ip.c (omega (arith, l1, l2)))
    ∙ push_u8-decimal o3 ip.d (omega (arith, l1, l2, l3))
    ∙ simp (append_assoc)

-- Where at least 15 bytes are free, rendering an address appends a text that `parse_ipv4` reads
-- back to that address.
pub parse_ipv4-push_ipv4 :
    (out : Bytes) (ip : Ip)
    → AreBytes (ip_bytes ip)
    → length out + 15 ≤ 160
    → (text : Bytes) × (push_ipv4 out ip ≡ out ++ text) × (parse_ipv4 text ≡ ok ip)
parse_ipv4-push_ipv4 out ip v h = (dotted ip, push_ipv4-dotted out ip h, parse_ipv4-dotted ip v)
