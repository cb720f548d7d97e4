-- ===== src/Dns/Reverse.antt =====
-- The names of reverse lookups, of dns/server/dns_resolver.cpp.
use network_protocols.Common.{
  ℕ, ◌≤◌, ◌<◌, ◌≡◌, refl, ◌∙◌, ap, Bool, true, false, ◌&&◌, [], ◌∷◌, ◌++◌, append-nil, append_assoc,
  some, Bytes, codes, ◌==◌, ◌>>=◌, arith,
}
use network_protocols.Dns.Resolver.{
  reverse_found, starts_with, before_suffix, reverse_labels, ip_addr_from_qname,
}

-- A part of an address: decimal digits.
abbrev pub IsDigits : Bytes → Type 0
IsDigits [] = Unit
IsDigits (x ∷ xs) = (b'0' ≤ x) × (x ≤ b'9') × IsDigits xs

reverse_labels_last :
    (label done part : Bytes)
    → IsDigits part
    → reverse_labels label done part ≡ (label ++ part) ++ done
unfolding reverse_labels
reverse_labels_last label done [] h = rw append-nil
reverse_labels_last label done (x ∷ xs) h =
    let e : (x == b'.') ≡ false = ground arith in
    rw e (
      reverse_labels_last (label ++ x ∷ []) done xs h.2
      ∙ ap (λ l. l ++ done) (append_assoc label (x ∷ []) xs))

reverse_labels-part :
    (label done part rest : Bytes)
    → IsDigits part
    → reverse_labels label done (part ++ b'.' ∷ rest)
      ≡ reverse_labels [] (b'.' ∷ ((label ++ part) ++ done)) rest
unfolding reverse_labels
reverse_labels-part label done [] rest h = rw append-nil
reverse_labels-part label done (x ∷ xs) rest h =
    let e : (x == b'.') ≡ false = ground arith in
    rw (e, reverse_labels)
      (reverse_labels-part (label ++ x ∷ []) done xs rest h.2
        ∙ ap (λ l. reverse_labels [] (b'.' ∷ (l ++ done)) rest) (append_assoc label (x ∷ []) xs))

-- The bytes of an address: digits and dots.
abbrev IsAddress : Bytes → Type 0
IsAddress [] = Unit
IsAddress (x ∷ xs) = (x < b'i') × IsAddress xs

before_suffix_here : before_suffix (codes ".in-addr.arpa") ≡ some []
unfolding before_suffix
before_suffix_here = refl

and_false : (b : Bool) → (b && false) ≡ false
and_false true = refl
and_false false = refl

starts_with_low :
    (x y : ℕ) (ys : Bytes) → y < b'i' → starts_with (codes ".in-addr.arpa") (x ∷ y ∷ ys) ≡ false
starts_with_low x y ys h =
    let e : (b'i' == y) ≡ false = ground arith in rw e (and_false (b'.' == x))

before_suffix_step :
    (x y : ℕ) (ys s : Bytes)
    → y < b'i'
    → before_suffix (y ∷ ys) ≡ some s
    → before_suffix (x ∷ y ∷ ys) ≡ some (x ∷ s)
unfolding before_suffix
before_suffix_step x y ys s h e =
    rw (starts_with_low x y ys h) (ap (λ o. o >>= λ s. some (x ∷ s)) e)

before_suffix-append :
    (s : Bytes) → IsAddress s → before_suffix (s ++ codes ".in-addr.arpa") ≡ some s
before_suffix-append [] h = before_suffix_here
before_suffix-append (x ∷ []) h =
    before_suffix_step x b'.' (codes "in-addr.arpa") [] (omega arith) before_suffix_here
before_suffix-append (x ∷ y ∷ ys) h =
    before_suffix_step x y (ys ++ codes ".in-addr.arpa") (y ∷ ys) h.1.0
      (before_suffix-append (y ∷ ys) h.1)

abbrev pub dotted : Bytes → Bytes → Bytes → Bytes → Bytes
dotted a b c d = a ++ b'.' ∷ (b ++ b'.' ∷ (c ++ b'.' ∷ d))

IsDigits-IsAddress : (part : Bytes) → IsDigits part → IsAddress part
IsDigits-IsAddress [] h = h
IsDigits-IsAddress (x ∷ xs) h = (omega (arith, h.1), IsDigits-IsAddress xs h.2)

IsDigits-append-IsAddress :
    (part rest : Bytes) → IsDigits part → IsAddress rest → IsAddress (part ++ rest)
IsDigits-append-IsAddress [] rest h r = r
IsDigits-append-IsAddress (x ∷ xs) rest h r =
    (omega (arith, h.1), IsDigits-append-IsAddress xs rest h.2 r)

-- The name of a reverse lookup of an address stands for the address: the four parts of digits in
-- front of `.in-addr.arpa` are put in reverse order.
pub ip_addr_from_qname-dotted :
    (a b c d : Bytes)
    → IsDigits a
    → IsDigits b
    → IsDigits c
    → IsDigits d
    → ip_addr_from_qname (dotted a b c d ++ codes ".in-addr.arpa") ≡ dotted d c b a
unfolding ip_addr_from_qname
ip_addr_from_qname-dotted a b c d ha hb hc hd =
    let address : IsAddress (dotted a b c d) = IsDigits-append-IsAddress a _ ha (
      omega arith,
      IsDigits-append-IsAddress b _ hb
          (omega arith, IsDigits-append-IsAddress c _ hc (omega arith, IsDigits-IsAddress d hd)),
    ) in
    ap reverse_found (before_suffix-append (dotted a b c d) address)
    ∙ reverse_labels-part [] [] a (b ++ b'.' ∷ (c ++ b'.' ∷ d)) ha
    ∙ reverse_labels-part [] (b'.' ∷ (a ++ [])) b (c ++ b'.' ∷ d) hb
    ∙ reverse_labels-part [] (b'.' ∷ (b ++ b'.' ∷ (a ++ []))) c d hc
    ∙ reverse_labels_last [] (b'.' ∷ (c ++ b'.' ∷ (b ++ b'.' ∷ (a ++ [])))) d hd
    ∙ ap (λ x. dotted d c b x) (append-nil a)
