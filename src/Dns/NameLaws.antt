-- ===== src/Dns/NameLaws.antt =====
-- Encoding a domain name and decoding it again.
use Prim.Native.Nat.{bit_and}
use network_protocols.Common.{
  ℕ, zero, suc, ◌+◌, ◌%◌, ◌≤◌, ◌<◌, ◌≡◌, refl, ◌∙◌, ap, ◌≢◌, Bool, true, false, ◌&&◌, List, [], ◌∷◌,
  ◌++◌, append-nil, append_assoc, Option, some, Bytes, length, length-append, ◌==◌, ◌>>=◌, arith,
}
use network_protocols.Dns.Flags.{passes, passes_below}
use network_protocols.Dns.Names.{
  put_label, encode_labels, encode_domain_name, read_label, is_pointer, Decoded, dotted,
  after_label, decode_labels, decode_domain_name, decode_name,
}

abbrev pub NoDot : Bytes → Type 0
NoDot [] = Unit
NoDot (x ∷ xs) = (x ≢ b'.') × NoDot xs

-- A label as RFC 1035 has it: 1 to 63 bytes.
pub record IsLabel (l : Bytes) : Type 0 where
  pub nonempty : 0 < length l
  pub short : length l < 64
  pub no_dot : NoDot l

abbrev pub AllLabels : List Bytes → Type 0
AllLabels [] = Unit
AllLabels (l ∷ ls) = IsLabel l × AllLabels ls

-- The text of a name: its labels, with dots between.
abbrev pub join_rest : List Bytes → Bytes
join_rest [] = []
join_rest (l ∷ ls) = b'.' ∷ (l ++ join_rest ls)

abbrev pub join : Bytes → List Bytes → Bytes
join l ls = l ++ join_rest ls

-- The name on the wire.
abbrev pub wire : List Bytes → Bytes
wire [] = 0 ∷ []
wire (l ∷ ls) = put_label l ++ wire ls

encode-label :
    (acc l rest : Bytes)
    → NoDot l
    → encode_labels acc (l ++ b'.' ∷ rest) ≡ put_label (acc ++ l) ++ encode_labels [] rest
unfolding encode_labels
encode-label acc [] rest h = rw append-nil
encode-label acc (x ∷ l) rest h =
    let e : (x == b'.') ≡ false = ground arith in
    rw e (encode-label (acc ++ x ∷ []) l rest h.1 ∙ rw append_assoc)

encode_last : (acc l : Bytes) → NoDot l → encode_labels acc l ≡ put_label (acc ++ l) ++ 0 ∷ []
unfolding encode_labels
encode_last acc [] h = rw append-nil
encode_last acc (x ∷ l) h =
    let e : (x == b'.') ≡ false = ground arith in
    rw e (encode_last (acc ++ x ∷ []) l h.1 ∙ rw append_assoc)

encode-join :
    (l : Bytes) (ls : List Bytes)
    → IsLabel l
    → AllLabels ls
    → encode_labels [] (join l ls) ≡ wire (l ∷ ls)
encode-join l [] h hs = rw append-nil (encode_last [] l h.no_dot)
encode-join l (m ∷ ms) h hs =
    encode-label [] l (join m ms) h.no_dot ∙ ap (λ b. put_label l ++ b) (encode-join m ms hs.0 hs.1)

-- A name is written label by label, each behind its length, with a zero at the end.
pub encode_domain_name-join :
    (l : Bytes) (ls : List Bytes)
    → IsLabel l
    → AllLabels ls
    → encode_domain_name (join l ls) ≡ wire (l ∷ ls)
unfolding encode_domain_name
encode_domain_name-join l ls h hs = encode-join l ls h hs

read_label-append : (l rest : Bytes) → read_label (length l) (l ++ rest) ≡ some (l, rest)
unfolding read_label
read_label-append [] rest = refl
read_label-append (x ∷ l) rest = rw (read_label-append l rest)

pointer_table : passes (λ x. bit_and x 0xC0 == 0) 0 64 ≡ true
unfolding passes
pointer_table = refl

-- A length below 64 is no pointer.
length_not_pointer : (x : ℕ) → x < 64 → is_pointer x ≡ false
length_not_pointer x h = rw (passes_below (λ y. bit_and y 0xC0 == 0) 64 x pointer_table h)

and_false : (b : Bool) → (b && false) ≡ false
and_false true = refl
and_false false = refl

after_label_length :
    (go : ℕ → Bytes → ℕ → Bytes → Option Decoded) (pointers : Bool) (count : ℕ) (name : Bytes)
    (y : ℕ) (ys : Bytes)
    → y < 64
    → after_label go pointers count name (y ∷ ys) ≡ go y ys count (dotted name y)
after_label_length go pointers count name y ys h = rw (length_not_pointer y h, and_false pointers)

label_length : (l : Bytes) → IsLabel l → length l % 256 ≡ length l
label_length l i = omega (arith, i.short)

-- One turn of the loop reads a label.
decode_turn :
    (fuel : ℕ) (pointers : Bool) (l rest name : Bytes) (count : ℕ)
    → IsLabel l
    → decode_labels (suc fuel) pointers (length l % 256) (l ++ rest) count name
      ≡ after_label (decode_labels fuel pointers) pointers (count + 1 + length l) (name ++ l) rest
unfolding decode_labels
decode_turn fuel pointers l rest name count i =
    let e : (length l == 0) ≡ false = ground (arith, i.nonempty) in
    ap (λ n. decode_labels (suc fuel) pointers n (l ++ rest) count name) (label_length l i)
    ∙ rw (e, read_label-append l rest, ◌>>=◌)

dotted_label : (name l : Bytes) → IsLabel l → dotted name (length l % 256) ≡ name ++ b'.' ∷ []
dotted_label name l i =
    let e : (length l == 0) ≡ false = ground (arith, i.nonempty) in rw (label_length l i, e)

decode-wire :
    (fuel : ℕ) (pointers : Bool) (l : Bytes) (ls : List Bytes) (rest name : Bytes) (count : ℕ)
    → length ls + 1 < fuel
    → IsLabel l
    → AllLabels ls
    → decode_labels fuel pointers (length l % 256) (l ++ (wire ls ++ rest)) count name
      ≡ some
          (record { count = count + length (wire (l ∷ ls)); name = name ++ join l ls; offset = 0 })
unfolding decode_labels
decode-wire zero pointers l ls rest name count h i is = absurd (omega arith)
decode-wire (suc zero) pointers l ls rest name count h i is = absurd (omega arith)
decode-wire (suc (suc fuel)) pointers l [] rest name count h i is =
    let c : count + 1 + length l + 1 ≡ count + length (wire (l ∷ [])) =
      omega (arith, length-append l (0 ∷ [])) in
    decode_turn (suc fuel) pointers l (0 ∷ rest) name count i
    ∙ after_label_length (decode_labels (suc fuel) pointers) pointers (count + 1 + length l)
        (name ++ l) 0 rest (omega arith)
    ∙ ap (λ n. some (record { count = n; name = name ++ l; offset = 0 })) c
    ∙ rw append-nil
decode-wire (suc (suc fuel)) pointers l (m ∷ ms) rest name count h i is =
    let go = decode_labels (suc fuel) pointers in
    let n = length m % 256 in
    let c : count + 1 + length l + length (wire (m ∷ ms)) ≡ count + length (wire (l ∷ m ∷ ms)) =
      omega (arith, length-append l (wire (m ∷ ms))) in
    decode_turn (suc fuel) pointers l (wire (m ∷ ms) ++ rest) name count i
    ∙ after_label_length go pointers (count + 1 + length l) (name ++ l) n ((m ++ wire ms) ++ rest)
        (omega (arith, is.0.short))
    ∙ ap (λ b. go n b (count + 1 + length l) (dotted (name ++ l) n)) (append_assoc m (wire ms) rest)
    ∙ ap (go n (m ++ (wire ms ++ rest)) (count + 1 + length l)) (dotted_label (name ++ l) m is.0)
    ∙ decode-wire (suc fuel) pointers m ms rest ((name ++ l) ++ b'.' ∷ []) (count + 1 + length l)
        (omega arith) is.0 is.1
    ∙ ap
        (λ k.
          some (record { count = k; name = ((name ++ l) ++ b'.' ∷ []) ++ join m ms; offset = 0 }))
        c
    ∙ ap (λ b. some (record { count = count + length (wire (l ∷ m ∷ ms)); name = b; offset = 0 }))
        (append_assoc (name ++ l) (b'.' ∷ []) (join m ms) ∙ append_assoc name l (b'.' ∷ join m ms))

length-wire : (ls : List Bytes) → length ls + 1 ≤ length (wire ls)
length-wire [] = omega arith
length-wire (l ∷ ls) = omega (arith, length-append l (wire ls), length-wire ls)

-- A name of labels is read back from its encoding, whatever stands behind it, with the number of
-- bytes read and no pointer; by `DNSMessage` and by `DNSQuery`.
pub decode-encode_domain_name :
    (l : Bytes) (ls : List Bytes) (rest : Bytes)
    → IsLabel l
    → AllLabels ls
    → let encoded = encode_domain_name (join l ls) in
      let d : Decoded = record { count = length encoded; name = join l ls; offset = 0 } in
      (decode_domain_name (encoded ++ rest) ≡ some d) × (decode_name (encoded ++ rest) ≡ some d)
unfolding decode_domain_name decode_name
decode-encode_domain_name l ls rest i is =
    let x = length l % 256 in
    let xs = (l ++ wire ls) ++ rest in
    let enough : length ls + 1 < suc (length xs) =
      omega (arith, length-append (l ++ wire ls) rest, length-append l (wire ls), length-wire ls) in
    let zero_plus : 0 + length (wire (l ∷ ls)) ≡ length (wire (l ∷ ls)) = omega arith in
    let run = λ (p : Bool).
      ap (λ b. decode_labels (suc (length xs)) p x b 0 []) (append_assoc l (wire ls) rest)
      ∙ decode-wire (suc (length xs)) p l ls rest [] 0 enough i is
      ∙ ap (λ k. some (record { count = k; name = join l ls; offset = 0 })) zero_plus in
    let plain = length_not_pointer x (omega (arith, i.short)) in
    rw (encode_domain_name-join l ls i is) (rw plain (run true), run false)
