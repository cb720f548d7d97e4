-- ===== src/Dns/Records.antt =====
-- The file of records of dns/server/dns_resolver.cpp.
use network_protocols.Common.{
  ℕ, zero, suc, ◌≤◌, ◌≡◌, ◌≢◌, refl, ◌∙◌, ap, false, inl, inr, List, [], ◌∷◌, ◌++◌, append_assoc,
  Option, none, some, Bytes, bytes_eq, bytes_eq_iff, ◌==◌, Bool-cases, arith,
}
use network_protocols.Dns.Resolver.{
  Record, add_parsed, skip_spaces, cut_space, parse_line, add_line, load_records, find_address,
}

-- The bytes of an address: none is a space.
abbrev pub NoSpace : Bytes → Type 0
NoSpace [] = Unit
NoSpace (x ∷ xs) = (x ≢ b' ') × NoSpace xs

abbrev pub spaces : ℕ → Bytes
spaces zero = []
spaces (suc n) = b' ' ∷ spaces n

-- A line of the file of records: an address, one space and more, and a domain.
abbrev pub line_of : Bytes → ℕ → ℕ → Bytes → Bytes
line_of address n first domain = address ++ b' ' ∷ (spaces n ++ first ∷ domain)

cut_space-line :
    (address rest : Bytes)
    → NoSpace address
    → cut_space (address ++ b' ' ∷ rest) ≡ some (address, b' ' ∷ rest)
unfolding cut_space
cut_space-line [] rest h = refl
cut_space-line (c ∷ cs) rest h =
    let e : (c == b' ') ≡ false = ground arith in rw e (rw (cut_space-line cs rest h.1))

skip_spaces-spaces :
    (n first : ℕ) (rest : Bytes)
    → 33 ≤ first
    → skip_spaces (spaces n ++ first ∷ rest) ≡ first ∷ rest
skip_spaces-spaces zero first rest h = ground arith
skip_spaces-spaces (suc n) first rest h = skip_spaces-spaces n first rest h

-- A line of the form that the server's file has is read as its address and its domain.
parse_line-line_of :
    (address : Bytes) (n first : ℕ) (domain : Bytes)
    → NoSpace address
    → 33 ≤ first
    → parse_line (line_of address n first domain)
      ≡ some (record { address = address; domain = first ∷ domain })
unfolding parse_line
parse_line-line_of address n first domain h f =
    rw (cut_space-line address (spaces n ++ first ∷ domain) h)
      (rw (skip_spaces-spaces n first domain f))

-- Loading appends.
add_parsed-append :
    (o : Option Record) (xs ys : List Record) → add_parsed o (xs ++ ys) ≡ xs ++ add_parsed o ys
add_parsed-append none xs ys = refl
add_parsed-append (some r) xs ys = append_assoc xs ys (r ∷ [])

add_line-append :
    (line : Bytes) (xs ys : List Record) → add_line line (xs ++ ys) ≡ xs ++ add_line line ys
unfolding add_line
add_line-append line xs ys = add_parsed-append (parse_line line) xs ys

load_records-append_records :
    (lines : List Bytes) (xs ys : List Record)
    → load_records lines (xs ++ ys) ≡ xs ++ load_records lines ys
unfolding load_records
load_records-append_records [] xs ys = refl
load_records-append_records (line ∷ lines) xs ys =
    ap (load_records lines) (add_line-append line xs ys)
    ∙ load_records-append_records lines xs (add_line line ys)

load_records-append_lines :
    (lines others : List Bytes) (rs : List Record)
    → load_records (lines ++ others) rs ≡ load_records others (load_records lines rs)
unfolding load_records
load_records-append_lines [] others rs = refl
load_records-append_lines (line ∷ lines) others rs =
    load_records-append_lines lines others (add_line line rs)

-- No record is for the domain.
abbrev pub Absent : Bytes → List Record → Type 0
Absent domain [] = Unit
Absent domain (r ∷ rs) = (r.domain ≢ domain) × Absent domain rs

find_address-Absent :
    (domain : Bytes) (xs ys : List Record)
    → Absent domain xs
    → find_address domain (xs ++ ys) ≡ find_address domain ys
unfolding find_address
find_address-Absent domain [] ys h = refl
find_address-Absent domain (r ∷ rs) ys h = elim (Bool-cases (bytes_eq r.domain domain)) [
  | inl e ↦ absurd (h.0 ((bytes_eq_iff r.domain domain).0 e))
  | inr e ↦ rw e (find_address-Absent domain rs ys h.1)
]

find_address_here :
    (address domain : Bytes) (rs : List Record)
    → find_address domain (record { address = address; domain = domain } ∷ rs) ≡ address
unfolding find_address
find_address_here address domain rs = rw ((bytes_eq_iff domain domain).1 refl)

-- The address that is found for a domain is that of the first line of the file for the domain,
-- whatever the lines behind it are.
pub find_address-load_records :
    (before after : List Bytes) (address : Bytes) (n first : ℕ) (domain : Bytes)
    → NoSpace address
    → 33 ≤ first
    → Absent (first ∷ domain) (load_records before [])
    → find_address
        (first ∷ domain)
        (load_records (before ++ line_of address n first domain ∷ after) [])
      ≡ address
unfolding load_records add_line
find_address-load_records before after address n first domain h f a =
    let r : Record = record { address = address; domain = first ∷ domain } in
    let loaded = load_records before [] in
    let e1 = load_records-append_lines before (line_of address n first domain ∷ after) [] in
    let rs = load_records after (r ∷ []) in
    let e2 : load_records (line_of address n first domain ∷ after) loaded
        ≡ load_records after (loaded ++ r ∷ []) =
      ap (λ o. load_records after (add_parsed o loaded))
        (parse_line-line_of address n first domain h f) in
    let e3 : load_records after (r ∷ []) ≡ r ∷ load_records after [] =
      load_records-append_records after (r ∷ []) [] in
    ap (find_address (first ∷ domain)) (e1 ∙ e2 ∙ load_records-append_records after loaded (r ∷ []))
    ∙ find_address-Absent (first ∷ domain) loaded rs a
    ∙ ap (find_address (first ∷ domain)) e3
    ∙ find_address_here address (first ∷ domain) (load_records after [])
