-- ===== src/Ftp/Lines.antt =====
-- Lines as the FTP server sends and receives them in ASCII mode.
use network_protocols.Common.{
  ℕ, suc, ◌≡◌, refl, sym, ◌∙◌, ap, Bool, true, false, not, inl, inr, List, [], ◌∷◌, ◌++◌,
  append_assoc, Bytes, codes, is_empty, ◌==◌, ==_iff, if◌then◌else◌, Bool-cases,
}
use network_protocols.Ftp.Handlers.{
  TransferType, ascii, binary, get_lines, line_writes, without_cr, decoded,
}

abbrev pub count : List Bytes → ℕ
count [] = 0
count (b ∷ bs) = suc (count bs)

abbrev pub concat : List Bytes → Bytes
concat [] = []
concat (b ∷ bs) = b ++ concat bs

without_cr-append : (xs ys : Bytes) → without_cr (xs ++ ys) ≡ without_cr xs ++ without_cr ys
unfolding without_cr
without_cr-append [] ys = refl
without_cr-append (x ∷ xs) ys =
    ap (λ r. (if x == b'\r' then [] else x ∷ []) ++ r) (without_cr-append xs ys)
    ∙ sym (append_assoc (if x == b'\r' then [] else x ∷ []) (without_cr xs) (without_cr ys))

pub decoded-append :
    (t : TransferType) (xs ys : Bytes) → decoded t (xs ++ ys) ≡ decoded t xs ++ decoded t ys
decoded-append ascii xs ys = without_cr-append xs ys
decoded-append binary xs ys = refl

pub decoded_nil : (t : TransferType) → [] ≡ decoded t []
unfolding without_cr
decoded_nil ascii = refl
decoded_nil binary = refl

-- The bytes with a line feed at their end, which is added unless it is there or there is no byte in
-- front of it.
abbrev pub ended_from : Bool → Bytes → Bytes
ended_from started [] = if started then b'\n' ∷ [] else []
ended_from started (c ∷ cs) = c ∷ ended_from (not (c == b'\n')) cs

abbrev pub ended : Bytes → Bytes
ended = ended_from false

-- What `handleRetr` writes in ASCII mode.
abbrev pub sent_ascii : Bytes → Bytes
sent_ascii contents = concat (line_writes (get_lines [] contents))

line_end :
    (line rest : Bytes)
    → without_cr ((line ++ codes "\r\n") ++ rest) ≡ without_cr line ++ (b'\n' ∷ without_cr rest)
unfolding without_cr
line_end line rest =
    ap without_cr (append_assoc line (codes "\r\n") rest)
    ∙ without_cr-append line (codes "\r\n" ++ rest)

is_empty-append : (xs : Bytes) (c : ℕ) → is_empty (xs ++ c ∷ []) ≡ false
is_empty-append [] c = refl
is_empty-append (x ∷ xs) c = refl

pub without_cr-get_lines :
    (line cs : Bytes)
    → without_cr (concat (line_writes (get_lines line cs)))
      ≡ without_cr (line ++ ended_from (not (is_empty line)) cs)
unfolding get_lines line_writes without_cr
without_cr-get_lines [] [] = refl
without_cr-get_lines (x ∷ xs) [] =
    line_end (x ∷ xs) [] ∙ sym (without_cr-append (x ∷ xs) (b'\n' ∷ []))
without_cr-get_lines line (c ∷ cs) = elim (Bool-cases (c == b'\n')) [
  | inl e ↦
      let same : c ≡ b'\n' = (==_iff c b'\n').0 e in
      rw (e, get_lines)
        (line_end line (sent_ascii cs)
          ∙ ap (λ x. without_cr line ++ b'\n' ∷ x) (without_cr-get_lines [] cs)
          ∙ sym (without_cr-append line (b'\n' ∷ ended cs))
          ∙ ap (λ x. without_cr (line ++ x ∷ ended cs)) (sym same))
  | inr e ↦
      let longer = line ++ c ∷ [] in
      rw (e, get_lines)
        (without_cr-get_lines longer cs
          ∙ ap (λ b. without_cr (longer ++ ended_from (not b) cs)) (is_empty-append line c)
          ∙ ap without_cr (append_assoc line (c ∷ []) (ended_from true cs)))
]
