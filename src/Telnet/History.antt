-- ===== src/Telnet/History.antt =====
-- The history of lines of a Telnet session.
use network_protocols.Common.{
  ℕ, zero, suc, ◌-◌, ◌≤◌, ◌<◌, ◌≡◌, ◌≢◌, ◌⊎◌, refl, sym, ◌∙◌, ap, Bool, true, false, inl, inr, List,
  [], ◌∷◌, ◌++◌, Option, none, some, Bytes, length, length-append, get_elem?, bytes_eq,
  bytes_eq_iff, ltb, ltb→le, if◌then◌else◌, Bool-cases, ◌>>=◌, arith,
}
use network_protocols.Telnet.Session.{
  max_history_length, Session, index_of, trim_history, add_found, add_to_history,
}

abbrev pub NotIn : Bytes → List Bytes → Type 0
NotIn line [] = Unit
NotIn line (l ∷ ls) = (l ≢ line) × NotIn line ls

abbrev pub Distinct : List Bytes → Type 0
Distinct [] = Unit
Distinct (l ∷ ls) = NotIn l ls × Distinct ls

-- At most 80 lines, no two the same, and the position on a line, if there is one.
pub record HistoryAt (history : List Bytes) (pos : ℕ) : Type 0 where
  pub bounded : length history ≤ max_history_length
  pub distinct : Distinct history
  pub position : pos < length history ⊎ (history ≡ [])

abbrev pub IsHistory : Session → Type 0
IsHistory s = HistoryAt s.history s.history_pos

-- The search finds the line where it is, and only misses a line that is not there.
data Search (line : Bytes) : List Bytes → Option ℕ → Type 0 where
  missing : {ls : List Bytes} → NotIn line ls → Search line ls none
  at : {ls : List Bytes} (i : ℕ) → get_elem? ls i ≡ some line → Search line ls (some i)

search_step :
    (line l : Bytes) (ls : List Bytes) (b : Bool) (o : Option ℕ)
    → bytes_eq l line ≡ b
    → Search line ls o
    → Search line (l ∷ ls) (if b then some 0 else (o >>= λ i. some (suc i)))
search_step line l ls true o e f = at 0 (ap some ((bytes_eq_iff l line).0 e))
search_step line l ls false _ e (missing n) =
    missing ((λ (same : l ≡ line). absurd (cc (sym e ∙ (bytes_eq_iff l line).1 same))), n)
search_step line l ls false _ e (at i h) = at (suc i) h

search : (line : Bytes) (ls : List Bytes) → Search line ls (index_of line ls)
unfolding index_of
search line [] = missing tt
search line (l ∷ ls) =
    search_step line l ls (bytes_eq l line) (index_of line ls) refl (search line ls)

get_elem?_bound : (ls : List Bytes) (i : ℕ) (l : Bytes) → get_elem? ls i ≡ some l → i < length ls
get_elem?_bound [] i l e = absurd (cc)
get_elem?_bound (x ∷ xs) zero l e = omega arith
get_elem?_bound (x ∷ xs) (suc i) l e = omega (arith, get_elem?_bound xs i l e)

NotIn-append :
    (line l : Bytes) (ls : List Bytes) → NotIn line ls → l ≢ line → NotIn line (ls ++ l ∷ [])
NotIn-append line l [] n d = (d, tt)
NotIn-append line l (x ∷ xs) n d = (n.0, NotIn-append line l xs n.1 d)

Distinct-append : (ls : List Bytes) (l : Bytes) → Distinct ls → NotIn l ls → Distinct (ls ++ l ∷ [])
Distinct-append [] l d n = (tt, tt)
Distinct-append (x ∷ xs) l d n =
    (NotIn-append x l xs d.0 (λ e. n.0 (sym e)), Distinct-append xs l d.1 n.1)

trim_history-Distinct : (ls : List Bytes) → Distinct ls → Distinct (trim_history ls)
unfolding trim_history
trim_history-Distinct [] d = d
trim_history-Distinct (l ∷ ls) d = elim (Bool-cases (ltb max_history_length (length (l ∷ ls)))) [
  | inl e ↦ rw e d.1
  | inr e ↦ rw e d
]

-- What is left has a line, is not above the limit, and ends as before.
trim_history_size :
    (ls : List Bytes) → length ls ≤ 81 → length (trim_history ls) ≤ max_history_length
unfolding trim_history
trim_history_size [] h = omega arith
trim_history_size (l ∷ ls) h = elim (Bool-cases (ltb max_history_length (length (l ∷ ls)))) [
  | inl e ↦ rw e (omega arith)
  | inr e ↦ rw e (ltb→le _ _ e)
]

get_elem?_last :
    (ls : List Bytes) (l : Bytes) → get_elem? (ls ++ l ∷ []) (length (ls ++ l ∷ []) - 1) ≡ some l
get_elem?_last [] l = refl
get_elem?_last (x ∷ xs) l =
    let e : length (xs ++ l ∷ []) ≡ suc (length xs) = omega (arith, length-append xs (l ∷ [])) in
    let f : suc (length (xs ++ l ∷ [])) - 1 ≡ suc (length (xs ++ l ∷ []) - 1) = omega arith in
    ap (get_elem? ((x ∷ xs) ++ l ∷ [])) f ∙ get_elem?_last xs l

trim_history_last :
    (ls : List Bytes) (l : Bytes)
    → let kept = trim_history (ls ++ l ∷ []) in get_elem? kept (length kept - 1) ≡ some l
unfolding trim_history
trim_history_last [] l = refl
trim_history_last (x ∷ xs) l =
    elim (Bool-cases (ltb max_history_length (length ((x ∷ xs) ++ l ∷ [])))) [
      | inl e ↦ rw e (get_elem?_last xs l)
      | inr e ↦ rw e (get_elem?_last (x ∷ xs) l)
    ]

add_found-IsHistory :
    (o : Option ℕ) (line : Bytes) (s : Session)
    → Search line s.history o
    → IsHistory s
    → IsHistory (add_found o line s)
unfolding add_found
add_found-IsHistory none line s (missing n) h =
    let kept = trim_history (s.history ++ line ∷ []) in
    let grown = length-append s.history (line ∷ []) in
    record {
      bounded = trim_history_size (s.history ++ line ∷ []) (omega (arith, grown, h.bounded));
      distinct = trim_history-Distinct _ (Distinct-append s.history line h.distinct n);
      position =
          inl (get_elem?_bound kept (length kept - 1) line (trim_history_last s.history line));
    }
add_found-IsHistory _ line s (at i e) h = record {
  bounded = h.bounded;
  distinct = h.distinct;
  position = inl (get_elem?_bound s.history i line e);
}

-- Adding a line keeps the history bounded by 80, without repetitions, and the position on a line.
pub add_to_history-IsHistory :
    (line : Bytes) (s : Session) → IsHistory s → IsHistory (add_to_history line s)
unfolding add_to_history
add_to_history-IsHistory line s h =
    add_found-IsHistory (index_of line s.history) line s (search line s.history) h

add_found_current :
    (o : Option ℕ) (line : Bytes) (s : Session)
    → Search line s.history o
    → get_elem? (add_found o line s).history (add_found o line s).history_pos ≡ some line
unfolding add_found
add_found_current none line s (missing n) = trim_history_last s.history line
add_found_current _ line s (at i e) = e

-- The position is on the line that was added: a new line, a line that was there, and when the first
-- line had to go.
pub add_to_history_current :
    (line : Bytes) (s : Session)
    → let added = add_to_history line s in get_elem? added.history added.history_pos ≡ some line
unfolding add_to_history
add_to_history_current line s =
    add_found_current (index_of line s.history) line s (search line s.history)
