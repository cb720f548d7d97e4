-- ===== src/Tftp/Reader/Turns.antt =====
-- What a read session has still to send, and what one turn of the netascii loop does to it.
use network_protocols.Common.{
  ℕ, ◌+◌, ◌≤◌, ◌<◌, ◌≡◌, refl, ◌∙◌, Bool, true, false, inl, inr, [], ◌∷◌, ◌++◌, append_assoc, none,
  some, Bytes, length, length-append, ◌==◌, if◌then◌else◌, Bool-cases, arith,
}
use network_protocols.Tftp.Protocol.{TransferMode, binary, ascii}
use network_protocols.Tftp.Streams.{InFile, unread, peek}
use network_protocols.Tftp.Reader.Blocks.{Fill, push, Turn, stop, again, turn_on, turn}

-- A text with each line feed written as CR LF.
unfoldable pub netascii : Bytes → Bytes
netascii [] = []
netascii (x ∷ xs) = (if x == 10 then 13 ∷ 10 ∷ [] else x ∷ []) ++ netascii xs

abbrev pub left_over : Bool → Bytes
left_over b = if b then 10 ∷ [] else []

-- The bytes that a session has still to send.
unfoldable pub pending : TransferMode → Bool → InFile → Bytes
pending binary lf f = unread f
pending ascii lf f = left_over lf ++ netascii (unread f)

abbrev pub total : Fill → Bytes
total s = s.payload ++ (left_over s.line_feed ++ netascii (unread s.file))

pub record IsFilling (s : Fill) : Type 0 where
  pub counted : s.n ≡ length s.payload
  pub fits : s.n ≤ 512
  pub fresh : s.line_feed ≡ true → s.n ≡ 0

-- The block is complete: full, or with nothing left to send.
pub record IsFilled (s : Fill) : Type 0 where
  pub counted : s.n ≡ length s.payload
  pub fits : s.n ≤ 512
  pub last : s.n < 512 → left_over s.line_feed ++ netascii (unread s.file) ≡ []

abbrev pub TurnKeeps : Fill → Turn → Type 0
TurnKeeps s (stop t) = IsFilled t × (total t ≡ total s)
TurnKeeps s (again t) = IsFilling t × (total t ≡ total s) × (s.n < t.n)

length-push : (x : ℕ) (s : Fill) → length (push x s).payload ≡ length s.payload + 1
length-push x s = omega (arith, length-append s.payload (x ∷ []))

abbrev pub filling : Bytes → ℕ → Bool → Bool → Bytes → Fill
filling p n o g r = record {
  payload = p;
  n = n;
  line_feed = false;
  file = record { opened = o; good = g; rest = r };
}

netascii-line_feed :
    (x : ℕ) (xs : Bytes) → (x == 10) ≡ true → netascii (x ∷ xs) ≡ 13 ∷ 10 ∷ netascii xs
unfolding netascii
netascii-line_feed x xs e = rw e

netascii_other : (x : ℕ) (xs : Bytes) → (x == 10) ≡ false → netascii (x ∷ xs) ≡ x ∷ netascii xs
unfolding netascii
netascii_other x xs e = rw e

-- One byte of the file goes into the block.
turn_on_byte :
    (p : Bytes) (n : ℕ) (o : Bool) (x : ℕ) (xs : Bytes)
    → n ≡ length p
    → n < 512
    → TurnKeeps (filling p n o true (x ∷ xs)) (turn_on (some x) (filling p n o true (x ∷ xs)))
unfolding turn_on
turn_on_byte p n o x xs c h = elim (Bool-cases (x == 10)) [
  | inl e ↦ elim (Bool-cases (n + 1 == 512)) [
    | inl full ↦
        rw (e, full)
          (
            record {
              counted = omega (arith, length-append p (13 ∷ []));
              fits = omega arith;
              last = λ k. absurd (ground arith);
            },
            rw (netascii-line_feed x xs e) (append_assoc p (13 ∷ []) (10 ∷ netascii xs)),
          )
    | inr room ↦
        rw (e, room)
          (
            record {
              counted =
                  omega (arith, length-append p (13 ∷ []), length-append (p ++ 13 ∷ []) (10 ∷ []));
              fits = ground arith;
              fresh = λ d. cc;
            },
            rw (netascii-line_feed x xs e) (
                append_assoc (p ++ 13 ∷ []) (10 ∷ []) (netascii xs)
                ∙ append_assoc p (13 ∷ []) (10 ∷ netascii xs)),
            omega arith,
          )
  ]
  | inr e ↦ rw e (
    record {
      counted = omega (arith, length-append p (x ∷ []));
      fits = omega arith;
      fresh = λ d. cc;
    },
    rw (netascii_other x xs e) (append_assoc p (x ∷ []) (netascii xs)),
    omega arith,
  )
]

abbrev pub at_end : Bytes → ℕ → Bool → Bytes → Fill
at_end p n o r = filling p n o false r

turn_on_eof :
    (p : Bytes) (n : ℕ) (o g : Bool) (r : Bytes)
    → n ≡ length p
    → n < 512
    → unread (filling p n o g r).file ≡ []
    → TurnKeeps (filling p n o g r) (turn_on none (filling p n o g r))
unfolding turn_on netascii
turn_on_eof p n o g r c h e = (record { counted = c; fits = omega arith; last = λ k. refl }, rw e)

turn_after_flush :
    (p : Bytes) (n : ℕ) (o g : Bool) (r : Bytes)
    → n ≡ length p
    → n < 512
    → TurnKeeps (filling p n o g r) (turn_on (peek (filling p n o g r).file) (filling p n o g r))
unfolding peek
turn_after_flush p n o false r c h = turn_on_eof p n o false r c h refl
turn_after_flush p n o true [] c h = turn_on_eof p n o true [] c h refl
turn_after_flush p n o true (x ∷ xs) c h = turn_on_byte p n o x xs c h

-- The line feed left over goes first.
TurnKeeps-flush :
    (s t : Fill) (u : Turn) → total t ≡ total s → s.n ≤ t.n → TurnKeeps t u → TurnKeeps s u
TurnKeeps-flush s t (stop v) e h (f, g) = (f, g ∙ e)
TurnKeeps-flush s t (again v) e h (f, g, k) = (f, g ∙ e, omega arith)

turn_parts :
    (p : Bytes) (n : ℕ) (lf o g : Bool) (r : Bytes)
    → let s : Fill = record {
      payload = p;
      n = n;
      line_feed = lf;
      file = record { opened = o; good = g; rest = r };
    } in
      n ≡ length p → n < 512 → (lf ≡ true → n ≡ 0) → TurnKeeps s (turn s)
unfolding turn
turn_parts p n false o g r c h k = turn_after_flush p n o g r c h
turn_parts p n true o g r c h k =
    TurnKeeps-flush
      (record {
        payload = p;
        n = n;
        line_feed = true;
        file = record { opened = o; good = g; rest = r };
      })
      (filling (p ++ 10 ∷ []) (n + 1) o g r) _ (append_assoc p (10 ∷ []) _) (omega arith)
      (turn_after_flush (p ++ 10 ∷ []) (n + 1) o g r (omega (arith, length-append p (10 ∷ [])))
        (omega (arith, k refl)))

pub turn-TurnKeeps : (s : Fill) → IsFilling s → s.n < 512 → TurnKeeps s (turn s)
turn-TurnKeeps s i h =
    turn_parts s.payload s.n s.line_feed s.file.opened s.file.good s.file.rest i.counted h i.fresh
