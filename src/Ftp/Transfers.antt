-- ===== src/Ftp/Transfers.antt =====
-- The transfers of the FTP server: what RETR sends, and what STOR makes of what it reads.
use network_protocols.Common.{
  ℕ, zero, suc, ◌≤◌, ◌<◌, ◌≡◌, refl, sym, ◌∙◌, ap, Bool, true, false, List, [], ◌∷◌, ◌++◌,
  append-nil, append_assoc, Option, none, some, Bytes, length, ◌==◌, ==_iff, if◌then◌else◌, ◌>>=◌,
  arith,
}
use network_protocols.Ftp.Handlers.{
  Session, Event, message, data_sent, created, removed, wrote, close_data, data_ready, transferred,
  end_stor, handle_stor, send_writes, handle_retr, TransferType, ascii, get_lines, line_writes,
  without_cr, decoded, store_reads,
}
use network_protocols.Ftp.Lines.{
  count, concat, decoded-append, decoded_nil, ended, sent_ascii, without_cr-get_lines,
}

-- Reads that fill the buffer.
abbrev pub AreFull : List Bytes → Type 0
AreFull [] = Unit
AreFull (b ∷ bs) = (length b ≡ 512) × AreFull bs

abbrev pub reads : List Bytes → List (Option Bytes) → List (Option Bytes)
reads [] rest = rest
reads (b ∷ bs) rest = some b ∷ reads bs rest

store_reads-full :
    (t : TransferType) (full : List Bytes) (rest : List (Option Bytes)) (bytes : Bytes)
    (success : Bool)
    → AreFull full
    → store_reads t rest ≡ some (decoded t bytes, success)
    → store_reads t (reads full rest) ≡ some (decoded t (concat full ++ bytes), success)
unfolding store_reads
store_reads-full t [] rest bytes success f e = e
store_reads-full t (b ∷ bs) rest bytes success f e =
    let is_full : (length b == 512) ≡ true = (==_iff (length b) 512).1 f.0 in
    rw (is_full, store_reads)
      (ap (λ o. o >>= λ r. some (decoded t b ++ r.0, r.1))
          (store_reads-full t bs rest bytes success f.1 e)
        ∙ ap (λ x. some (x, success))
            (sym (decoded-append t b (concat bs ++ bytes))
              ∙ ap (decoded t) (sym (append_assoc b (concat bs) bytes))))

-- STOR ends with success at the first read that does not fill the buffer, whatever would come behind
-- it: the file holds the bytes read, in ASCII mode without CR.
store_reads-short :
    (t : TransferType) (full : List Bytes) (last : Bytes) (rest : List (Option Bytes))
    → AreFull full
    → length last < 512
    → store_reads t (reads full (some last ∷ rest)) ≡ some (decoded t (concat full ++ last), true)
unfolding store_reads
store_reads-short t full last rest f s =
    let short : (length last == 512) ≡ false = ground arith in
    store_reads-full t full (some last ∷ rest) last true f (rw short)

-- When every read fills the buffer up to the end of the connection, STOR reports a failure, though
-- all the bytes are in the file.
pub store_reads-end :
    (t : TransferType) (full : List Bytes) (rest : List (Option Bytes))
    → AreFull full
    → store_reads t (reads full (none ∷ rest)) ≡ some (decoded t (concat full), false)
unfolding store_reads
store_reads-end t full rest f =
    store_reads-full t full (none ∷ rest) [] false f (ap (λ x. some (x, false)) (decoded_nil t))
    ∙ ap (λ x. some (decoded t x, false)) (append-nil (concat full))

-- A file that RETR sends in ASCII mode and STOR receives in ASCII mode, by reads that fill the buffer
-- but for the last one, comes out as it was, without CR and with a line feed at its end.
stores_retrieved :
    (contents : Bytes) (full : List Bytes) (last : Bytes) (rest : List (Option Bytes))
    → AreFull full
    → length last < 512
    → concat full ++ last ≡ sent_ascii contents
    → store_reads ascii (reads full (some last ∷ rest)) ≡ some (without_cr (ended contents), true)
stores_retrieved contents full last rest f s e =
    store_reads-short ascii full last rest f s
    ∙ ap (λ x. some (x, true)) (ap without_cr e ∙ without_cr-get_lines [] contents)

-- The data that stands among the events.
abbrev pub data_of : List Event → Bytes
data_of [] = []
data_of (message m ∷ es) = data_of es
data_of (data_sent d ∷ es) = d ++ data_of es
data_of (created p ∷ es) = data_of es
data_of (removed p ∷ es) = data_of es
data_of (wrote p b ∷ es) = data_of es

data_of-append : (xs ys : List Event) → data_of (xs ++ ys) ≡ data_of xs ++ data_of ys
data_of-append [] ys = refl
data_of-append (message m ∷ xs) ys = data_of-append xs ys
data_of-append (created p ∷ xs) ys = data_of-append xs ys
data_of-append (removed p ∷ xs) ys = data_of-append xs ys
data_of-append (wrote p b ∷ xs) ys = data_of-append xs ys
data_of-append (data_sent d ∷ xs) ys =
    ap (λ r. d ++ r) (data_of-append xs ys) ∙ sym (append_assoc d (data_of xs) (data_of ys))

-- Writes that all succeed.
all_sent :
    (n : ℕ) (ws : List Bytes)
    → count ws ≤ n
    → (data_of (send_writes n ws).0 ≡ concat ws) × ((send_writes n ws).1 ≡ true)
unfolding send_writes
all_sent n [] h = (refl, refl)
all_sent zero (w ∷ ws) h = absurd (omega arith)
all_sent (suc n) (w ∷ ws) h =
    let rest = all_sent n ws (omega arith) in (ap (λ r. w ++ r) rest.0, rest.1)

-- The data of a RETR in ASCII mode.
data_of-handle_retr :
    (n : ℕ) (pieces : List Bytes) (contents : Bytes) (s : Session)
    → s.data_open ≡ true
    → s.transfer_type ≡ ascii
    → count (line_writes (get_lines [] contents)) ≤ n
    → data_of (handle_retr n pieces (some contents) s).1 ≡ sent_ascii contents
unfolding handle_retr
data_of-handle_retr n pieces contents s o t h =
    let writes = send_writes n (line_writes (get_lines [] contents)) in
    let all = all_sent n (line_writes (get_lines [] contents)) h in
    let tail = λ (sent : Bool). (if sent then message transferred ∷ [] else []) in
    rw (o, t)
      (data_of-append writes.0 (tail writes.1)
        ∙ ap (λ b. data_of writes.0 ++ data_of (tail b)) all.1
        ∙ append-nil (data_of writes.0)
        ∙ all.0)

-- A file that one session sends by RETR and another receives by STOR, both in ASCII mode and on open
-- data connections, when all writes succeed and the reads fill the buffer but for the last one: the
-- receiver replies that the file was transferred and closes the connection, and its file holds what
-- the sender's file does, without CR and with a line feed at its end.
pub handle_stor-handle_retr :
    (n : ℕ) (pieces full : List Bytes) (contents last : Bytes) (rest : List (Option Bytes))
    (s t : Session)
    → s.data_open ≡ true
    → s.transfer_type ≡ ascii
    → t.data_open ≡ true
    → t.transfer_type ≡ ascii
    → count (line_writes (get_lines [] contents)) ≤ n
    → AreFull full
    → length last < 512
    → concat full ++ last ≡ data_of (handle_retr n pieces (some contents) s).1
    → handle_stor true (reads full (some last ∷ rest)) t
      ≡ some (record {
        session = close_data t;
        events = message (data_ready ascii) ∷ message transferred ∷ [];
        file = some (without_cr (ended contents));
      })
unfolding handle_stor
handle_stor-handle_retr n pieces full contents last rest s t so sa to ta h f short e =
    let stored =
      stores_retrieved contents full last rest f short
        (e ∙ data_of-handle_retr n pieces contents s so sa h) in
    rw (to, ta)
      (ap (λ o. o >>= λ r. some (end_stor true (record t { transfer_type = ascii }) r)) stored)
