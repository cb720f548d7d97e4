-- ===== src/Smtp/Stays.antt =====
-- What an SMTP session does behind DATA, with everything that it receives.
use network_protocols.Common.{
  ℕ, ◌≡◌, refl, sym, Bool, true, false, not, ◌&&◌, ◌||◌, inl, inr, List, [], ◌∷◌, ◌++◌, Option,
  none, some, Bytes, codes, take, bytes_eq, if◌then◌else◌, Bool-cases,
}
use network_protocols.Smtp.Session.{
  Recipient, Session, Disk, Event, reply, copy, Next, Step, replied, written, close_file,
}
use network_protocols.Smtp.Message.{
  finish_message, deliver_message, deliver_all, deliver_one, end_of_message, message_source,
}
use network_protocols.Smtp.Receive.{received, on_received, continue, run}
use network_protocols.Smtp.Delivers.{receive-piece, receive-end}

-- Every reply is 250.
abbrev pub Only250 : List Event → Type 0
Only250 [] = Unit
Only250 (reply code ∷ es) = (code ≡ 250) × Only250 es
Only250 (copy source path ∷ es) = Only250 es

-- The reads that close the session: one that fails, and the end of the message if the reply to it
-- cannot be written.
abbrev pub read_breaks : Disk → Option Bytes → Bool
read_breaks disk none = true
read_breaks disk (some b) = bytes_eq b (codes ".\r\n") && not disk.sends

abbrev pub breaks : List (Disk × Option Bytes) → Bool
breaks [] = false
breaks ((disk, o) ∷ rs) = read_breaks disk o || breaks rs

-- The session receives a message still, has no reply but 250, and goes on unless it is closed.
pub record Stays (closed : Bool) (st : Step) : Type 0 where
  pub in_message : st.session.receive_message ≡ true
  pub goes_on : st.next ≡ (if closed then Next.closing else Next.listening)
  pub only_250 : Only250 st.events

Only250-append : (xs ys : List Event) → Only250 xs → Only250 ys → Only250 (xs ++ ys)
Only250-append [] ys h k = k
Only250-append (reply code ∷ xs) ys h k = (h.0, Only250-append xs ys h.1 k)
Only250-append (copy source path ∷ xs) ys h k = Only250-append xs ys h k

deliver_one-Only250 :
    (o : Option Bool) (source : Option Bytes) (r : Recipient) → Only250 (deliver_one o source r).0
deliver_one-Only250 none source r = tt
deliver_one-Only250 (some true) source r = tt
deliver_one-Only250 (some false) source r = tt

deliver_all-Only250 :
    (disk : Disk) (source : Option Bytes) (rs : List Recipient)
    → Only250 (deliver_all disk source rs).0
unfolding deliver_all
deliver_all-Only250 disk source [] = tt
deliver_all-Only250 disk source (r ∷ rs) =
    Only250-append (deliver_one (disk.exists r.mailbox) source r).0 _
      (deliver_one-Only250 (disk.exists r.mailbox) source r) (deliver_all-Only250 disk source rs)

finish_message-Stays :
    (disk : Disk) (s : Session) → s.receive_message ≡ true → Stays false (finish_message disk s)
unfolding finish_message deliver_message
finish_message-Stays disk s m =
    let source = message_source (close_file s.message) in
    let to = take s.rcpt_count s.recipients in
    record {
      in_message = m;
      goes_on = refl;
      only_250 =
          Only250-append (deliver_all disk source to).0 (reply 250 ∷ [])
            (deliver_all-Only250 disk source to) (refl, tt);
    }

replied-append : (xs : List Event) (code : ℕ) → replied (xs ++ reply code ∷ []) ≡ true
replied-append [] code = refl
replied-append (reply c ∷ xs) code = refl
replied-append (copy source path ∷ xs) code = replied-append xs code

finish_message-replied : (disk : Disk) (s : Session) → replied (finish_message disk s).events ≡ true
unfolding finish_message
finish_message-replied disk s =
    replied-append (deliver_message disk (record s { message = close_file s.message })).1 250

written-Stays :
    (b : Bool) (st : Step)
    → replied st.events ≡ true
    → Stays false st
    → Stays (not b) (written b st)
written-Stays true st e h = h
written-Stays false st e h =
    rw e (record { in_message = h.in_message; goes_on = refl; only_250 = h.only_250 })

on_received-Stays :
    (disk : Disk) (o : Option Bytes) (s : Session)
    → s.receive_message ≡ true
    → Stays (read_breaks disk o) (on_received disk o s)
unfolding on_received
on_received-Stays disk none s m = record { in_message = m; goes_on = refl; only_250 = tt }
on_received-Stays disk (some b) s m = elim (Bool-cases (bytes_eq b end_of_message)) [
  | inl e ↦
      rw (e, receive-end disk s b m e)
        (written-Stays disk.sends (finish_message disk (received b s))
          (finish_message-replied disk (received b s)) (finish_message-Stays disk (received b s) m))
  | inr e ↦
      rw (e, receive-piece disk s b m e) (record { in_message = m; goes_on = refl; only_250 = tt })
]

continue-Stays :
    (a b : Bool) (n : Next) (first rest : Step)
    → n ≡ first.next
    → Stays a first
    → Stays b rest
    → Stays (a || b) (continue n first rest)
continue-Stays a b Next.listening first rest e f r = elim (Bool-cases a) [
  | inl t ↦ absurd (cc (e, f.goes_on, t))
  | inr t ↦ rw t (record {
    in_message = r.in_message;
    goes_on = r.goes_on;
    only_250 = Only250-append first.events rest.events f.only_250 r.only_250;
  })
]
continue-Stays a b Next.closing first rest e f r = elim (Bool-cases a) [
  | inl t ↦ rw t (record { in_message = f.in_message; goes_on = sym e; only_250 = f.only_250 })
  | inr t ↦ absurd (cc (e, f.goes_on, t))
]
continue-Stays a b Next.stalled first rest e f r = elim (Bool-cases a) [
  | inl t ↦ absurd (cc (e, f.goes_on, t))
  | inr t ↦ absurd (cc (e, f.goes_on, t))
]
continue-Stays a b Next.overrun first rest e f r = elim (Bool-cases a) [
  | inl t ↦ absurd (cc (e, f.goes_on, t))
  | inr t ↦ absurd (cc (e, f.goes_on, t))
]

-- Once a session receives a message, it goes on receiving a message whatever comes, the commands
-- behind the end of the message too, and has no reply but 250. It is closed behind these reads if
-- one of them fails, or if the reply to an end of the message cannot be written; otherwise it
-- receives on.
pub run-Stays :
    (rs : List (Disk × Option Bytes)) (s : Session)
    → s.receive_message ≡ true
    → Stays (breaks rs) (run rs s)
unfolding run
run-Stays [] s m = record { in_message = m; goes_on = refl; only_250 = tt }
run-Stays ((disk, o) ∷ rs) s m =
    let first = on_received-Stays disk o s m in
    continue-Stays (read_breaks disk o) (breaks rs) (on_received disk o s).next
      (on_received disk o s) (run rs (on_received disk o s).session) refl first
      (run-Stays rs (on_received disk o s).session first.in_message)
