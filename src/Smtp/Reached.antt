-- ===== src/Smtp/Reached.antt =====
-- What holds of an SMTP session in every state that it reaches.
use network_protocols.Common.{
  ◌≤◌, ◌≡◌, refl, Bool, true, false, ◌&&◌, inl, inr, List, [], ◌∷◌, ◌++◌, Option, none, some, Bytes,
  length, length-append, length-drop, drop, take, bytes_eq, ◌==◌, Bool-cases, arith,
}
use network_protocols.Smtp.Session.{
  recv_buffer_size, max_rcpt_allowed, Command, Recipient, Session, Disk, Event, reply, copy, Step,
  replied, written, close_file,
}
use network_protocols.Smtp.Message.{
  process_message, finish_message, deliver_message, deliver_all, deliver_one, end_of_message,
  message_source,
}
use network_protocols.Smtp.Receive.{received, receive_as, receive}
use network_protocols.Smtp.WellFormed.{IsSession, IsStep, Answered, text_250}
use network_protocols.Smtp.Kept.{process_command-IsStep}

-- A session as it is constructed, on a buffer and an array of the sizes declared.
abbrev pub new_session : Bytes → List Recipient → Session
new_session buffer recipients = record {
  recv_buffer = buffer;
  recv_length = 0;
  receive_message = false;
  return_address = [];
  recipients = recipients;
  rcpt_count = 0;
  last_command = Command.undefined;
  message = record { is_open = false; failed = false; path_set = false; contents = none };
  unknown_recipients = [];
}

pub new_session-IsSession :
    (buffer : Bytes) (recipients : List Recipient)
    → length buffer ≡ recv_buffer_size
    → length recipients ≡ max_rcpt_allowed
    → IsSession (new_session buffer recipients)
new_session-IsSession buffer recipients b r = record {
  buffer_size = b;
  array_size = r;
  count_fits = omega arith;
  in_message = refl;
}

pub Answered-append : (xs ys : List Event) → Answered xs → Answered ys → Answered (xs ++ ys)
Answered-append [] ys h k = k
Answered-append (reply code ∷ xs) ys h k = (h.0, Answered-append xs ys h.1 k)
Answered-append (copy source path ∷ xs) ys h k = Answered-append xs ys h k

deliver_one-Answered :
    (o : Option Bool) (source : Option Bytes) (r : Recipient) → Answered (deliver_one o source r).0
deliver_one-Answered none source r = tt
deliver_one-Answered (some true) source r = tt
deliver_one-Answered (some false) source r = tt

deliver_all-Answered :
    (disk : Disk) (source : Option Bytes) (rs : List Recipient)
    → Answered (deliver_all disk source rs).0
unfolding deliver_all
deliver_all-Answered disk source [] = tt
deliver_all-Answered disk source (r ∷ rs) =
    Answered-append (deliver_one (disk.exists r.mailbox) source r).0 _
      (deliver_one-Answered (disk.exists r.mailbox) source r) (deliver_all-Answered disk source rs)

finish_message-IsStep : (disk : Disk) (s : Session) → IsSession s → IsStep (finish_message disk s)
unfolding finish_message deliver_message
finish_message-IsStep disk s h = record {
  is_session = record {
    buffer_size = h.buffer_size;
    array_size = h.array_size;
    count_fits = h.count_fits;
    in_message = h.in_message;
  };
  answered =
      let source = message_source (close_file s.message) in
      let to = take s.rcpt_count s.recipients in
      Answered-append (deliver_all disk source to).0 (reply 250 ∷ [])
        (deliver_all-Answered disk source to) (text_250, tt);
}

process_message-IsStep : (disk : Disk) (s : Session) → IsSession s → IsStep (process_message disk s)
unfolding process_message
process_message-IsStep disk s h =
    elim (Bool-cases (s.recv_length == 3 && bytes_eq (take 3 s.recv_buffer) end_of_message)) [
      | inl e ↦ rw e (finish_message-IsStep disk s h)
      | inr e ↦ rw e (record {
        is_session = record {
          buffer_size = h.buffer_size;
          array_size = h.array_size;
          count_fits = h.count_fits;
          in_message = h.in_message;
        };
        answered = tt;
      })
    ]

received-IsSession :
    (bytes : Bytes) (s : Session)
    → length bytes ≤ recv_buffer_size
    → IsSession s
    → IsSession (received bytes s)
received-IsSession bytes s b h = record {
  buffer_size = omega (
    arith,
    length-append bytes (drop (length bytes) s.recv_buffer),
    length-drop (length bytes) s.recv_buffer,
    h.buffer_size,
  );
  array_size = h.array_size;
  count_fits = h.count_fits;
  in_message = h.in_message;
}

receive_as-IsStep :
    (in_message : Bool) (disk : Disk) (s : Session)
    → IsSession s
    → s.receive_message ≡ in_message
    → IsStep (receive_as in_message disk s)
receive_as-IsStep true disk s h e = process_message-IsStep disk s h
receive_as-IsStep false disk s h e = process_command-IsStep s h disk e

pub written-IsStep : (b : Bool) (st : Step) → IsStep st → IsStep (written b st)
written-IsStep true st h = h
written-IsStep false st h = elim (Bool-cases (replied st.events)) [
  | inl e ↦ rw e (record { is_session = h.is_session; answered = h.answered })
  | inr e ↦ rw e h
]

-- Whatever is received, of no more bytes than the buffer has, a well formed session stays so, and
-- every reply has a text: the assertion of `sendResponse` does not fail.
pub receive-IsStep :
    (disk : Disk) (bytes : Bytes) (s : Session)
    → length bytes ≤ recv_buffer_size
    → IsSession s
    → IsStep (receive disk bytes s)
unfolding receive
receive-IsStep disk bytes s b h =
    written-IsStep disk.sends (receive_as s.receive_message disk (received bytes s)) (
      receive_as-IsStep s.receive_message disk (received bytes s) (received-IsSession bytes s b h)
        refl)
