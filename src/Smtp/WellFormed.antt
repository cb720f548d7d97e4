-- ===== src/Smtp/WellFormed.antt =====
-- What a well formed SMTP session is, and what a step of it promises.
use network_protocols.Common.{ℕ, ◌≤◌, ◌≡◌, refl, List, [], ◌∷◌, some, Bytes, length}
use network_protocols.Smtp.Session.{
  recv_buffer_size, max_rcpt_allowed, Session, Event, reply, copy, Step, respond, response_text,
}
use network_protocols.Smtp.Commands.{is_data}

-- The arrays have their sizes, the recipients fit in theirs, and the session receives a message
-- exactly when the last command was DATA.
pub record IsSession (s : Session) : Type 0 where
  pub buffer_size : length s.recv_buffer ≡ recv_buffer_size
  pub array_size : length s.recipients ≡ max_rcpt_allowed
  pub count_fits : s.rcpt_count ≤ max_rcpt_allowed
  pub in_message : s.receive_message ≡ is_data s.last_command

-- Every reply is one that `sendResponse` has a text for.
abbrev pub Answered : List Event → Type 0
Answered [] = Unit
Answered (reply code ∷ es) = ((text : Bytes) × (response_text code ≡ some text)) × Answered es
Answered (copy source path ∷ es) = Answered es

pub record IsStep (st : Step) : Type 0 where
  pub is_session : IsSession st.session
  pub answered : Answered st.events

abbrev pub HasText : ℕ → Type 0
HasText code = (text : Bytes) × (response_text code ≡ some text)

pub answers : (code : ℕ) (s : Session) → HasText code → IsSession s → IsStep (respond code s)
answers code s t h = record { is_session = h; answered = (t, tt) }

pub text_220 : HasText 220
unfolding response_text
text_220 = (_, refl)

pub text_221 : HasText 221
unfolding response_text
text_221 = (_, refl)

pub text_250 : HasText 250
unfolding response_text
text_250 = (_, refl)

pub text_354 : HasText 354
unfolding response_text
text_354 = (_, refl)

pub text_451 : HasText 451
unfolding response_text
text_451 = (_, refl)

pub text_500 : HasText 500
unfolding response_text
text_500 = (_, refl)

pub text_501 : HasText 501
unfolding response_text
text_501 = (_, refl)

pub text_502 : HasText 502
unfolding response_text
text_502 = (_, refl)

pub text_503 : HasText 503
unfolding response_text
text_503 = (_, refl)

pub text_523 : HasText 523
unfolding response_text
text_523 = (_, refl)

pub text_551 : HasText 551
unfolding response_text
text_551 = (_, refl)
