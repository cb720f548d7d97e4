-- ===== src/Telnet/Tests.antt =====
-- The theorems on telnet/server/ at concrete sessions and keys.
use network_protocols.Common.{
  ◌≡◌, refl, true, ◌&&◌, List, [], ◌∷◌, ◌++◌, some, get_elem?, codes, bytes_eq, if◌then◌else◌,
  arith, inl,
}
use network_protocols.Telnet.Session.{
  nul, carriage_return, State, Session, sent, start, start_authentication, add_to_history,
  arrow_down, arrow_up,
}
use network_protocols.Telnet.History.{IsHistory, add_to_history_current}
use network_protocols.Telnet.Arrows.{arrow_up-arrow_down}
use network_protocols.Telnet.Receive.{negotiate, receive, run}
use network_protocols.Telnet.Reached.{IsSession, new_session, run-IsSession}
use network_protocols.Telnet.Login.{keys, logged_in, asked_again, run-login, run_empty_username}
use network_protocols.Telnet.Server.{
  new_server, Writes, started, Happening, accepted, refused, signal, read, run_server,
}
use network_protocols.Telnet.Served.{run_entry, run_server_alone}
use network_protocols.Telnet.Options.{Command, wire, remaining, outcome, negotiate-wire}

-- A session with two lines of one byte in its history, on the first.
abbrev session : Session
session = record {
  username = codes "testuser";
  password = codes "testpassword";
  state = State.interaction;
  options_to_confirm = [];
  buffer = codes "a";
  history = (1 ∷ []) ∷ (2 ∷ []) ∷ [];
  history_pos = 0;
  notifies = true;
}

session-IsHistory : IsHistory session
session-IsHistory = record {
  bounded = omega arith;
  distinct = (((λ e. cc), tt), (tt, tt));
  position = inl (omega arith);
}

run-IsSession_example :
    IsSession
      (run ((255 ∷ 253 ∷ 1 ∷ 255 ∷ 253 ∷ 3 ∷ []) ∷ (97 ∷ []) ∷ []) (start (new_session true)).0)
run-IsSession_example = run-IsSession ((255 ∷ 253 ∷ 1 ∷ 255 ∷ 253 ∷ 3 ∷ []) ∷ (97 ∷ []) ∷ []) true

add_to_history_current_example :
    let added = add_to_history (2 ∷ []) session in
    get_elem? added.history added.history_pos ≡ some (2 ∷ [])
add_to_history_current_example = add_to_history_current (2 ∷ []) session

arrow_up-arrow_down_example :
    let shown : Session = record session { buffer = 1 ∷ [] } in
    ((arrow_up (arrow_down session).0).0 ≡ shown) × ((arrow_down (arrow_up session).0).0 ≡ shown)
arrow_up-arrow_down_example = arrow_up-arrow_down session session-IsHistory (omega arith)

run-login_example :
    run (keys (codes "testuser") ++ keys (codes "no")) (start_authentication session).0 ≡ (
      if bytes_eq (codes "testuser") (codes "testuser")
        && bytes_eq (codes "no") (codes "testpassword")
      then logged_in (codes "testuser") (codes "no") session
      else asked_again session)
run-login_example =
    run-login session (codes "testuser") (codes "no")
      (refl, (refl, (refl, (refl, (refl, (refl, (refl, (refl, tt)))))))) (refl, (refl, tt)) refl

run_empty_username_example :
    ((receive (carriage_return ∷ nul ∷ []) (start_authentication session).0).1
      ≡ sent (codes "\r\n") ∷ sent (codes "Password: ") ∷ [])
    × (run (keys [] ++ keys (codes "no")) (start_authentication session).0
        ≡ record (asked_again session) { username = codes "no" })
run_empty_username_example = run_empty_username session (codes "no") (refl, (refl, tt))

-- A client that confirms one of the two options.
abbrev negotiating : Session
negotiating = record session { state = State.negotiation; options_to_confirm = 1 ∷ 3 ∷ [] }

abbrev commands : List Command
commands = record { verb = 251; option = 3 } ∷ record { verb = 253; option = 1 } ∷ []

negotiate-wire_example :
    negotiate (wire commands) negotiating ≡ outcome (remaining commands (1 ∷ 3 ∷ [])) negotiating
negotiate-wire_example = negotiate-wire commands negotiating (omega arith)

-- Two clients at once, and a signal.
abbrev second_client : List Happening
second_client =
    read 0 (some (97 ∷ []))
    ∷ read 1 (some (255 ∷ 253 ∷ 1 ∷ []))
    ∷ signal
    ∷ read 1 (some (97 ∷ []))
    ∷ []

run_server_alone_example :
    (get_elem?
        (run_server
          ((accepted Writes.third_fails ∷ refused ∷ []) ++ accepted Writes.all_done ∷ second_client)
          (new_server true)).sessions
        1
      ≡ some (run_entry (some (255 ∷ 253 ∷ 1 ∷ []) ∷ []) (started true Writes.all_done)))
    × IsSession (run_entry (some (255 ∷ 253 ∷ 1 ∷ []) ∷ []) (started true Writes.all_done)).session
run_server_alone_example =
    run_server_alone true (accepted Writes.third_fails ∷ refused ∷ []) second_client Writes.all_done
      tt
