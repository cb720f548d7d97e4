-- ===== src/TelnetServer/Client.antt =====
-- A client of telnet-server/server.cpp: its session, with the operations that its socket waits for,
-- the handlers of `receiveAsync` and `sendBytesToClient`, and the callbacks of
-- telnet-server/main.cpp.
use network_protocols.Common.{
  ℕ, ◌+◌, ◌-◌, Bool, true, false, not, ◌&&◌, ◌||◌, List, [], ◌∷◌, ◌++◌, Bytes, take, get_or, codes,
  is_empty, bytes_eq, ltb, ◌==◌, ◌<◌, ◌≤◌, if◌then◌else◌,
}

pub data AuthStatus : Type 0 where
  guest authenticating logged_in : AuthStatus

-- `Session`, whether the server keeps it, and how many reads and writes its socket has under way.
pub record Client : Type 0 where
  pub id : ℕ
  pub auth_status : AuthStatus
  pub received_data : Bytes
  pub kept : Bool
  pub reads : ℕ
  pub writes : ℕ

-- `removeClient`: the session is forgotten, and the socket is closed, which ends what is under way.
abbrev pub remove_client : Client → Client
remove_client c = record c { kept = false; reads = 0; writes = 0 }

-- `receiveAsync` and `sendBytesToClient` start an operation.
abbrev pub receive_async : Client → Client
receive_async c = record c { reads = c.reads + 1 }

abbrev pub send_bytes : Client → Client
send_bytes c = record c { writes = c.writes + 1 }

-- `logIn`; `sendMessageToClient` and `clearClientScreen` do nothing.
unfoldable pub log_in : AuthStatus → Bytes → Client → Client
log_in AuthStatus.guest message c =
    if bytes_eq message (codes "testuser")
    then record c { auth_status = AuthStatus.authenticating }
    else remove_client c
log_in AuthStatus.authenticating message c =
    if bytes_eq message (codes "testpassword")
    then record c { auth_status = AuthStatus.logged_in }
    else remove_client c
log_in AuthStatus.logged_in message c = c

-- `onMessageReceived`, by the status.
unfoldable pub message_in : AuthStatus → Bytes → Client → Client
unfolding log_in
message_in AuthStatus.logged_in message c =
    if bytes_eq message (codes "exit") || bytes_eq message (codes "logout")
    then remove_client c
    else c
message_in status message c = log_in status message c

unfoldable pub on_message_received : Bytes → Client → Client
unfolding message_in
on_message_received message c = message_in c.auth_status message c

-- `_recvBuffer[0] < 0xF0`, for a `char` that is signed.
abbrev pub below_f0 : ℕ → Bool
below_f0 x = if ltb x 128 then ltb x 240 else true

-- A line has ended: a dot and CR as the first bytes of it, or CR LF.
abbrev pub ends_line : ℕ → ℕ → Bytes → Bool
ends_line x y received = (x == 46 && y == 13 && is_empty received) || (x == 13 && y == 10)

unfoldable pub drop_last : Bytes → Bytes
drop_last [] = []
drop_last (c ∷ []) = []
drop_last (c ∷ d ∷ cs) = c ∷ drop_last (d ∷ cs)

abbrev pub is_authenticating : AuthStatus → Bool
is_authenticating AuthStatus.authenticating = true
is_authenticating _ = false

-- What is echoed of a key.
abbrev pub echo : AuthStatus → ℕ → Bytes
echo status x = if is_authenticating status then b'*' ∷ [] else x ∷ []

-- The end of a line: the callback is called with all of it, the bytes that end it too.
abbrev pub line_ended : Bytes → Client → Client × List Bytes
line_ended message c = (record (on_message_received message c) { received_data = [] }, [])

-- A back space, or a key.
abbrev pub edit : ℕ → Bytes → Client → Client × List Bytes
edit x bytes c =
    if x == 8
    then (if is_empty c.received_data then (receive_async c, []) else (
      send_bytes (record c { received_data = drop_last c.received_data }),
      (8 ∷ 32 ∷ 8 ∷ []) ∷ [],
    ))
    else if x == 127
    then (receive_async c, [])
    else (
      receive_async (send_bytes (record c { received_data = c.received_data ++ bytes })),
      echo c.auth_status x ∷ [],
    )

-- The handler of `receiveAsync` for a read of `n` bytes without error: the client afterwards, and
-- what is sent to it. The buffer has 1024 bytes, those of earlier reads behind the `n`.
unfoldable pub received : Bytes → ℕ → Client → Client × List Bytes
unfolding on_message_received drop_last
received buffer n c =
    let x = get_or buffer 0 0 in
    let y = get_or buffer 1 0 in
    if n == 0
    then (remove_client c, [])
    else if not (below_f0 x)
    then (receive_async c, [])
    else if ends_line x y c.received_data
    then line_ended (c.received_data ++ take n buffer) c
    else edit x (take n buffer) c

-- A read that is under way ends with `n` bytes; one that fails leaves the client as it is.
abbrev pub read_ends : Bytes → ℕ → Client → Client
read_ends buffer n c = (received buffer n (record c { reads = c.reads - 1 })).0

abbrev pub read_fails : Client → Client
read_fails c = record c { reads = c.reads - 1 }

-- The handler of `sendBytesToClient`.
abbrev pub write_ends : Client → Client
write_ends c = receive_async (record c { writes = c.writes - 1 })

abbrev pub write_fails : Client → Client
write_fails c = record c { writes = c.writes - 1 }

-- The steps of a client while it is there: what is under way ends.
pub data Step : Client → Client → Type 0 where
  reads_ok :
      (buffer : Bytes) (n : ℕ) (c : Client) → 0 < c.reads → n ≤ 1024 → Step c (read_ends buffer n c)
  reads_error : (c : Client) → 0 < c.reads → Step c (read_fails c)
  writes_ok : (c : Client) → 0 < c.writes → Step c (write_ends c)
  writes_error : (c : Client) → 0 < c.writes → Step c (write_fails c)

pub data Reach (s : Client) : Client → Type 0 where
  here : Reach s s
  next : {c d : Client} → Reach s c → Step c d → Reach s d

-- `handleConnection`: the session, with its negotiation under way.
abbrev pub new_client : ℕ → Client
new_client id = record {
  id = id;
  auth_status = AuthStatus.guest;
  received_data = [];
  kept = true;
  reads = 0;
  writes = 1;
}

-- What `handleConnection` sends.
abbrev pub negotiation : Bytes
negotiation = 255 ∷ 253 ∷ 1 ∷ 255 ∷ 253 ∷ 33 ∷ 255 ∷ 251 ∷ 1 ∷ 255 ∷ 251 ∷ 3 ∷ []
