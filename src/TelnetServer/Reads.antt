-- ===== src/TelnetServer/Reads.antt =====
-- How many reads a client of telnet-server/ has under way, and what it has typed.
use network_protocols.Common.{
  ℕ, ◌+◌, ◌-◌, ◌<◌, ◌≤◌, ◌≡◌, ◌≢◌, refl, sym, ap, ◌∙◌, true, false, [], ◌∷◌, ◌++◌, append_assoc,
  append-nil, ap₂, Bytes, length, ◌==◌, arith,
}
use network_protocols.TelnetServer.Client.{Client, echo, below_f0, received, read_ends, write_ends}

-- A key that is neither a control character nor the dot.
pub record IsKey (x : ℕ) : Type 0 where
  pub printable : 32 ≤ x
  pub no_dot : x ≢ 46
  pub low : x < 127

-- The read of a key ends, and then the write of its echo; `stale` is the rest of the buffer.
abbrev pub type_key : Bytes → ℕ → Client → Client
type_key stale x c = write_ends (read_ends (x ∷ stale) 1 c)

abbrev pub type_keys : Bytes → Bytes → Client → Client
type_keys stale [] c = c
type_keys stale (x ∷ xs) c = type_keys stale xs (type_key stale x c)

abbrev pub AreKeys : Bytes → Type 0
AreKeys [] = Unit
AreKeys (x ∷ xs) = IsKey x × AreKeys xs

received_key :
    (stale : Bytes) (x : ℕ) (c : Client)
    → IsKey x
    → received (x ∷ stale) 1 c ≡ (
      record c {
        received_data = c.received_data ++ x ∷ [];
        reads = c.reads + 1;
        writes = c.writes + 1;
      },
      echo c.auth_status x ∷ [],
    )
unfolding received
received_key stale x c k =
    let dot : (x == 46) ≡ false = ground (arith, k.no_dot) in
    let cr : (x == 13) ≡ false = ground (arith, k.printable) in
    let bs : (x == 8) ≡ false = ground (arith, k.printable) in
    let del : (x == 127) ≡ false = ground (arith, k.low) in
    let low : below_f0 x ≡ true = ground (arith, k.low) in rw (dot, cr, bs, del, low) refl

type_key_lem :
    (stale : Bytes) (x : ℕ) (c : Client)
    → IsKey x
    → 0 < c.reads
    → type_key stale x c
      ≡ record c { received_data = c.received_data ++ x ∷ []; reads = c.reads + 1 }
type_key_lem stale x c k h =
    ap (λ r. write_ends r.0) (received_key stale x (record c { reads = c.reads - 1 }) k)
    ∙ ap₂
        (λ (r w : ℕ). record c { received_data = c.received_data ++ x ∷ []; reads = r; writes = w })
        (omega arith) (omega arith)

-- A client that types a text, key by key, with each echo written before the next key: the text is
-- kept behind what was typed before, and each key leaves one read more under way, since both the
-- end of the echo's write and the handler of the key start one.
pub type_keys_reads :
    (stale xs : Bytes) (c : Client)
    → AreKeys xs
    → 0 < c.reads
    → type_keys stale xs c
      ≡ record c { received_data = c.received_data ++ xs; reads = c.reads + length xs }
type_keys_reads stale [] c k h =
    ap₂ (λ (b : Bytes) (r : ℕ). record c { received_data = b; reads = r })
      (sym (append-nil c.received_data)) (omega arith)
type_keys_reads stale (x ∷ xs) c k h =
    let d = record c { received_data = c.received_data ++ x ∷ []; reads = c.reads + 1 } in
    ap (type_keys stale xs) (type_key_lem stale x c k.0 h)
    ∙ type_keys_reads stale xs d k.1 (omega arith)
    ∙ ap₂ (λ (b : Bytes) (r : ℕ). record c { received_data = b; reads = r })
        (append_assoc c.received_data (x ∷ []) xs) (omega arith)
