-- ===== src/Telnet/Arrows.antt =====
-- The arrows that move in the history of a Telnet session.
use network_protocols.Common.{
  ℕ, ◌+◌, ◌-◌, ◌<◌, ◌≡◌, ap, true, inl, inr, [], length, get_or, ltb, ltb→lt, lt→ltb, ◌==◌,
  if◌then◌else◌, Bool-cases, arith,
}
use network_protocols.Telnet.Session.{Session, show_history, arrow_down, arrow_up}
use network_protocols.Telnet.History.{IsHistory}

show_history-IsHistory :
    (pos : ℕ) (s : Session)
    → pos < length s.history
    → IsHistory s
    → IsHistory (show_history pos s).0
unfolding show_history
show_history-IsHistory pos s b h = record {
  bounded = h.bounded;
  distinct = h.distinct;
  position = inl b;
}

-- The position that an arrow moves to.
abbrev below : ℕ → ℕ → ℕ
below n pos = if pos == n - 1 then 0 else pos + 1

abbrev above : ℕ → ℕ → ℕ
above n pos = if pos == 0 then n - 1 else pos - 1

below_bound : (n pos : ℕ) → 1 < n → pos < n → below n pos < n
below_bound n pos h b = ground arith

above_bound : (n pos : ℕ) → 1 < n → pos < n → above n pos < n
above_bound n pos h b = ground arith

above-below : (n pos : ℕ) → 1 < n → pos < n → above n (below n pos) ≡ pos
above-below n pos h b = ground arith

below-above : (n pos : ℕ) → 1 < n → pos < n → below n (above n pos) ≡ pos
below-above n pos h b = ground arith

position_bound :
    (s : Session) → IsHistory s → 1 < length s.history → s.history_pos < length s.history
position_bound s h b = elim (h.position) [ inl p ↦ p | inr e ↦ absurd (omega (arith, ap length e)) ]

pub arrow_down-IsHistory : (s : Session) → IsHistory s → IsHistory (arrow_down s).0
unfolding arrow_down
arrow_down-IsHistory s h = elim (Bool-cases (ltb 1 (length s.history))) [
  | inl e ↦
      let b = ltb→lt _ _ e in
      rw e (show_history-IsHistory _ s (below_bound _ _ b (position_bound s h b)) h)
  | inr e ↦ rw e h
]

pub arrow_up-IsHistory : (s : Session) → IsHistory s → IsHistory (arrow_up s).0
unfolding arrow_up
arrow_up-IsHistory s h = elim (Bool-cases (ltb 1 (length s.history))) [
  | inl e ↦
      let b = ltb→lt _ _ e in
      rw e (show_history-IsHistory _ s (above_bound _ _ b (position_bound s h b)) h)
  | inr e ↦ rw e h
]

-- With two lines or more, the arrow up undoes the arrow down, and the arrow down the arrow up, at
-- both ends too: the position is what it was, and the line that is edited is the one at it.
pub arrow_up-arrow_down :
    (s : Session)
    → IsHistory s
    → 1 < length s.history
    → let shown : Session = record s { buffer = get_or s.history s.history_pos [] } in
      ((arrow_up (arrow_down s).0).0 ≡ shown) × ((arrow_down (arrow_up s).0).0 ≡ shown)
unfolding arrow_up arrow_down show_history
arrow_up-arrow_down s h b =
    let n = length s.history in
    let many : ltb 1 n ≡ true = lt→ltb _ _ b in
    let inside = position_bound s h b in
    let moved : ℕ → Session =
      λ pos. record s { history_pos = pos; buffer = get_or s.history pos [] } in
    (
      rw (many, many) (ap moved (above-below n s.history_pos b inside)),
      rw (many, many) (ap moved (below-above n s.history_pos b inside)),
    )
