-- ===== src/Tftp/Reader/Ends.antt =====
-- The netascii loop ends by its own test or a `break`, and not because its fuel does.
use network_protocols.Common.{
  ℕ, zero, suc, ◌+◌, ◌≤◌, ◌≡◌, refl, false, inl, inr, ltb, Bool-cases, ltb→lt, arith,
}
use network_protocols.Tftp.Reader.Blocks.{Fill, Turn, stop, again, turn, fill}
use network_protocols.Tftp.Reader.Turns.{IsFilling, TurnKeeps, turn-TurnKeeps}

fill_turn_ends :
    (fuel more : ℕ) (s : Fill) (u : Turn)
    → 512 ≤ s.n + suc fuel
    → TurnKeeps s u
    → ((t : Fill) → IsFilling t → 512 ≤ t.n + fuel → fill more t ≡ fill fuel t)
    → elim u as (λ x. Fill) [ stop t ↦ t | again t ↦ fill more t ]
      ≡ elim u as (λ x. Fill) [ stop t ↦ t | again t ↦ fill fuel t ]
fill_turn_ends fuel more s (stop t) h k ih = refl
fill_turn_ends fuel more s (again t) h (f, e, g) ih = ih t f (omega arith)

full : (fuel : ℕ) (s : Fill) → 512 ≤ s.n → fill fuel s ≡ s
unfolding fill
full zero s h = refl
full (suc fuel) s h = let stops : ltb s.n 512 ≡ false = ground arith in rw (stops, fill) refl

-- The netascii loop that fills a block, begun with the bytes of a block that is not more than full,
-- ends within as many turns as there are places left: with that much fuel or more, its result is the
-- same.
pub fill_ends :
    (fuel more : ℕ) (s : Fill)
    → IsFilling s
    → 512 ≤ s.n + fuel
    → fuel ≤ more
    → fill more s ≡ fill fuel s
unfolding fill
fill_ends zero more s i h le = full more s (omega arith)
fill_ends (suc fuel) zero s i h le = absurd (omega arith)
fill_ends (suc fuel) (suc more) s i h le = elim (Bool-cases (ltb s.n 512)) [
  | inl goes ↦
      rw (goes, fill)
        (fill_turn_ends fuel more s (turn s) h (turn-TurnKeeps s i (ltb→lt _ _ goes))
          (λ t j k. fill_ends fuel more t j k (omega arith)))
  | inr stops ↦ rw (stops, fill) refl
]
