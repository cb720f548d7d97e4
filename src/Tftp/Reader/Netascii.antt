-- ===== src/Tftp/Reader/Netascii.antt =====
-- What a read session has still to send, and that each block takes the next part of it.
use network_protocols.Common.{
  ℕ, zero, suc, ◌+◌, ◌≤◌, ◌<◌, ◌≡◌, refl, sym, ◌∙◌, ap, Bool, true, false, inl, inr, [], ◌++◌,
  Bytes, length, take, take-append-drop, length-take, drop_of_short, ltb, Bool-cases, ltb→lt,
  ltb→le, arith,
}
use network_protocols.Tftp.Protocol.{TransferMode, binary, ascii}
use network_protocols.Tftp.Streams.{InFile, unread, read_block}
use network_protocols.Tftp.Reader.Blocks.{Fill, Turn, stop, again, turn, fill, next_block}
use network_protocols.Tftp.Reader.Turns.{
  pending, total, IsFilling, IsFilled, TurnKeeps, turn-TurnKeeps,
}

abbrev FillKeeps : Fill → Fill → Type 0
FillKeeps s t = IsFilled t × (total t ≡ total s)

fill_turn :
    (fuel : ℕ) (s : Fill) (u : Turn)
    → 512 ≤ s.n + suc fuel
    → TurnKeeps s u
    → ((t : Fill) → IsFilling t → 512 ≤ t.n + fuel → FillKeeps t (fill fuel t))
    → FillKeeps s (elim u [ stop t ↦ t | again t ↦ fill fuel t ])
fill_turn fuel s (stop t) h k ih = k
fill_turn fuel s (again t) h (f, e, more) ih = let (g, e') = ih t f (omega arith) in (g, e' ∙ e)

-- The loop ends within its fuel, with a complete block.
fill-FillKeeps : (fuel : ℕ) (s : Fill) → IsFilling s → 512 ≤ s.n + fuel → FillKeeps s (fill fuel s)
unfolding fill
fill-FillKeeps zero s i h =
    (record { counted = i.counted; fits = i.fits; last = λ k. absurd (omega arith) }, refl)
fill-FillKeeps (suc fuel) s i h = elim (Bool-cases (ltb s.n 512)) [
  | inl more ↦
      rw (more, fill)
        (fill_turn fuel s (turn s) h (turn-TurnKeeps s i (ltb→lt _ _ more)) (fill-FillKeeps fuel))
  | inr done ↦
      rw (done, fill)
        (
          record {
            counted = i.counted;
            fits = i.fits;
            last = λ k. absurd (omega (arith, ltb→le s.n 512 done));
          },
          refl,
        )
]

-- What a block holds: the next part of what is pending, 512 bytes of it at most, and all of it if
-- it is shorter.
pub record Takes (mode : TransferMode) (lf : Bool) (f : InFile) (block : Fill) : Type 0 where
  pub counted : block.n ≡ length block.payload
  pub fits : block.n ≤ 512
  pub next : block.payload ++ pending mode block.line_feed block.file ≡ pending mode lf f
  pub last : block.n < 512 → pending mode block.line_feed block.file ≡ []

read_block-next :
    (o g : Bool) (r : Bytes)
    → let f : InFile = record { opened = o; good = g; rest = r } in
      ((read_block 512 f).0 ++ unread (read_block 512 f).1 ≡ unread f)
      × (length (read_block 512 f).0 ≤ 512)
      × (length (read_block 512 f).0 < 512 → unread (read_block 512 f).1 ≡ [])
unfolding read_block
read_block-next o false r = (refl, omega arith, λ h. refl)
read_block-next o true r = elim (Bool-cases (ltb (length r) 512)) [
  | inl short ↦ rw short (
    ap (λ t. take 512 r ++ t) (sym (drop_of_short 512 r (omega (arith, ltb→lt _ _ short))))
        ∙ take-append-drop 512 r,
    omega (arith, length-take 512 r),
    λ h. refl,
  )
  | inr full ↦ rw full (
    take-append-drop 512 r,
    omega (arith, length-take 512 r),
    λ h. absurd (omega (arith, length-take 512 r, ltb→le (length r) 512 full)),
  )
]

pub next_block-Takes :
    (mode : TransferMode) (f : InFile) (lf : Bool) → Takes mode lf f (next_block mode f lf)
unfolding next_block pending
next_block-Takes ascii f lf =
    let (g, e) =
      fill-FillKeeps 512 (record { payload = []; n = 0; line_feed = lf; file = f })
        (record { counted = refl; fits = omega arith; fresh = λ d. refl }) (omega arith) in
    record { counted = g.counted; fits = g.fits; next = e; last = g.last }
next_block-Takes binary f lf =
    let (next, fits, last) = read_block-next f.opened f.good f.rest in
    record { counted = refl; fits = fits; next = next; last = last }
