-- ===== src/Ftp/Keeps.antt =====
-- What the handlers of the FTP server leave as it is: the user name, and the directory.
use network_protocols.Common.{
  ℕ, ◌≡◌, refl, Bool, inl, inr, List, [], ◌∷◌, Option, none, some, Bytes, ◌>>=◌, Bool-cases, arith,
}
use network_protocols.Ftp.Handlers.{
  Session, handle_type, store_reads, end_stor, handle_stor, handle_retr, ask_retr,
}
use network_protocols.Ftp.Files.{FileSystem, handle_dele, handle_mkd, handle_rmd, handle_nlst}
use network_protocols.Ftp.Connections.{
  Network, host_port, split, connected, handle_port, open_passive, handle_epsv, handle_pasv,
}
use network_protocols.Ftp.Execute.{
  Outcome, done, thrown, waits, finish_or_throw, finish_or_wait, stored,
}

-- The user name and the directory are what they were.
abbrev pub Same : Session → Session → Type 0
Same s t = (t.username ≡ s.username) × (t.curr_dir ≡ s.curr_dir)

abbrev pub Leaves : Session → Outcome → Type 0
Leaves s (done t es) = Same s t
Leaves s thrown = Unit
Leaves s waits = Unit

pub handle_dele-Leaves :
    (fs : FileSystem) (args : Bytes) (s : Session)
    → Leaves s (finish_or_throw (handle_dele fs args s))
unfolding handle_dele
handle_dele-Leaves fs args s = ground arith

pub handle_mkd-Leaves :
    (fs : FileSystem) (args : Bytes) (s : Session) → Same s (handle_mkd fs args s).0
unfolding handle_mkd
handle_mkd-Leaves fs args s = ground arith

pub handle_rmd-Leaves :
    (fs : FileSystem) (args : Bytes) (s : Session) → Same s (handle_rmd fs args s).0
unfolding handle_rmd
handle_rmd-Leaves fs args s = ground arith

pub handle_type-Leaves : (args : Bytes) (s : Session) → Same s (handle_type args s).0
unfolding handle_type
handle_type-Leaves [] s = (refl, refl)
handle_type-Leaves (c ∷ []) s = ground arith
handle_type-Leaves (c ∷ d ∷ cs) s = (refl, refl)

pub handle_nlst-Leaves :
    (fs : FileSystem) (n : ℕ) (args : Bytes) (s : Session) → Same s (handle_nlst fs n args s).0
unfolding handle_nlst
handle_nlst-Leaves fs n args s = elim (Bool-cases s.data_open) [
  | inl e ↦ rw e (refl, refl)
  | inr e ↦ rw e (refl, refl)
]

handle_retr-Leaves :
    (n : ℕ) (pieces : List Bytes) (contents : Option Bytes) (s : Session)
    → Same s (handle_retr n pieces contents s).0
unfolding handle_retr
handle_retr-Leaves n pieces none s = elim (Bool-cases s.data_open) [
  | inl e ↦ rw e (refl, refl)
  | inr e ↦ rw e (refl, refl)
]
handle_retr-Leaves n pieces (some c) s = elim (Bool-cases s.data_open) [
  | inl e ↦ rw e (refl, refl)
  | inr e ↦ rw e (refl, refl)
]

pub ask_retr-Leaves :
    (n : ℕ) (pieces : List Bytes) (contents : Option (Option Bytes)) (s : Session)
    → Leaves s (finish_or_throw (ask_retr n pieces contents s))
unfolding handle_retr
ask_retr-Leaves n pieces none s = ground arith
ask_retr-Leaves n pieces (some c) s = handle_retr-Leaves n pieces c s

pub handle_epsv-Leaves :
    (net : Network) (s : Session) → Leaves s (finish_or_wait (handle_epsv net s))
unfolding handle_epsv open_passive
handle_epsv-Leaves net s = ground arith

pub handle_pasv-Leaves :
    (net : Network) (s : Session) → Leaves s (finish_or_wait (handle_pasv net s))
unfolding handle_pasv open_passive
handle_pasv-Leaves net s = ground arith

pub handle_port-Leaves :
    (net : Network) (args : Bytes) (s : Session)
    → Leaves s (finish_or_throw (handle_port net args s))
unfolding handle_port
handle_port-Leaves net args s = go (host_port (split args b','))
  where
    after : (c : Option Bool) → Leaves s (finish_or_throw (c >>= λ b. some (connected net s b)))
    after none = tt
    after (some b) = (refl, refl)

    go :
        (o : Option (Bytes × ℕ))
        → Leaves s (
            finish_or_throw
              (o >>= λ to. (net.connects to.0 to.1 >>= λ b. some (connected net s b))))
    go none = tt
    go (some to) = after (net.connects to.0 to.1)

pub handle_stor-Leaves :
    (path : Bytes) (can_open : Bool) (results : List (Option Bytes)) (s : Session)
    → Leaves s (stored path (handle_stor can_open results s))
unfolding handle_stor
handle_stor-Leaves path can_open results s = elim (Bool-cases s.data_open) [
  | inl e ↦ rw e (go (store_reads s.transfer_type results))
  | inr e ↦ rw e (refl, refl)
]
  where
    go :
        (o : Option (Bytes × Bool))
        → Leaves s (stored path (o >>= λ r. some (end_stor can_open s r)))
    go none = tt
    go (some r) = (refl, refl)
