-- ===== src/TelnetServer/Identifiers.antt =====
-- The numbers of the sessions of telnet-server/.
use network_protocols.Common.{
  ℕ, zero, suc, ◌+◌, ◌≡◌, refl, ap, ◌∙◌, true, List, [], ◌∷◌, ◌++◌, some, get_elem?, arith,
}
use network_protocols.TelnetServer.Client.{Client, new_client}
use network_protocols.TelnetServer.Server.{size, handle_connection, remove_at}

size-append : (cs ds : List Client) → size (cs ++ ds) ≡ size cs + size ds
size-append [] ds = omega arith
size-append (c ∷ cs) ds = omega (arith, size-append cs ds)

-- To forget a session that is kept leaves one fewer.
size-remove_at :
    (i : ℕ) (cs : List Client) (c : Client)
    → get_elem? cs i ≡ some c
    → c.kept ≡ true
    → size (remove_at i cs) + 1 ≡ size cs
unfolding remove_at
size-remove_at i [] c e k = absurd (cc)
size-remove_at zero (d ∷ cs) c e k =
    let same : d ≡ c = cc in
    let is_kept : d.kept ≡ true = ap (λ (x : Client). x.kept) same ∙ k in rw is_kept (omega arith)
size-remove_at (suc i) (d ∷ cs) c e k = omega (arith, size-remove_at i cs c e k)

remove_at-append :
    (i : ℕ) (cs ds : List Client) (c : Client)
    → get_elem? cs i ≡ some c
    → remove_at i (cs ++ ds) ≡ remove_at i cs ++ ds
unfolding remove_at
remove_at-append i [] ds c e = absurd (cc)
remove_at-append zero (d ∷ cs) ds c e = refl
remove_at-append (suc i) (d ∷ cs) ds c e = ap (◌∷◌ d) (remove_at-append i cs ds c e)

-- Two sessions that are kept get the same number when a client connects, an earlier one is removed,
-- and another connects: the number is one more than there are sessions.
pub same_id :
    (cs : List Client) (i : ℕ) (c : Client)
    → get_elem? cs i ≡ some c
    → c.kept ≡ true
    → handle_connection (remove_at i (handle_connection cs))
      ≡ (remove_at i cs ++ new_client (size cs + 1) ∷ []) ++ new_client (size cs + 1) ∷ []
unfolding handle_connection
same_id cs i c e k =
    let before = remove_at i cs ++ new_client (size cs + 1) ∷ [] in
    ap (λ (x : List Client). x ++ new_client (size x + 1) ∷ [])
      (remove_at-append i cs (new_client (size cs + 1) ∷ []) c e)
    ∙ ap (λ (n : ℕ). before ++ new_client (n + 1) ∷ [])
        (size-append (remove_at i cs) (new_client (size cs + 1) ∷ []) ∙ size-remove_at i cs c e k)
