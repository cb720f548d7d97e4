-- ===== src/Dns/Stops.antt =====
-- How long `DNSServer` answers.
use network_protocols.Common.{
  ℕ, ◌≡◌, refl, sym, ◌∙◌, ap, Bool, true, false, List, [], ◌∷◌, ◌++◌, append-nil, some, Bytes,
  length,
}
use network_protocols.Dns.Header.{qr, get_flag}
use network_protocols.Dns.Query.{Query, encode_query, decode_query}
use network_protocols.Dns.QueryLaws.{IsQuery, decode-encode_query}
use network_protocols.Dns.Response.{encode_response}
use network_protocols.Dns.ResponseLaws.{IsName}
use network_protocols.Dns.Resolver.{Record, not_query, react, receive, process}
use network_protocols.Dns.Answers.{fresh, receive-encode_query}
use network_protocols.Dns.Server.{Happening, datagram, Served, Status, after_reaction, run_server}

-- A query of a client, with what stands in `_ttl`.
pub record Asked : Type 0 where
  pub query : Query
  pub ttl : ℕ
  pub is_query : IsQuery query
  pub is_name : IsName query.name
  pub asks : get_flag qr query.header ≡ false

abbrev pub asked : List Asked → List Happening
asked [] = []
asked (a ∷ rest) = datagram (encode_query a.query) a.ttl true ∷ asked rest

abbrev pub answers : List Record → List Asked → List Bytes
answers records [] = []
answers records (a ∷ rest) =
    encode_response (process records a.query (fresh a.ttl)) ∷ answers records rest

run_asked :
    (records : List Record) (qs : List Asked) (hs : List Happening)
    → run_server records (asked qs ++ hs) ≡ record (run_server records hs) {
      replies = answers records qs ++ (run_server records hs).replies;
    }
unfolding run_server receive
run_asked records [] hs = refl
run_asked records (a ∷ rest) hs =
    ap (after_reaction true (run_server records (asked rest ++ hs)))
      (receive-encode_query a.ttl records a.query a.is_query a.is_name a.asks)
    ∙ ap
        (λ (s : Served). record s {
          replies = encode_response (process records a.query (fresh a.ttl)) ∷ s.replies;
        })
        (run_asked records rest hs)

-- The server answers queries one after the other, each by the response to it, and then waits for
-- more; but behind the first datagram that is not a query, one with the flag QR, it answers
-- nothing, whatever is sent to it.
pub run_server_until :
    (records : List Record) (qs : List Asked) (q : Query) (ttl : ℕ) (sends : Bool)
    (hs : List Happening)
    → IsQuery q
    → IsName q.name
    → get_flag qr q.header ≡ true
    → (run_server records (asked qs)
        ≡ record { replies = answers records qs; status = Status.waits })
      × (run_server records (asked qs ++ datagram (encode_query q) ttl sends ∷ hs)
          ≡ record { replies = answers records qs; status = Status.idle })
unfolding run_server receive
run_server_until records qs q ttl sends hs ok n is_response =
    let read : decode_query (encode_query q) ≡ some (q, length (encode_query q)) =
      ap decode_query (sym (append-nil (encode_query q)))
      ∙ decode-encode_query q n.first n.others [] ok n.is_join n.first_label n.other_labels in
    let refused : receive ttl records (encode_query q) ≡ not_query =
      ap (react ttl records) read ∙ rw is_response in
    let whole =
      λ (served : Served). record served { replies = answers records qs ++ served.replies } in
    let all = append-nil (answers records qs) in
    (
      ap (run_server records) (sym (append-nil (asked qs)))
          ∙ run_asked records qs []
          ∙ ap (λ ls. record { replies = ls; status = Status.waits }) all,
      run_asked records qs (datagram (encode_query q) ttl sends ∷ hs)
          ∙ ap whole (ap (after_reaction sends (run_server records hs)) refused)
          ∙ ap (λ ls. record { replies = ls; status = Status.idle }) all,
    )
