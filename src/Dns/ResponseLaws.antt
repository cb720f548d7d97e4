-- ===== src/Dns/ResponseLaws.antt =====
-- A response of the server is read back by the client.
use network_protocols.Common.{
  ℕ, zero, suc, ◌+◌, ◌*◌, ◌/◌, ◌%◌, ◌<◌, ◌≡◌, refl, sym, ◌∙◌, ap, true, List, ◌++◌, append_assoc,
  some, Bytes, length, length-append, take, drop, drop-length_append, take-length_append, leb,
  ◌>>=◌, arith,
}
use network_protocols.Dns.Header.{put_16, put_32, get_16, get_32}
use network_protocols.Dns.Names.{Decoded, encode_domain_name, decode_domain_name}
use network_protocols.Dns.NameLaws.{IsLabel, AllLabels, join, decode-encode_domain_name}
use network_protocols.Dns.QueryLaws.{get_16-append}
use network_protocols.Dns.Response.{follow, read_name, read_bytes}

-- A name that a client and a server agree on: labels with dots between.
pub record IsName (s : Bytes) : Type 0 where
  pub first : Bytes
  pub others : List Bytes
  pub is_join : s ≡ join first others
  pub first_label : IsLabel first
  pub other_labels : AllLabels others

pub follow_zero : (fuel : ℕ) (buffer name : Bytes) → follow fuel buffer 0 name ≡ some name
unfolding follow
follow_zero zero buffer name = refl
follow_zero (suc fuel) buffer name = refl

module _ (fuel : ℕ) (pre rest : Bytes) (i : ℕ) (at : i ≡ length pre) where
  pub read_name-append :
      (s : Bytes)
      → IsName s
      → read_name fuel (pre ++ (encode_domain_name s ++ rest)) i
        ≡ some (s, length (encode_domain_name s))
  unfolding read_name
  read_name-append s n =
      let buffer = pre ++ (encode_domain_name s ++ rest) in
      let there : drop i buffer ≡ encode_domain_name s ++ rest =
        ap (λ k. drop k buffer) at ∙ drop-length_append pre (encode_domain_name s ++ rest) in
      let d : Decoded = record { count = length (encode_domain_name s); name = s; offset = 0 } in
      let read : decode_domain_name (encode_domain_name s ++ rest) ≡ some d =
        rw n.is_join
          ((decode-encode_domain_name n.first n.others rest n.first_label n.other_labels).0) in
      rw (there, read) (rw (follow_zero fuel buffer s))

  pub get_32-append : (n : ℕ) → n < 4294967296 → get_32 (pre ++ (put_32 n ++ rest)) i ≡ some n
  unfolding get_32
  get_32-append n h =
      let hi = n / 65536 % 65536 in
      let lo = n % 65536 in
      let tail = put_16 lo ++ rest in
      let moved : pre ++ (put_16 hi ++ tail) ≡ (pre ++ put_16 hi) ++ tail =
        sym (append_assoc pre (put_16 hi) tail) in
      let e : hi * 65536 + lo ≡ n = omega arith in
      rw (get_16-append pre tail hi i (omega arith) at) (
        ap (λ b. get_16 b (suc (suc i)) >>= λ y. some (hi * 65536 + y)) moved
        ∙ ap (λ o. o >>= λ y. some (hi * 65536 + y))
            (get_16-append (pre ++ put_16 hi) rest lo (suc (suc i)) (omega arith)
              (omega (arith, length-append pre (put_16 hi))))
        ∙ ap some e)

  pub read_bytes-append : (s : Bytes) → read_bytes (pre ++ (s ++ rest)) i (length s) ≡ some s
  unfolding read_bytes
  read_bytes-append s =
      let buffer = pre ++ (s ++ rest) in
      let fits : leb (i + length s) (length buffer) ≡ true =
        ground (arith, length-append pre (s ++ rest), length-append s rest) in
      rw fits (
        ap (λ b. some (take (length s) b))
          (ap (λ k. drop k buffer) at ∙ drop-length_append pre (s ++ rest))
        ∙ ap some (take-length_append s rest))
