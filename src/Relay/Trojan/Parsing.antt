-- ===== src/Relay/Trojan/Parsing.antt =====
-- core/emunel_core/relay/trojan.py: what the parser reads of a request.
use emunel.Prelude.{
  ℕ, ◌+◌, ◌≤◌, ◌<◌, ◌≡◌, refl, ap, sym, ◌∙◌, List, [], ◌∷◌, ◌++◌, Str, arith, length, length-append,
  take, take-append, drop, ltb, ==-refl, str_eq, ◌==◌, true, false,
}
use emunel.Prelude.Text.{lower}
use mathlib.Core.List.{append_assoc}
use native.Mathlib.Nat.{add_assoc}
use emunel.Relay.Wire.{ok, byte_at, slice, from_big, port_bytes, dotted, coloned, Texts, ◌>>=◌}
use emunel.Relay.Wire.Reading.{
  byte_at-behind, slice_at-behind, slice_first, drop-behind, from_big-port,
}
use emunel.Relay.Trojan.{ascii, target_address, target_end, parse_trojan_request}

module _ (front payload : List ℕ) (address : Str) (port pos : ℕ) (h : length front ≡ pos)
    (small : port < 65536) where
  abbrev pub tail : List ℕ
  tail = port_bytes port ++ (13 ∷ 10 ∷ payload)

  line_end : slice (pos + 2) (pos + 2 + 2) (front ++ tail) ≡ 13 ∷ 10 ∷ []
  unfolding slice port_bytes
  line_end = slice_at-behind front tail pos 2 2 h

  behind_line : drop (pos + 2 + 2) (front ++ tail) ≡ payload
  unfolding port_bytes
  behind_line = rw (add_assoc pos 2 2) (drop-behind front tail pos 4 h)

  port_read : from_big 0 (slice pos (pos + 2) (front ++ tail)) ≡ port
  unfolding port_bytes
  port_read =
      ap (from_big 0) (slice_first front (port_bytes port) (13 ∷ 10 ∷ payload) pos 2 h refl)
      ∙ from_big-port port small

  -- What stands behind the address is read from behind it.
  target_end-behind :
      target_end (front ++ tail) (address, pos)
      ≡ ok (record { address = address; port = port; payload = payload })
  unfolding target_end
  target_end-behind =
      let crlf : List ℕ = 13 ∷ 10 ∷ [] in
      ground (arith, line_end, behind_line, port_read, ==-refl crlf)

not_short : (n least : ℕ) → least ≤ n → ltb n least ≡ false
not_short n least h = ground arith

take_front : (xs ys : List ℕ) (n : ℕ) → length xs ≡ n → take n (xs ++ ys) ≡ xs
take_front xs ys n h = rw (← h) (take-append xs ys)

-- A request with the address bytes `addr`.
module _ (t : Texts) (hash : Str) (port : ℕ) (payload : List ℕ)
    (digits : length (t.encode hash) ≡ 56) (plain : ascii (t.encode hash) ≡ hash)
    (small : port < 65536) where
  abbrev pub rest : List ℕ
  rest = port_bytes port ++ (13 ∷ 10 ∷ payload)

  abbrev pub request : List ℕ → List ℕ
  request addr = t.encode hash ++ (13 ∷ 10 ∷ 1 ∷ addr ++ rest)

  regroup :
      (addr more : List ℕ)
      → request (addr ++ more) ≡ (t.encode hash ++ (13 ∷ 10 ∷ 1 ∷ addr)) ++ (more ++ rest)
  unfolding port_bytes
  regroup addr more =
      ap (λ (s : List ℕ). t.encode hash ++ (13 ∷ 10 ∷ 1 ∷ s)) (append_assoc addr more rest)
      ∙ sym (append_assoc (t.encode hash) (13 ∷ 10 ∷ 1 ∷ addr) (more ++ rest))

  length-front : (addr : List ℕ) → length (t.encode hash ++ (13 ∷ 10 ∷ 1 ∷ addr)) ≡ 59 + length addr
  length-front addr = omega (arith, length-append (t.encode hash) (13 ∷ 10 ∷ 1 ∷ addr))

  reads_atyp : (atyp : ℕ) (addr : List ℕ) → byte_at (request (atyp ∷ addr)) 59 ≡ ok atyp
  unfolding byte_at port_bytes
  reads_atyp atyp addr =
      byte_at-behind (t.encode hash) (13 ∷ 10 ∷ 1 ∷ atyp ∷ addr ++ rest) 56 3 digits

  ends :
      (addr : List ℕ) (a : Str) (end : ℕ)
      → 59 + length addr ≡ end
      → target_end (request addr) (a, end)
        ≡ ok (record { address = a; port = port; payload = payload })
  ends addr a end e = rw (← append_assoc (t.encode hash) (13 ∷ 10 ∷ 1 ∷ addr) rest) (
      target_end-behind (t.encode hash ++ (13 ∷ 10 ∷ 1 ∷ addr)) payload a port end
        (length-front addr ∙ e) small)

  -- The parser, from what it reads of the address.
  pub parse_request :
      (atyp : ℕ) (addr : List ℕ) (a : Str) (end : ℕ)
      → 60 + length addr ≡ end
      → 66 ≤ length (request (atyp ∷ addr))
      → target_address t atyp 60 (request (atyp ∷ addr)) ≡ ok (a, end)
      → parse_trojan_request t (request (atyp ∷ addr)) hash
        ≡ ok (record { address = a; port = port; payload = payload })
  unfolding parse_trojan_request
  parse_request atyp addr a end e long at_address =
      let chunk = request (atyp ∷ addr) in
      let given : take 56 chunk ≡ t.encode hash =
        take_front (t.encode hash) (13 ∷ 10 ∷ 1 ∷ atyp ∷ addr ++ rest) 56 digits in
      let matches : lower (ascii (take 56 chunk)) ≡ lower hash =
        ap (λ (s : List ℕ). lower (ascii s)) given ∙ ap lower plain in
      let atyp_read : byte_at chunk 59 ≡ ok atyp = reads_atyp atyp addr in
      let at_end : target_end chunk (a, end)
          ≡ ok (record { address = a; port = port; payload = payload }) =
        ends (atyp ∷ addr) a end (omega arith) in
      let enough : ltb (length chunk) 66 ≡ false = not_short (length chunk) 66 long in
      let same : (lower (ascii (take 56 chunk)) == lower hash) ≡ true =
        rw matches (==-refl (lower hash)) in
      rw (enough, same, atyp_read, at_address) at_end

  pub reads_v4 :
      (packed : List ℕ)
      → length packed ≡ 4
      → target_address t 1 60 (request (1 ∷ packed)) ≡ ok (dotted packed, 64)
  unfolding target_address
  reads_v4 packed h =
      ap (λ (s : List ℕ). ok (dotted s, 64))
        (rw (regroup (1 ∷ []) packed) (
          slice_first (t.encode hash ++ (13 ∷ 10 ∷ 1 ∷ 1 ∷ [])) packed rest 60 4
            (length-front (1 ∷ [])) h))

  pub reads_v6 :
      (packed : List ℕ)
      → length packed ≡ 16
      → target_address t 4 60 (request (4 ∷ packed)) ≡ (coloned 8 packed >>= λ a. ok (a, 76))
  unfolding target_address
  reads_v6 packed h =
      ap (λ (s : List ℕ). coloned 8 s >>= λ a. ok (a, 76))
        (rw (regroup (4 ∷ []) packed) (
          slice_first (t.encode hash ++ (13 ∷ 10 ∷ 1 ∷ 4 ∷ [])) packed rest 60 16
            (length-front (4 ∷ [])) h))

  length_read : (host : List ℕ) → byte_at (request (3 ∷ length host ∷ host)) 60 ≡ ok (length host)
  unfolding byte_at port_bytes
  length_read host =
      byte_at-behind (t.encode hash) (13 ∷ 10 ∷ 1 ∷ 3 ∷ length host ∷ host ++ rest) 56 4 digits

  host_read :
      (host : List ℕ) → slice 61 (61 + length host) (request (3 ∷ length host ∷ host)) ≡ host
  host_read host = rw (regroup (3 ∷ length host ∷ []) host) (
      slice_first (t.encode hash ++ (13 ∷ 10 ∷ 1 ∷ 3 ∷ length host ∷ [])) host rest 61 (length host)
        (length-front (3 ∷ length host ∷ [])) refl)

  pub reads_domain :
      (host : List ℕ)
      → target_address t 3 60 (request (3 ∷ length host ∷ host))
        ≡ ok (t.decode host, 61 + length host)
  unfolding target_address
  reads_domain host = ground (arith, length_read host, host_read host)
