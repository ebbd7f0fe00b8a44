-- ===== src/Relay/Vless/RoundTrip.antt =====
-- core/emunel_core/relay/vless.py: the header, built and read.
use emunel.Prelude.{
  ℕ, ◌+◌, ◌≤◌, ◌<◌, ◌≡◌, refl, ap, Option, none, some, List, ◌∷◌, ◌++◌, Str, arith, length, drop,
}
use mathlib.Core.List.{append_assoc}
use emunel.Relay.Wire.{Result, ok, port_bytes, dotted, Texts, Ip, v4, v6}
use emunel.Relay.Wire.Reading.{coloned_total}
use emunel.Relay.Vless.{
  Request, parse_address, parse_vless_header, address_bytes, host_bytes, build_vless_header,
}
use emunel.Relay.Wire.Reading.{IsPacked, shown}
use emunel.Relay.Vless.Parsing.{request, header, parse_header, reads_v4, reads_domain, reads_v6}

-- What `parse_vless_header` must return for a request that was built.
abbrev pub Returns : Result Request → ℕ → Result Str → ℕ → List ℕ → Type 0
Returns r command text port payload =
    (a : Str) × (text ≡ ok a)
    × (r ≡ ok (record { command = command; address = a; port = port; rest = payload }))

module _ (t : Texts) (credential : List ℕ) (address : Str) (port command : ℕ) (payload : List ℕ)
    (c : length credential ≡ 16) (small : port < 65536)
    (decodes : t.decode (t.encode address) ≡ address) where
  abbrev built : List ℕ → List ℕ
  built addr = 0 ∷ credential ++ (0 ∷ command ∷ port_bytes port ++ addr)

  rebracket :
      (addr : List ℕ) → built addr ++ payload ≡ header credential command port (addr ++ payload)
  unfolding port_bytes
  rebracket addr = ap (λ (s : List ℕ). 0 ∷ s) (append_assoc credential _ payload)

  -- The parser on a built header, from what it reads of the address.
  parse_built :
      (addr_type end : ℕ) (addr : List ℕ) (a : Str)
      → 24 ≤ length (built (addr_type ∷ addr) ++ payload)
      → parse_address t addr_type 5 (request command port (addr_type ∷ addr ++ payload))
        ≡ ok (a, end)
      → drop end (request command port (addr_type ∷ addr ++ payload)) ≡ payload
      → parse_vless_header t (built (addr_type ∷ addr) ++ payload)
        ≡ ok (record { command = command; address = a; port = port; rest = payload })
  parse_built addr_type end addr a long at_address behind = ground (
    arith,
    rebracket (addr_type ∷ addr),
    parse_header t credential command port addr_type (addr ++ payload) c,
  )

  round_trip :
      (o : Option Ip) (header_ : List ℕ)
      → t.ip_address address ≡ o
      → IsPacked o
      → build_vless_header t credential address port command ≡ ok header_
      → 24 ≤ length (header_ ++ payload)
      → Returns (parse_vless_header t (header_ ++ payload)) command (shown address o) port payload
  unfolding build_vless_header address_bytes host_bytes
  round_trip none header_ e packed b long =
      let host = t.encode address in
      let same : header_ ≡ built (2 ∷ length host ∷ host) = ground (arith, e) in
      let (read, behind) = reads_domain t command port payload host in
      (
        address,
        refl,
        rw same (
            parse_built 2 (6 + length host) (length host ∷ host) address (rw same at long)
              (rw decodes at read) behind),
      )
  round_trip (some (v4 bs)) header_ e packed b long =
      let same : header_ ≡ built (1 ∷ bs) = ground (arith, e) in
      let (read, behind) = reads_v4 t command port payload bs packed in
      (dotted bs, refl, rw same (parse_built 1 9 bs (dotted bs) (rw same at long) read behind))
  round_trip (some (v6 bs)) header_ e packed b long =
      let same : header_ ≡ built (3 ∷ bs) = ground (arith, e) in
      let (read, behind) = reads_v6 t command port payload bs packed in
      let (a, text) = coloned_total 8 bs packed in
      (a, text, rw same (parse_built 3 21 bs a (rw same at long) (rw text at read) behind))

  -- A header that `build_vless_header` built, with any payload behind it, is read back by
  -- `parse_vless_header`: the command, the port, the payload and the address, as the host itself or
  -- in the notation of its packed bytes. The credential has 16 bytes, the text of the host survives
  -- its encoding, and the whole is at least the 24 bytes that the parser asks for.
  pub parse_vless_header-build_vless_header :
      (header_ : List ℕ)
      → IsPacked (t.ip_address address)
      → build_vless_header t credential address port command ≡ ok header_
      → 24 ≤ length (header_ ++ payload)
      → Returns
          (parse_vless_header t (header_ ++ payload))
          command
          (shown address (t.ip_address address))
          port
          payload
  parse_vless_header-build_vless_header header_ = round_trip (t.ip_address address) header_ refl
