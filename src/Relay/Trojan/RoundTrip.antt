-- ===== src/Relay/Trojan/RoundTrip.antt =====
-- core/emunel_core/relay/trojan.py: the request, built and read.
use emunel.Prelude.{
  ℕ, ◌+◌, ◌≤◌, ◌<◌, ◌≡◌, refl, Option, none, some, List, ◌∷◌, Str, arith, length, str_eq,
}
use emunel.Relay.Wire.{Result, ok, dotted, Texts, Ip, v4, v6}
use emunel.Relay.Wire.Reading.{coloned_total, IsPacked, shown}
use emunel.Relay.Trojan.{
  Target, ascii, parse_trojan_request, target_host, target_bytes, build_trojan_request,
}
use emunel.Relay.Trojan.Parsing.{request, parse_request, reads_v4, reads_v6, reads_domain}

-- What `parse_trojan_request` must return for a request that was built.
abbrev pub ReturnsTarget : Result Target → Result Str → ℕ → List ℕ → Type 0
ReturnsTarget r text port payload =
    (a : Str) × (text ≡ ok a) × (r ≡ ok (record { address = a; port = port; payload = payload }))

module _ (t : Texts) (hash address : Str) (port : ℕ) (payload : List ℕ)
    (digits : length (t.encode hash) ≡ 56) (plain : ascii (t.encode hash) ≡ hash)
    (small : port < 65536) (decodes : t.decode (t.encode address) ≡ address) where
  round_trip :
      (o : Option Ip) (bytes : List ℕ)
      → t.ip_address address ≡ o
      → IsPacked o
      → build_trojan_request t hash address port payload ≡ ok bytes
      → 66 ≤ length bytes
      → ReturnsTarget (parse_trojan_request t bytes hash) (shown address o) port payload
  unfolding build_trojan_request target_bytes target_host
  round_trip none bytes e packed b long =
      let host = t.encode address in
      let same : bytes ≡ request t hash port payload digits plain small (3 ∷ length host ∷ host) =
        ground (arith, e) in
      (
        address,
        refl,
        rw same (
            parse_request t hash port payload digits plain small 3 (length host ∷ host) address
              (61 + length host) (omega arith) (rw same at long)
              (rw decodes at (reads_domain t hash port payload digits plain small host))),
      )
  round_trip (some (v4 bs)) bytes e packed b long =
      let same : bytes ≡ request t hash port payload digits plain small (1 ∷ bs) =
        ground (arith, e) in
      (
        dotted bs,
        refl,
        rw same (
            parse_request t hash port payload digits plain small 1 bs (dotted bs) 64
              (omega (arith, packed)) (rw same at long)
              (reads_v4 t hash port payload digits plain small bs packed)),
      )
  round_trip (some (v6 bs)) bytes e packed b long =
      let same : bytes ≡ request t hash port payload digits plain small (4 ∷ bs) =
        ground (arith, e) in
      let (a, text) = coloned_total 8 bs packed in
      (
        a,
        text,
        rw same (
            parse_request t hash port payload digits plain small 4 bs a 76 (omega (arith, packed))
              (rw same at long)
              (rw text at (reads_v6 t hash port payload digits plain small bs packed))),
      )

  -- A request that `build_trojan_request` built is read back by `parse_trojan_request` under the hash
  -- of its password: the port, the payload and the address, as the host itself or in the notation of
  -- its packed bytes. The hash is 56 characters of ASCII, the text of the host survives its encoding,
  -- and the whole is at least the 66 bytes that the parser asks for.
  pub parse_trojan_request-build_trojan_request :
      (bytes : List ℕ)
      → IsPacked (t.ip_address address)
      → build_trojan_request t hash address port payload ≡ ok bytes
      → 66 ≤ length bytes
      → ReturnsTarget
          (parse_trojan_request t bytes hash)
          (shown address (t.ip_address address))
          port
          payload
  parse_trojan_request-build_trojan_request bytes = round_trip (t.ip_address address) bytes refl
