-- ===== src/Relay/Trojan.antt =====
-- core/emunel_core/relay/trojan.py: the request.
pub mod Parsing
pub mod RoundTrip
use emunel.Prelude.{
  ℕ, ◌+◌, Bool, Option, none, some, List, [], ◌∷◌, ◌++◌, Str, length, ltb, take, drop, ◌==◌, nat_eq,
  str_eq, if◌then◌else◌, keep,
}
use emunel.Prelude.Text.{lower}
use emunel.Relay.Wire.{
  Result, ok, err, value_error, permission_error, ◌>>=◌, byte_at, slice, from_big, port_bytes,
  dotted, coloned, Texts, Ip, v4, v6,
}

-- What `parse_trojan_request` returns.
pub record Target : Type 0 where
  pub address : Str
  pub port : ℕ
  pub payload : List ℕ

-- bs.decode("ascii", errors="ignore")
abbrev pub ascii : List ℕ → Str
ascii = keep (λ b. ltb b 128)

-- The address at `pos`, and the position behind it.
unfoldable pub target_address : Texts → ℕ → ℕ → List ℕ → Result (Str × ℕ)
target_address t atyp pos chunk =
    if atyp == 1
    then ok (dotted (slice pos (pos + 4) chunk), pos + 4)
    else if atyp == 3
    then (do
      dlen ← byte_at chunk pos
      ok (t.decode (slice (pos + 1) (pos + 1 + dlen) chunk), pos + 1 + dlen))
    else if atyp == 4
    then (do address ← coloned 8 (slice pos (pos + 16) chunk); ok (address, pos + 16))
    else err value_error

-- The port and the line end behind the address.
unfoldable pub target_end : List ℕ → Str × ℕ → Result Target
target_end chunk (address, pos) =
    if slice (pos + 2) (pos + 2 + 2) chunk == 13 ∷ 10 ∷ []
    then ok (record {
      address = address;
      port = from_big 0 (slice pos (pos + 2) chunk);
      payload = drop (pos + 2 + 2) chunk;
    })
    else err value_error

unfoldable pub parse_trojan_request : Texts → List ℕ → Str → Result Target
parse_trojan_request t chunk expected_hash_hex =
    if ltb (length chunk) 66
    then err value_error
    else if lower (ascii (take 56 chunk)) == lower expected_hash_hex
    then (do
      atyp ← byte_at chunk 59
      found ← target_address t atyp 60 chunk
      target_end chunk found)
    else err permission_error

unfoldable pub target_host : List ℕ → Result (List ℕ)
target_host host = if ltb 255 (length host) then err value_error else ok (3 ∷ length host ∷ host)

unfoldable pub target_bytes : Texts → Str → Result (List ℕ)
target_bytes t address = elim (t.ip_address address) [
  | none ↦ target_host (t.encode address)
  | some ip ↦ elim ip [ v4 packed ↦ ok (1 ∷ packed) | v6 packed ↦ ok (4 ∷ packed) ]
]

-- `trojan_password_hash` is a SHA-224 in hexadecimal, here the argument `hash`; a port is below 65536.
unfoldable pub build_trojan_request : Texts → Str → Str → ℕ → List ℕ → Result (List ℕ)
build_trojan_request t hash address port payload = do
  addr ← target_bytes t address
  ok (t.encode hash ++ (13 ∷ 10 ∷ 1 ∷ addr ++ (port_bytes port ++ (13 ∷ 10 ∷ payload))))
