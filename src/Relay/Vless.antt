-- ===== src/Relay/Vless.antt =====
-- core/emunel_core/relay/vless.py: the request header.
pub mod Parsing
pub mod RoundTrip
use emunel.Prelude.{
  ℕ, ◌+◌, Bool, Option, none, some, List, [], ◌∷◌, ◌++◌, Str, length, ltb, take, drop, ◌==◌, nat_eq,
  if◌then◌else◌,
}
use emunel.Relay.Wire.{
  Result, ok, err, value_error, ◌>>=◌, byte_at, slice, from_big, port_bytes, dotted, coloned, Texts,
  Ip, v4, v6,
}

-- What `parse_vless_header` returns.
pub record Request : Type 0 where
  pub command : ℕ
  pub address : Str
  pub port : ℕ
  pub rest : List ℕ

-- The address at `pos`, and the position behind it.
unfoldable pub parse_address : Texts → ℕ → ℕ → List ℕ → Result (Str × ℕ)
parse_address t addr_type pos chunk =
    if addr_type == 1
    then ok (dotted (slice pos (pos + 4) chunk), pos + 4)
    else if addr_type == 2
    then (do
      dlen ← byte_at chunk pos
      ok (t.decode (slice (pos + 1) (pos + 1 + dlen) chunk), pos + 1 + dlen))
    else if addr_type == 3
    then (do address ← coloned 8 (slice pos (pos + 16) chunk); ok (address, pos + 16))
    else err value_error

-- The part behind the addons, which starts at `pos`.
unfoldable pub parse_request : Texts → ℕ → List ℕ → Result Request
parse_request t pos chunk = do
  command ← byte_at chunk pos
  addr_type ← byte_at chunk (pos + 3)
  (address, end) ← parse_address t addr_type (pos + 4) chunk
  ok (record {
    command = command;
    address = address;
    port = from_big 0 (slice (pos + 1) (pos + 3) chunk);
    rest = drop end chunk;
  })

unfoldable pub parse_vless_header : Texts → List ℕ → Result Request
unfolding parse_request
parse_vless_header t chunk =
    if ltb (length chunk) 24
    then err value_error
    else do addon_len ← byte_at chunk 17; parse_request t (18 + addon_len) chunk

-- `bytes([len(host)])` raises for a host of more than 255 bytes.
unfoldable pub host_bytes : ℕ → List ℕ → Result (List ℕ)
host_bytes addr_type host =
    if ltb 255 (length host) then err value_error else ok (addr_type ∷ length host ∷ host)

unfoldable pub address_bytes : Texts → Str → Result (List ℕ)
address_bytes t address = elim (t.ip_address address) [
  | none ↦ host_bytes 2 (t.encode address)
  | some ip ↦ elim ip [ v4 packed ↦ ok (1 ∷ packed) | v6 packed ↦ ok (3 ∷ packed) ]
]

-- `credential` is `bytes.fromhex(uuid.replace("-", ""))`; a command is a byte and a port below 65536.
unfoldable pub build_vless_header : Texts → List ℕ → Str → ℕ → ℕ → Result (List ℕ)
build_vless_header t credential address port command = do
  addr ← address_bytes t address
  ok (0 ∷ credential ++ (0 ∷ command ∷ port_bytes port ++ addr))
