-- ===== src/Relay/Shadowsocks/Address.antt =====
-- core/emunel_core/relay/shadowsocks.py: `parse_socks5_addr`.
pub mod Bounds
use emunel.Prelude.{ℕ, ◌+◌, Bool, List, [], ◌∷◌, Str, length, ltb, ◌==◌, nat_eq, if◌then◌else◌}
use emunel.Relay.Wire.{
  Result, ok, err, value_error, ◌>>=◌, byte_at, slice, from_big, dotted, coloned, Texts,
}

-- What is returned: the address, the port, and how many bytes were read.
pub record Socks5Addr : Type 0 where
  pub address : Str
  pub port : ℕ
  pub consumed : ℕ

-- The port behind an address that ends at `pos`.
unfoldable pub with_port : List ℕ → ℕ → Str → Socks5Addr
with_port buf pos address = record {
  address = address;
  port = from_big 0 (slice pos (pos + 2) buf);
  consumed = pos + 2;
}

unfoldable pub domain_addr : Texts → List ℕ → ℕ → Result Socks5Addr
domain_addr t buf dlen =
    if ltb (length buf) (2 + dlen + 2)
    then err value_error
    else ok (with_port buf (2 + dlen) (t.decode (slice 2 (2 + dlen) buf)))

unfoldable pub addr_of_type : Texts → ℕ → List ℕ → Result Socks5Addr
unfolding domain_addr
addr_of_type t atyp buf =
    if atyp == 1
    then (if ltb (length buf) (1 + 4 + 2)
        then err value_error
        else ok (with_port buf 5 (dotted (slice 1 5 buf))))
    else if atyp == 3
    then (do dlen ← byte_at buf 1; domain_addr t buf dlen)
    else if atyp == 4
    then (if ltb (length buf) (1 + 16 + 2)
        then err value_error
        else (do address ← coloned 8 (slice 1 17 buf); ok (with_port buf 17 address)))
    else err value_error

unfoldable pub parse_socks5_addr : Texts → List ℕ → Result Socks5Addr
unfolding addr_of_type
parse_socks5_addr t buf =
    if ltb (length buf) 2
    then err value_error
    else (do atyp ← byte_at buf 0; addr_of_type t atyp buf)
