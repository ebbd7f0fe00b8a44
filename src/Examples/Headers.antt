-- ===== src/Examples/Headers.antt =====
-- core/emunel_core/relay/vless.py, trojan.py and shadowsocks.py: headers.
use emunel.Prelude.{ℕ, refl, none, List, [], ◌∷◌, ◌++◌, arith, codes, Str}
use emunel.Relay.Wire.{Texts, ok, port_bytes}
use emunel.Relay.Trojan.{build_trojan_request, parse_trojan_request, target_bytes, target_host}
use emunel.Relay.Trojan.RoundTrip.{ReturnsTarget, parse_trojan_request-build_trojan_request}
use emunel.Relay.Vless.{build_vless_header, parse_vless_header, address_bytes, host_bytes}
use emunel.Relay.Vless.RoundTrip.{Returns, parse_vless_header-build_vless_header}

-- Plain text, and no host is an address.
abbrev texts : Texts
texts = record { encode = λ s. s; decode = λ s. s; ip_address = λ s. none }

abbrev credential : List ℕ
credential = 1 ∷ 2 ∷ 3 ∷ 4 ∷ 5 ∷ 6 ∷ 7 ∷ 8 ∷ 9 ∷ 10 ∷ 11 ∷ 12 ∷ 13 ∷ 14 ∷ 15 ∷ 16 ∷ []

abbrev host : Str
host = codes "a.org"

abbrev built : List ℕ
built = 0 ∷ credential ++ (0 ∷ 1 ∷ 1 ∷ 187 ∷ 2 ∷ 5 ∷ host)

parse_vless_header-build_vless_header_example :
    Returns (parse_vless_header texts (built ++ (9 ∷ 9 ∷ []))) 1 (ok host) 443 (9 ∷ 9 ∷ [])
unfolding build_vless_header address_bytes host_bytes port_bytes
parse_vless_header-build_vless_header_example =
    parse_vless_header-build_vless_header texts credential host 443 1 (9 ∷ 9 ∷ []) refl
      (omega arith) refl built tt refl (omega arith)

-- The hash of no password, but of the right form.
abbrev hash : Str
hash = codes "0123456789abcdef0123456789abcdef0123456789abcdef01234567"

abbrev sent : List ℕ
sent = hash ++ (13 ∷ 10 ∷ 1 ∷ 3 ∷ 5 ∷ host ++ (1 ∷ 187 ∷ 13 ∷ 10 ∷ 9 ∷ 9 ∷ []))

parse_trojan_request-build_trojan_request_example :
    ReturnsTarget (parse_trojan_request texts sent hash) (ok host) 443 (9 ∷ 9 ∷ [])
unfolding build_trojan_request target_bytes target_host port_bytes
parse_trojan_request-build_trojan_request_example =
    parse_trojan_request-build_trojan_request texts hash host 443 (9 ∷ 9 ∷ []) refl refl
      (omega arith) refl sent tt refl (omega arith)
