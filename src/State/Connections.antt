-- ===== src/State/Connections.antt =====
-- core/emunel_core/state.py: `ConnectionTracker`.
pub mod Counting
pub mod Limit
use emunel.Prelude.{
  ℕ, ◌+◌, Bool, true, ◌&&◌, not, Option, none, some, List, [], ◌∷◌, Str, length, map, keep, elem,
  leb, ltb, if◌then◌else◌, ◌==◌, str_eq,
}
use emunel.Prelude.Dict.{Dict, get, put, remove}
use emunel.State.Link.{Link}

pub record Conn : Type 0 where
  pub uuid : Str
  pub ip : Str
  pub transport : Str
  pub connected_at : Str
  pub bytes : ℕ

abbrev pub ConnectionTracker : Type 0
ConnectionTracker = Dict Str Conn

unfoldable pub register : Str → Str → Str → Str → Str → ConnectionTracker → ConnectionTracker
register now conn_id uuid ip transport conns =
    put conns conn_id
      (record { uuid = uuid; ip = ip; transport = transport; connected_at = now; bytes = 0 })

-- The elements of a set comprehension, each once.
unfoldable pub distinct : List Str → List Str
distinct [] = []
distinct (x ∷ xs) = let rest = distinct xs in if elem x rest then rest else x ∷ rest

-- `c.get("uuid") == uuid and c.get("ip")`: an empty text counts as no address
abbrev pub is_from : Str → Conn → Bool
is_from uuid c = c.uuid == uuid && not (c.ip == [])

abbrev pub values : ConnectionTracker → List Conn
values = map (λ p. p.1)

unfoldable pub unique_ips_for : Str → ConnectionTracker → List Str
unfolding distinct
unique_ips_for uuid conns = distinct (map (λ c. c.ip) (keep (is_from uuid) (values conns)))

unfoldable pub ip_allowed : Link → Str → ConnectionTracker → Bool
ip_allowed link ip conns =
    if leb link.ip_limit 0
    then true
    else if elem ip (unique_ips_for link.uuid conns)
    then true
    else ltb (length (unique_ips_for link.uuid conns)) link.ip_limit

abbrev pub grow : ℕ → Option Conn → Str → ConnectionTracker → ConnectionTracker
grow n none conn_id conns = conns
grow n (some c) conn_id conns = put conns conn_id (record c { bytes = c.bytes + n })

unfoldable pub add_bytes : Str → ℕ → ConnectionTracker → ConnectionTracker
add_bytes conn_id n conns = grow n (get conns conn_id) conn_id conns

unfoldable pub drop_conn : Str → ConnectionTracker → ConnectionTracker
drop_conn conn_id conns = remove conns conn_id

-- The admission of a connection by every transport but VMess, which check and register with no suspension
-- between: `link` is what `links` has for it, and a refused connection changes nothing here.
unfoldable pub attach :
    Option Link → Str → Str → Str → Str → Str → ConnectionTracker → ConnectionTracker
attach none now conn_id uuid ip transport conns = register now conn_id uuid ip transport conns
attach (some link) now conn_id uuid ip transport conns =
    if ip_allowed link ip conns then register now conn_id uuid ip transport conns else conns

-- What happens to the connections. VMess registers a connection some time after it has checked the address.
pub data Event : Type 0 where
  attaches : Option Link → Str → Str → Str → Str → Str → Event
  registers : Str → Str → Str → Str → Str → Event
  moves : Str → ℕ → Event
  leaves : Str → Event

unfoldable pub happen : Event → ConnectionTracker → ConnectionTracker
happen (attaches link now conn_id uuid ip transport) conns =
    attach link now conn_id uuid ip transport conns
happen (registers now conn_id uuid ip transport) conns =
    register now conn_id uuid ip transport conns
happen (moves conn_id n) conns = add_bytes conn_id n conns
happen (leaves conn_id) conns = drop_conn conn_id conns

unfoldable pub happen_all : List Event → ConnectionTracker → ConnectionTracker
happen_all [] conns = conns
happen_all (e ∷ es) conns = happen_all es (happen e conns)
