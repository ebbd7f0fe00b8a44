-- ===== src/State/Connections/Limit.antt =====
-- core/emunel_core/state.py, `ConnectionTracker`: the limit on the addresses of a link.
use emunel.Prelude.{
  ℕ, ◌+◌, ◌≤◌, ◌<◌, ◌≡◌, ◌≢◌, refl, Option, none, some, List, [], ◌∷◌, Str, length, arith, elem,
  ◌==◌, str_eq, if◌then◌else◌, inl, inr, Option-cases, ◌⊎◌,
}
use mathlib.Core.List.{append-nil}
use emunel.Prelude.Dict.{get, remove}
use emunel.State.Link.{Link}
use emunel.State.Connections.{
  Conn, ConnectionTracker, unique_ips_for, ip_allowed, register, attach, add_bytes, drop_conn,
  Event, attaches, registers, moves, leaves, happen, happen_all,
}
use emunel.State.Connections.Counting.{
  card, ips, card-insert, card-remove, ips-put, ips-grow, elem-distinct,
}

-- The link that was found for `u`: for `uuid` it is one with this limit.
abbrev pub Governs : Str → ℕ → Str → Option Link → Type 0
Governs uuid limit u none = u ≢ uuid
Governs uuid limit u (some link) = (link.uuid ≡ u) × ((u ≢ uuid) ⊎ (link.ip_limit ≡ limit))

-- Connection ids are new, the limit of the link stays as it is, and VMess registers no connection of it.
abbrev pub IsFair : Str → ℕ → List Event → ConnectionTracker → Type 0
IsFair uuid limit [] conns = Unit
IsFair uuid limit (attaches link now conn_id u ip transport ∷ es) conns =
    (get conns conn_id ≡ none)
    × Governs uuid limit u link
    × IsFair uuid limit es (happen (attaches link now conn_id u ip transport) conns)
IsFair uuid limit (registers now conn_id u ip transport ∷ es) conns =
    (get conns conn_id ≡ none)
    × (u ≢ uuid)
    × IsFair uuid limit es (happen (registers now conn_id u ip transport) conns)
IsFair uuid limit (moves conn_id n ∷ es) conns =
    IsFair uuid limit es (happen (moves conn_id n) conns)
IsFair uuid limit (leaves conn_id ∷ es) conns = IsFair uuid limit es (happen (leaves conn_id) conns)

module _ (uuid : Str) (limit : ℕ) (positive : 0 < limit) where
  -- A new connection of an address.
  card-register :
      (now conn_id u ip transport : Str) (conns : ConnectionTracker)
      → get conns conn_id ≡ none
      → card (ips uuid (register now conn_id u ip transport conns))
        ≤ card (ips uuid conns)
          + (if u == uuid then (if elem ip (ips uuid conns) then 0 else 1) else 0)
  unfolding register
  card-register now conn_id u ip transport conns fresh =
      let c : Conn = record {
        uuid = u;
        ip = ip;
        transport = transport;
        connected_at = now;
        bytes = 0;
      } in
      ground (
        arith,
        ips-put uuid conn_id c conns fresh,
        card-insert ip (ips uuid conns) [],
        append-nil (ips uuid conns),
      )

  attach-card :
      (link : Option Link) (now conn_id u ip transport : Str) (conns : ConnectionTracker)
      → get conns conn_id ≡ none
      → Governs uuid limit u link
      → card (ips uuid conns) ≤ limit
      → card (ips uuid (attach link now conn_id u ip transport conns)) ≤ limit
  unfolding attach ip_allowed unique_ips_for
  attach-card none now conn_id u ip transport conns fresh g h =
      ground (arith, card-register now conn_id u ip transport conns fresh, str_eq.same_iff u uuid)
  attach-card (some link) now conn_id u ip transport conns fresh (same, g) h = ground (
    arith,
    card-register now conn_id u ip transport conns fresh,
    str_eq.same_iff u uuid,
    elem-distinct ip (ips uuid conns),
  )

  add_bytes-card :
      (conn_id : Str) (n : ℕ) (conns : ConnectionTracker)
      → ips uuid (add_bytes conn_id n conns) ≡ ips uuid conns
  unfolding add_bytes
  add_bytes-card conn_id n conns = elim (Option-cases (get conns conn_id)) [
    | inl e ↦ rw e refl
    | inr (c, e) ↦ rw e (ips-grow uuid conn_id c n conns e)
  ]

  -- However connections come and go, the connections of a link with a positive limit, none of which comes
  -- through VMess, never have more different addresses than the limit, if they had no more at first: every new
  -- connection has a new id, and the link found for it has this limit.
  pub happen_all-unique_ips_for :
      (es : List Event) (conns : ConnectionTracker)
      → IsFair uuid limit es conns
      → length (unique_ips_for uuid conns) ≤ limit
      → length (unique_ips_for uuid (happen_all es conns)) ≤ limit
  unfolding happen_all happen unique_ips_for drop_conn
  happen_all-unique_ips_for [] conns f h = h
  happen_all-unique_ips_for (attaches link now conn_id u ip transport ∷ es) conns (fresh, g, f) h =
      happen_all-unique_ips_for es (attach link now conn_id u ip transport conns) f
        (attach-card link now conn_id u ip transport conns fresh g h)
  happen_all-unique_ips_for (registers now conn_id u ip transport ∷ es) conns (fresh, other, f) h =
      happen_all-unique_ips_for es (register now conn_id u ip transport conns) f (
        ground
          (arith, card-register now conn_id u ip transport conns fresh, str_eq.same_iff u uuid))
  happen_all-unique_ips_for (moves conn_id n ∷ es) conns f h =
      happen_all-unique_ips_for es (add_bytes conn_id n conns) f
        (rw (add_bytes-card conn_id n conns) h)
  happen_all-unique_ips_for (leaves conn_id ∷ es) conns f h =
      happen_all-unique_ips_for es (remove conns conn_id) f
        (omega (arith, card-remove uuid conn_id [] conns))
