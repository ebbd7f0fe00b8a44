-- ===== src/Relay/Vmess.antt =====
-- core/emunel_core/relay/vmess.py: the reference counts of `XrayRuntime` and the accounting of
-- `vmess_ws_tunnel`. Processes, files and sockets are outside: a start succeeds or not, and a process may exit
-- at any time. `acquire` and `close` hold the lock, so each is one step.
pub mod Counts
pub mod Uncapped
pub mod Pool
use emunel.Prelude.{
  ℕ, ◌+◌, ◌-◌, Bool, true, false, ◌||◌, ◌&&◌, not, Option, none, some, List, [], ◌∷◌, Str, codes,
  length, leb, ◌==◌, nat_eq, str_eq, pair_eq, if◌then◌else◌,
}
use emunel.Prelude.Dict.{Dict, get, put, remove}
use emunel.State.Link.{Link, Clock, is_allowed}
use emunel.State.Links.{spend}
use emunel.State.Connections.{add_bytes}
use emunel.State.Stats.{add_traffic}
use emunel.Relay.Gate.{RelayContext}

-- A runtime of a link. The serial tells the entries of one uuid apart, as `is` does.
pub record Entry : Type 0 where
  pub serial : ℕ
  pub exited : Bool
  pub refs : ℕ

-- The runtimes, and the tunnels that hold one: the uuid and the serial of its entry.
pub record XrayRuntime : Type 0 where
  pub entries : Dict Str Entry
  pub closed : Bool
  pub started : ℕ
  pub holders : List (Str × ℕ)

abbrev pub new_runtime : XrayRuntime
new_runtime = record { entries = []; closed = false; started = 0; holders = [] }

abbrev held : Str → Entry → XrayRuntime → XrayRuntime
held uuid e r = record r {
  entries = put r.entries uuid (record e { refs = e.refs + 1 });
  holders = (uuid, e.serial) ∷ r.holders;
}

-- `acquire` up to its `yield`, with the room that `xray_max_runtimes` gives: the second result says that it
-- did not raise. `starts` is that `_start` succeeds.
abbrev acquire_entry : ℕ → Bool → Str → Option Entry → XrayRuntime → XrayRuntime × Bool
acquire_entry room starts uuid none r =
    if leb room (length r.entries) || not starts then (r, false) else (
      held uuid (record { serial = r.started; exited = false; refs = 0 })
          (record r { started = r.started + 1 }),
      true,
    )
acquire_entry room starts uuid (some e) r = if e.exited then (r, false) else (held uuid e r, true)

unfoldable pub acquire : ℕ → Bool → Str → XrayRuntime → XrayRuntime × Bool
acquire room starts uuid r =
    if r.closed then (r, false) else acquire_entry room starts uuid (get r.entries uuid) r

-- `finally`: the last one that holds an entry stops it.
abbrev release_entry : Str → ℕ → Option Entry → Dict Str Entry → Dict Str Entry
release_entry uuid serial none entries = entries
release_entry uuid serial (some e) entries =
    if e.serial == serial
    then if leb e.refs 1
      then remove entries uuid
      else put entries uuid (record e { refs = e.refs - 1 })
    else entries

-- The holders without the first that is this one.
unfoldable pub without : Str × ℕ → List (Str × ℕ) → List (Str × ℕ)
without h [] = []
without h (j ∷ hs) = let rest = without h hs in if j == h then hs else j ∷ rest

unfoldable pub is_held : Str × ℕ → List (Str × ℕ) → Bool
is_held h [] = false
is_held h (j ∷ hs) = let rest = is_held h hs in if j == h then true else rest

-- A tunnel that holds a runtime ends.
unfoldable pub release : Str × ℕ → XrayRuntime → XrayRuntime
release h r =
    if is_held h r.holders
    then record r {
      entries = release_entry h.0 h.1 (get r.entries h.0) r.entries;
      holders = without h r.holders;
    }
    else r

abbrev exit_entry : Str → Option Entry → XrayRuntime → XrayRuntime
exit_entry uuid none r = r
exit_entry uuid (some e) r = record r { entries = put r.entries uuid (record e { exited = true }) }

unfoldable pub close : XrayRuntime → XrayRuntime
close r = record r { entries = []; closed = true }

pub data Event : Type 0 where
  acquires : Bool → Str → Event
  releases : Str × ℕ → Event
  exits : Str → Event
  closes : Event

unfoldable pub happen : ℕ → Event → XrayRuntime → XrayRuntime
happen room (acquires starts uuid) r = (acquire room starts uuid r).0
happen room (releases h) r = release h r
happen room (exits uuid) r = exit_entry uuid (get r.entries uuid) r
happen room closes r = close r

unfoldable pub happen_all : ℕ → List Event → XrayRuntime → XrayRuntime
happen_all room [] r = r
happen_all room (e ∷ es) r = happen_all room es (happen room e r)

-- `account` of the tunnel
abbrev charged : Clock → Str → Str → Str → ℕ → RelayContext → Option Link → RelayContext × Bool
charged k hour conn_id uuid n ctx none = (ctx, false)
charged k hour conn_id uuid n ctx (some current) =
    if not (current.protocol == codes "vmess-ws") || not (is_allowed k current)
    then (ctx, false)
    else let r = spend k ctx.links uuid n in
      (
        record ctx {
          links = r.0;
          connections = add_bytes conn_id n ctx.connections;
          stats = add_traffic hour n ctx.stats;
        },
        r.1,
      )

unfoldable pub account : Clock → Str → Str → Str → ℕ → RelayContext → RelayContext × Bool
account k hour conn_id uuid n ctx = charged k hour conn_id uuid n ctx (get ctx.links uuid)

-- The frames of one direction, up to the first that is refused: the bytes that were passed on.
unfoldable pub relay_all : Clock → Str → Str → Str → List ℕ → RelayContext → RelayContext × ℕ
relay_all k hour conn_id uuid [] ctx = (ctx, 0)
relay_all k hour conn_id uuid (n ∷ ns) ctx =
    let (ctx', ok) = account k hour conn_id uuid n ctx in
    let (ctx'', passed) = relay_all k hour conn_id uuid ns ctx' in
    if ok then (ctx'', n + passed) else (ctx', 0)
