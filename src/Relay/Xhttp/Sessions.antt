-- ===== src/Relay/Xhttp/Sessions.antt =====
-- core/emunel_core/relay/xhttp.py: the sessions of `XHttpEngine`. Each of these methods holds the lock or
-- never suspends while it works on the sessions, so each is one step.
pub mod Caps
pub mod Reaper
use emunel.Prelude.{
  ℕ, ◌+◌, ◌-◌, ◌*◌, Bool, true, false, ◌||◌, ◌&&◌, not, Option, none, some, List, [], ◌∷◌, ◌++◌,
  Str, codes, length, leb, ltb, ◌==◌, str_eq, pair_eq, same_pair_iff, ◌≡◌, ◌↔◌, if◌then◌else◌,
  sum_of, elem, map, keep,
}
use emunel.Prelude.Dict.{Dict, get, put, remove}
use emunel.State.Link.{Link}
use emunel.State.Links.{LinkStore}
use emunel.State.Connections.{ConnectionTracker, ip_allowed, register, drop_conn}
use emunel.State.Stats.{RuntimeStats, add_error, prune_hourly}
use emunel.Relay.Gate.{RelayContext}
use emunel.Relay.Xhttp.Packets.{Uplink, new_uplink}

abbrev pub max_sessions_global : ℕ
max_sessions_global = 2048

abbrev pub max_sessions_per_link : ℕ
max_sessions_per_link = 64

-- In seconds.
abbrev pub session_idle_timeout : ℕ
session_idle_timeout = 30

abbrev pub session_idle_timeout_active : ℕ
session_idle_timeout_active = 90

-- A session with gates of type `G`. `tcp_open` is that the uplink has a writer.
pub record Session (G : Type 0) : Type 0 where
  pub mode : Str
  pub last_seen : ℕ
  pub conn_id : Str
  pub gate : Option G
  pub uplink : Uplink

-- A link's uuid and the client's session id.
abbrev pub Key : Type 0
Key = Str × Str

pub same_key_iff : (j k : Key) → ((j == k) ≡ true) ↔ (j ≡ k)
same_key_iff = same_pair_iff

abbrev pub Sessions : Type 0 → Type 0
Sessions G = Dict Key (Session G)

pub record Engine (G : Type 0) : Type 0 where
  pub ctx : RelayContext
  pub sessions : Sessions G

-- What a request brings: the clock's readings, a fresh connection id, and the client's address.
pub record Arrival : Type 0 where
  pub now : ℕ
  pub now_iso : Str
  pub conn_id : Str
  pub ip : Str

-- The session is there, or the request is refused with a status.
pub data Opened (G : Type 0) : Type 0 where
  opened : Session G → Engine G → Opened G
  refused : ℕ → Engine G → Opened G

abbrev pub is_of : {G : Type 0} → Str → Key × Session G → ℕ
is_of uuid p = if p.0.0 == uuid then 1 else 0

-- `_per_link_count`
unfoldable pub per_link_count : {G : Type 0} → Str → Sessions G → ℕ
per_link_count uuid sessions = sum_of (is_of uuid) sessions

-- `link is not None and not ip_allowed(link, ip)`
abbrev pub is_over_ip_limit : Option Link → Str → ConnectionTracker → Bool
is_over_ip_limit none ip conns = false
is_over_ip_limit (some link) ip conns = not (ip_allowed link ip conns)

abbrev pub fresh_session : {G : Type 0} → Str → Arrival → Session G
fresh_session mode a = record {
  mode = mode;
  last_seen = a.now;
  conn_id = a.conn_id;
  gate = none;
  uplink = new_uplink;
}

unfoldable pub start_session : {G : Type 0} → Key → Str → Arrival → Engine G → Opened G
start_session key mode a e = opened (fresh_session mode a) (record e {
  ctx = record e.ctx {
    connections =
        register a.now_iso a.conn_id key.0 a.ip (codes "xhttp-" ++ mode) e.ctx.connections;
  };
  sessions = put e.sessions key (fresh_session mode a);
})

create_session : {G : Type 0} → Key → Str → Arrival → Engine G → Opened G
create_session key mode a e =
    if leb max_sessions_global (length e.sessions)
      || leb max_sessions_per_link (per_link_count key.0 e.sessions)
    then refused 429 e
    else if is_over_ip_limit (get e.ctx.links key.0) a.ip e.ctx.connections
    then refused 403 (record e {
      ctx = record e.ctx { stats = add_error (codes "ip limit reached") a.now_iso e.ctx.stats };
    })
    else start_session key mode a e

abbrev found_or_new : {G : Type 0} → Option (Session G) → Key → Str → Arrival → Engine G → Opened G
found_or_new none key mode a e = create_session key mode a e
found_or_new (some s) key mode a e =
    let seen : Session _ = record s { last_seen = a.now } in
    opened seen (record e { sessions = put e.sessions key seen })

unfoldable pub get_or_create_session : {G : Type 0} → Key → Str → Arrival → Engine G → Opened G
unfolding create_session
get_or_create_session key mode a e = found_or_new (get e.sessions key) key mode a e

abbrev close_session : {G : Type 0} → Option (Session G) → Key → Engine G → Engine G
close_session none key e = e
close_session (some s) key e = record e {
  ctx = record e.ctx { connections = drop_conn s.conn_id e.ctx.connections };
  sessions = remove e.sessions key;
}

unfoldable pub teardown : {G : Type 0} → Key → Engine G → Engine G
teardown key e = close_session (get e.sessions key) key e

-- `idle > limit` of `_reaper`
abbrev pub is_stale : {G : Type 0} → ℕ → Session G → Bool
is_stale now s =
    ltb (if s.uplink.is_open then session_idle_timeout_active else session_idle_timeout)
      (now - s.last_seen)

unfoldable pub stale_keys : {G : Type 0} → ℕ → Sessions G → List Key
stale_keys now sessions = map (λ p. p.0) (keep (λ p. is_stale now p.1) sessions)

unfoldable pub teardown_all : {G : Type 0} → List Key → Engine G → Engine G
teardown_all [] e = e
teardown_all (key ∷ keys) e = teardown_all keys (teardown key e)

-- One round of `_reaper`, with no other call between its teardowns. `cutoff` is the text of the hour 48
-- hours ago.
unfoldable pub reap : {G : Type 0} → ℕ → Str → Engine G → Engine G
reap now cutoff e =
    let e' = teardown_all (stale_keys now e.sessions) e in
    record e' { ctx = record e'.ctx { stats = prune_hourly cutoff 48 e'.ctx.stats } }
