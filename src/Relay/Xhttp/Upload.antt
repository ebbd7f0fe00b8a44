-- ===== src/Relay/Xhttp/Upload.antt =====
-- core/emunel_core/relay/xhttp.py: `packet_up_upload` as a whole, for a body that is read at once, and the
-- adaptive high-water mark of stream-up.
pub mod Caps
pub mod Flow
use emunel.Prelude.{
  ℕ, zero, suc, ◌+◌, ◌*◌, ◌/◌, min, max, Bool, true, false, ◌||◌, ◌&&◌, not, Option, none, some,
  List, [], ◌∷◌, Str, codes, length, leb, ltb, ◌==◌, nat_eq, str_eq, pair_eq, if◌then◌else◌, take,
  drop, is_some,
}
use emunel.Prelude.Float.{Floats}
use emunel.Prelude.Int.{ℤ, pos, negsuc}
use emunel.Prelude.Dict.{put}
use emunel.State.Stats.{add_request}
use emunel.Relay.Gate.{RelayContext, QuotaGate, Moment, new_gate, add, answer, Outcome}
use emunel.Relay.Xhttp.Packets.{Bytes, Uplink, Upstream, Delivery, taken, torn_down, deliver}
use emunel.Relay.Xhttp.Sessions.{
  Key, Session, Engine, Arrival, Opened, opened, refused, get_or_create_session, teardown,
}

abbrev pub max_packet_body : ℕ
max_packet_body = 8 * 1024 * 1024

abbrev pub session_id_max : ℕ
session_id_max = 128

-- [0-9a-fA-F]
is_hex : ℕ → Bool
is_hex c = (leb b'0' c && leb c b'9') || (leb b'a' c && leb c b'f') || (leb b'A' c && leb c b'F')

-- What stands behind `n` hexadecimal digits.
after_hex : ℕ → Str → Option Str
after_hex zero s = some s
after_hex (suc n) [] = none
after_hex (suc n) (c ∷ s) = let rest = after_hex n s in if is_hex c then rest else none

after_dash : ℕ → Option Str → Option Str
after_dash n none = none
after_dash n (some []) = none
after_dash n (some (c ∷ s)) = let rest = after_hex n s in if c == b'-' then rest else none

-- `$` matches at the end, and before a line feed that ends the text.
ends_here : Option Str → Bool
ends_here none = false
ends_here (some []) = true
ends_here (some (c ∷ [])) = c == 10
ends_here (some (c ∷ d ∷ s)) = false

-- `UUID_RE.match(s)`
unfoldable pub is_uuid : Str → Bool
unfolding is_hex after_hex after_dash ends_here
is_uuid s = ends_here (after_dash 12 (after_dash 4 (after_dash 4 (after_dash 4 (after_hex 8 s)))))

-- The place of a packet: `none` for `seq < 0 or seq > 10_000_000`.
abbrev pub place_of : ℤ → Option ℕ
place_of (pos n) = if ltb 10000000 n then none else some n
place_of (negsuc n) = none

module _ (F : Floats) where
  abbrev pub gate_or_new : Moment F → Key → Session (QuotaGate F) → QuotaGate F
  gate_or_new m key s = elim s.gate [ none ↦ new_gate F m key.0 (some s.conn_id) | some g ↦ g ]

  abbrev pub keep_session :
      Key → Session (QuotaGate F) → Engine (QuotaGate F) → Engine (QuotaGate F)
  keep_session key s e = record e { sessions = put e.sessions key s }

  abbrev written :
      Key → Session (QuotaGate F) → Delivery → Engine (QuotaGate F) → Engine (QuotaGate F) × ℕ
  written key s torn_down e = (teardown key e, 502)
  written key s (taken uplink) e = (keep_session key (record s { uplink = uplink }) e, 200)

  -- The packet that the gate lets through.
  unfoldable pub write_packet :
      Upstream
      → Key
      → ℕ
      → Bytes
      → Session (QuotaGate F)
      → Engine (QuotaGate F)
      → Engine (QuotaGate F) × ℕ
  write_packet u key seq body s e =
      written key s (deliver u seq body s.uplink)
        (record e { ctx = record e.ctx { stats = add_request e.ctx.stats } })

  unfoldable pub gate_packet :
      Moment F
      → Upstream
      → Key
      → ℕ
      → Bytes
      → Session (QuotaGate F)
      → Engine (QuotaGate F)
      → Engine (QuotaGate F) × ℕ
  gate_packet m u key seq body s e =
      let (ctx, g, outcome) = add F m (length body) e.ctx (gate_or_new m key s) in
      let s' : Session (QuotaGate F) = record s { gate = some g } in
      let e' = keep_session key s' (record e { ctx = ctx }) in
      if answer F g outcome then write_packet u key seq body s' e' else (teardown key e', 403)

  -- The body is `none` where the client disconnects.
  unfoldable pub take_body :
      Moment F
      → Upstream
      → Key
      → ℕ
      → Option Bytes
      → Session (QuotaGate F)
      → Engine (QuotaGate F)
      → Engine (QuotaGate F) × ℕ
  take_body m u key seq none s e = (e, 200)
  take_body m u key seq (some body) s e =
      if ltb max_packet_body (length body)
      then (teardown key e, 413)
      else if length body == 0
      then (e, 200)
      else gate_packet m u key seq body s e

  abbrev pub in_session :
      Moment F → Upstream → Key → ℕ → Option Bytes → Opened (QuotaGate F) → Engine (QuotaGate F) × ℕ
  in_session m u key seq body (refused status e) = (e, status)
  in_session m u key seq body (opened s e) = take_body m u key seq body s e

  abbrev pub at_place :
      Arrival
      → Moment F
      → Upstream
      → Key
      → Option ℕ
      → Option Bytes
      → Engine (QuotaGate F)
      → Engine (QuotaGate F) × ℕ
  at_place a m u key none body e = (e, 400)
  at_place a m u key (some seq) body e =
      in_session m u key seq body (get_or_create_session key (codes "packet-up") a e)

  -- The engine and the status of the answer.
  unfoldable pub packet_up_upload :
      Arrival
      → Moment F
      → Upstream
      → Key
      → ℤ
      → Option Bytes
      → Engine (QuotaGate F)
      → Engine (QuotaGate F) × ℕ
  packet_up_upload a m u key seq body e =
      if ltb session_id_max (length key.1) || not (is_uuid key.0)
      then (e, 400)
      else at_place a m u key (place_of seq) body e

-- `_AdaptiveFlow`: the high-water mark.
abbrev pub flow_min : ℕ
flow_min = 256 * 1024

abbrev pub flow_max : ℕ
flow_max = 32 * 1024 * 1024

abbrev pub flow_start : ℕ
flow_start = 2 * 1024 * 1024

unfoldable pub should_drain : ℕ → ℕ → Bool
should_drain high_water buf_size = ltb high_water buf_size

-- The mark after a drain that took `elapsed` microseconds.
unfoldable pub after_drain : ℕ → ℕ → ℕ
after_drain elapsed high_water =
    if ltb elapsed 12000
    then min flow_max (high_water * 2 + 65536)
    else if ltb 40000 elapsed
    then max flow_min (high_water / 2)
    else high_water
