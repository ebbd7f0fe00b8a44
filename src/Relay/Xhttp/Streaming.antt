-- ===== src/Relay/Xhttp/Streaming.antt =====
-- core/emunel_core/relay/xhttp.py: `stream_up_upload`. What the client sends and how each write to the upstream
-- ends is a script; what other requests do in between, the upstream of the session, its flow control and the time
-- of its last chunk are left out, and so is the cancellation of the request, which passes by the `gate.flush`.
pub mod Settled
use emunel.Prelude.{
  ℕ, zero, suc, ◌+◌, ◌*◌, Bool, true, false, ◌||◌, not, Option, none, some, List, [], ◌∷◌, codes,
  length, ltb, ◌==◌, nat_eq, pair_eq, str_eq, if◌then◌else◌,
}
use emunel.Prelude.Float.{Floats}
use emunel.State.Stats.{add_request}
use emunel.Relay.Gate.{RelayContext, QuotaGate, Moment, add, flush, answer}
use emunel.Relay.Xhttp.Packets.{Bytes}
use emunel.Relay.Xhttp.Sessions.{
  Key, Session, Engine, Arrival, Opened, opened, refused, get_or_create_session, teardown,
}
use emunel.Relay.Xhttp.Upload.{session_id_max, is_uuid, gate_or_new, keep_session}

abbrev pub max_stream_chunk : ℕ
max_stream_chunk = 2 * 1024 * 1024

-- How the write of a chunk ends, or the connection that the first chunk opens.
pub data Went : Type 0 where
  well not_authorized badly : Went

-- How the request ends: its body ends, the client disconnects, or there is another exception.
pub data Ending : Type 0 where
  complete disconnects breaks : Ending

-- How the loop ends.
pub data Exit : Type 0 where
  finished disconnected failed : Exit
  http : ℕ → Exit

abbrev pub exit_of : Ending → Exit
exit_of complete = finished
exit_of disconnects = disconnected
exit_of breaks = failed

abbrev pub status_of : Exit → ℕ
status_of finished = 200
status_of disconnected = 200
status_of failed = 502
status_of (http status) = status

module _ (F : Floats) where
  pub record Chunk : Type 0 where
    pub moment : Moment F
    pub body : Bytes
    pub went : Went

  pub record Stream : Type 0 where
    pub ctx : RelayContext
    pub gate : QuotaGate F

  -- `gate.add`, and the request that is counted where it succeeds
  unfoldable pub gate_chunk : Chunk → Stream → Stream × Bool
  gate_chunk c s =
      let (ctx, g, outcome) = add F c.moment (length c.body) s.ctx s.gate in
      if answer F g outcome
      then (record { ctx = record ctx { stats = add_request ctx.stats }; gate = g }, true)
      else (record { ctx = ctx; gate = g }, false)

  -- The rest of the loop where the write went well, or the way out of it
  abbrev pub after_write : Went → Stream × Exit → Stream → Stream × Exit
  after_write well rest s = rest
  after_write not_authorized rest s = (s, http 403)
  after_write badly rest s = (s, failed)

  -- The loop over the chunks
  unfoldable pub stream_chunks : List Chunk → Ending → Stream → Stream × Exit
  stream_chunks [] ending s = (s, exit_of ending)
  stream_chunks (c ∷ chunks) ending s =
      let skipped = stream_chunks chunks ending s in
      let s' = (gate_chunk c s).0 in
      let rest = stream_chunks chunks ending s' in
      if length c.body == 0
      then skipped
      else if ltb max_stream_chunk (length c.body)
      then (s, http 413)
      else if not (gate_chunk c s).1
      then (s', http 403)
      else after_write c.went rest s'

  -- The loop, and the `gate.flush` that stands on every way out of it
  unfoldable pub stream_body : List Chunk → Ending → Moment F → Stream → Stream × Exit
  stream_body chunks ending last s =
      let (s', exit) = stream_chunks chunks ending s in
      let (ctx, g) = flush F last s'.ctx s'.gate in (record { ctx = ctx; gate = g }, exit)

  -- Only a body that ends leaves the session.
  abbrev pub closed_by :
      Key → Session (QuotaGate F) → Engine (QuotaGate F) → Stream × Exit → Engine (QuotaGate F) × ℕ
  closed_by key session e (s, finished) =
      (keep_session F key (record session { gate = some s.gate }) (record e { ctx = s.ctx }), 200)
  closed_by key session e (s, exit) = (teardown key (record e { ctx = s.ctx }), status_of exit)

  abbrev pub in_stream :
      Moment F
      → Moment F
      → Key
      → List Chunk
      → Ending
      → Opened (QuotaGate F)
      → Engine (QuotaGate F) × ℕ
  in_stream first last key chunks ending (refused status e) = (e, status)
  in_stream first last key chunks ending (opened session e) =
      let g = gate_or_new F first key session in
      closed_by key session e (stream_body chunks ending last (record { ctx = e.ctx; gate = g }))

  unfoldable pub stream_up_upload :
      Arrival
      → Moment F
      → Moment F
      → Key
      → List Chunk
      → Ending
      → Engine (QuotaGate F)
      → Engine (QuotaGate F) × ℕ
  stream_up_upload a first last key chunks ending e =
      if ltb session_id_max (length key.1) || not (is_uuid key.0)
      then (e, 400)
      else in_stream first last key chunks ending
          (get_or_create_session key (codes "stream-up") a e)
