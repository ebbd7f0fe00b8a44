-- ===== src/Relay/Xhttp/Upload/Caps.antt =====
-- core/emunel_core/relay/xhttp.py: the number of sessions over the engine's calls.
use emunel.Prelude.{
  ℕ, ◌≡◌, Option, none, some, List, [], ◌∷◌, Str, length, str_eq, pair_eq, arith, inl, inr, codes,
  Bool-cases,
}
use emunel.Prelude.Float.{Floats}
use emunel.Prelude.Int.{ℤ}
use emunel.Prelude.Dict.{get, get-put}
use emunel.Relay.Gate.{QuotaGate, Moment, add, answer}
use emunel.Relay.Xhttp.Packets.{Bytes, Upstream, Delivery-cases, deliver}
use emunel.Relay.Xhttp.Sessions.{
  Key, same_key_iff, Session, Engine, Arrival, Opened, opened, refused, get_or_create_session,
  teardown, reap,
}
use emunel.Relay.Xhttp.Sessions.Caps.{
  IsCapped, StaysCapped, put-IsCapped, get_or_create_session-IsCapped, teardown-IsCapped,
  reap-IsCapped,
}
use emunel.Relay.Xhttp.Upload.{
  gate_or_new, keep_session, write_packet, gate_packet, take_body, packet_up_upload, place_of,
  in_session, at_place,
}

module _ (F : Floats) (uuid : Str) where
  write_packet-IsCapped :
      (u : Upstream) (key : Key) (seq : ℕ) (body : Bytes) (s : Session (QuotaGate F))
      (e : Engine (QuotaGate F))
      → get e.sessions key ≡ some s
      → IsCapped uuid e.sessions
      → IsCapped uuid (write_packet F u key seq body s e).0.sessions
  unfolding write_packet
  write_packet-IsCapped u key seq body s e old v =
      elim (Delivery-cases (deliver u seq body s.uplink)) [
        | inl (t, d) ↦ rw d (put-IsCapped uuid e.sessions key (record s { uplink = t }) s old v)
        | inr d ↦ rw d (teardown-IsCapped uuid key _ v)
      ]

  gate_packet-IsCapped :
      (m : Moment F) (u : Upstream) (key : Key) (seq : ℕ) (body : Bytes) (s : Session (QuotaGate F))
      (e : Engine (QuotaGate F))
      → get e.sessions key ≡ some s
      → IsCapped uuid e.sessions
      → IsCapped uuid (gate_packet F m u key seq body s e).0.sessions
  unfolding gate_packet
  gate_packet-IsCapped m u key seq body s e old v =
      let (ctx, g, outcome) = add F m (length body) e.ctx (gate_or_new F m key s) in
      let s' : Session (QuotaGate F) = record s { gate = some g } in
      let e' = keep_session F key s' (record e { ctx = ctx }) in
      let v' = put-IsCapped uuid e.sessions key s' s old v in
      let filed : get e'.sessions key ≡ some s' =
        ground (arith, get-put e.sessions key key s', same_key_iff key key) in
      elim (Bool-cases (answer F g outcome)) [
        | inl yes_ ↦ rw yes_ (write_packet-IsCapped u key seq body s' e' filed v')
        | inr no_ ↦ rw no_ (teardown-IsCapped uuid key e' v')
      ]

  take_body-IsCapped :
      (m : Moment F) (u : Upstream) (key : Key) (seq : ℕ) (body : Option Bytes)
      (s : Session (QuotaGate F)) (e : Engine (QuotaGate F))
      → get e.sessions key ≡ some s
      → IsCapped uuid e.sessions
      → IsCapped uuid (take_body F m u key seq body s e).0.sessions
  unfolding take_body
  take_body-IsCapped m u key seq none s e old v = v
  take_body-IsCapped m u key seq (some body) s e old v =
      ground
        (arith, teardown-IsCapped uuid key e v, gate_packet-IsCapped m u key seq body s e old v)

  in_session-IsCapped :
      (m : Moment F) (u : Upstream) (key : Key) (seq : ℕ) (body : Option Bytes)
      (o : Opened (QuotaGate F))
      → StaysCapped uuid key o
      → IsCapped uuid (in_session F m u key seq body o).0.sessions
  in_session-IsCapped m u key seq body (refused status e) v = v
  in_session-IsCapped m u key seq body (opened s e) (v, old) =
      take_body-IsCapped m u key seq body s e old v

  at_place-IsCapped :
      (a : Arrival) (m : Moment F) (u : Upstream) (key : Key) (seq : Option ℕ) (body : Option Bytes)
      (e : Engine (QuotaGate F))
      → IsCapped uuid e.sessions
      → IsCapped uuid (at_place F a m u key seq body e).0.sessions
  at_place-IsCapped a m u key none body e v = v
  at_place-IsCapped a m u key (some seq) body e v =
      in_session-IsCapped m u key seq body (get_or_create_session key (codes "packet-up") a e)
        (get_or_create_session-IsCapped uuid key (codes "packet-up") a e v)

  packet_up_upload-IsCapped :
      (a : Arrival) (m : Moment F) (u : Upstream) (key : Key) (seq : ℤ) (body : Option Bytes)
      (e : Engine (QuotaGate F))
      → IsCapped uuid e.sessions
      → IsCapped uuid (packet_up_upload F a m u key seq body e).0.sessions
  unfolding packet_up_upload
  packet_up_upload-IsCapped a m u key seq body e v =
      ground (arith, v, at_place-IsCapped a m u key (place_of seq) body e v)

-- What happens to the engine.
module _ (F : Floats) where
  pub data Event : Type 0 where
    packet : Arrival → Moment F → Upstream → Key → ℤ → Option Bytes → Event
    opens : Str → Key → Arrival → Event
    closes : Key → Event
    reaps : ℕ → Str → Event

  abbrev engine_of : Opened (QuotaGate F) → Engine (QuotaGate F)
  engine_of (opened s e) = e
  engine_of (refused status e) = e

  unfoldable pub happen : Event → Engine (QuotaGate F) → Engine (QuotaGate F)
  happen (packet a m u key seq body) e = (packet_up_upload F a m u key seq body e).0
  happen (opens mode key a) e = engine_of (get_or_create_session key mode a e)
  happen (closes key) e = teardown key e
  happen (reaps now cutoff) e = reap now cutoff e

  unfoldable pub happen_all : List Event → Engine (QuotaGate F) → Engine (QuotaGate F)
  happen_all [] e = e
  happen_all (x ∷ xs) e = happen_all xs (happen x e)

  StaysCapped-engine_of :
      (uuid : Str) (key : Key) (o : Opened (QuotaGate F))
      → StaysCapped uuid key o
      → IsCapped uuid (engine_of o).sessions
  StaysCapped-engine_of uuid key (opened s e) v = v.0
  StaysCapped-engine_of uuid key (refused status e) v = v

  happen-IsCapped :
      (uuid : Str) (x : Event) (e : Engine (QuotaGate F))
      → IsCapped uuid e.sessions
      → IsCapped uuid (happen x e).sessions
  unfolding happen
  happen-IsCapped uuid (packet a m u key seq body) e v =
      packet_up_upload-IsCapped F uuid a m u key seq body e v
  happen-IsCapped uuid (opens mode key a) e v =
      StaysCapped-engine_of uuid key (get_or_create_session key mode a e)
        (get_or_create_session-IsCapped uuid key mode a e v)
  happen-IsCapped uuid (closes key) e v = teardown-IsCapped uuid key e v
  happen-IsCapped uuid (reaps now cutoff) e v = reap-IsCapped uuid now cutoff e v

  -- Whatever packets, downloads, teardowns and rounds of the reaper come, an engine never has more than
  -- 2048 sessions, nor more than 64 of one link, if it had no more at first.
  pub happen_all-IsCapped :
      (uuid : Str) (xs : List Event) (e : Engine (QuotaGate F))
      → IsCapped uuid e.sessions
      → IsCapped uuid (happen_all xs e).sessions
  unfolding happen_all
  happen_all-IsCapped uuid [] e v = v
  happen_all-IsCapped uuid (x ∷ xs) e v =
      happen_all-IsCapped uuid xs (happen x e) (happen-IsCapped uuid x e v)
