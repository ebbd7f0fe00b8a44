-- ===== src/Relay/Gate.antt =====
-- core/emunel_core/relay/base.py: `RelayContext` and `QuotaGate`.
-- `_account` never suspends (the lock of the link store is never held across a wait), so `add` is one
-- step up to its throttle, and `answer` is what it returns when the throttle is over.
pub mod Laws
use emunel.Prelude.{
  ℕ, ◌+◌, ◌*◌, [], Bool, true, false, ◌&&◌, ◌||◌, not, Option, none, some, Str, leb, ltb, ◌==◌,
  nat_eq, str_eq, min, max, if◌then◌else◌,
}
use emunel.Prelude.Float.{Floats}
use emunel.Prelude.Dict.{get}
use emunel.State.Link.{Link, Clock}
use emunel.State.Links.{LinkStore, spend}
use emunel.State.Connections.{ConnectionTracker, add_bytes}
use emunel.State.Stats.{RuntimeStats, add_traffic}

abbrev pub quota_min_batch : ℕ
quota_min_batch = 32 * 1024

abbrev pub quota_max_batch : ℕ
quota_max_batch = 2 * 1024 * 1024

abbrev pub quota_start_batch : ℕ
quota_start_batch = 128 * 1024

-- `speed` says whether there is a limiter.
pub record RelayContext : Type 0 where
  pub links : LinkStore
  pub connections : ConnectionTracker
  pub stats : RuntimeStats
  pub speed : Bool

-- `cap > 0 and total_bytes >= cap`
unfoldable pub cap_reached : RuntimeStats → Bool
cap_reached s = ltb 0 s.instance_cap_bytes && leb s.instance_cap_bytes s.total_bytes

abbrev pub hit_cap : RelayContext → RelayContext
hit_cap ctx = record ctx {
  stats = record ctx.stats { instance_cap_hits = ctx.stats.instance_cap_hits + 1 };
}

-- `if self.conn_id: connections.add_bytes(...)`
abbrev pub count_conn : Option Str → ℕ → ConnectionTracker → ConnectionTracker
count_conn none n conns = conns
count_conn (some i) n conns = if i == [] then conns else add_bytes i n conns

charged : Clock → Str → Option Str → Str → ℕ → RelayContext → RelayContext × Bool
charged k hour conn_id uuid n ctx =
    let r = spend k ctx.links uuid n in
    (
      record ctx {
        links = r.0;
        connections = count_conn conn_id n ctx.connections;
        stats = add_traffic hour n ctx.stats;
      },
      r.1,
    )

-- `_account`
unfoldable pub account : Clock → Str → Option Str → Str → ℕ → RelayContext → RelayContext × Bool
unfolding charged
account k hour conn_id uuid n ctx =
    if cap_reached ctx.stats then (hit_cap ctx, false) else charged k hour conn_id uuid n ctx

abbrev rate_of : Option Link → ℕ
rate_of none = 0
rate_of (some l) = l.speed_limit_bytes

-- `_throttle`: the rate and the bytes that go to the limiter, if any do
unfoldable pub throttle : RelayContext → Str → ℕ → Option (ℕ × ℕ)
throttle ctx uuid n =
    if not ctx.speed || leb n 0
    then none
    else if leb (rate_of (get ctx.links uuid)) 0
    then none
    else some (rate_of (get ctx.links uuid), n)

-- What `add` does next: it returns `False`, or it throttles after an accounted batch or without one.
pub data Outcome : Type 0 where
  denied : Outcome
  counted batched : Option (ℕ × ℕ) → Outcome

module _ (F : Floats) where
  open F use {Float}

  pub record QuotaGate : Type 0 where
    pub uuid : Str
    pub conn_id : Option Str
    pub pending : ℕ
    pub last_check : Float
    pub ok : Bool
    pub batch_bytes : ℕ
    pub rate_ewma : Float

  -- The readings of the clocks at one call.
  pub record Moment : Type 0 where
    pub clock : Clock
    pub hour : Str
    pub monotonic : Float

  unfoldable pub new_gate : Moment → Str → Option Str → QuotaGate
  new_gate m uuid conn_id = record {
    uuid = uuid;
    conn_id = conn_id;
    pending = 0;
    last_check = m.monotonic;
    ok = true;
    batch_bytes = quota_start_batch;
    rate_ewma = F.of_nat 0;
  }

  -- `max(MIN, min(MAX, target or MIN))`
  unfoldable pub clamp_batch : ℕ → ℕ
  clamp_batch target =
      max quota_min_batch (min quota_max_batch (if target == 0 then quota_min_batch else target))

  -- `rate` when the average is 0, and 0.7 of the average plus 0.3 of `rate` otherwise
  unfoldable pub blend : Float → Float → Float
  blend ewma rate =
      if F.eqb ewma (F.of_nat 0)
      then rate
      else F.add (F.mul (F.literal 7 10) ewma) (F.mul (F.literal 3 10) rate)

  -- QUOTA_CHECK_INTERVAL
  abbrev pub interval : Float
  interval = F.literal 25 100

  -- The new batch size after `flush` bytes in `elapsed` seconds.
  unfoldable pub adapt : Float → ℕ → QuotaGate → QuotaGate
  unfolding clamp_batch blend
  adapt elapsed flush g =
      let ewma = blend g.rate_ewma (F.div (F.of_nat flush) elapsed) in
      if F.ltb (F.of_nat 0) elapsed
      then record g { rate_ewma = ewma; batch_bytes = clamp_batch (F.trunc (F.mul ewma interval)) }
      else g

  -- The batch of `add`: the gate is reset before the bytes are accounted.
  flush_batch : Moment → Float → ℕ → RelayContext → QuotaGate → RelayContext × QuotaGate × Outcome
  flush_batch m elapsed n ctx g =
      let g' = adapt elapsed g.pending (record g { pending = 0 }) in
      let (ctx', ok') = account m.clock m.hour g.conn_id g.uuid g.pending ctx in
      (
        ctx',
        record g' { last_check = m.monotonic; ok = ok' },
        counted (if ok' then throttle ctx' g.uuid n else none),
      )

  admit : Moment → ℕ → RelayContext → QuotaGate → RelayContext × QuotaGate × Outcome
  unfolding flush_batch
  admit m n ctx g =
      let g' : QuotaGate = record g { pending = g.pending + n } in
      let elapsed = F.sub m.monotonic g.last_check in
      if leb g.batch_bytes g'.pending || F.leb interval elapsed
      then flush_batch m elapsed n ctx g'
      else (ctx, g', batched (throttle ctx g.uuid n))

  unfoldable pub add : Moment → ℕ → RelayContext → QuotaGate → RelayContext × QuotaGate × Outcome
  unfolding admit
  add m n ctx g =
      if not g.ok
      then (ctx, g, denied)
      else if cap_reached ctx.stats
      then (hit_cap ctx, record g { ok = false }, denied)
      else admit m n ctx g

  -- What `add` returns, read after the throttle.
  unfoldable pub answer : QuotaGate → Outcome → Bool
  answer g denied = false
  answer g (counted pace) = g.ok
  answer g (batched pace) = true

  flush_pending : Moment → RelayContext → QuotaGate → RelayContext × QuotaGate
  flush_pending m ctx g =
      let (ctx', ok') = account m.clock m.hour g.conn_id g.uuid g.pending ctx in
      if g.ok then (ctx', record g { pending = 0; ok = ok' }) else (ctx, record g { pending = 0 })

  unfoldable pub flush : Moment → RelayContext → QuotaGate → RelayContext × QuotaGate
  unfolding flush_pending
  flush m ctx g = if g.pending == 0 then (ctx, g) else flush_pending m ctx g
