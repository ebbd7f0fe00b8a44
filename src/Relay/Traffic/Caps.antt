-- ===== src/Relay/Traffic/Caps.antt =====
-- core/emunel_core/relay/base.py: the instance's cap, over the traffic of all connections with a gate.
use emunel.Prelude.{ℕ, ◌+◌, ◌≤◌, ◌<◌, ◌≡◌, List, arith, All}
use emunel.Prelude.Float.{Floats}
use emunel.State.Stats.{add_request}
use emunel.Relay.Gate.{RelayContext, QuotaGate, Moment, quota_max_batch, add, flush, cap_reached}
use emunel.Relay.Gate.Laws.{IsSized, account-total, account-cap}
use emunel.Relay.Traffic.{Traffic, Event, FitsFrame, run}
use emunel.Relay.Traffic.Induction.{Keeps, requested_on, run-Keeps}

-- The total is less than the cap plus one full batch and one chunk.
abbrev pub BelowCap : ℕ → ℕ → RelayContext → Type 0
BelowCap cap frame ctx =
    (ctx.stats.instance_cap_bytes ≡ cap) × (ctx.stats.total_bytes < cap + quota_max_batch + frame)

module _ (F : Floats) (cap frame : ℕ) (limited : 0 < cap) where
  add-BelowCap :
      (m : Moment F) (n : ℕ) (ctx : RelayContext) (g : QuotaGate F)
      → n ≤ frame
      → IsSized F g
      → BelowCap cap frame ctx
      → BelowCap cap frame (add F m n ctx g).0
  unfolding add cap_reached
  add-BelowCap m n ctx g small v b = ground (
    arith,
    v.open_batch,
    v.most,
    account-total m.clock m.hour g.conn_id g.uuid (g.pending + n) ctx,
    account-cap m.clock m.hour g.conn_id g.uuid (g.pending + n) ctx,
  )

  flush-BelowCap :
      (m : Moment F) (ctx : RelayContext) (g : QuotaGate F)
      → IsSized F g
      → BelowCap cap frame ctx
      → BelowCap cap frame (flush F m ctx g).0
  unfolding flush cap_reached
  flush-BelowCap m ctx g v b = ground (
    arith,
    v.open_batch,
    v.most,
    account-total m.clock m.hour g.conn_id g.uuid g.pending ctx,
    account-cap m.clock m.hour g.conn_id g.uuid g.pending ctx,
  )

  request-BelowCap :
      (ctx : RelayContext) → BelowCap cap frame ctx → BelowCap cap frame (requested_on ctx)
  unfolding add_request
  request-BelowCap ctx b = b

  -- With an instance cap set and no chunk of more than `frame` bytes, the accounted lifetime total
  -- stays below the cap plus one full batch and one chunk, for any number of connections with a gate
  -- and any interleaving of their chunks and flushes; the cap stays as it was set.
  pub run-BelowCap :
      (t : Traffic F) (es : List (Event F))
      → All (FitsFrame F frame) es
      → Keeps F (BelowCap cap frame) t
      → Keeps F (BelowCap cap frame) (run F t es)
  run-BelowCap = run-Keeps F (BelowCap cap frame) frame add-BelowCap flush-BelowCap request-BelowCap
