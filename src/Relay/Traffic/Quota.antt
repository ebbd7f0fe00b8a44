-- ===== src/Relay/Traffic/Quota.antt =====
-- core/emunel_core/relay/base.py: the quota of a link, over the traffic of all connections with a gate.
use emunel.Prelude.{ℕ, ◌+◌, ◌≤◌, Option, List, Str, arith, All, inl, inr, Bool-cases}
use emunel.Prelude.Int.{ℤ, pos, ◌<ℤ◌}
use emunel.Prelude.Float.{Floats}
use emunel.State.Link.{Clock}
use emunel.State.Links.Quota.{HoldsQuota, spend-HoldsQuota}
use emunel.Relay.Gate.{
  RelayContext, QuotaGate, Moment, quota_max_batch, add, flush, account, cap_reached,
}
use emunel.Relay.Gate.Laws.{IsSized, account-links, add_cases, flush_cases}
use emunel.Relay.Traffic.{Traffic, Event, FitsFrame, run}
use emunel.Relay.Traffic.Induction.{Keeps, requested_on, run-Keeps}

-- The quota of `u` holds with one full batch and one chunk to spare.
abbrev pub Metered : Str → ℤ → ℕ → RelayContext → Type 0
Metered u limit frame ctx = HoldsQuota u limit (quota_max_batch + frame) ctx.links

module _ (u : Str) (limit : ℤ) (frame : ℕ) (limited : pos 0 <ℤ limit) where
  account-Metered :
      (k : Clock) (hour : Str) (c : Option Str) (v : Str) (n : ℕ) (ctx : RelayContext)
      → n ≤ quota_max_batch + frame
      → Metered u limit frame ctx
      → Metered u limit frame (account k hour c v n ctx).0
  account-Metered k hour c v n ctx small h = elim (Bool-cases (cap_reached ctx.stats)) [
    | inl e ↦ rw (account-links k hour c v n ctx, e) h
    | inr e ↦
        rw (account-links k hour c v n ctx, e)
          (spend-HoldsQuota k ctx.links u v limit n _ limited small h)
  ]

  module _ (F : Floats) where
    in_batch :
        (n : ℕ) (g : QuotaGate F)
        → n ≤ frame
        → IsSized F g
        → g.pending + n ≤ quota_max_batch + frame
    in_batch n g small v = omega (arith, v.open_batch, v.most)

    pending_in_batch : (g : QuotaGate F) → IsSized F g → g.pending ≤ quota_max_batch + frame
    pending_in_batch g v = omega (arith, v.open_batch, v.most)

    add-Metered :
        (m : Moment F) (n : ℕ) (ctx : RelayContext) (g : QuotaGate F)
        → n ≤ frame
        → IsSized F g
        → Metered u limit frame ctx
        → Metered u limit frame (add F m n ctx g).0
    add-Metered m n ctx g small v h = add_cases F (Metered u limit frame) m ctx g n h h (
        account-Metered m.clock m.hour g.conn_id g.uuid (g.pending + n) ctx (in_batch n g small v)
          h)

    flush-Metered :
        (m : Moment F) (ctx : RelayContext) (g : QuotaGate F)
        → IsSized F g
        → Metered u limit frame ctx
        → Metered u limit frame (flush F m ctx g).0
    flush-Metered m ctx g v h =
        flush_cases F (Metered u limit frame) m ctx g h
          (account-Metered m.clock m.hour g.conn_id g.uuid g.pending ctx (pending_in_batch g v) h)

    request-Metered :
        (ctx : RelayContext) → Metered u limit frame ctx → Metered u limit frame (requested_on ctx)
    request-Metered ctx h = h

    -- A link with a positive limit keeps that limit, and its counter stays below the limit plus one
    -- full batch and one chunk, for any number of connections of this and other links with a gate and
    -- any interleaving of their chunks and flushes, if no chunk has more than `frame` bytes.
    pub run-Metered :
        (t : Traffic F) (es : List (Event F))
        → All (FitsFrame F frame) es
        → Keeps F (Metered u limit frame) t
        → Keeps F (Metered u limit frame) (run F t es)
    run-Metered =
        run-Keeps F (Metered u limit frame) frame add-Metered flush-Metered request-Metered
