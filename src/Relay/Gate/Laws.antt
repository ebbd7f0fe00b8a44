-- ===== src/Relay/Gate/Laws.antt =====
-- core/emunel_core/relay/base.py: one call of `QuotaGate.add` or `QuotaGate.flush`.
use emunel.Prelude.{
  ℕ, ◌+◌, ◌≤◌, ◌<◌, ◌≡◌, refl, Bool, true, false, Option, Str, arith, if◌then◌else◌,
}
use emunel.Prelude.Float.{Floats}
use emunel.State.Stats.{add_traffic}
use emunel.State.Link.{Clock}
use emunel.State.Links.{spend}
use emunel.Relay.Gate.{
  RelayContext, QuotaGate, Moment, Outcome, denied, quota_min_batch, quota_max_batch, clamp_batch,
  adapt, blend, account, cap_reached, new_gate, add, flush, answer, hit_cap,
}

module _ (F : Floats) where
  -- The batch size is within its bounds, and what is pending does not fill a batch.
  pub record IsSized (g : QuotaGate F) : Type 0 where
    pub least : quota_min_batch ≤ g.batch_bytes
    pub most : g.batch_bytes ≤ quota_max_batch
    pub open_batch : g.pending < g.batch_bytes

  clamp_batch_bounds :
      (t : ℕ) → (quota_min_batch ≤ clamp_batch F t) × (clamp_batch F t ≤ quota_max_batch)
  unfolding clamp_batch
  clamp_batch_bounds t = ground arith

  pub new_gate-IsSized : (m : Moment F) (u : Str) (c : Option Str) → IsSized (new_gate F m u c)
  unfolding new_gate
  new_gate-IsSized m u c = ground arith

  adapt-IsSized :
      (elapsed : F.Float) (n : ℕ) (g : QuotaGate F)
      → g.pending ≡ 0
      → IsSized g
      → IsSized (adapt F elapsed n g) × ((adapt F elapsed n g).pending ≡ 0)
  unfolding adapt
  adapt-IsSized elapsed n g e v = ground (
    arith,
    clamp_batch_bounds
        (F.trunc (F.mul (blend F g.rate_ewma (F.div (F.of_nat n) elapsed)) (F.literal 25 100))),
  )

  -- Every call keeps the batch size between its bounds and less than a batch pending, whatever the
  -- floats do.
  pub add-IsSized :
      (m : Moment F) (n : ℕ) (ctx : RelayContext) (g : QuotaGate F)
      → IsSized g
      → IsSized (add F m n ctx g).1
  unfolding add
  add-IsSized m n ctx g v = ground (
    arith,
    adapt-IsSized (F.sub m.monotonic g.last_check) (g.pending + n) (record g { pending = 0 }) refl
        (record { least = v.least; most = v.most; open_batch = omega arith }),
  )

  pub flush-IsSized :
      (m : Moment F) (ctx : RelayContext) (g : QuotaGate F)
      → IsSized g
      → IsSized (flush F m ctx g).1
  unfolding flush
  flush-IsSized m ctx g v = ground arith

module _ (k : Clock) (hour : Str) (conn_id : Option Str) (u : Str) (n : ℕ)
    (ctx : RelayContext) where
  -- An accounted batch adds to the total, unless the instance's cap is reached.
  pub account-total :
      (account k hour conn_id u n ctx).0.stats.total_bytes
      ≡ (if cap_reached ctx.stats then ctx.stats.total_bytes else ctx.stats.total_bytes + n)
  unfolding account add_traffic
  account-total = ground arith

  pub account-cap :
      (account k hour conn_id u n ctx).0.stats.instance_cap_bytes ≡ ctx.stats.instance_cap_bytes
  unfolding account add_traffic
  account-cap = ground arith

  -- The batch goes through to the link's counter, unless the cap is reached.
  pub account-links :
      (account k hour conn_id u n ctx).0.links
      ≡ (if cap_reached ctx.stats then ctx.links else (spend k ctx.links u n).0)
  unfolding account
  account-links = ground arith

abbrev pub is_denied : Outcome → Bool
is_denied denied = true
is_denied _ = false

module _ (F : Floats) (m : Moment F) where
  adapt-pending :
      (elapsed : F.Float) (n : ℕ) (g : QuotaGate F)
      → ((adapt F elapsed n g).pending ≡ g.pending) × ((adapt F elapsed n g).ok ≡ g.ok)
  unfolding adapt
  adapt-pending elapsed n g = ground arith

  -- No byte is lost or counted twice: what a call of `add` lets through is in the instance's total or
  -- still pending in the gate. A refused chunk is in neither.
  pub add-conserves :
      (n : ℕ) (ctx : RelayContext) (g : QuotaGate F)
      → (add F m n ctx g).0.stats.total_bytes + (add F m n ctx g).1.pending
        ≡ ctx.stats.total_bytes + g.pending + (if is_denied (add F m n ctx g).2 then 0 else n)
  unfolding add
  add-conserves n ctx g = ground (
    arith,
    account-total m.clock m.hour g.conn_id g.uuid (g.pending + n) ctx,
    adapt-pending (F.sub m.monotonic g.last_check) (g.pending + n) (record g { pending = 0 }),
  )

  -- A gate that has refused refuses for good: no later `add` or `flush` lets a chunk through or
  -- accounts anything.
  pub closed_stays_closed :
      (n : ℕ) (ctx : RelayContext) (g : QuotaGate F)
      → g.ok ≡ false
      → (answer F (add F m n ctx g).1 (add F m n ctx g).2 ≡ false)
        × ((add F m n ctx g).0 ≡ ctx)
        × ((add F m n ctx g).1.ok ≡ false)
        × ((flush F m ctx g).0 ≡ ctx)
        × ((flush F m ctx g).1.ok ≡ false)
  unfolding add answer flush
  closed_stays_closed n ctx g h = ground arith

module _ {ℓ} (F : Floats) (P : RelayContext → Type ℓ) (m : Moment F) (ctx : RelayContext)
    (g : QuotaGate F) where
  -- `add` leaves the context alone, counts a hit of the cap, or accounts the batch.
  pub add_cases :
      (n : ℕ)
      → P ctx
      → P (hit_cap ctx)
      → P (account m.clock m.hour g.conn_id g.uuid (g.pending + n) ctx).0
      → P (add F m n ctx g).0
  unfolding add
  add_cases n same hit counted_ = ground arith

  -- `flush` leaves the context alone or accounts what is pending.
  pub flush_cases :
      P ctx → P (account m.clock m.hour g.conn_id g.uuid g.pending ctx).0 → P (flush F m ctx g).0
  unfolding flush
  flush_cases same counted_ = ground arith
