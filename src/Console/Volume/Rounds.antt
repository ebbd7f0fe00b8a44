-- ===== src/Console/Volume/Rounds.antt =====
-- console/api/emunel_console/services/volume.py: one round of `enforce_all` for an instance that it can reach.
use emunel.Prelude.{ℕ, ◌+◌, ◌-◌, ◌≤◌, ◌<◌, ◌≡◌, refl, Bool, true, false, arith, ltb, nat_eq}
use emunel.State.Stats.{RuntimeStats}
use emunel.Api.Quota.{quota_set, quota_get, one_petabyte}
use emunel.Console.Volume.{
  Instance, Reach, StalePolicy, or_zero, put_cap, enforce, enforce_volume, measure, settle,
  reconcile, regressed, selected, live_total, core_quota, out_of_time, fresh,
}

-- The usage that the Core's total stands for.
abbrev pub used : Instance → ℕ
used i = i.core.total_bytes - or_zero i.row.baseline_bytes

-- Every call of the worker gets through.
pub record Reaches (r : Reach) : Type 0 where
  pub reads_quota : r.quota_read ≡ true
  pub puts_quota : r.quota_put ≡ true
  pub reads_stats : r.stats_read ≡ true
  pub stops : r.stop_done ≡ true

pub put_cap-total :
    (b : Bool) (cap : ℕ) (core : RuntimeStats) → (put_cap b cap core).total_bytes ≡ core.total_bytes
unfolding quota_set
put_cap-total true cap core = ground arith
put_cap-total false cap core = refl

-- A cap that the Core accepts is its cap from then on.
pub put_cap-cap :
    (cap : ℕ) (core : RuntimeStats)
    → cap ≤ one_petabyte
    → (put_cap true cap core).instance_cap_bytes ≡ cap
unfolding quota_set
put_cap-cap cap core h = ground arith

pub reconcile-total :
    (r : Reach) (cap : ℕ) (i : Instance)
    → ((reconcile r cap i).core.total_bytes ≡ i.core.total_bytes)
      × ((reconcile r cap i).row ≡ i.row)
      × ((reconcile r cap i).running ≡ i.running)
unfolding reconcile
reconcile-total r cap i = ground (arith, put_cap-total r.quota_put cap i.core)

reconcile-cap :
    (r : Reach) (cap : ℕ) (i : Instance)
    → Reaches r
    → cap ≤ one_petabyte
    → (reconcile r cap i).core.instance_cap_bytes ≡ cap
unfolding reconcile core_quota quota_get
reconcile-cap r cap i w h = ground (arith, put_cap-cap cap i.core)

measure-running :
    (r : Reach) (limit : ℕ) (i : Instance)
    → r.stop_done ≡ true
    → i.running ≡ true
    → regressed (or_zero i.row.used_cache) (used i) ≡ false
    → ((measure r limit i.core.total_bytes i).running ≡ ltb (used i) limit)
      × (or_zero (measure r limit i.core.total_bytes i).row.used_cache ≡ used i)
      × ((measure r limit i.core.total_bytes i).core ≡ i.core)
unfolding measure settle
measure-running r limit i stops up h = ground arith

-- The instance as the round measures it.
abbrev pub reconciled : Reach → Instance → Instance
reconciled r i = fresh (reconcile r (or_zero i.row.baseline_bytes + or_zero i.row.limit_bytes) i)

pub enforce_eq :
    (r : Reach) (p : StalePolicy) (i : Instance)
    → r.stats_read ≡ true
    → i.running ≡ true
    → 0 < or_zero i.row.limit_bytes
    → out_of_time r.now i.row.expires_at ≡ false
    → enforce r p i
      ≡ measure r (or_zero i.row.limit_bytes) (reconciled r i).core.total_bytes (reconciled r i)
unfolding enforce enforce_volume live_total selected
enforce_eq r p i reads up limited in_time = ground arith

-- A round that reaches the worker, for a running instance with a limit, time left and no lost Core
-- state: the instance runs on exactly when its usage is below the limit, the usage is cached, and the
-- Core's cap is the baseline plus the limit, whatever it was before. The sum must be a cap that the
-- Core accepts.
pub enforce_in_time :
    (r : Reach) (p : StalePolicy) (i : Instance)
    → Reaches r
    → i.running ≡ true
    → 0 < or_zero i.row.limit_bytes
    → or_zero i.row.baseline_bytes + or_zero i.row.limit_bytes ≤ one_petabyte
    → out_of_time r.now i.row.expires_at ≡ false
    → regressed (or_zero i.row.used_cache) (used i) ≡ false
    → ((enforce r p i).running ≡ ltb (used i) (or_zero i.row.limit_bytes))
      × (or_zero (enforce r p i).row.used_cache ≡ used i)
      × ((enforce r p i).core.instance_cap_bytes
          ≡ or_zero i.row.baseline_bytes + or_zero i.row.limit_bytes)
enforce_in_time r p i w up limited fits in_time kept =
    rw (enforce_eq r p i w.reads_stats up limited in_time) (
      ground (
        arith,
        reconcile-total r (or_zero i.row.baseline_bytes + or_zero i.row.limit_bytes) i,
        reconcile-cap r (or_zero i.row.baseline_bytes + or_zero i.row.limit_bytes) i w fits,
        measure-running r (or_zero i.row.limit_bytes) (reconciled r i) w.stops,
      ))

-- Once the time limit has passed, a round that reaches the worker stops a running instance, whatever
-- its usage, and touches neither its row nor its Core.
enforce-out_of_time :
    (r : Reach) (p : StalePolicy) (i : Instance)
    → r.stop_done ≡ true
    → i.running ≡ true
    → out_of_time r.now i.row.expires_at ≡ true
    → ((enforce r p i).running ≡ false)
      × ((enforce r p i).row ≡ i.row)
      × ((enforce r p i).core ≡ i.core)
unfolding enforce selected out_of_time
enforce-out_of_time r p i stops up over = ground arith
