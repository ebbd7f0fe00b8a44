-- ===== src/Console/Volume/Regression.antt =====
-- console/api/emunel_console/services/volume.py: the repair of a lost Core state, and the rounds that follow it.
use emunel.Prelude.{
  ℕ, ◌+◌, ◌-◌, ◌≤◌, ◌<◌, ◌≡◌, ap, true, none, some, List, [], ◌∷◌, arith, All, sum_of,
}
use emunel.Api.Quota.{one_petabyte}
use emunel.Console.Volume.{
  Instance, Reach, StalePolicy, or_zero, margin, enforce, measure, settle, repair, regressed,
  out_of_time, get_usage,
}
use emunel.Console.Volume.Rounds.{
  Reaches, used, reconciled, reconcile-total, put_cap-total, put_cap-cap, enforce_eq,
  enforce_in_time,
}

-- An instance with no time limit whose usage counter fell far below the cached usage.
pub record LostState (limit cached : ℕ) (i : Instance) : Type 0 where
  pub up : i.running ≡ true
  pub no_time_limit : i.row.expires_at ≡ none
  pub has_limit : i.row.limit_bytes ≡ some limit
  pub has_cached : i.row.used_cache ≡ some cached
  pub left_over : cached < limit
  pub above_margin : margin < cached
  pub fell : used i + margin < cached

-- After the repair: the usage of before is cached, the Core's cap leaves what was left of the limit,
-- and the baseline is the Core's total.
pub record Repaired (limit cached : ℕ) (i : Instance) : Type 0 where
  pub up : i.running ≡ true
  pub no_time_limit : i.row.expires_at ≡ none
  pub has_limit : i.row.limit_bytes ≡ some limit
  pub has_cached : i.row.used_cache ≡ some cached
  pub room : i.core.instance_cap_bytes ≡ i.core.total_bytes + (limit - cached)
  pub rebased : i.row.baseline_bytes ≡ some i.core.total_bytes

measure-Repaired :
    (r : Reach) (limit cached : ℕ) (i : Instance)
    → r.quota_put ≡ true
    → LostState limit cached i
    → i.core.total_bytes + limit ≤ one_petabyte
    → Repaired limit cached (measure r limit i.core.total_bytes i)
      × ((measure r limit i.core.total_bytes i).core.total_bytes ≡ i.core.total_bytes)
unfolding measure settle repair regressed
measure-Repaired r limit cached i puts l fits = ground (
  arith,
  put_cap-total true (i.core.total_bytes + (limit - cached)) i.core,
  put_cap-cap (i.core.total_bytes + (limit - cached)) i.core,
)

reconciled-LostState :
    (r : Reach) (limit cached : ℕ) (i : Instance)
    → LostState limit cached i
    → LostState limit cached (reconciled r i)
reconciled-LostState r limit cached i l =
    ground (arith, reconcile-total r (or_zero i.row.baseline_bytes + or_zero i.row.limit_bytes) i)

-- A round that reaches the worker repairs a lost state: the instance runs on, the cached usage stays,
-- and the Core may relay what was left of the limit.
enforce-Repaired :
    (r : Reach) (p : StalePolicy) (limit cached : ℕ) (i : Instance)
    → Reaches r
    → LostState limit cached i
    → i.core.total_bytes + limit ≤ one_petabyte
    → Repaired limit cached (enforce r p i)
      × ((enforce r p i).core.total_bytes ≡ i.core.total_bytes)
unfolding out_of_time
enforce-Repaired r p limit cached i w l fits = ground (
  arith,
  enforce_eq r p i w.reads_stats l.up,
  ap or_zero l.has_limit,
  reconcile-total r (or_zero i.row.baseline_bytes + or_zero i.row.limit_bytes) i,
  reconciled-LostState r limit cached i l,
  measure-Repaired r limit cached (reconciled r i) w.puts_quota,
)

-- The Core counts `d` more bytes.
abbrev pub relayed : ℕ → Instance → Instance
relayed d i = record i { core = record i.core { total_bytes = i.core.total_bytes + d } }

-- Rounds of the loop, each after some traffic.
unfoldable pub rounds : Reach → StalePolicy → Instance → List ℕ → Instance
rounds r p i [] = i
rounds r p i (d ∷ ds) = rounds r p (enforce r p (relayed d i)) ds

abbrev pub total_of : List ℕ → ℕ
total_of = sum_of (λ d. d)

relayed-LostState :
    (limit cached d : ℕ) (i : Instance)
    → cached < limit
    → margin < cached
    → d + margin < cached
    → Repaired limit cached i
    → LostState limit cached (relayed d i)
relayed-LostState limit cached d i left above small v = ground (arith, ap or_zero v.rebased)

-- The repair is made again in every round that follows: if each round sees fewer bytes than the
-- cached usage less the margin, then after any number of rounds the instance runs on, the cached
-- usage has not grown, and the Core may again relay all that was left of the limit, although the
-- bytes of all rounds were relayed. So the limit is not enforced. The sums stay within the caps that
-- the Core accepts.
pub repair_renews_quota :
    (r : Reach) (p : StalePolicy) (limit cached : ℕ) (i : Instance) (ds : List ℕ)
    → Reaches r
    → cached < limit
    → margin < cached
    → All (λ d. d + margin < cached) ds
    → i.core.total_bytes + total_of ds + limit ≤ one_petabyte
    → Repaired limit cached i
    → Repaired limit cached (rounds r p i ds)
      × ((rounds r p i ds).core.total_bytes ≡ i.core.total_bytes + total_of ds)
unfolding rounds
repair_renews_quota r p limit cached i [] w left above small fits v = (v, omega arith)
repair_renews_quota r p limit cached i (d ∷ ds) w left above small fits v =
    let (v', same) =
      enforce-Repaired r p limit cached (relayed d i) w
        (relayed-LostState limit cached d i left above small.0 v) (omega arith) in
    let (end, sum) =
      repair_renews_quota r p limit cached (enforce r p (relayed d i)) ds w left above small.1
        (omega arith) v' in
    (end, omega arith)

-- A look at the usage of an instance whose Core lost its state, before the loop sees it, writes the
-- small usage over the cached one. The next round then repairs nothing: it runs the instance on with
-- the whole limit left.
get_usage_hides_loss :
    (r : Reach) (p : StalePolicy) (limit cached : ℕ) (i : Instance)
    → Reaches r
    → LostState limit cached i
    → or_zero i.row.baseline_bytes + limit ≤ one_petabyte
    → ((enforce r p (get_usage r i).0).running ≡ true)
      × (or_zero (enforce r p (get_usage r i).0).row.used_cache ≡ used i)
      × ((enforce r p (get_usage r i).0).core.instance_cap_bytes
          ≡ or_zero i.row.baseline_bytes + limit)
unfolding get_usage out_of_time regressed
get_usage_hides_loss r p limit cached i w l fits =
    ground (arith, enforce_in_time r p (get_usage r i).0 w, ap or_zero l.has_limit)
