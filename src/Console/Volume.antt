-- ===== src/Console/Volume.antt =====
-- console/api/emunel_console/services/volume.py: the volume and time limits of one instance.
-- The row of the table `instance_volume`, the Core that it meters, and the calls between them. A call
-- of the worker may fail at any time: what succeeds is the argument `Reach`. Statements of the
-- database succeed. Times are seconds.
pub mod Rounds
pub mod Metered
pub mod Regression
use emunel.Prelude.{
  ℕ, ◌+◌, ◌-◌, ◌*◌, Bool, true, false, ◌&&◌, not, Option, none, some, List, [], ◌∷◌, ◌++◌, ltb, leb,
  max, is_some, ◌==◌, nat_eq, if◌then◌else◌,
}
use emunel.Prelude.Int.{pos}
use emunel.Api.Quota.{quota_set, quota_get}
use emunel.State.Stats.{RuntimeStats}

-- _REGRESSION_MARGIN_BYTES
abbrev pub margin : ℕ
margin = 16 * 1024 * 1024

pub record VolumeRow : Type 0 where
  pub limit_bytes : Option ℕ
  pub baseline_bytes : Option ℕ
  pub used_cache : Option ℕ
  pub used_at : Option ℕ
  pub expires_at : Option ℕ

-- An entry of `_stale`.
pub record Stale : Type 0 where
  pub misses : ℕ
  pub first_miss : ℕ
  pub alerted : Bool

pub data Notice : Type 0 where
  time_stop stale_alert stale_stop : Notice
  repaired : ℕ → Notice
  volume_stop : ℕ → ℕ → Notice

pub record Instance : Type 0 where
  pub row : VolumeRow
  pub core : RuntimeStats
  pub running : Bool
  pub stale : Option Stale
  pub notices : List Notice

-- The clock, and which calls reach the worker: the reads and writes of the Core's quota, the read of
-- its stats, and the stop.
pub record Reach : Type 0 where
  pub now : ℕ
  pub quota_read : Bool
  pub quota_put : Bool
  pub stats_read : Bool
  pub stop_done : Bool

-- EMUNEL_VOLUME_STALE_ALERT_MISSES and the seconds of EMUNEL_VOLUME_STALE_STOP_MINUTES
pub record StalePolicy : Type 0 where
  pub alert_after : ℕ
  pub stop_after : ℕ

-- `int(x or 0)`
abbrev pub or_zero : Option ℕ → ℕ
or_zero none = 0
or_zero (some n) = n

-- PUT /core/api/quota; a refusal by the Core is caught like a call that does not reach it
abbrev pub put_cap : Bool → ℕ → RuntimeStats → RuntimeStats
put_cap true cap core = (quota_set (some (pos cap)) core).0
put_cap false cap core = core

-- the cap that the row stands for: 0 without a limit
unfoldable pub row_cap : VolumeRow → ℕ
row_cap row =
    if or_zero row.limit_bytes == 0 then 0 else or_zero row.baseline_bytes + or_zero row.limit_bytes

unfoldable pub push_core_cap : Reach → Instance → Instance
push_core_cap r i = record i { core = put_cap r.quota_put (row_cap i.row) i.core }

-- `_live_total`
unfoldable pub live_total : Reach → RuntimeStats → Option ℕ
live_total r core = if r.stats_read then some core.total_bytes else none

-- `_core_quota`, as far as the loop reads it
unfoldable pub core_quota : Reach → RuntimeStats → Option ℕ
unfolding quota_get
core_quota r core = if r.quota_read then some (quota_get core).cap_bytes else none

abbrev note : Notice → Instance → Instance
note n i = record i { notices = i.notices ++ (n ∷ []) }

-- `deploy_svc.stop_instance`, then `_activity`; if the stop raises, the round ends here
abbrev stop_with : Reach → Notice → Instance → Instance
stop_with r n i = if r.stop_done then note n (record i { running = false }) else i

-- `_stale.pop`
abbrev pub fresh : Instance → Instance
fresh i = record i { stale = none }

-- The rows that `enforce_all` selects.
unfoldable pub selected : Instance → Bool
selected i =
    i.running && (if ltb 0 (or_zero i.row.limit_bytes) then true else is_some i.row.expires_at)

or_first_miss : ℕ → Option Stale → Stale
or_first_miss now none = record { misses = 0; first_miss = now; alerted = false }
or_first_miss now (some e) = e

alert : StalePolicy → Stale → Instance → Instance
alert p e i =
    if leb p.alert_after e.misses && not e.alerted
    then note stale_alert (record i { stale = some (record e { alerted = true }) })
    else record i { stale = some e }

stop_blind : Reach → StalePolicy → ℕ → Instance → Instance
stop_blind r p first i =
    if ltb 0 p.stop_after && leb p.stop_after (r.now - first) && r.stop_done
    then fresh (note stale_stop (record i { running = false }))
    else i

unfoldable pub note_stale : Reach → StalePolicy → Instance → Instance
unfolding or_first_miss alert stop_blind
note_stale r p i =
    let e = or_first_miss r.now i.stale in
    stop_blind r p e.first_miss (alert p (record e { misses = e.misses + 1 }) i)

-- The end of a round: the usage is cached, and the instance stops at its limit.
unfoldable pub settle : Reach → ℕ → ℕ → Instance → Instance
settle r limit used i =
    let i' : Instance = record i {
      row = record i.row { used_cache = some used; used_at = some r.now };
    } in
    if ltb used limit then i' else stop_with r (volume_stop used limit) i'

-- "core-state regression repair"
unfoldable pub repair : Reach → ℕ → ℕ → ℕ → Instance → Instance
repair r limit cached total i = note (repaired (limit - cached)) (record i {
  core = put_cap r.quota_put (total + (limit - cached)) i.core;
  row = record i.row { baseline_bytes = some total };
})

unfoldable pub regressed : ℕ → ℕ → Bool
regressed cached used = ltb margin cached && ltb (used + margin) cached

unfoldable pub measure : Reach → ℕ → ℕ → Instance → Instance
measure r limit total i =
    let cached = or_zero i.row.used_cache in
    let used = total - or_zero i.row.baseline_bytes in
    if regressed cached used
    then settle r limit cached (repair r limit cached total i)
    else settle r limit used i

-- A drifted cap is pushed again.
unfoldable pub reconcile : Reach → ℕ → Instance → Instance
reconcile r expected i = elim (core_quota r i.core) [
  | none ↦ i
  | some cap ↦
      if cap == expected then i else record i { core = put_cap r.quota_put expected i.core }
]

unfoldable pub enforce_volume : Reach → StalePolicy → ℕ → Instance → Instance
enforce_volume r p limit i =
    let i' = reconcile r (or_zero i.row.baseline_bytes + limit) i in
    elim (live_total r i'.core) [
      | none ↦ note_stale r p i'
      | some total ↦ measure r limit total (fresh i')
    ]

unfoldable pub out_of_time : ℕ → Option ℕ → Bool
out_of_time now none = false
out_of_time now (some t) = leb t now

-- One row's round of `enforce_all`.
unfoldable pub enforce : Reach → StalePolicy → Instance → Instance
unfolding out_of_time
enforce r p i =
    if not (selected i)
    then i
    else if out_of_time r.now i.row.expires_at
    then (if r.stop_done then fresh (stop_with r time_stop i) else i)
    else if or_zero i.row.limit_bytes == 0
    then fresh i
    else enforce_volume r p (or_zero i.row.limit_bytes) i

-- `get_state`: the usage that it shows, and what it writes
abbrev shown : Reach → Option ℕ → Instance → Instance × ℕ
shown r none i = (i, or_zero i.row.used_cache)
shown r (some total) i =
    let used = total - or_zero i.row.baseline_bytes in
    (record i { row = record i.row { used_cache = some used; used_at = some r.now } }, used)

unfoldable pub get_usage : Reach → Instance → Instance × ℕ
unfolding live_total
get_usage r i = shown r (live_total r i.core) i

-- `set_limit` on a row that is there
unfoldable pub set_limit : Reach → Option ℕ → Instance → Instance
set_limit r limit i = push_core_cap r (record i { row = record i.row { limit_bytes = limit } })

abbrev new_baseline : VolumeRow → Option ℕ → ℕ
new_baseline row none = or_zero row.baseline_bytes + or_zero row.used_cache
new_baseline row (some total) = max (or_zero row.baseline_bytes) total

-- `reset_usage` on a row that is there
unfoldable pub reset_usage : Reach → Instance → Instance
reset_usage r i = push_core_cap r (record i {
  row = record i.row {
    baseline_bytes = some (new_baseline i.row (live_total r i.core));
    used_cache = some 0;
  };
})

-- `limit_reached`
unfoldable pub limit_reached : VolumeRow → Bool
limit_reached row =
    if or_zero row.limit_bytes == 0
    then false
    else not (ltb (or_zero row.used_cache) (or_zero row.limit_bytes))
