-- ===== src/Console/Volume/Metered.antt =====
-- console/api/emunel_console/services/volume.py over core/emunel_core/relay/base.py: the Console's usage of what
-- the Core relays.
use emunel.Prelude.{ℕ, ◌+◌, ◌<◌, ◌≡◌, true, List, arith, All}
use emunel.Prelude.Float.{Floats}
use emunel.Relay.Gate.{quota_max_batch}
use emunel.Relay.Traffic.{Traffic, Event, FitsFrame, run}
use emunel.Relay.Traffic.Caps.{BelowCap, run-BelowCap}
use emunel.Relay.Traffic.Induction.{Keeps}
use emunel.Console.Volume.{Instance, Reach, or_zero, row_cap, get_usage}

-- The instance whose Core has relayed the events `es`.
abbrev pub metered : (F : Floats) → Traffic F → List (Event F) → Instance → Instance
metered F t es i = record i { core = (run F t es).ctx.stats }

-- With the row's cap in the Core, the usage that the Console reads stays below the volume limit plus
-- one full batch and one chunk, whatever the connections with a gate do, which are all but those of
-- VMess, and however late the Console looks.
pub usage-lt-limit :
    (F : Floats) (frame : ℕ) (t : Traffic F) (es : List (Event F)) (r : Reach) (i : Instance)
    → 0 < or_zero i.row.limit_bytes
    → r.stats_read ≡ true
    → All (FitsFrame F frame) es
    → Keeps F (BelowCap (row_cap i.row) frame) t
    → (get_usage r (metered F t es i)).1 < or_zero i.row.limit_bytes + quota_max_batch + frame
unfolding get_usage row_cap
usage-lt-limit F frame t es r i limited reads fits v =
    let below = (run-BelowCap F (row_cap i.row) frame (ground arith) t es fits v).holds in
    ground (arith, below.1)
