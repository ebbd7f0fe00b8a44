-- ===== src/Examples/Limits.antt =====
-- console/api/emunel_console/services/volume.py, at one instance.
use emunel.Prelude.{ℕ, ◌+◌, ◌*◌, ◌<◌, ◌≡◌, refl, false, none, some, List, [], ◌∷◌, arith}
use emunel.State.Stats.{new_stats}
use emunel.Relay.Gate.{quota_max_batch}
use emunel.Relay.Traffic.{chunk}
use emunel.Console.Volume.{or_zero, enforce, out_of_time, regressed, get_usage, row_cap, Instance}
use emunel.Console.Volume.Rounds.{Reaches, enforce_in_time}
use emunel.Console.Volume.Regression.{Repaired, rounds, repair_renews_quota}
use emunel.Console.Volume.Metered.{metered, usage-lt-limit}
use emunel.Examples.Fixtures.{milli, moment, mb, reach, policy, instance_with, gate, ctx_with}

reach-Reaches : Reaches reach
reach-Reaches = record { reads_quota = refl; puts_quota = refl; reads_stats = refl; stops = refl }

abbrev at_limit : Instance
at_limit = instance_with (some 60) (90 * mb) (110 * mb)

enforce_in_time_example :
    ((enforce reach policy at_limit).running ≡ false)
    × (or_zero (enforce reach policy at_limit).row.used_cache ≡ 100 * mb)
    × ((enforce reach policy at_limit).core.instance_cap_bytes ≡ 110 * mb)
unfolding out_of_time regressed
enforce_in_time_example =
    enforce_in_time reach policy at_limit reach-Reaches refl (omega arith) (omega arith) refl refl

-- 90 MB of 100 MB were used when the Core lost its state.
abbrev lost : Instance
lost = instance_with none (90 * mb) 0

abbrev repaired_instance : Instance
repaired_instance = record lost {
  row = record lost.row { baseline_bytes = some 0 };
  core = record new_stats { instance_cap_bytes = 10 * mb };
}

abbrev ten_each : List ℕ
ten_each = (10 * mb) ∷ (10 * mb) ∷ (10 * mb) ∷ []

repair_renews_quota_example :
    Repaired (100 * mb) (90 * mb) (rounds reach policy repaired_instance ten_each)
    × ((rounds reach policy repaired_instance ten_each).core.total_bytes ≡ 30 * mb)
repair_renews_quota_example =
    repair_renews_quota reach policy (100 * mb) (90 * mb) repaired_instance ten_each reach-Reaches
      (omega arith) (omega arith) (omega arith) (omega arith)
      (record {
        up = refl;
        no_time_limit = refl;
        has_limit = refl;
        has_cached = refl;
        room = refl;
        rebased = refl;
      })

usage-lt-limit_example :
    (get_usage reach (
      metered milli
        (record { ctx = ctx_with (110 * mb); gates = gate ∷ [] })
        (chunk 0 moment 10 ∷ [])
        at_limit)).1
    < 100 * mb + quota_max_batch + 3000
unfolding row_cap
usage-lt-limit_example =
    usage-lt-limit milli 3000 (record { ctx = ctx_with (110 * mb); gates = gate ∷ [] })
      (chunk 0 moment 10 ∷ []) reach at_limit (omega arith) refl (omega arith, tt)
      (record {
        sized = (record { least = omega arith; most = omega arith; open_batch = omega arith }, tt);
        holds = (refl, omega arith);
      })
