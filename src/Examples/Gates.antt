-- ===== src/Examples/Gates.antt =====
-- core/emunel_core/relay/base.py, `QuotaGate`, at one gate and a few events.
use emunel.Prelude.{refl, some, List, [], ◌∷◌, str_eq, str_beq, arith, codes}
use emunel.Prelude.Int.{pos, ◌+ℤ◌}
use emunel.Prelude.Dict.{get}
use emunel.Relay.Traffic.{Event, opened, chunk, flushed, requested, run}
use emunel.Relay.Traffic.Induction.{Keeps}
use emunel.Relay.Traffic.Caps.{BelowCap, run-BelowCap}
use emunel.Relay.Traffic.Quota.{Metered, run-Metered}
use emunel.Examples.Fixtures.{milli, alice, bob, moment, link_of, traffic}

abbrev events : List (Event milli)
events =
    opened moment bob (some (codes "c"))
    ∷ chunk 0 moment 3000
    ∷ requested
    ∷ chunk 1 moment 2000
    ∷ flushed 0 moment
    ∷ []

run-BelowCap_example : Keeps milli (BelowCap 5000 3000) (run milli traffic events)
run-BelowCap_example =
    run-BelowCap milli 5000 3000 (omega arith) traffic events (omega arith) (record {
      sized = (record { least = omega arith; most = omega arith; open_batch = omega arith }, tt);
      holds = (refl, omega arith);
    })

run-Metered_example : Keeps milli (Metered alice (pos 1000) 3000) (run milli traffic events)
unfolding get str_beq ◌+ℤ◌
run-Metered_example =
    run-Metered alice (pos 1000) 3000 (omega arith) milli traffic events (omega arith) (record {
      sized = (record { least = omega arith; most = omega arith; open_batch = omega arith }, tt);
      holds = (link_of alice (pos 1000) (pos 400), refl, refl, omega arith);
    })
