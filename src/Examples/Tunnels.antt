-- ===== src/Examples/Tunnels.antt =====
-- core/emunel_core/relay/vmess.py: tunnels of two links with room for one runtime.
use emunel.Prelude.{true, List, [], ◌∷◌}
use emunel.Relay.Vmess.{Event, acquires, releases, exits, new_runtime, happen_all}
use emunel.Relay.Vmess.Counts.{IsCounted}
use emunel.Relay.Vmess.Pool.{happen_all-IsCounted}
use emunel.Examples.Fixtures.{alice, bob}

-- Two tunnels of one link, one of another that finds no room, and an exit.
abbrev events : List Event
events =
    acquires true alice
    ∷ acquires true alice
    ∷ acquires true bob
    ∷ exits alice
    ∷ acquires true alice
    ∷ releases (alice, 0)
    ∷ releases (alice, 0)
    ∷ []

happen_all-IsCounted_example : IsCounted 1 (happen_all 1 events new_runtime)
happen_all-IsCounted_example = happen_all-IsCounted 1 events
