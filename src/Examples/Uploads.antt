-- ===== src/Examples/Uploads.antt =====
-- core/emunel_core/relay/xhttp.py: a session of packet-up.
use emunel.Prelude.{false, some, List, [], ◌∷◌, Str, codes, arith, drop, pair_eq, str_eq}
use emunel.Prelude.Int.{pos}
use emunel.Relay.Gate.{QuotaGate}
use emunel.Relay.Xhttp.Packets.{Upstream}
use emunel.Relay.Xhttp.Sessions.{Key, Engine, Arrival, per_link_count}
use emunel.Relay.Xhttp.Sessions.Caps.{IsCapped}
use emunel.Relay.Xhttp.Upload.Caps.{
  Event, packet, opens, closes, reaps, happen_all, happen_all-IsCapped,
}
use emunel.Examples.Fixtures.{milli, moment, ctx_with}

abbrev uuid : Str
uuid = codes "01234567-89ab-cdef-0123-456789abcdef"

abbrev key : Key
key = (uuid, codes "s")

abbrev arrival : Arrival
arrival = record { now = 100; now_iso = codes "2025"; conn_id = codes "c"; ip = codes "10.0.0.1" }

abbrev upstream : Upstream
upstream = record { connect = λ b. some (drop 1 b); closing = false }

abbrev empty_engine : Engine (QuotaGate milli)
empty_engine = record { ctx = ctx_with 5000; sessions = [] }

-- A packet, a download, a round of the reaper and a teardown.
abbrev events : List (Event milli)
events =
    packet arrival moment upstream key (pos 0) (some (1 ∷ 2 ∷ []))
    ∷ opens (codes "stream-up") (uuid, codes "t") arrival
    ∷ reaps 150 (codes "0")
    ∷ closes key
    ∷ []

happen_all-IsCapped_example : IsCapped uuid (happen_all milli events empty_engine).sessions
happen_all-IsCapped_example =
    happen_all-IsCapped milli uuid events empty_engine
      (record { all = omega arith; of_link = unfold per_link_count in omega arith })
