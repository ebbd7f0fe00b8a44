-- ===== src/Examples/Sessions.antt =====
-- core/emunel_core/state.py: the connections of a link with a limit of one address.
use emunel.Prelude.{◌≤◌, ◌≡◌, refl, some, List, [], ◌∷◌, arith, codes, Str, str_beq, length, inr}
use emunel.Prelude.Int.{pos}
use emunel.Prelude.Dict.{get, put, remove}
use emunel.State.Link.{Link}
use emunel.State.Connections.{
  Event, attaches, leaves, happen, happen_all, unique_ips_for, attach, ip_allowed, register,
  distinct, drop_conn,
}
use emunel.State.Connections.Limit.{happen_all-unique_ips_for}
use emunel.Examples.Fixtures.{link_of, alice}

abbrev narrow : Link
narrow = record (link_of alice (pos 0) (pos 0)) { ip_limit = 1 }

abbrev attaches_from : Str → Str → Event
attaches_from conn_id ip =
    attaches (some narrow) (codes "now") conn_id alice ip (codes "xhttp-packet-up")

-- The second address is refused, and let in when the first has left.
abbrev events : List Event
events =
    attaches_from (codes "a") (codes "10.0.0.1")
    ∷ attaches_from (codes "b") (codes "10.0.0.2")
    ∷ leaves (codes "a")
    ∷ attaches_from (codes "c") (codes "10.0.0.2")
    ∷ []

second_is_in : unique_ips_for alice (happen_all events []) ≡ codes "10.0.0.2" ∷ []
unfolding happen_all happen attach ip_allowed register unique_ips_for distinct drop_conn get put
    remove str_beq
second_is_in = refl

happen_all-unique_ips_for_example : length (unique_ips_for alice (happen_all events [])) ≤ 1
unfolding happen_all happen attach ip_allowed register unique_ips_for distinct drop_conn get put
    remove str_beq
happen_all-unique_ips_for_example =
    happen_all-unique_ips_for alice 1 (omega arith) events []
      (refl, (refl, inr refl), (refl, (refl, inr refl), (refl, (refl, inr refl), tt))) (omega arith)
