-- ===== src/Examples/Restart.antt =====
-- core/emunel_core/app.py, state.py: a link over a restart, and the debounce.
use emunel.Prelude.{◌≡◌, refl, true, false, none, some, List, [], ◌∷◌, codes}
use emunel.Prelude.Int.{pos}
use emunel.Prelude.Dict.{get}
use emunel.State.Stats.{RuntimeStats, new_stats}
use emunel.State.Store.{missing, save, load}
use emunel.State.Saver.{idle, changes, wakes}
use emunel.State.Saver.{happen, happen_all}
use emunel.State.Saver.Durable.{IsSettled, happen_all-wakes}
use emunel.Api.Links.{LinkBody, Fresh, LinkPatch}
use emunel.Api.Links.Restart.{Event, creates, updates, deletes, charges, new_core, load-happen_all}
use emunel.Api.Links.Restart as restart
use emunel.Examples.Fixtures.{alice, bob, clock}

abbrev link_body : LinkBody
link_body = record {
  protocol = none;
  uuid = some alice;
  label = none;
  active = true;
  limit_bytes = some (pos 1000);
  used_bytes = some (pos 0);
  expires_at = none;
  note = none;
  alpn = none;
  fingerprint = none;
  ss_cipher = none;
  ss_password = none;
  speed_limit_bytes = some (pos 0);
  ip_limit = some (pos 0);
}

abbrev fresh : Fresh
fresh = record { token_hex = codes "0"; token_urlsafe = codes "p"; now_iso = codes "2025" }

abbrev patch : LinkPatch
patch = record {
  label = some (codes "Home");
  active = none;
  note = none;
  reset_usage = none;
  limit_bytes = some (some (pos 500));
  expires_at = none;
  speed_limit_bytes = none;
  ip_limit = none;
}

-- Two links are made, one is patched and one deleted, and traffic is accounted.
abbrev events : List Event
events =
    creates false fresh link_body
    ∷ creates false fresh (record link_body { uuid = some bob })
    ∷ updates alice patch
    ∷ charges clock alice 70
    ∷ deletes bob
    ∷ []

abbrev stats : RuntimeStats
stats = record new_stats { total_bytes = 70; hourly = (codes "h", 70) ∷ [] }

load-happen_all_example :
    (let links = (restart.happen_all events new_core).links in
      let s =
        load true (codes "later") (save true (codes "now") links stats missing) [] new_stats in
      (s.links ≡ links)
      × (s.stats ≡ record new_stats {
        total_bytes = 70;
        instance_cap_bytes = 0;
        hourly = (codes "h", 70) ∷ [];
      }))
load-happen_all_example =
    load-happen_all events true (codes "now") (codes "later") stats missing (unfold get in refl, tt)

-- A change in the sleep of a loop is written by its next round.
happen_all-wakes_example : IsSettled (
    happen
      (wakes true)
      (happen (wakes true) (happen_all (changes ∷ changes ∷ wakes true ∷ changes ∷ []) (idle 0))))
happen_all-wakes_example =
    happen_all-wakes (changes ∷ changes ∷ wakes true ∷ changes ∷ []) (tt, (tt, (refl, (tt, tt))))
