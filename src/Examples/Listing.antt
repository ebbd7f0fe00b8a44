-- ===== src/Examples/Listing.antt =====
-- console/api/emunel_console/services/links.py: a Core with a link that has a row and one that has none.
use emunel.Prelude.{◌≡◌, refl, true, none, some, [], ◌∷◌, str_eq, str_beq}
use emunel.Prelude.Int.{pos}
use emunel.Prelude.Dict.{get}
use emunel.Prelude.Dict.Keys.{HasKeysOnce}
use emunel.State.Link.{Link}
use emunel.Api.Links.Restart.{new_core}
use emunel.Console.Configs.{ConfigRow}
use emunel.Console.Editing.{Desk, undelivered, done, delete_link}
use emunel.Console.Listing.{adopted, refreshed, list_links}
use emunel.Console.Listing.Merged.{IsListed, list_links_lem, delete_link-list_links}
use emunel.Examples.Fixtures.{alice, bob, link_of}

abbrev used : Link
used = link_of alice (pos 2000) (pos 400)

abbrev row : ConfigRow
row = adopted (link_of alice (pos 1000) (pos 0))

abbrev desk : Desk
desk = record {
  core = record new_core { links = (alice, used) ∷ (bob, link_of bob (pos 0) (pos 7)) ∷ [] };
  rows = (alice, row) ∷ [];
}

links-HasKeysOnce : HasKeysOnce desk.core.links
unfolding get str_beq
links-HasKeysOnce = (refl, (refl, tt))

list_links_lem_example :
    IsListed (get desk.rows bob) (get desk.core.links bob) (get (list_links true desk).rows bob)
    × ((list_links true desk).core ≡ desk.core)
list_links_lem_example = list_links_lem desk bob links-HasKeysOnce

delete_link-list_links_example :
    (let r = delete_link undelivered alice desk in
      let d' = list_links true r.0 in
      (r.1 ≡ done)
      × (get r.0.rows alice ≡ none)
      × (get d'.rows alice ≡ some (refreshed used (adopted used)))
      × (get d'.core.links alice ≡ some used))
delete_link-list_links_example =
    delete_link-list_links desk alice row used links-HasKeysOnce (unfold get str_beq in refl)
      (unfold get str_beq in refl)
