-- ===== src/Console/Editing/Histories.antt =====
-- console/api/emunel_console/services/links.py: edits of configs and traffic, one after the other.
use emunel.Prelude.{ℕ, Bool, Option, List, [], ◌∷◌, Str, All, str_eq}
use emunel.Prelude.Float.{Floats}
use emunel.State.Link.{Clock}
use emunel.State.Links.{spend}
use emunel.Api.Links.{Fresh}
use emunel.Console.Policy.{Reading, PolicyBody}
use emunel.Console.Editing.{Desk, CoreCall, ConfigEdit, create_link, update_link, delete_link}
use emunel.Console.Editing.Synced.{IsSynced}
use emunel.Console.Editing.Kept.{
  IsCertain, create_link-IsSynced, update_link-IsSynced, delete_link-IsSynced, spend-IsSynced,
}

module _ (F : Floats) (r : Reading F) where
  pub data Event : Type 0 where
    creates : CoreCall → Bool → Fresh → Option Str → Option Str → PolicyBody F → Event
    edits : CoreCall → Str → ConfigEdit F r → Event
    deletes : CoreCall → Str → Event
    charges : Clock → Str → ℕ → Event

  unfoldable pub happen : Event → Desk → Desk
  happen (creates call runtime fresh protocol label b) d =
      (create_link F r call runtime fresh protocol label b d).0
  happen (edits call uuid b) d = (update_link F r call uuid b d).0
  happen (deletes call uuid) d = (delete_link call uuid d).0
  happen (charges clock uuid n) d = record d {
    core = record d.core { links = (spend clock d.core.links uuid n).0 };
  }

  unfoldable pub happen_all : List Event → Desk → Desk
  happen_all [] d = d
  happen_all (e ∷ es) d = happen_all es (happen e d)

  -- No answer to a creation or an edit is lost.
  abbrev pub IsClear : Event → Type 0
  IsClear (creates call runtime fresh protocol label b) = IsCertain call
  IsClear (edits call uuid b) = IsCertain call
  IsClear (deletes call uuid) = Unit
  IsClear (charges clock uuid n) = Unit

  happen-IsSynced : (e : Event) (d : Desk) → IsClear e → IsSynced d → IsSynced (happen e d)
  unfolding happen
  happen-IsSynced (creates call runtime fresh protocol label b) d c s =
      create_link-IsSynced F r call runtime fresh protocol label b d c s
  happen-IsSynced (edits call uuid b) d c s = update_link-IsSynced F r call uuid b d c s
  happen-IsSynced (deletes call uuid) d c s = delete_link-IsSynced call uuid d s
  happen-IsSynced (charges clock uuid n) d c s = spend-IsSynced clock uuid n d s

  -- Whatever configs are created, edited and deleted, with values that are refused and calls that are not
  -- delivered among them, and whatever traffic comes between, each row of the table has a link in the
  -- Core with the row's quota, expiry, speed, address limit and state, if it had at first. No
  -- answer of the Core to a creation or an edit is lost.
  pub happen_all-IsSynced :
      (es : List Event) (d : Desk) → All IsClear es → IsSynced d → IsSynced (happen_all es d)
  unfolding happen_all
  happen_all-IsSynced [] d c s = s
  happen_all-IsSynced (e ∷ es) d c s =
      happen_all-IsSynced es (happen e d) c.1 (happen-IsSynced e d c.0 s)
