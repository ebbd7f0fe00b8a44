-- ===== src/Console/Listing.antt =====
-- console/api/emunel_console/services/links.py: `list_links`, which adopts the links of the Core that have no row
-- and refreshes the others. The numbers of the Core's links are not negative, as its API makes them.
pub mod Rows
pub mod Merged
use emunel.Prelude.{
  ℕ, Bool, true, false, Option, none, some, List, [], ◌∷◌, Str, str_eq, ◌==◌, take, nat_eq, is_some,
  if◌then◌else◌, leb,
}
use emunel.Prelude.Int.{at_least_zero}
use emunel.Prelude.Dict.{Dict, get, put}
use emunel.State.Link.{Link}
use emunel.State.Links.{LinkStore}
use emunel.Console.Configs.{ConfigRow, ConfigTable, or_null}
use emunel.Console.Editing.{Desk}

-- The row of a link that is adopted.
abbrev pub adopted : Link → ConfigRow
adopted l = record {
  label = take 200 l.label;
  protocol = some l.protocol;
  limit_bytes = or_null (at_least_zero l.limit_bytes);
  expires_at = l.expires_at;
  speed_limit_bytes = or_null l.speed_limit_bytes;
  ip_limit = or_null l.ip_limit;
  active = l.active;
  used_cache = some (at_least_zero l.used_bytes);
}

-- `_import_core_only`, where `known` are the rows that were fetched
unfoldable pub import_core_only : ConfigTable → LinkStore → ConfigTable → ConfigTable
import_core_only known [] rows = rows
import_core_only known ((uuid, l) ∷ links) rows =
    import_core_only known links
      (if is_some (get known uuid) then rows else put rows uuid (adopted l))

-- COALESCE(value, column)
abbrev pub coalesce {ℓ} : {A : Type ℓ} → Option A → Option A → Option A
coalesce none column = column
coalesce (some value) column = some value

-- `live.get("expires_at") or None`
abbrev pub text_or_null : Option Str → Option Str
text_or_null none = none
text_or_null (some []) = none
text_or_null (some (c ∷ s)) = some (c ∷ s)

-- The UPDATE of a row with the live state of its link
abbrev pub refreshed : Link → ConfigRow → ConfigRow
refreshed l row = record row {
  used_cache = some (at_least_zero l.used_bytes);
  limit_bytes = coalesce (or_null (at_least_zero l.limit_bytes)) row.limit_bytes;
  expires_at = coalesce (text_or_null l.expires_at) row.expires_at;
  speed_limit_bytes = coalesce (or_null l.speed_limit_bytes) row.speed_limit_bytes;
  ip_limit = coalesce (or_null l.ip_limit) row.ip_limit;
  active = l.active;
}

abbrev pub refreshed_by : Option Link → ConfigRow → ConfigRow
refreshed_by none row = row
refreshed_by (some l) row = refreshed l row

unfoldable pub refresh_rows : LinkStore → ConfigTable → ConfigTable
refresh_rows links [] = []
refresh_rows links ((uuid, row) ∷ rows) =
    (uuid, refreshed_by (get links uuid) row) ∷ refresh_rows links rows

-- `list_links`: the rows once the Core answered, or as they are where it did not
unfoldable pub list_links : Bool → Desk → Desk
list_links reachable d =
    if reachable
    then record d { rows = refresh_rows d.core.links (import_core_only d.rows d.core.links d.rows) }
    else d
