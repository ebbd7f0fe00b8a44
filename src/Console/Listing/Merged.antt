-- ===== src/Console/Listing/Merged.antt =====
-- console/api/emunel_console/services/links.py: what a listing makes of the rows.
use emunel.Prelude.{
  ℕ, zero, suc, sym, take, arith, ◌≡◌, refl, ap, subst, ◌∙◌, true, Option, none, some, [], ◌∷◌, Str,
  str_eq,
}
use emunel.Prelude.Int.{at_least_zero}
use emunel.Prelude.Dict.{get, remove, get-remove_self}
use emunel.Prelude.Dict.Keys.{HasKeysOnce}
use emunel.State.Link.{Link}
use emunel.Api.Links.{Core}
use emunel.Console.Configs.{ConfigRow, or_null}
use emunel.Console.Editing.{Desk, undelivered, done, call_core, delete_link}
use emunel.Console.Listing.Rows.{merged, list_links-merged}
use emunel.Console.Listing.{coalesce, text_or_null, adopted, refreshed, list_links}

-- A number of the Core's link that is 0 leaves the column as it is.
abbrev pub kept_unless_set : ℕ → Option ℕ → Option ℕ
kept_unless_set zero column = column
kept_unless_set (suc n) column = some (suc n)

abbrev pub kept_unless_text : Option Str → Option Str → Option Str
kept_unless_text (some (c ∷ s)) column = some (c ∷ s)
kept_unless_text _ column = column

-- The row has the counter and the state of the link, and each limit that the link has; the rest is as before.
pub record Shows (l : Link) (before after : ConfigRow) : Type 0 where
  pub label : after.label ≡ before.label
  pub protocol : after.protocol ≡ before.protocol
  pub used : after.used_cache ≡ some (at_least_zero l.used_bytes)
  pub state : after.active ≡ l.active
  pub limit : after.limit_bytes ≡ kept_unless_set (at_least_zero l.limit_bytes) before.limit_bytes
  pub expiry : after.expires_at ≡ kept_unless_text l.expires_at before.expires_at
  pub speed : after.speed_limit_bytes ≡ kept_unless_set l.speed_limit_bytes before.speed_limit_bytes
  pub addresses : after.ip_limit ≡ kept_unless_set l.ip_limit before.ip_limit

-- The row that is new for a link: its name is cut to 200 characters.
abbrev pub blank_row : Link → ConfigRow
blank_row l = record {
  label = take 200 l.label;
  protocol = some l.protocol;
  limit_bytes = none;
  expires_at = l.expires_at;
  speed_limit_bytes = none;
  ip_limit = none;
  active = l.active;
  used_cache = none;
}

-- A config after a listing, from its row and its link before.
abbrev pub IsListed : Option ConfigRow → Option Link → Option ConfigRow → Type 0
IsListed none none after = after ≡ none
IsListed (some row) none after = after ≡ some row
IsListed none (some l) after = (row : ConfigRow) × (after ≡ some row) × Shows l (blank_row l) row
IsListed (some old) (some l) after = (row : ConfigRow) × (after ≡ some row) × Shows l old row

coalesce-or_null :
    (n : ℕ) (column : Option ℕ) → coalesce (or_null n) column ≡ kept_unless_set n column
coalesce-or_null zero column = refl
coalesce-or_null (suc n) column = ground arith

coalesce-text_or_null :
    (s column : Option Str) → coalesce (text_or_null s) column ≡ kept_unless_text s column
coalesce-text_or_null none column = refl
coalesce-text_or_null (some []) column = refl
coalesce-text_or_null (some (c ∷ s)) column = refl

kept_unless_set-or_null : (n : ℕ) → kept_unless_set n (or_null n) ≡ kept_unless_set n none
kept_unless_set-or_null zero = refl
kept_unless_set-or_null (suc n) = refl

refreshed-Shows : (l : Link) (row : ConfigRow) → Shows l row (refreshed l row)
refreshed-Shows l row = record {
  label = refl;
  protocol = refl;
  used = refl;
  state = refl;
  limit = coalesce-or_null (at_least_zero l.limit_bytes) row.limit_bytes;
  expiry = coalesce-text_or_null l.expires_at row.expires_at;
  speed = coalesce-or_null l.speed_limit_bytes row.speed_limit_bytes;
  addresses = coalesce-or_null l.ip_limit row.ip_limit;
}

merged-IsListed :
    (old : Option ConfigRow) (link : Option Link) → IsListed old link (merged old link)
merged-IsListed none none = refl
merged-IsListed (some row) none = refl
merged-IsListed (some row) (some l) = (refreshed l row, refl, refreshed-Shows l row)
merged-IsListed none (some l) =
    let v = refreshed-Shows l (adopted l) in
    (
      refreshed l (adopted l),
      refl,
      record {
        label = refl;
        protocol = refl;
        used = refl;
        state = refl;
        limit = v.limit ∙ kept_unless_set-or_null (at_least_zero l.limit_bytes);
        expiry = v.expiry;
        speed = v.speed ∙ kept_unless_set-or_null l.speed_limit_bytes;
        addresses = v.addresses ∙ kept_unless_set-or_null l.ip_limit;
      },
    )

-- The Core has one link for each key. After a listing that reaches the Core, each config has a row if it had one
-- or if the Core has its link. With a link, the row has the link's counter and state, and those of its quota,
-- expiry, speed and address limit that are set, while for one that is not set the row keeps what it had.
-- Without a link it is as it was. The Core is left as it is.
pub list_links_lem :
    (d : Desk) (uuid : Str)
    → HasKeysOnce d.core.links
    → IsListed (get d.rows uuid) (get d.core.links uuid) (get (list_links true d).rows uuid)
      × ((list_links true d).core ≡ d.core)
list_links_lem d uuid once =
    let (same, left) = list_links-merged d uuid once in
    (
      subst (IsListed (get d.rows uuid) (get d.core.links uuid)) (sym same)
          (merged-IsListed (get d.rows uuid) (get d.core.links uuid)),
      left,
    )

-- A config that has a row and its link, one for its key, and is deleted while the Core cannot be reached comes
-- back: the deletion is answered with success and its row is gone, but the next listing that reaches the Core
-- makes a row for it again, and its link is there as it was.
pub delete_link-list_links :
    (d : Desk) (uuid : Str) (row : ConfigRow) (l : Link)
    → HasKeysOnce d.core.links
    → get d.rows uuid ≡ some row
    → get d.core.links uuid ≡ some l
    → let r = delete_link undelivered uuid d in
      let d' = list_links true r.0 in
      (r.1 ≡ done)
      × (get r.0.rows uuid ≡ none)
      × (get d'.rows uuid ≡ some (refreshed l (adopted l)))
      × (get d'.core.links uuid ≡ some l)
unfolding delete_link call_core
delete_link-list_links d uuid row l once there live =
    let gone = get-remove_self d.rows uuid in
    let left : Desk = record d { rows = remove d.rows uuid } in
    let listed = list_links-merged left uuid once in
    rw there (
      refl,
      gone,
      listed.0 ∙ rw (gone, live) refl,
      ap (λ (c : Core). get c.links uuid) listed.1 ∙ live,
    )
