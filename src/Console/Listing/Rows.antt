-- ===== src/Console/Listing/Rows.antt =====
-- console/api/emunel_console/services/links.py, `list_links`: the rows that its loops make.
use emunel.Prelude.{
  ◌≡◌, refl, ap, subst, ◌∙◌, Bool, true, false, Option, none, some, [], ◌∷◌, Str, str_eq,
  str_beq_iff, ◌==◌, is_some, if◌then◌else◌, Option-cases, inl, inr, Bool-cases,
}
use emunel.Prelude.Dict.{get, put, get-put}
use emunel.Prelude.Dict.Keys.{HasKeysOnce}
use emunel.State.Link.{Link}
use emunel.State.Links.{LinkStore}
use emunel.Console.Configs.{ConfigRow, ConfigTable}
use emunel.Console.Editing.{Desk}
use emunel.Console.Listing.{
  adopted, import_core_only, refreshed, refreshed_by, refresh_rows, list_links,
}

-- The row of a config, from its row and its link before.
abbrev pub merged : Option ConfigRow → Option Link → Option ConfigRow
merged none none = none
merged none (some l) = some (refreshed l (adopted l))
merged (some row) none = some row
merged (some row) (some l) = some (refreshed l row)

-- The row of a config that is adopted if it is not known.
abbrev adopted_row : Option ConfigRow → Option Link → Option ConfigRow → Option ConfigRow
adopted_row (some row) l old = old
adopted_row none none old = old
adopted_row none (some l) old = some (adopted l)

get-either :
    (b : Bool) (rows : ConfigTable) (k uuid : Str) (row : ConfigRow)
    → get (if b then rows else put rows k row) uuid
      ≡ (if b then get rows uuid else if k == uuid then some row else get rows uuid)
get-either true rows k uuid row = refl
get-either false rows k uuid row = get-put rows k uuid row

adopted-same :
    (o : Option ConfigRow) (l : Link) (old : Option ConfigRow)
    → adopted_row o none (if is_some o then old else some (adopted l)) ≡ adopted_row o (some l) old
adopted-same none l old = refl
adopted-same (some row) l old = refl

-- One round of the loop, seen at one config.
adopted-either :
    (known : ConfigTable) (k uuid : Str) (l : Link) (links : LinkStore) (rows : ConfigTable)
    → get links k ≡ none
    → adopted_row
        (get known uuid)
        (get links uuid)
        (get (if is_some (get known k) then rows else put rows k (adopted l)) uuid)
      ≡ adopted_row (get known uuid) (if k == uuid then some l else get links uuid) (get rows uuid)
adopted-either known k uuid l links rows new =
    rw (get-either (is_some (get known k)) rows k uuid (adopted l)) (elim (Bool-cases (k == uuid)) [
      | inl same ↦
          let key : k ≡ uuid = (str_beq_iff k uuid).0 same in
          let gone : get links uuid ≡ none = subst (λ (i : Str). get links i ≡ none) key new in
          let asked : get known k ≡ get known uuid = ap (get known) key in
          rw (same, asked, gone) (adopted-same (get known uuid) l (get rows uuid))
      | inr other ↦ elim (Bool-cases (is_some (get known k))) [
        | inl known_one ↦ rw (other, known_one) refl
        | inr new_one ↦ rw (other, new_one) refl
      ]
    ])

get-import_core_only :
    (known : ConfigTable) (links : LinkStore) (rows : ConfigTable) (uuid : Str)
    → HasKeysOnce links
    → get (import_core_only known links rows) uuid
      ≡ adopted_row (get known uuid) (get links uuid) (get rows uuid)
unfolding import_core_only get
get-import_core_only known [] rows uuid once = elim (Option-cases (get known uuid)) [
  | inl absent ↦ rw absent refl
  | inr (row, there) ↦ rw there refl
]
get-import_core_only known ((k, l) ∷ links) rows uuid (new, once) =
    let b = is_some (get known k) in
    let next = if b then rows else put rows k (adopted l) in
    get-import_core_only known links next uuid once ∙ adopted-either known k uuid l links rows new

get-refresh_rows :
    (links : LinkStore) (rows : ConfigTable) (uuid : Str)
    → get (refresh_rows links rows) uuid
      ≡ elim (get rows uuid) [ none ↦ none | some row ↦ some (refreshed_by (get links uuid) row) ]
unfolding refresh_rows get
get-refresh_rows links [] uuid = refl
get-refresh_rows links ((k, row) ∷ rows) uuid = elim (Bool-cases (k == uuid)) [
  | inl same ↦ let key : k ≡ uuid = (str_beq_iff k uuid).0 same in rw (same, key) refl
  | inr other ↦ rw other (get-refresh_rows links rows uuid)
]

merged-cases :
    (old : Option ConfigRow) (link : Option Link)
    → elim (adopted_row old link old) [ none ↦ none | some row ↦ some (refreshed_by link row) ]
      ≡ merged old link
merged-cases none none = refl
merged-cases none (some l) = refl
merged-cases (some row) none = refl
merged-cases (some row) (some l) = refl

pub list_links-merged :
    (d : Desk) (uuid : Str)
    → HasKeysOnce d.core.links
    → (get (list_links true d).rows uuid ≡ merged (get d.rows uuid) (get d.core.links uuid))
      × ((list_links true d).core ≡ d.core)
unfolding list_links
list_links-merged d uuid once = (
  get-refresh_rows d.core.links (import_core_only d.rows d.core.links d.rows) uuid
      ∙ ap
          (λ (o : Option ConfigRow). elim o as (λ _. Option ConfigRow) [
            | none ↦ none
            | some row ↦ some (refreshed_by (get d.core.links uuid) row)
          ])
          (get-import_core_only d.rows d.core.links d.rows uuid once)
      ∙ merged-cases (get d.rows uuid) (get d.core.links uuid),
  refl,
)
