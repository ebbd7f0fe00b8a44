-- ===== src/Console/Configs/Reconciled.antt =====
-- console/api/emunel_console/services/links.py: `reconcile_after_deploy` over all rows.
use emunel.Prelude.{
  ℕ, ◌≡◌, ◌≢◌, refl, sym, ap, subst, ◌∙◌, true, false, Option, none, some, [], ◌∷◌, Str, ◌==◌,
  str_eq, str_beq_iff, arith, inl, inr, Bool-cases, All,
}
use mathlib.Core.Path.{subst₂}
use emunel.Prelude.Int.{pos}
use emunel.Prelude.Dict.{get}
use emunel.Prelude.Dict.Keys.{HasKeysOnce, All-found}
use emunel.State.Link.{Link, Clock, is_allowed, is_expired, over_quota}
use emunel.State.Links.{LinkStore, get_allowed}
use emunel.Api.Links.{Core, or_text}
use emunel.Console.Configs.{
  ConfigRow, ConfigTable, Calls, or_zero, reconcile_row, reconcile_rows, reconcile_after_deploy,
}
use emunel.Console.Configs.Restored.{
  IsInLine, IsRestorable, IsInLine-drift, state_of, HoldsLink, reconcile_row-HoldsLink,
  reconcile_row-other,
}

abbrev pub AllRestorable : ConfigTable → Type 0
AllRestorable rows = All (λ p. IsRestorable p.0 p.1) rows

-- Rounds that find a link in line with every row change nothing.
all_in_line :
    (k : Calls) (rows : ConfigTable) (live : LinkStore) (c : Core)
    → All (λ p. (l : Link) × (get live p.0 ≡ some l) × IsInLine p.1 p.1.active l) rows
    → reconcile_rows k rows live c ≡ c
unfolding reconcile_rows reconcile_row
all_in_line k [] live c h = refl
all_in_line k ((uuid, row) ∷ rows) live c ((l, e, v), h) =
    rw (e, IsInLine-drift row l v) (all_in_line k rows live c h)

unlimited-is_allowed :
    (clock : Clock) (l : Link)
    → l.active ≡ true
    → l.limit_bytes ≡ pos 0
    → or_text l.expires_at [] ≡ []
    → is_allowed clock l ≡ true
unfolding is_allowed is_expired over_quota
unlimited-is_allowed clock l a q e = ground (arith, a, q, e)

module _ (k : Calls) (runs : k.runtime ≡ true) where
  reconcile_rows-other :
      (rows : ConfigTable) (live : LinkStore) (c : Core) (j : Str)
      → AllRestorable rows
      → get rows j ≡ none
      → get (reconcile_rows k rows live c).links j ≡ get c.links j
  unfolding reconcile_rows get
  reconcile_rows-other [] live c j v h = refl
  reconcile_rows-other ((uuid, row) ∷ rows) live c j (v, vs) h =
      let c' = reconcile_row k uuid row (get live uuid) c in
      let apart : uuid ≢ j = λ e. absurd (ground (arith, h, (str_beq_iff uuid j).1 e)) in
      reconcile_rows-other rows live c' j vs (ground (arith, h))
      ∙ reconcile_row-other k runs uuid j row (get live uuid) c v apart

  reconcile_rows-HoldsLink :
      (rows : ConfigTable) (live : LinkStore) (c : Core) (uuid : Str) (row : ConfigRow)
      → HasKeysOnce rows
      → AllRestorable rows
      → get rows uuid ≡ some row
      → k.delivered uuid ≡ true
      → get c.links uuid ≡ get live uuid
      → HoldsLink (reconcile_rows k rows live c) uuid row (state_of row (get live uuid))
  unfolding reconcile_rows get
  reconcile_rows-HoldsLink [] live c uuid row once vs found d same = absurd (ground (arith, found))
  reconcile_rows-HoldsLink ((j, r) ∷ rows) live c uuid row (new, once) (v, vs) found d same =
      let c' = reconcile_row k j r (get live j) c in
      elim (Bool-cases (j == uuid)) [
        | inl here ↦
            let key : j ≡ uuid = (str_beq_iff j uuid).0 here in
            let value : r ≡ row = ground (arith, found, here) in
            let (l, e, i) =
              reconcile_row-HoldsLink k runs j r (get live j) c v (ap k.delivered key ∙ d)
                (ap (get c.links) key ∙ same ∙ sym (ap (get live) key)) in
            subst₂
              (λ (u : Str) (x : ConfigRow).
                HoldsLink (reconcile_rows k rows live c') u x (state_of x (get live u)))
              key value (l, reconcile_rows-other rows live c' j vs new ∙ e, i)
        | inr there ↦
            let apart : j ≢ uuid = λ e. absurd (ground (arith, there, (str_beq_iff j uuid).1 e)) in
            reconcile_rows-HoldsLink rows live c' uuid row once vs (ground (arith, found, there)) d
              (reconcile_row-other k runs j uuid r (get live j) c v apart ∙ same)
      ]

  -- After a deployment the Core has a link for each row of the table, with the row's quota, expiry, speed
  -- and address limit: one that the Core listed has the row's state too, and one that it had lost is
  -- made again with the same uuid and runs. Calls for other rows may fail. The Core answers with its links
  -- and has a runtime for VMess, the rows can be made links, and the call for this row is delivered.
  pub reconcile_after_deploy-HoldsLink :
      (rows : ConfigTable) (c : Core) (uuid : Str) (row : ConfigRow)
      → HasKeysOnce rows
      → AllRestorable rows
      → get rows uuid ≡ some row
      → k.delivered uuid ≡ true
      → HoldsLink (reconcile_after_deploy true k rows c) uuid row (state_of row (get c.links uuid))
  unfolding reconcile_after_deploy
  reconcile_after_deploy-HoldsLink rows c uuid row once v found d =
      reconcile_rows-HoldsLink rows c.links c uuid row once v found d refl

  -- A config that was disabled, and whose link the Core lost, is allowed to relay after the deployment,
  -- at any clock. It has no quota and no expiry; the conditions are those of a reconciliation that works.
  pub get_allowed-reconcile_after_deploy :
      (clock : Clock) (rows : ConfigTable) (c : Core) (uuid : Str) (row : ConfigRow)
      → HasKeysOnce rows
      → AllRestorable rows
      → get rows uuid ≡ some row
      → k.delivered uuid ≡ true
      → get c.links uuid ≡ none
      → row.active ≡ false
      → row.limit_bytes ≡ none
      → row.expires_at ≡ none
      → (l : Link) × (get_allowed clock (reconcile_after_deploy true k rows c).links uuid ≡ some l)
  unfolding get_allowed
  get_allowed-reconcile_after_deploy clock rows c uuid row once v found d lost disabled unlimited
        for_ever =
      let (l, e, i) = reconcile_after_deploy-HoldsLink rows c uuid row once v found d in
      let runs_again : l.active ≡ true = i.state ∙ ap (state_of row) lost in
      (
        l,
        rw
            (
              e,
              unlimited-is_allowed clock l runs_again
                  (i.limit ∙ ap (λ (o : Option ℕ). pos (or_zero o)) unlimited)
                  (i.expiry ∙ ap (λ (o : Option Str). or_text o []) for_ever),
            )
            refl,
      )

-- A second reconciliation finds every link of the first and applies what differs, so from the third on
-- nothing changes, whatever becomes of the calls. The Core answers with its links and has a runtime
-- for VMess, the rows can be made links, and all calls of the first two are delivered.
pub reconcile_after_deploy-settles :
    (k k' : Calls) (rows : ConfigTable) (c : Core)
    → k.runtime ≡ true
    → ((uuid : Str) → k.delivered uuid ≡ true)
    → HasKeysOnce rows
    → AllRestorable rows
    → (let twice = reconcile_after_deploy true k rows (reconcile_after_deploy true k rows c) in
        reconcile_after_deploy true k' rows twice ≡ twice)
unfolding reconcile_after_deploy
reconcile_after_deploy-settles k k' rows c runs d once v =
    let first = reconcile_after_deploy true k rows c in
    let second = reconcile_after_deploy true k rows first in
    all_in_line k' rows second.links second (
      All-found (λ p. (l : Link) × (get second.links p.0 ≡ some l) × IsInLine p.1 p.1.active l) rows
        once
        (λ uuid row found.
          let (l, e, i) =
            reconcile_after_deploy-HoldsLink k runs rows c uuid row once v found (d uuid) in
          let (l', e', i') =
            reconcile_after_deploy-HoldsLink k runs rows first uuid row once v found (d uuid) in
          (l', e', subst (λ (o : Option Link). IsInLine row (state_of row o) l') e i')))
