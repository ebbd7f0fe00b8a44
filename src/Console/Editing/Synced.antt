-- ===== src/Console/Editing/Synced.antt =====
-- console/api/emunel_console/services/links.py: rows and links that change together.
use emunel.Prelude.{
  ℕ, ◌≡◌, ◌≢◌, ap, subst, ◌∙◌, some, Str, ◌==◌, str_eq, str_beq_iff, nat_eq, arith, inl, inr,
  Bool-cases,
}
use emunel.Prelude.Dict.{get, put, remove, get-put, get-remove}
use emunel.State.Link.{Link}
use emunel.State.Links.{LinkStore, charge}
use emunel.Api.Links.{Core}
use emunel.Console.Configs.{ConfigRow}
use emunel.Console.Configs.Restored.{IsInLine, HoldsLink, put-found, put-other}
use emunel.Console.Editing.{Desk}

-- Every row has a link in the Core with its policy and its state.
pub record IsSynced (d : Desk) : Type 0 where
  pub holds :
      (uuid : Str) (row : ConfigRow)
      → get d.rows uuid ≡ some row
      → HoldsLink d.core uuid row row.active

charged-IsInLine :
    (row : ConfigRow) (l : Link) (n : ℕ)
    → IsInLine row row.active l
    → IsInLine row row.active (charge l n)
charged-IsInLine row l n v = record {
  limit = v.limit;
  expiry = v.expiry;
  speed = v.speed;
  ips = v.ips;
  state = v.state;
}

-- One link of the Core and the row that belongs to it change together.
pub sync-put :
    (d : Desk) (core : Core) (uuid : Str) (row : ConfigRow) (l : Link)
    → core.links ≡ put d.core.links uuid l
    → IsInLine row row.active l
    → IsSynced d
    → IsSynced (record { rows = put d.rows uuid row; core = core })
sync-put d core uuid row l f v s = record {
  holds = λ j r found. elim (Bool-cases (uuid == j)) [
    | inl here ↦
        let key : uuid ≡ j = (str_beq_iff uuid j).0 here in
        let value : row ≡ r = ground (arith, found, here, get-put d.rows uuid j row) in
        (
          l,
          ap (λ (links : LinkStore). get links j) f
              ∙ subst (λ (i : Str). get (put d.core.links uuid l) i ≡ some l) key
                  (put-found d.core.links uuid l),
          subst (λ (x : ConfigRow). IsInLine x x.active l) value v,
        )
    | inr there ↦
        let (l', e, i) = s.holds j r (ground (arith, found, there, get-put d.rows uuid j row)) in
        (
          l',
          ap (λ (links : LinkStore). get links j) f
              ∙ put-other d.core.links uuid j l
                  (λ e. absurd (ground (arith, there, (str_beq_iff uuid j).1 e)))
              ∙ e,
          i,
        )
  ];
}

-- The links stay as they are.
sync-same :
    (d : Desk) (core : Core)
    → core.links ≡ d.core.links
    → IsSynced d
    → IsSynced (record d { core = core })
sync-same d core f s = record {
  holds = λ j r found.
      let (l, e, i) = s.holds j r found in (l, ap (λ (links : LinkStore). get links j) f ∙ e, i);
}

-- Traffic changes nothing but the counter of a link.
pub sync-charge :
    (d : Desk) (core : Core) (uuid : Str) (live : Link) (n : ℕ)
    → get d.core.links uuid ≡ some live
    → core.links ≡ put d.core.links uuid (charge live n)
    → IsSynced d
    → IsSynced (record d { core = core })
sync-charge d core uuid live n g f s = record {
  holds = λ j r found. elim (Bool-cases (uuid == j)) [
    | inl here ↦
        let key : uuid ≡ j = (str_beq_iff uuid j).0 here in
        let (l, e, i) = s.holds j r found in
        let same : l ≡ live = ground (arith, e, g, key) in
        (
          charge live n,
          ap (λ (links : LinkStore). get links j) f
              ∙ subst
                  (λ (i : Str).
                    get (put d.core.links uuid (charge live n)) i ≡ some (charge live n))
                  key (put-found d.core.links uuid (charge live n)),
          charged-IsInLine r live n (subst (IsInLine r r.active) same i),
        )
    | inr there ↦
        let (l, e, i) = s.holds j r found in
        (
          l,
          ap (λ (links : LinkStore). get links j) f
              ∙ put-other d.core.links uuid j (charge live n)
                  (λ e. absurd (ground (arith, there, (str_beq_iff uuid j).1 e)))
              ∙ e,
          i,
        )
  ];
}

-- A row and its link go together, or the row alone.
pub sync-remove :
    (d : Desk) (core : Core) (uuid : Str)
    → ((j : Str) → uuid ≢ j → get core.links j ≡ get d.core.links j)
    → IsSynced d
    → IsSynced (record { rows = remove d.rows uuid; core = core })
sync-remove d core uuid f s = record {
  holds = λ j r found.
      let apart : uuid ≢ j =
        λ e. absurd (ground (arith, found, get-remove d.rows uuid j, (str_beq_iff uuid j).1 e)) in
      let (l, e, i) = s.holds j r (ground (arith, found, get-remove d.rows uuid j)) in
      (l, f j apart ∙ e, i);
}
