-- ===== src/Console/Configs/Restored.antt =====
-- console/api/emunel_console/services/links.py: one row of `reconcile_after_deploy`, with the handlers of
-- the Core.
use emunel.Prelude.{
  ◌≡◌, ◌≢◌, refl, ap, ◌∙◌, Bool, true, false, ◌||◌, not, Option, none, some, [], ◌∷◌, Str, codes,
  ◌==◌, nat_eq, str_eq, str_beq_iff, nat_same_iff, if◌then◌else◌, arith, inl, inr, Bool-cases,
  Option-cases, elem,
}
use emunel.Prelude.Int.{pos, eq_ℤ, eq_ℤ_iff}
use emunel.Prelude.Dict.{get, put, get-put}
use emunel.State.Link.{Link, new_link}
use emunel.State.Links.{LinkStore, add}
use emunel.Api.Links.{
  Core, Fresh, made, or_text, dashed, protocols, with_cipher, args_of, link_from_body, filed,
  apply_link_patch, core_links_create, core_links_update,
}
use emunel.Console.Configs.{
  ConfigRow, Calls, or_zero, restored_body, policy_patch, drift, differs, expiry_differs, restore,
  reapply, reconcile_row,
}

-- The link has the policy of the row, and this state. An empty expiry is none.
pub record IsInLine (row : ConfigRow) (active : Bool) (l : Link) : Type 0 where
  pub limit : l.limit_bytes ≡ pos (or_zero row.limit_bytes)
  pub expiry : or_text l.expires_at [] ≡ or_text row.expires_at []
  pub speed : l.speed_limit_bytes ≡ or_zero row.speed_limit_bytes
  pub ips : l.ip_limit ≡ or_zero row.ip_limit
  pub state : l.active ≡ active

-- The row can be made a link again: its uuid is in the form that the Core keeps, and its protocol known.
pub record IsRestorable (uuid : Str) (row : ConfigRow) : Type 0 where
  pub kept : dashed uuid ≡ uuid
  pub named : uuid ≢ []
  pub known : elem (or_text row.protocol (codes "vless-ws")) protocols ≡ true

all_false :
    (a b c d e : Bool)
    → (not a || b || not c || not d || e) ≡ false
    → (a ≡ true) × (b ≡ false) × (c ≡ true) × (d ≡ true) × (e ≡ false)
all_false a b c d e h = ground (arith, h)

all_true :
    (a b c d e : Bool)
    → a ≡ true
    → b ≡ false
    → c ≡ true
    → d ≡ true
    → e ≡ false
    → (not a || b || not c || not d || e) ≡ false
all_true a b c d e p q r s t = ground arith

module _ (row : ConfigRow) (l : Link) where
  -- The tests of `drift`.
  abbrev IsLevel : Type 0
  IsLevel =
      (eq_ℤ l.limit_bytes (pos (or_zero row.limit_bytes)) ≡ true)
      × (expiry_differs l.expires_at row.expires_at ≡ false)
      × ((l.speed_limit_bytes == or_zero row.speed_limit_bytes) ≡ true)
      × ((l.ip_limit == or_zero row.ip_limit) ≡ true)
      × (differs l.active row.active ≡ false)

  no_drift : drift row l ≡ false → IsLevel
  unfolding drift
  no_drift h = all_false _ _ _ _ _ h

  no_drift-IsInLine : drift row l ≡ false → IsInLine row row.active l
  no_drift-IsInLine h =
      let (a, b, c, d, e) = no_drift h in
      record {
        limit = (eq_ℤ_iff l.limit_bytes (pos (or_zero row.limit_bytes))).0 a;
        expiry =
            (str_beq_iff (or_text l.expires_at []) (or_text row.expires_at [])).0
              (ground (arith, b));
        speed = (nat_same_iff l.speed_limit_bytes (or_zero row.speed_limit_bytes)).0 c;
        ips = (nat_same_iff l.ip_limit (or_zero row.ip_limit)).0 d;
        state = ground (arith, e);
      }

  pub IsInLine-drift : IsInLine row row.active l → drift row l ≡ false
  unfolding drift
  IsInLine-drift v =
      all_true _ _ _ _ _ ((eq_ℤ_iff l.limit_bytes (pos (or_zero row.limit_bytes))).1 v.limit)
        (ground
          (arith, (str_beq_iff (or_text l.expires_at []) (or_text row.expires_at [])).1 v.expiry))
        ((nat_same_iff l.speed_limit_bytes (or_zero row.speed_limit_bytes)).1 v.speed)
        ((nat_same_iff l.ip_limit (or_zero row.ip_limit)).1 v.ips) (ground (arith, v.state))

pub with_cipher-IsInLine :
    (fresh : Fresh) (row : ConfigRow) (active : Bool) (l : Link)
    → IsInLine row active l
    → IsInLine row active (with_cipher fresh l)
unfolding with_cipher
with_cipher-IsInLine fresh row active l v = elim (Bool-cases (l.protocol == codes "shadowsocks")) [
  | inl e ↦
      rw e (record {
        limit = v.limit;
        expiry = v.expiry;
        speed = v.speed;
        ips = v.ips;
        state = v.state;
      })
  | inr e ↦ rw e v
]

pub with_cipher-uuid : (fresh : Fresh) (l : Link) → (with_cipher fresh l).uuid ≡ l.uuid
unfolding with_cipher
with_cipher-uuid fresh l = ground arith

or_text-named : (s d : Str) → s ≢ [] → or_text (some s) d ≡ s
or_text-named [] d h = absurd (h refl)
or_text-named (c ∷ s) d h = refl

pub or_text_again :
    (o : Option Str)
    → or_text (some (or_text o (codes "vless-ws"))) (codes "vless-ws")
      ≡ or_text o (codes "vless-ws")
or_text_again none = refl
or_text_again (some []) = refl
or_text_again (some (c ∷ s)) = refl

filed-links : (c : Core) (l : Link) → (filed true c (made l)).0.links ≡ put c.links l.uuid l
unfolding add
filed-links c l = ground arith

module _ (fresh : Fresh) (uuid : Str) (row : ConfigRow) where
  -- The row's link afresh: it runs.
  abbrev restored_link : Link
  restored_link = with_cipher fresh (
      new_link fresh.now_iso (
        args_of fresh (or_text row.protocol (codes "vless-ws")) (restored_body uuid row)
          (pos (or_zero row.limit_bytes)) (pos (or_zero row.used_cache))
          (pos (or_zero row.speed_limit_bytes)) (pos (or_zero row.ip_limit))))

  restored_link-uuid : IsRestorable uuid row → restored_link.uuid ≡ uuid
  unfolding new_link restored_body
  restored_link-uuid v =
      with_cipher-uuid fresh _ ∙ ap dashed (or_text-named uuid fresh.token_hex v.named) ∙ v.kept

  link_from_body-restored :
      IsRestorable uuid row → link_from_body fresh (restored_body uuid row) ≡ made restored_link
  unfolding link_from_body restored_body
  link_from_body-restored v = rw (or_text_again row.protocol, v.known) refl

  create-links :
      (c : Core)
      → IsRestorable uuid row
      → (core_links_create true fresh (restored_body uuid row) c).0.links
        ≡ put c.links uuid restored_link
  unfolding core_links_create add
  create-links c v = rw (link_from_body-restored v) (
      filed-links c restored_link
      ∙ ap (λ (j : Str). put c.links j restored_link) (restored_link-uuid v))

  restored_link-IsInLine : IsInLine row true restored_link
  unfolding new_link restored_body
  restored_link-IsInLine =
      with_cipher-IsInLine fresh row true _
        (record { limit = refl; expiry = refl; speed = refl; ips = refl; state = refl })

abbrev patched_link : ConfigRow → Link → Link
patched_link row live = record live {
  active = row.active;
  limit_bytes = pos (or_zero row.limit_bytes);
  expires_at = row.expires_at;
  speed_limit_bytes = or_zero row.speed_limit_bytes;
  ip_limit = or_zero row.ip_limit;
}

update-links :
    (uuid : Str) (row : ConfigRow) (c : Core) (live : Link)
    → get c.links uuid ≡ some live
    → (core_links_update uuid (policy_patch row) c).0.links
      ≡ put c.links uuid (patched_link row live)
unfolding core_links_update policy_patch apply_link_patch
update-links uuid row c live e = rw e refl

-- The state of a row's link: one that was lost runs again.
abbrev pub state_of : ConfigRow → Option Link → Bool
state_of row none = true
state_of row (some live) = row.active

-- A link that is in line with its row, in this state.
abbrev pub HoldsLink : Core → Str → ConfigRow → Bool → Type 0
HoldsLink c uuid row active = (l : Link) × (get c.links uuid ≡ some l) × IsInLine row active l

pub put-found : (links : LinkStore) (uuid : Str) (l : Link) → get (put links uuid l) uuid ≡ some l
put-found links uuid l = ground (arith, get-put links uuid uuid l, (str_beq_iff uuid uuid).1 refl)

pub put-other :
    (links : LinkStore) (uuid j : Str) (l : Link)
    → uuid ≢ j
    → get (put links uuid l) j ≡ get links j
put-other links uuid j l h = ground (arith, get-put links uuid j l, (str_beq_iff uuid j).0)

module _ (k : Calls) (runs : k.runtime ≡ true) where
  restore-links :
      (uuid : Str) (row : ConfigRow) (c : Core)
      → IsRestorable uuid row
      → (restore k uuid row c).links
        ≡ (if k.delivered uuid then put c.links uuid (restored_link k.fresh uuid row) else c.links)
  unfolding restore
  restore-links uuid row c v = elim (Bool-cases (k.delivered uuid)) [
    | inl d ↦ rw (d, runs) (create-links k.fresh uuid row c v)
    | inr d ↦ rw d refl
  ]

  pub reconcile_row-HoldsLink :
      (uuid : Str) (row : ConfigRow) (live : Option Link) (c : Core)
      → IsRestorable uuid row
      → k.delivered uuid ≡ true
      → get c.links uuid ≡ live
      → HoldsLink (reconcile_row k uuid row live c) uuid row (state_of row live)
  unfolding reconcile_row
  reconcile_row-HoldsLink uuid row none c v d e =
      let l = restored_link k.fresh uuid row in
      (
        l,
        rw (restore-links uuid row c v, d) (put-found c.links uuid l),
        restored_link-IsInLine k.fresh uuid row,
      )
  reconcile_row-HoldsLink uuid row (some live) c v d e = elim (Bool-cases (drift row live)) [
    | inl drifts ↦
        rw (drifts, reapply, d, update-links uuid row c live e)
          (
            patched_link row live,
            put-found c.links uuid (patched_link row live),
            record { limit = refl; expiry = refl; speed = refl; ips = refl; state = refl },
          )
    | inr fine ↦ rw fine (live, e, no_drift-IsInLine row live fine)
  ]

  reapply-other :
      (uuid j : Str) (row : ConfigRow) (c : Core)
      → uuid ≢ j
      → get (reapply k uuid row c).links j ≡ get c.links j
  unfolding reapply core_links_update
  reapply-other uuid j row c h = elim (Bool-cases (k.delivered uuid)) [
    | inl d ↦ elim (Option-cases (get c.links uuid)) [
      | inl e ↦ rw (d, e) refl
      | inr (live, e) ↦ rw d (
          ap (λ (links : LinkStore). get links j) (update-links uuid row c live e)
          ∙ put-other c.links uuid j (patched_link row live) h)
    ]
    | inr d ↦ rw d refl
  ]

  pub reconcile_row-other :
      (uuid j : Str) (row : ConfigRow) (live : Option Link) (c : Core)
      → IsRestorable uuid row
      → uuid ≢ j
      → get (reconcile_row k uuid row live c).links j ≡ get c.links j
  unfolding reconcile_row
  reconcile_row-other uuid j row none c v h =
      rw (restore-links uuid row c v)
        (ground (arith, put-other c.links uuid j (restored_link k.fresh uuid row) h))
  reconcile_row-other uuid j row (some live) c v h = ground (arith, reapply-other uuid j row c h)
