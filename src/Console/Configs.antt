-- ===== src/Console/Configs.antt =====
-- console/api/emunel_console/services/links.py: the configs of one instance. The table `instance_links`
-- has one row for a `link_uuid`; its statements succeed. A call of the Core through the worker is its
-- handler, and it raises where it is not delivered or answers 400 or more.
pub mod Restored
pub mod Reconciled
use emunel.Prelude.{
  ℕ, Bool, true, false, ◌||◌, ◌&&◌, not, Option, none, some, List, [], ◌∷◌, ◌++◌, Str, codes, ◌==◌,
  nat_eq, str_eq, if◌then◌else◌, leb,
}
use emunel.Prelude.Int.{ℤ, pos, eq_ℤ, at_least_zero}
use emunel.Prelude.Text.{strip}
use emunel.Prelude.Dict.{Dict, get, put, remove}
use emunel.State.Link.{Link}
use emunel.State.Links.{LinkStore}
use emunel.Api.Links.{
  Core, LinkBody, LinkPatch, Fresh, or_text, core_links_create, core_links_update,
  core_links_delete,
}

-- A row of the table, which stands under its `link_uuid`; a column is `none` where it is NULL.
pub record ConfigRow : Type 0 where
  pub label : Str
  pub protocol : Option Str
  pub limit_bytes : Option ℕ
  pub expires_at : Option Str
  pub speed_limit_bytes : Option ℕ
  pub ip_limit : Option ℕ
  pub active : Bool
  pub used_cache : Option ℕ

abbrev pub ConfigTable : Type 0
ConfigTable = Dict Str ConfigRow

pub record LinkPolicy : Type 0 where
  pub limit_bytes : ℕ
  pub expires_at : Option Str
  pub speed_limit_bytes : ℕ
  pub ip_limit : ℕ

-- `int(x or 0)`
abbrev pub or_zero : Option ℕ → ℕ
or_zero none = 0
or_zero (some n) = n

-- `value or None`
abbrev pub or_null : ℕ → Option ℕ
or_null n = if n == 0 then none else some n

abbrev pub policy_of : ConfigRow → LinkPolicy
policy_of row = record {
  limit_bytes = or_zero row.limit_bytes;
  expires_at = row.expires_at;
  speed_limit_bytes = or_zero row.speed_limit_bytes;
  ip_limit = or_zero row.ip_limit;
}

-- What a POST of a link says with the fields of `_policy_to_core`.
abbrev pub post_of : Option Str → Str → Str → ℕ → LinkPolicy → LinkBody
post_of uuid label protocol used p = record {
  protocol = some protocol;
  uuid = uuid;
  label = some label;
  active = true;
  limit_bytes = some (pos p.limit_bytes);
  used_bytes = some (pos used);
  expires_at = p.expires_at;
  note = none;
  alpn = none;
  fingerprint = none;
  ss_cipher = none;
  ss_password = none;
  speed_limit_bytes = some (pos p.speed_limit_bytes);
  ip_limit = some (pos p.ip_limit);
}

-- The body that restores a lost link.
unfoldable pub restored_body : Str → ConfigRow → LinkBody
restored_body uuid row =
    post_of (some uuid)
      (or_text (some row.label) (strip (codes "Config " ++ or_text row.protocol [])))
      (or_text row.protocol (codes "vless-ws")) (or_zero row.used_cache) (policy_of row)

-- The patch that applies the policy of a row again.
unfoldable pub policy_patch : ConfigRow → LinkPatch
policy_patch row =
    let p = policy_of row in
    record {
      label = none;
      active = some row.active;
      note = none;
      reset_usage = none;
      limit_bytes = some (some (pos p.limit_bytes));
      expires_at = some p.expires_at;
      speed_limit_bytes = some (some (pos p.speed_limit_bytes));
      ip_limit = some (some (pos p.ip_limit));
    }

-- `(a or None) != (b or None)`
abbrev pub expiry_differs : Option Str → Option Str → Bool
expiry_differs a b = not (or_text a [] == or_text b [])

abbrev pub differs : Bool → Bool → Bool
differs true b = not b
differs false b = b

unfoldable pub drift : ConfigRow → Link → Bool
drift row live =
    not (eq_ℤ live.limit_bytes (pos (or_zero row.limit_bytes)))
    || expiry_differs live.expires_at row.expires_at
    || not (live.speed_limit_bytes == or_zero row.speed_limit_bytes)
    || not (live.ip_limit == or_zero row.ip_limit)
    || differs live.active row.active

-- What decides over the calls of one reconciliation: whether the call for a link is delivered, whether the
-- Core has a runtime for VMess, and what its `secrets` and clock give.
pub record Calls : Type 0 where
  pub delivered : Str → Bool
  pub runtime : Bool
  pub fresh : Fresh

restore : Calls → Str → ConfigRow → Core → Core
restore k uuid row c =
    if k.delivered uuid
    then (core_links_create k.runtime k.fresh (restored_body uuid row) c).0
    else c

reapply : Calls → Str → ConfigRow → Core → Core
reapply k uuid row c =
    if k.delivered uuid then (core_links_update uuid (policy_patch row) c).0 else c

-- One round of the loop, with the link that the Core listed.
unfoldable pub reconcile_row : Calls → Str → ConfigRow → Option Link → Core → Core
unfolding restore reapply
reconcile_row k uuid row none c = restore k uuid row c
reconcile_row k uuid row (some live) c = if drift row live then reapply k uuid row c else c

unfoldable pub reconcile_rows : Calls → ConfigTable → LinkStore → Core → Core
reconcile_rows k [] live c = c
reconcile_rows k ((uuid, row) ∷ rows) live c =
    reconcile_rows k rows live (reconcile_row k uuid row (get live uuid) c)

-- `reconcile_after_deploy`: `listed` says that the Core answers with its links. Nothing else happens to
-- the Core meanwhile.
unfoldable pub reconcile_after_deploy : Bool → Calls → ConfigTable → Core → Core
reconcile_after_deploy listed k rows c = if listed then reconcile_rows k rows c.links c else c
