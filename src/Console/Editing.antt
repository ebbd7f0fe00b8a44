-- ===== src/Console/Editing.antt =====
-- console/api/emunel_console/services/links.py: `create_link`, `update_link` and `delete_link`, each with the
-- handler of the Core that it calls. The activity log is left out.
pub mod Synced
pub mod Kept
pub mod Histories
use emunel.Prelude.{
  ℕ, Bool, true, false, ◌||◌, ◌&&◌, not, Option, none, some, List, [], ◌∷◌, ◌++◌, Str, codes, take,
  elem, leb, ◌==◌, nat_eq, str_eq, if◌then◌else◌, is_some,
}
use emunel.Prelude.Int.{ℤ, pos}
use emunel.Prelude.Float.{Floats}
use emunel.Prelude.Text.{strip}
use emunel.Prelude.Dict.{get, put, remove}
use emunel.Api.Links.{
  Core, Fresh, LinkBody, LinkPatch, Made, made, failed, protocols, or_text, link_from_body,
  core_links_create, core_links_update, core_links_delete,
}
use emunel.Api.Links.Patching.{or_old}
use emunel.Console.Configs.{ConfigRow, ConfigTable, LinkPolicy, or_null, post_of}
use emunel.Console.Policy.{
  Parsed, parsed, invalid, raises, ◌then_read◌, Reading, PolicyBody, parse_link_policy, parse_quota,
  parse_expiry, parse_speed, parse_ip_limit,
}

-- The table of an instance and its Core.
pub record Desk : Type 0 where
  pub rows : ConfigTable
  pub core : Core

-- How a call of the Core ends: it is never delivered, or its answer is lost, or it is answered.
pub data CoreCall : Type 0 where
  undelivered unanswered answered : CoreCall

-- `_core`: the Core after a call of this handler, and whether the caller gets an answer below 400.
unfoldable pub call_core : CoreCall → (Core → Core × ℕ) → Core → Core × Bool
call_core undelivered handler c = (c, false)
call_core unanswered handler c = ((handler c).0, false)
call_core answered handler c = ((handler c).0, not (leb 400 (handler c).1))

-- What a request ends with.
pub data Done : Type 0 where
  done bad_request not_found call_failed crashed : Done

abbrev pub refused : {A : Type 0} → Parsed A → Done
refused (parsed a) = done
refused invalid = bad_request
refused raises = crashed

-- str(...).strip()[:80]
abbrev pub clean_label : Option Str → Str
clean_label label = take 80 (strip (or_text label []))

abbrev pub row_of : Str → Str → LinkPolicy → ConfigRow
row_of label protocol p = record {
  label = label;
  protocol = some protocol;
  limit_bytes = or_null p.limit_bytes;
  expires_at = p.expires_at;
  speed_limit_bytes = or_null p.speed_limit_bytes;
  ip_limit = or_null p.ip_limit;
  active = true;
  used_cache = some 0;
}

-- `resp["uuid"]`
abbrev pub uuid_of : Made → Str
uuid_of (made l) = l.uuid
uuid_of (failed status) = []

-- The table changes once the Core has answered.
abbrev pub committed : Desk → ConfigTable → Core × Bool → Desk × Done
committed d rows (core, true) = (record { rows = rows; core = core }, done)
committed d rows (core, false) = (record d { core = core }, call_failed)

-- The request of a link has no `used_bytes`, which the Core reads as 0.
unfoldable pub post_link : CoreCall → Bool → Fresh → Str → Str → LinkPolicy → Desk → Desk × Done
post_link call runtime fresh label protocol p d =
    let b = post_of none label protocol 0 p in
    committed d (put d.rows (uuid_of (link_from_body fresh b)) (row_of label protocol p))
      (call_core call (core_links_create runtime fresh b) d.core)

-- What an edit changes.
pub record Changes : Type 0 where
  pub label : Option Str
  pub active : Option Bool
  pub limit_bytes : Option (Option ℕ)
  pub expires_at : Option (Option Str)
  pub speed_limit_bytes : Option ℕ
  pub ip_limit : Option ℕ
  pub reset_usage : Bool

abbrev pub number_of : Option ℕ → Option (Option ℤ)
number_of none = none
number_of (some n) = some (some (pos n))

abbrev pub limit_of : Option (Option ℕ) → Option (Option ℤ)
limit_of none = none
limit_of (some none) = some (some (pos 0))
limit_of (some (some n)) = some (some (pos n))

-- `core_body`
abbrev pub patch_of : Changes → LinkPatch
patch_of x = record {
  label = x.label;
  active = x.active;
  note = none;
  reset_usage = if x.reset_usage then some true else none;
  limit_bytes = limit_of x.limit_bytes;
  expires_at = x.expires_at;
  speed_limit_bytes = number_of x.speed_limit_bytes;
  ip_limit = number_of x.ip_limit;
}

abbrev is_change : Changes → Bool
is_change x =
    is_some x.label
    || is_some x.active
    || is_some x.limit_bytes
    || is_some x.expires_at
    || is_some x.speed_limit_bytes
    || is_some x.ip_limit
    || x.reset_usage

abbrev or_old_column : Option ℕ → Option ℕ → Option ℕ
or_old_column none a = a
or_old_column (some n) a = some n

-- The UPDATE of the row
abbrev pub edited : Changes → ConfigRow → ConfigRow
edited x row = record row {
  label = or_old x.label row.label;
  active = or_old x.active row.active;
  limit_bytes = or_old x.limit_bytes row.limit_bytes;
  expires_at = or_old x.expires_at row.expires_at;
  speed_limit_bytes = or_old_column x.speed_limit_bytes row.speed_limit_bytes;
  ip_limit = or_old_column x.ip_limit row.ip_limit;
  used_cache = if x.reset_usage then some 0 else row.used_cache;
}

unfoldable pub patch_link : CoreCall → Str → Changes → ConfigRow → Desk → Desk × Done
patch_link call uuid x row d =
    if is_change x
    then committed d (put d.rows uuid (edited x row))
        (call_core call (core_links_update uuid (patch_of x)) d.core)
    else (d, done)

module _ (F : Floats) (r : Reading F) where
  abbrev posted : CoreCall → Bool → Fresh → Str → Str → Parsed LinkPolicy → Desk → Desk × Done
  posted call runtime fresh label protocol (parsed p) d =
      post_link call runtime fresh label protocol p d
  posted call runtime fresh label protocol invalid d = (d, bad_request)
  posted call runtime fresh label protocol raises d = (d, crashed)

  unfoldable pub create_link :
      CoreCall → Bool → Fresh → Option Str → Option Str → PolicyBody F → Desk → Desk × Done
  create_link call runtime fresh protocol label b d =
      let proto = or_text protocol (codes "vless-ws") in
      if elem proto protocols
      then posted call runtime fresh (or_text (some (clean_label label)) (codes "Config " ++ proto))
          proto (parse_link_policy F r b) d
      else (d, bad_request)

  -- The body of an edit: a key is `none` where it is absent. `edits_expiry` says that it has
  -- `expiry_days` or `expires_at`.
  pub record ConfigEdit : Type 0 where
    pub label : Option Str
    pub active : Option Bool
    pub policy : PolicyBody F
    pub edits_expiry : Bool
    pub reset_usage : Bool

  -- A part of the body is read if its key is there.
  abbrev when : {A : Type 0} → Bool → Parsed A → Parsed (Option A)
  when false m = parsed none
  when true m = m then_read λ a. parsed (some a)

  -- `if label:`
  abbrev kept_label : Option Str → Option Str
  kept_label none = none
  kept_label (some s) = elim (clean_label (some s)) [ [] ↦ none | c ∷ t ↦ some (c ∷ t) ]

  unfoldable pub changes_of : ConfigEdit → Parsed Changes
  changes_of b =
      let p = b.policy in
      when (is_some p.limit || is_some p.limit_bytes || is_some p.unit) (parse_quota F r p)
      then_read λ limit. when b.edits_expiry (parse_expiry F r p) then_read λ expires_at.
          when (is_some p.speed_mbps) (parse_speed F r p) then_read λ speed.
          when (is_some p.ip_limit) (parse_ip_limit F r p) then_read λ ips. parsed (record {
            label = kept_label b.label;
            active = b.active;
            limit_bytes = limit;
            expires_at = expires_at;
            speed_limit_bytes = speed;
            ip_limit = ips;
            reset_usage = b.reset_usage;
          })

  abbrev patched : CoreCall → Str → Parsed Changes → ConfigRow → Desk → Desk × Done
  patched call uuid (parsed x) row d = patch_link call uuid x row d
  patched call uuid invalid row d = (d, bad_request)
  patched call uuid raises row d = (d, crashed)

  abbrev update_row : CoreCall → Str → ConfigEdit → Option ConfigRow → Desk → Desk × Done
  update_row call uuid b none d = (d, not_found)
  update_row call uuid b (some row) d = patched call uuid (changes_of b) row d

  unfoldable pub update_link : CoreCall → Str → ConfigEdit → Desk → Desk × Done
  update_link call uuid b d = update_row call uuid b (get d.rows uuid) d

abbrev delete_row : CoreCall → Str → Option ConfigRow → Desk → Desk × Done
delete_row call uuid none d = (d, not_found)
delete_row call uuid (some row) d = (
  record { rows = remove d.rows uuid; core = (call_core call (core_links_delete uuid) d.core).0 },
  done,
)

-- A failed call is logged, and the row is removed all the same.
unfoldable pub delete_link : CoreCall → Str → Desk → Desk × Done
delete_link call uuid d = delete_row call uuid (get d.rows uuid) d
