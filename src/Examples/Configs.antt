-- ===== src/Examples/Configs.antt =====
-- console/api/emunel_console/services/links.py: an instance with two configs.
use emunel.Prelude.{
  ℕ, ◌/◌, ◌≡◌, refl, ap, true, false, Option, none, some, List, [], ◌∷◌, Str, codes, str_eq,
  str_beq, elem, arith,
}
use emunel.Prelude.Int.{pos}
use emunel.Prelude.Dict.{get}
use emunel.Prelude.Text.{strip, lstrip}
use emunel.State.Link.{Link}
use emunel.State.Links.{get_allowed}
use emunel.Api.Links.{Core, Fresh, or_text, dashed, protocols}
use emunel.Api.Links.Restart.{new_core}
use emunel.Console.Configs.{ConfigRow, ConfigTable, LinkPolicy, Calls, reconcile_after_deploy}
use emunel.Console.Configs.Restored.{IsRestorable, HoldsLink}
use emunel.Console.Configs.Reconciled.{
  AllRestorable, reconcile_after_deploy-HoldsLink, get_allowed-reconcile_after_deploy,
  reconcile_after_deploy-settles,
}
use emunel.Console.Policy.{
  Reading, PolicyBody, number, whole, parsed, parse_link_policy, parse_quota, parse_expiry,
  parse_speed, parse_ip_limit, is_empty,
}
use emunel.Console.Editing.{undelivered, unanswered, answered, ConfigEdit}
use emunel.Console.Editing.Synced.{IsSynced}
use emunel.Console.Editing.Histories.{
  Event, creates, edits, deletes, charges, happen_all, happen_all-IsSynced,
}
use emunel.Examples.Fixtures.{milli, alice, clock, links}

-- The link of the second row is lost.
abbrev lost : Str
lost = codes "c"

abbrev row : ConfigRow
row = record {
  label = codes "Home";
  protocol = some (codes "vless-ws");
  limit_bytes = some 2000;
  expires_at = none;
  speed_limit_bytes = none;
  ip_limit = none;
  active = true;
  used_cache = some 400;
}

abbrev disabled : ConfigRow
disabled = record row { active = false; limit_bytes = none }

abbrev rows : ConfigTable
rows = (alice, row) ∷ (lost, disabled) ∷ []

abbrev core : Core
core = record new_core { links = links }

abbrev fresh : Fresh
fresh = record { token_hex = codes "0"; token_urlsafe = codes "p"; now_iso = codes "2025" }

abbrev calls : Calls
calls = record { delivered = λ uuid. true; runtime = true; fresh = fresh }

filed_row : (c : ℕ) (r : ConfigRow) → r.protocol ≡ some (codes "vless-ws") → IsRestorable (c ∷ []) r
unfolding dashed str_beq
filed_row c r e = record {
  kept = refl;
  named = λ h. ground (arith, h);
  known = ap (λ (o : Option Str). elem (or_text o (codes "vless-ws")) protocols) e;
}

rows-AllRestorable : AllRestorable rows
rows-AllRestorable = (filed_row b'a' row refl, (filed_row b'c' disabled refl, tt))

reconcile_after_deploy-HoldsLink_example :
    HoldsLink (reconcile_after_deploy true calls rows core) alice row true
unfolding get str_beq
reconcile_after_deploy-HoldsLink_example =
    reconcile_after_deploy-HoldsLink calls refl rows core alice row (refl, (refl, tt))
      rows-AllRestorable refl refl

get_allowed-reconcile_after_deploy_example :
    (l : Link) × (get_allowed clock (reconcile_after_deploy true calls rows core).links lost
      ≡ some l)
unfolding get str_beq
get_allowed-reconcile_after_deploy_example =
    get_allowed-reconcile_after_deploy calls refl clock rows core lost disabled (refl, (refl, tt))
      rows-AllRestorable refl refl refl refl refl refl

reconcile_after_deploy-settles_example :
    (let twice =
        reconcile_after_deploy true calls rows (reconcile_after_deploy true calls rows core) in
      reconcile_after_deploy true calls rows twice ≡ twice)
reconcile_after_deploy-settles_example =
    reconcile_after_deploy-settles calls calls rows core refl (λ uuid. refl)
      (unfold get str_beq in (refl, (refl, tt))) rows-AllRestorable

abbrev reading : Reading milli
reading = record {
  float_of = λ s. none;
  int_of = λ x. whole (pos (x / 1000));
  iso_of = λ s. some s;
  after_days = λ x. none;
}

-- Two megabytes and three addresses.
abbrev policy_body : PolicyBody milli
policy_body = record {
  limit = some (number 2000);
  limit_bytes = none;
  unit = some (codes "MB");
  expiry_days = none;
  expires_at = none;
  speed_mbps = none;
  ip_limit = some (number 3000);
}

abbrev policy : LinkPolicy
policy = record { limit_bytes = 2097152; expires_at = none; speed_limit_bytes = 0; ip_limit = 3 }

is_read : parse_link_policy milli reading policy_body ≡ parsed policy
unfolding parse_link_policy parse_quota parse_expiry parse_speed parse_ip_limit is_empty get str_beq
    strip lstrip
is_read = refl

abbrev edit : ConfigEdit milli reading
edit = record {
  label = some (codes "Office");
  active = some false;
  policy = policy_body;
  edits_expiry = false;
  reset_usage = true;
}

-- A config is made, edited, edited in vain, used and deleted.
abbrev events : List (Event milli reading)
events =
    creates answered true (record fresh { token_hex = alice }) none none policy_body
    ∷ edits answered alice edit
    ∷ edits undelivered alice edit
    ∷ charges clock alice 70
    ∷ deletes unanswered alice
    ∷ []

happen_all-IsSynced_example :
    IsSynced (happen_all milli reading events (record { rows = []; core = new_core }))
happen_all-IsSynced_example =
    happen_all-IsSynced milli reading events (record { rows = []; core = new_core })
      (tt, (tt, (tt, (tt, (tt, tt)))))
      (record { holds = λ uuid r found. absurd (unfold get in ground (arith, found)) })
