-- ===== src/Api/Links.antt =====
-- core/emunel_core/app.py: the links in the management API. A request's body is read as the fields that the
-- code looks up; a number is `none` where `int(...)` raises. The bearer token is checked before.
pub mod Clean
pub mod Patching
pub mod Restart
use emunel.Prelude.{
  ℕ, ◌+◌, ◌-◌, Bool, true, false, ◌&&◌, ◌||◌, not, Option, none, some, List, [], ◌∷◌, ◌++◌, Str,
  codes, take, drop, length, ltb, ◌==◌, nat_eq, str_eq, if◌then◌else◌, elem, str_beq, is_some,
}
use emunel.Prelude.Int.{ℤ, pos, at_least_zero}
use emunel.Prelude.Dict.{get, put}
use emunel.State.Link.{Link, LinkArgs, new_link}
use emunel.State.Links.{LinkStore, add, pop}
use emunel.State.Saver.{Saver, happen, changes}
use emunel.State.Speed.{SpeedLimiter, reset}

-- The fields of a new link. A text is `none` where it is missing.
pub record LinkBody : Type 0 where
  pub protocol : Option Str
  pub uuid : Option Str
  pub label : Option Str
  pub active : Bool
  pub limit_bytes : Option ℤ
  pub used_bytes : Option ℤ
  pub expires_at : Option Str
  pub note : Option Str
  pub alpn : Option Str
  pub fingerprint : Option Str
  pub ss_cipher : Option Str
  pub ss_password : Option Str
  pub speed_limit_bytes : Option ℤ
  pub ip_limit : Option ℤ

-- What `secrets` gives, and the clock.
pub record Fresh : Type 0 where
  pub token_hex : Str
  pub token_urlsafe : Str
  pub now_iso : Str

abbrev pub protocols : List Str
protocols =
    codes "vless-ws"
    ∷ codes "xhttp-packet-up"
    ∷ codes "xhttp-stream-up"
    ∷ codes "trojan-ws"
    ∷ codes "trojan-xhttp-packet-up"
    ∷ codes "trojan-xhttp-stream-up"
    ∷ codes "shadowsocks"
    ∷ codes "vmess-ws"
    ∷ []

-- `x or default`
abbrev pub or_text : Option Str → Str → Str
or_text none d = d
or_text (some []) d = d
or_text (some (c ∷ s)) d = c ∷ s

abbrev pub ss_ciphers : List Str
ss_ciphers = codes "aes-256-gcm" ∷ codes "chacha20-ietf-poly1305" ∷ []

-- Thirty-two characters without a dash are taken for hexadecimal digits.
unfoldable pub dashed : Str → Str
dashed uuid =
    if length uuid == 32 && not (elem b'-' uuid)
    then take 8 uuid
      ++ (b'-' ∷ take 4 (drop 8 uuid)
          ++ (b'-' ∷ take 4 (drop 12 uuid)
              ++ (b'-' ∷ take 4 (drop 16 uuid) ++ (b'-' ∷ take 12 (drop 20 uuid)))))
    else uuid

abbrev known_cipher : Option Str → Str
known_cipher none = codes "chacha20-ietf-poly1305"
known_cipher (some c) = if elem c ss_ciphers then c else codes "chacha20-ietf-poly1305"

-- What a Shadowsocks link needs besides.
unfoldable pub with_cipher : Fresh → Link → Link
with_cipher fresh l =
    if l.protocol == codes "shadowsocks"
    then record l {
      ss_cipher = some (known_cipher l.ss_cipher);
      ss_password = some (or_text l.ss_password fresh.token_urlsafe);
    }
    else l

abbrev pub args_of : Fresh → Str → LinkBody → ℤ → ℤ → ℤ → ℤ → LinkArgs
args_of fresh protocol b limit used speed ips = record {
  uuid = dashed (or_text b.uuid fresh.token_hex);
  label = take 80 (or_text b.label (codes "Link"));
  protocol = protocol;
  active = b.active;
  limit_bytes = limit;
  used_bytes = used;
  created_at = none;
  expires_at = b.expires_at;
  note = take 300 (or_text b.note []);
  alpn = take 60 (or_text b.alpn (codes "h2,http/1.1"));
  fingerprint = or_text b.fingerprint (codes "chrome");
  ss_cipher = b.ss_cipher;
  ss_password = b.ss_password;
  speed_limit_bytes = speed;
  ip_limit = ips;
}

pub data Made : Type 0 where
  made : Link → Made
  failed : ℕ → Made

-- The four numbers of a body, if `int(...)` raises at none of them.
abbrev pub make_link : Fresh → Str → LinkBody → Option ℤ → Option ℤ → Option ℤ → Option ℤ → Made
make_link fresh protocol b (some limit) (some used) (some speed) (some ips) =
    made
      (with_cipher fresh (new_link fresh.now_iso (args_of fresh protocol b limit used speed ips)))
make_link fresh protocol b _ _ _ _ = failed 500

-- `_link_from_body`
unfoldable pub link_from_body : Fresh → LinkBody → Made
link_from_body fresh b =
    let protocol = or_text b.protocol (codes "vless-ws") in
    if elem protocol protocols
    then make_link fresh protocol b b.limit_bytes b.used_bytes b.speed_limit_bytes b.ip_limit
    else failed 400

-- The part of the Core that these handlers change.
pub record Core : Type 0 where
  pub links : LinkStore
  pub speed : SpeedLimiter
  pub saver : Saver

-- `_schedule_save`
abbrev pub save_later : Core → Core
save_later c = record c { saver = happen changes c.saver }

abbrev pub filed : Bool → Core → Made → Core × ℕ
filed runtime c (failed status) = (c, status)
filed runtime c (made l) =
    if l.protocol == codes "vmess-ws" && not runtime
    then (c, 503)
    else (save_later (record c { links = add c.links l }), 200)

-- `core_links_create`: `runtime` says that `verify_binary` finds its runtime.
unfoldable pub core_links_create : Bool → Fresh → LinkBody → Core → Core × ℕ
core_links_create runtime fresh b c = filed runtime c (link_from_body fresh b)

-- A patch: a field is `none` where it is missing.
pub record LinkPatch : Type 0 where
  pub label : Option Str
  pub active : Option Bool
  pub note : Option Str
  pub reset_usage : Option Bool
  pub limit_bytes : Option (Option ℤ)
  pub expires_at : Option (Option Str)
  pub speed_limit_bytes : Option (Option ℤ)
  pub ip_limit : Option (Option ℤ)

-- A link that is patched so far; `raised` stops the patch where it is.
pub data Patched : Type 0 where
  so_far : Link → Patched
  raised : Link → Patched

infixl 5 ◌then_patch◌
abbrev pub ◌then_patch◌ : Patched → (Link → Patched) → Patched
so_far l then_patch f = f l
raised l then_patch f = raised l

set_label : Option Str → Link → Patched
set_label none l = so_far l
set_label (some label) l = so_far (record l { label = take 80 label })

set_active : Option Bool → Link → Patched
set_active none l = so_far l
set_active (some active) l = so_far (record l { active = active })

set_note : Option Str → Link → Patched
set_note none l = so_far l
set_note (some note) l = so_far (record l { note = take 300 note })

reset_used : Option Bool → Link → Patched
reset_used (some true) l = so_far (record l { used_bytes = pos 0 })
reset_used _ l = so_far l

set_limit_bytes : Option (Option ℤ) → Link → Patched
set_limit_bytes none l = so_far l
set_limit_bytes (some none) l = raised l
set_limit_bytes (some (some n)) l = so_far (record l { limit_bytes = pos (at_least_zero n) })

set_expiry : Option (Option Str) → Link → Patched
set_expiry none l = so_far l
set_expiry (some expires_at) l = so_far (record l { expires_at = expires_at })

set_speed : Option (Option ℤ) → Link → Patched
set_speed none l = so_far l
set_speed (some none) l = raised l
set_speed (some (some n)) l = so_far (record l { speed_limit_bytes = at_least_zero n })

set_ips : Option (Option ℤ) → Link → Patched
set_ips none l = so_far l
set_ips (some none) l = raised l
set_ips (some (some n)) l = so_far (record l { ip_limit = at_least_zero n })

-- `_apply_link_patch`, which changes the stored link field by field
unfoldable pub apply_link_patch : LinkPatch → Link → Patched
unfolding set_label set_active set_note reset_used set_limit_bytes set_expiry set_speed set_ips
apply_link_patch p l =
    set_label p.label l
    then_patch set_active p.active
    then_patch set_note p.note
    then_patch reset_used p.reset_usage
    then_patch set_limit_bytes p.limit_bytes
    then_patch set_expiry p.expires_at
    then_patch set_speed p.speed_limit_bytes
    then_patch set_ips p.ip_limit

-- `"speed_limit_bytes" in body or "reset_usage" in body`
abbrev resets_speed : LinkPatch → Bool
resets_speed p = is_some p.speed_limit_bytes || is_some p.reset_usage

abbrev pub patched_core : LinkPatch → Str → Core → Patched → Core × ℕ
patched_core p uuid c (raised l) = (record c { links = put c.links uuid l }, 500)
patched_core p uuid c (so_far l) = (
  save_later (record c {
    links = put c.links uuid l;
    speed = if resets_speed p then reset uuid c.speed else c.speed;
  }),
  200,
)

abbrev pub update_found : LinkPatch → Str → Core → Option Link → Core × ℕ
update_found p uuid c none = (c, 404)
update_found p uuid c (some l) = patched_core p uuid c (apply_link_patch p l)

unfoldable pub core_links_update : Str → LinkPatch → Core → Core × ℕ
core_links_update uuid p c = update_found p uuid c (get c.links uuid)

abbrev pub deleted : Core → LinkStore × Option Link → Core × ℕ
deleted c (links, none) = (c, 404)
deleted c (links, some l) = (save_later (record c { links = links }), 200)

unfoldable pub core_links_delete : Str → Core → Core × ℕ
core_links_delete uuid c = deleted c (pop c.links uuid)
