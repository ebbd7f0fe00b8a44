-- ===== src/State/Store.antt =====
-- core/emunel_core/state.py: `StateStore`, the state file. JSON and the file system are outside: a file
-- holds the document that was written, and what is not a document is `unreadable`.
pub mod RoundTrip
use emunel.Prelude.{
  ℕ, Bool, true, false, Option, none, some, List, [], ◌∷◌, Str, map, if◌then◌else◌, str_eq,
}
use emunel.Prelude.Int.{ℤ, pos, at_least_zero}
use emunel.Prelude.Dict.{Dict, get, put}
use emunel.Prelude.Dict.Keys.{put_all}
use emunel.State.Link.{Link, LinkArgs, new_link}
use emunel.State.Links.{LinkStore, add}
use emunel.State.Stats.{RuntimeStats}

-- The payload. An entry of `links` is `none` where `Link(**data)` raises `TypeError`; a missing or
-- empty `hourly` is empty.
pub record Document : Type 0 where
  pub saved_at : Str
  pub total_bytes : ℕ
  pub instance_cap_bytes : ℤ
  pub hourly : Dict Str ℕ
  pub links : List (Option LinkArgs)

pub data StateFile : Type 0 where
  missing unreadable : StateFile
  holds : Document → StateFile

-- `{slot: getattr(link, slot) for slot in Link.__slots__}`
unfoldable pub slots : Link → LinkArgs
slots l = record {
  uuid = l.uuid;
  label = l.label;
  protocol = l.protocol;
  active = l.active;
  limit_bytes = l.limit_bytes;
  used_bytes = l.used_bytes;
  created_at = some l.created_at;
  expires_at = l.expires_at;
  note = l.note;
  alpn = l.alpn;
  fingerprint = l.fingerprint;
  ss_cipher = l.ss_cipher;
  ss_password = l.ss_password;
  speed_limit_bytes = pos l.speed_limit_bytes;
  ip_limit = pos l.ip_limit;
}

unfoldable pub payload : Str → LinkStore → RuntimeStats → Document
unfolding slots
payload now_iso links stats = record {
  saved_at = now_iso;
  total_bytes = stats.total_bytes;
  instance_cap_bytes = pos stats.instance_cap_bytes;
  hourly = stats.hourly;
  links = map (λ p. some (slots p.1)) links;
}

-- `written` says that no call of the file system raised `OSError`; `os.replace` is atomic.
unfoldable pub save : Bool → Str → LinkStore → RuntimeStats → StateFile → StateFile
unfolding payload
save written now_iso links stats file =
    if written then holds (payload now_iso links stats) else file

-- The loop over `raw["links"]`
unfoldable pub load_links : Str → List (Option LinkArgs) → LinkStore → LinkStore
load_links now_iso [] links = links
load_links now_iso (none ∷ entries) links = load_links now_iso entries links
load_links now_iso (some data_ ∷ entries) links =
    load_links now_iso entries (add links (new_link now_iso data_))

pub record Loaded : Type 0 where
  pub links : LinkStore
  pub stats : RuntimeStats
  pub file : StateFile

-- `moved` says that an unreadable file could be moved aside.
unfoldable pub load : Bool → Str → StateFile → LinkStore → RuntimeStats → Loaded
load moved now_iso missing links stats = record { links = links; stats = stats; file = missing }
load moved now_iso unreadable links stats = record {
  links = links;
  stats = stats;
  file = if moved then missing else unreadable;
}
load moved now_iso (holds raw) links stats = record {
  links = load_links now_iso raw.links links;
  stats = record stats {
    total_bytes = raw.total_bytes;
    instance_cap_bytes = at_least_zero raw.instance_cap_bytes;
    hourly = put_all stats.hourly raw.hourly;
  };
  file = holds raw;
}
