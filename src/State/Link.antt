-- ===== src/State/Link.antt =====
-- core/emunel_core/state.py: `Link`, a credential with its policy.
-- `datetime.fromisoformat` and the comparison with the clock are the argument `from_iso`, which is
-- `none` where either raises. Times are microseconds.
pub mod Alpn
use emunel.Prelude.{
  ℕ, Bool, true, false, ◌&&◌, ◌||◌, not, Option, none, some, List, [], ◌∷◌, Str, codes, take, keep,
  map, ltb, ◌==◌, str_eq, if◌then◌else◌, elem, str_beq,
}
use emunel.Prelude.Int.{ℤ, pos, leb_ℤ, ltb_ℤ, at_least_zero}
use emunel.Prelude.Text.{strip, lower, split, join}

pub record Link : Type 0 where
  pub uuid : Str
  pub label : Str
  pub protocol : Str
  pub active : Bool
  pub limit_bytes : ℤ
  pub used_bytes : ℤ
  pub created_at : Str
  pub expires_at : Option Str
  pub note : Str
  pub alpn : Str
  pub fingerprint : Str
  pub ss_cipher : Option Str
  pub ss_password : Option Str
  pub speed_limit_bytes : ℕ
  pub ip_limit : ℕ

-- The keyword arguments of `Link(...)`. `created_at` is `none` where it is missing or empty.
pub record LinkArgs : Type 0 where
  pub uuid : Str
  pub label : Str
  pub protocol : Str
  pub active : Bool
  pub limit_bytes : ℤ
  pub used_bytes : ℤ
  pub created_at : Option Str
  pub expires_at : Option Str
  pub note : Str
  pub alpn : Str
  pub fingerprint : Str
  pub ss_cipher : Option Str
  pub ss_password : Option Str
  pub speed_limit_bytes : ℤ
  pub ip_limit : ℤ

abbrev pub h2 : Str
h2 = codes "h2"

abbrev pub http11 : Str
http11 = codes "http/1.1"

-- `if t.strip() and t.strip().lower() != "h2"`, of a stripped token
unfoldable pub is_kept_token : Str → Bool
unfolding lower str_beq
is_kept_token [] = false
is_kept_token (c ∷ t) = not (lower (c ∷ t) == h2)

unfoldable pub alpn_tokens : Str → List Str
unfolding is_kept_token strip split
alpn_tokens alpn = keep is_kept_token (map strip (split b',' alpn))

abbrev pub or_http11 : List Str → Str
or_http11 [] = http11
or_http11 (t ∷ ts) = take 60 (join b',' (t ∷ ts))

unfoldable pub clean_alpn : Str → Str
unfolding alpn_tokens join
clean_alpn alpn = or_http11 (alpn_tokens alpn)

abbrev pub fingerprints : List Str
fingerprints = codes "chrome" ∷ codes "firefox" ∷ codes "ios" ∷ []

unfoldable pub clean_fingerprint : Str → Str
unfolding str_beq
clean_fingerprint f = if elem f fingerprints then f else codes "chrome"

-- `x or default`
abbrev or_else : Option Str → Str → Str
or_else none d = d
or_else (some s) d = s

-- `Link.__init__`; `now_iso` is `_utcnow().isoformat()`
unfoldable pub new_link : Str → LinkArgs → Link
unfolding clean_alpn clean_fingerprint
new_link now_iso a = record {
  uuid = a.uuid;
  label = take 80 a.label;
  protocol = a.protocol;
  active = a.active;
  limit_bytes = a.limit_bytes;
  used_bytes = a.used_bytes;
  created_at = or_else a.created_at now_iso;
  expires_at = a.expires_at;
  note = take 300 a.note;
  alpn = clean_alpn a.alpn;
  fingerprint = clean_fingerprint a.fingerprint;
  ss_cipher = a.ss_cipher;
  ss_password = a.ss_password;
  speed_limit_bytes = at_least_zero a.speed_limit_bytes;
  ip_limit = at_least_zero a.ip_limit;
}

-- The clock's reading and what parses a time.
pub record Clock : Type 0 where
  pub from_iso : Str → Option ℕ
  pub now : ℕ

abbrev passed : Option ℕ → ℕ → Bool
passed none now = false
passed (some t) now = ltb t now

-- `not self.expires_at` holds of `None` and of the empty text
abbrev expired_at : Clock → Option Str → Bool
expired_at k none = false
expired_at k (some []) = false
expired_at k (some (c ∷ s)) = passed (k.from_iso (c ∷ s)) k.now

unfoldable pub is_expired : Clock → Link → Bool
is_expired k l = expired_at k l.expires_at

-- `self.limit_bytes > 0 and self.used_bytes >= self.limit_bytes`
unfoldable pub over_quota : Link → Bool
over_quota l = ltb_ℤ (pos 0) l.limit_bytes && leb_ℤ l.limit_bytes l.used_bytes

unfoldable pub is_allowed : Clock → Link → Bool
unfolding is_expired over_quota
is_allowed k l =
    if not l.active || is_expired k l then false else if over_quota l then false else true
