-- ===== src/Console/RateLimit.antt =====
-- console/api/emunel_console/security/ratelimit.py: the sliding windows of the rate limiter. A clock
-- reading of `time.monotonic` is a number of milliseconds, and so is a window.
pub mod Windows
pub mod Retry
pub mod Shared
use emunel.Prelude.{
  ℕ, zero, suc, ◌+◌, ◌-◌, ◌*◌, ◌/◌, Bool, true, false, ◌&&◌, ◌||◌, not, Option, none, some, List,
  [], ◌∷◌, ◌++◌, Str, codes, length, leb, ltb, ◌==◌, str_eq, nat_eq, if◌then◌else◌, elem,
}
use emunel.Prelude.Dict.{Dict, get, put}

pub record Rule : Type 0 where
  pub limit : ℕ
  pub window : ℕ

-- `RULES`
abbrev pub auth_rule : Rule
auth_rule = record { limit = 30; window = 60000 }

abbrev pub api_write : Rule
api_write = record { limit = 240; window = 60000 }

abbrev pub api_read : Rule
api_read = record { limit = 1200; window = 60000 }

-- `RateLimiter._hits`: the times of the hits of each key, oldest first.
abbrev pub RateLimiter : Type 0
RateLimiter = Dict Str (List ℕ)

-- The call returns, it raises 429 with `Retry-After`, or `window[0]` raises.
pub data Verdict : Type 0 where
  passed : RateLimiter → Verdict
  limited : ℕ → RateLimiter → Verdict
  broken : RateLimiter → Verdict

-- The missing window of a `defaultdict` is empty.
abbrev pub or_empty : Option (List ℕ) → List ℕ
or_empty none = []
or_empty (some window) = window

abbrev pub hits_of : RateLimiter → Str → List ℕ
hits_of hits key = or_empty (get hits key)

-- while window and window[0] <= now - rule.window_seconds: window.popleft()
unfoldable pub prune : ℕ → ℕ → List ℕ → List ℕ
prune width now [] = []
prune width now (x ∷ xs) =
    let rest = prune width now xs in if leb (x + width) now then rest else x ∷ xs

abbrev pub refuse : Rule → ℕ → List ℕ → RateLimiter → Verdict
refuse rule now [] hits = broken hits
refuse rule now (x ∷ xs) hits = limited ((rule.window - (now - x)) / 1000 + 1) hits

unfoldable pub judge : Rule → ℕ → Str → RateLimiter → List ℕ → Verdict
judge rule now key hits window =
    if leb rule.limit (length window)
    then refuse rule now window (put hits key window)
    else passed (put hits key (window ++ (now ∷ [])))

unfoldable pub check : Str → Rule → ℕ → RateLimiter → Verdict
unfolding judge
check key rule now hits = judge rule now key hits (prune rule.window now (hits_of hits key))

-- path.startswith(prefix)
starts_with : Str → Str → Bool
starts_with [] path = true
starts_with (c ∷ cs) [] = false
starts_with (c ∷ cs) (d ∷ path) = c == d && starts_with cs path

abbrev is_safe : Str → Bool
is_safe method = elem method (codes "GET" ∷ codes "HEAD" ∷ codes "OPTIONS" ∷ [])

-- The rule for a request and the prefix of its key. `method` is in upper case.
unfoldable pub pick_rule : Str → Str → Option (Rule × Str)
unfolding starts_with
pick_rule path method =
    if starts_with (codes "/auth/") path && not (is_safe method)
    then some (auth_rule, codes "auth")
    else if starts_with (codes "/api/") path
    then (if is_safe method then some (api_read, codes "api") else some (api_write, codes "api"))
    else none

abbrev limit_by : Option (Rule × Str) → Str → ℕ → RateLimiter → Verdict
limit_by none ip now hits = passed hits
limit_by (some (rule, prefix)) ip now hits = check (prefix ++ (b':' ∷ ip)) rule now hits

-- `RateLimitASGI.__call__` up to the answer, for a request of type "http" from the address `ip`.
unfoldable pub handle : Str → Str → Str → ℕ → RateLimiter → Verdict
handle path method ip now hits = limit_by (pick_rule path method) ip now hits
