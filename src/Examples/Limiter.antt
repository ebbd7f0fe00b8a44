-- ===== src/Examples/Limiter.antt =====
-- console/api/emunel_console/security/ratelimit.py, at small rules.
use emunel.Prelude.{List, All, inl, inr, ℕ, ◌≤◌, ◌≡◌, refl, [], ◌∷◌, arith, codes, Str, str_beq}
use emunel.Prelude.Dict.{get, put}
use emunel.Console.RateLimit.{Rule, RateLimiter, passed, limited, prune, judge, check}
use emunel.Console.RateLimit.Windows.{Call, IsDue, recent, passes_of, check_all, check_all-recent}
use emunel.Console.RateLimit.Retry.{check-retry_after}

-- Two hits in three seconds.
abbrev two_hits : Rule
two_hits = record { limit = 2; window = 3000 }

abbrev client : Str
client = codes "auth:10.0.0.1"

abbrev call_at : ℕ → Call
call_at now = record { key = client; rule = two_hits; now = now }

-- The call of another key comes under a larger rule.
abbrev calls : List Call
calls =
    call_at 1000
    ∷ record { key = codes "api:10.0.0.1"; rule = record { limit = 9; window = 60000 }; now = 1500 }
    ∷ call_at 2000
    ∷ []

calls-IsDue : All (IsDue 3000 2 2500 client) calls
unfolding str_beq
calls-IsDue = (
  (inr (refl, omega arith), omega arith),
  ((inl refl, omega arith), ((inr (refl, omega arith), omega arith), tt)),
)

check_all-recent_example : recent 3000 2500 (passes_of client (check_all calls [] []).1) ≤ 2
check_all-recent_example = check_all-recent 3000 2 2500 client calls calls-IsDue

-- The limiter after the calls, and the refusal of another one.
is_refused :
    check client two_hits 2500 (check_all calls [] []).0 ≡ limited 2 (check_all calls [] []).0
unfolding check_all check judge prune get put str_beq
is_refused = refl

check-retry_after_example :
    (h : RateLimiter) × (check client two_hits 4500 (check_all calls [] []).0 ≡ passed h)
check-retry_after_example =
    check-retry_after two_hits 2500 4500 2 client calls (check_all calls [] []).0 calls-IsDue
      is_refused (omega arith)
