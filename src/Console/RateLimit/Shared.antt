-- ===== src/Console/RateLimit/Shared.antt =====
-- console/api/emunel_console/security/ratelimit.py: the window that reads and writes of the API share.
use emunel.Prelude.{
  ℕ, zero, suc, ◌≤◌, ◌<◌, ◌≡◌, refl, ap, ◌∙◌, List, [], ◌∷◌, ◌++◌, Str, length, ==-refl, str_eq,
  arith, codes, str_beq,
}
use emunel.Prelude.Dict.{get, put}
use emunel.Console.RateLimit.{
  Rule, RateLimiter, Verdict, passed, limited, broken, hits_of, prune, judge, check, handle,
  pick_rule, starts_with, api_read, api_write,
}

abbrev then_read : Str → Str → ℕ → Verdict → Verdict
then_read path ip now (passed hits) = handle path (codes "GET") ip now hits
then_read path ip now (limited retry hits) = limited retry hits
then_read path ip now (broken hits) = broken hits

-- `n` reads from an address at one moment.
abbrev pub reads : ℕ → Str → Str → ℕ → Verdict
reads zero path ip now = passed []
reads (suc n) path ip now = then_read path ip now (reads n path ip now)

abbrev times : ℕ → ℕ → List ℕ
times zero now = []
times (suc n) now = now ∷ times n now

abbrev api_key : Str → Str
api_key ip = codes "api" ++ (b':' ∷ ip)

-- The limiter after them.
abbrev after : ℕ → Str → ℕ → RateLimiter
after zero ip now = []
after (suc n) ip now = (api_key ip, times (suc n) now) ∷ []

length-times : (n now : ℕ) → length (times n now) ≡ n
length-times zero now = refl
length-times (suc n) now = omega (arith, length-times n now)

times-append : (n now : ℕ) → times n now ++ (now ∷ []) ≡ now ∷ times n now
times-append zero now = refl
times-append (suc n) now = ground (arith, times-append n now)

-- Both rules have the same key.
picks_read :
    (rest ip : Str) (now : ℕ) (hits : RateLimiter)
    → handle (codes "/api/" ++ rest) (codes "GET") ip now hits
      ≡ check (api_key ip) api_read now hits
unfolding handle pick_rule starts_with str_beq
picks_read rest ip now hits = refl

picks_write :
    (rest ip : Str) (now : ℕ) (hits : RateLimiter)
    → handle (codes "/api/" ++ rest) (codes "POST") ip now hits
      ≡ check (api_key ip) api_write now hits
unfolding handle pick_rule starts_with str_beq
picks_write rest ip now hits = refl

prune-times : (n width now : ℕ) → 0 < width → prune width now (times n now) ≡ times n now
unfolding prune
prune-times zero width now h = refl
prune-times (suc n) width now h = ground arith

hits_of-after : (n : ℕ) (ip : Str) (now : ℕ) → hits_of (after n ip now) (api_key ip) ≡ times n now
unfolding get
hits_of-after zero ip now = refl
hits_of-after (suc n) ip now = rw (==-refl (api_key ip)) refl

put-after :
    (n : ℕ) (ip : Str) (now : ℕ) (window : List ℕ)
    → put (after n ip now) (api_key ip) window ≡ (api_key ip, window) ∷ []
unfolding put
put-after zero ip now window = refl
put-after (suc n) ip now window = rw (==-refl (api_key ip)) refl

check-after :
    (rule : Rule) (n : ℕ) (ip : Str) (now : ℕ)
    → 0 < rule.window
    → check (api_key ip) rule now (after n ip now)
      ≡ judge rule now (api_key ip) (after n ip now) (times n now)
unfolding check
check-after rule n ip now h =
    rw (hits_of-after n ip now)
      (ap (judge rule now (api_key ip) (after n ip now)) (prune-times n rule.window now h))

read_passes :
    (n : ℕ) (rest ip : Str) (now : ℕ)
    → n < 1200
    → handle (codes "/api/" ++ rest) (codes "GET") ip now (after n ip now)
      ≡ passed (after (suc n) ip now)
unfolding judge
read_passes n rest ip now h =
    picks_read rest ip now (after n ip now)
    ∙ check-after api_read n ip now (omega arith)
    ∙ ground (
      arith,
      length-times n now,
      times-append n now,
      put-after n ip now (times n now ++ (now ∷ [])),
    )

reads_pass :
    (n : ℕ) (rest ip : Str) (now : ℕ)
    → n ≤ 1200
    → reads n (codes "/api/" ++ rest) ip now ≡ passed (after n ip now)
reads_pass zero rest ip now h = refl
reads_pass (suc n) rest ip now h =
    rw (reads_pass n rest ip now (omega arith)) (read_passes n rest ip now (omega arith))

write_refused :
    (n : ℕ) (rest ip : Str) (now : ℕ)
    → 240 ≤ n
    → handle (codes "/api/" ++ rest) (codes "POST") ip now (after n ip now)
      ≡ limited 61 (after n ip now)
unfolding judge
write_refused zero rest ip now h = absurd (omega arith)
write_refused (suc n) rest ip now h =
    picks_write rest ip now (after (suc n) ip now)
    ∙ check-after api_write (suc n) ip now (omega arith)
    ∙ ground (arith, length-times n now, put-after (suc n) ip now (times (suc n) now))

-- From 240 reads of the API on, which the limit of 1200 for reads allows, a write from the same address
-- is refused for a minute, although no write was made before it.
reads-limited :
    (n : ℕ) (rest ip : Str) (now : ℕ)
    → 240 ≤ n
    → n ≤ 1200
    → (h : RateLimiter) × (reads n (codes "/api/" ++ rest) ip now ≡ passed h)
      × (handle (codes "/api/" ++ rest) (codes "POST") ip now h ≡ limited 61 h)
reads-limited n rest ip now l h =
    (after n ip now, reads_pass n rest ip now h, write_refused n rest ip now l)
