-- ===== src/Relay/Xhttp/Sessions/Reaper.antt =====
-- core/emunel_core/relay/xhttp.py: a round of `_reaper`.
use emunel.Prelude.{
  ℕ, ◌≡◌, refl, Bool, false, Option, none, some, List, [], ◌∷◌, Str, ◌==◌, str_eq, pair_eq,
  if◌then◌else◌, arith, inl, inr, elem, Bool-cases,
}
use emunel.Prelude.Dict.{get, get-remove}
use emunel.Prelude.Dict.Keys.{HasKeysOnce}
use emunel.Relay.Xhttp.Sessions.{
  Key, same_key_iff, Session, Sessions, Engine, is_stale, stale_keys, teardown, teardown_all, reap,
}

module _ {G : Type 0} where
  -- A teardown removes its key, if it is there.
  get-teardown :
      (key k : Key) (e : Engine G)
      → get (teardown key e).sessions k ≡ (if key == k then none else get e.sessions k)
  unfolding teardown
  get-teardown key k e = ground (arith, get-remove e.sessions key k, same_key_iff key k)

  get-teardown_all :
      (keys : List Key) (k : Key) (e : Engine G)
      → get (teardown_all keys e).sessions k ≡ (if elem k keys then none else get e.sessions k)
  unfolding teardown_all
  get-teardown_all [] k e = refl
  get-teardown_all (key ∷ keys) k e =
      ground (arith, get-teardown_all keys k (teardown key e), get-teardown key k e)

  -- What is left of an entry.
  abbrev pub unless_stale : ℕ → Option (Session G) → Option (Session G)
  unless_stale now none = none
  unless_stale now (some s) = if is_stale now s then none else some s

  abbrev is_stale? : ℕ → Option (Session G) → Bool
  is_stale? now none = false
  is_stale? now (some s) = is_stale now s

  elem-stale_keys :
      (now : ℕ) (d : Sessions G) (k : Key)
      → HasKeysOnce d
      → elem k (stale_keys now d) ≡ is_stale? now (get d k)
  unfolding stale_keys get
  elem-stale_keys now [] k h = refl
  elem-stale_keys now ((j, s) ∷ d) k (new, h) = elim (Bool-cases (is_stale now s)) [
    | inl old ↦ ground (arith, old, new, elem-stale_keys now d k h, same_key_iff j k)
    | inr kept ↦ ground (arith, kept, new, elem-stale_keys now d k h, same_key_iff j k)
  ]

  -- A round of the reaper ends exactly the sessions that have been idle for more than 30 seconds, or 90
  -- with an upstream, and leaves every other session as it is. No key stands twice.
  reap_lem :
      (now : ℕ) (cutoff : Str) (e : Engine G) (k : Key)
      → HasKeysOnce e.sessions
      → get (reap now cutoff e).sessions k ≡ unless_stale now (get e.sessions k)
  unfolding reap
  reap_lem now cutoff e k once = ground (
    arith,
    get-teardown_all (stale_keys now e.sessions) k e,
    elem-stale_keys now e.sessions k once,
  )
