-- ===== src/Relay/Xhttp/Sessions/Caps.antt =====
-- core/emunel_core/relay/xhttp.py: the number of sessions.
use emunel.Prelude.{
  ℕ, ◌+◌, ◌≤◌, ◌≡◌, none, some, List, [], ◌∷◌, Str, length, ◌==◌, str_eq, pair_eq, if◌then◌else◌,
  arith, inl, inr, Option-cases,
}
use emunel.Prelude.Dict.{
  get, put, remove, length-put-none, length-put-some, length-remove-le, get-put,
}
use emunel.Relay.Xhttp.Sessions.{
  Key, same_key_iff, Session, Sessions, Engine, Arrival, Opened, opened, refused, per_link_count,
  start_session, fresh_session, get_or_create_session, teardown, teardown_all, reap, stale_keys,
  max_sessions_global, max_sessions_per_link,
}

module _ {G : Type 0} where
  count-put-none :
      (uuid : Str) (d : Sessions G) (k : Key) (s : Session G)
      → get d k ≡ none
      → per_link_count uuid (put d k s) ≡ per_link_count uuid d + (if k.0 == uuid then 1 else 0)
  unfolding per_link_count get put
  count-put-none uuid [] k s h = omega arith
  count-put-none uuid ((j, t) ∷ d) k s h = ground (arith, count-put-none uuid d k s)

  count-put-some :
      (uuid : Str) (d : Sessions G) (k : Key) (s t : Session G)
      → get d k ≡ some t
      → per_link_count uuid (put d k s) ≡ per_link_count uuid d
  unfolding per_link_count get put
  count-put-some uuid [] k s t h = absurd (ground arith)
  count-put-some uuid ((j, u) ∷ d) k s t h = ground (arith, count-put-some uuid d k s t)

  count-remove :
      (uuid : Str) (d : Sessions G) (k : Key)
      → per_link_count uuid (remove d k) ≤ per_link_count uuid d
  unfolding per_link_count remove
  count-remove uuid [] k = omega arith
  count-remove uuid ((j, u) ∷ d) k = ground (arith, count-remove uuid d k)

  module _ (uuid : Str) where
    -- The caps, for all sessions and for those of one link.
    pub record IsCapped (d : Sessions G) : Type 0 where
      pub all : length d ≤ max_sessions_global
      pub of_link : per_link_count uuid d ≤ max_sessions_per_link

    pub put-IsCapped :
        (d : Sessions G) (key : Key) (s t : Session G)
        → get d key ≡ some t
        → IsCapped d
        → IsCapped (put d key s)
    put-IsCapped d key s t old v = record {
      all = omega (arith, v.all, length-put-some d key s t old);
      of_link = omega (arith, v.of_link, count-put-some uuid d key s t old);
    }

    -- A session that is returned is filed.
    abbrev pub StaysCapped : Key → Opened G → Type 0
    StaysCapped key (opened s e) = IsCapped e.sessions × (get e.sessions key ≡ some s)
    StaysCapped key (refused status e) = IsCapped e.sessions

    pub get_or_create_session-IsCapped :
        (key : Key) (mode : Str) (a : Arrival) (e : Engine G)
        → IsCapped e.sessions
        → StaysCapped key (get_or_create_session key mode a e)
    unfolding get_or_create_session start_session
    get_or_create_session-IsCapped key mode a e v = elim (Option-cases (get e.sessions key)) [
      | inl new ↦ ground (
        arith,
        new,
        v.all,
        v.of_link,
        str_eq.same_iff key.0 uuid,
        length-put-none e.sessions key (fresh_session mode a) new,
        count-put-none uuid e.sessions key (fresh_session mode a) new,
        get-put e.sessions key key (fresh_session mode a),
        same_key_iff key key,
      )
      | inr (t, old) ↦
          let seen : Session G = record t { last_seen = a.now } in
          ground (
            arith,
            old,
            v.all,
            v.of_link,
            put-IsCapped e.sessions key seen t old v,
            get-put e.sessions key key seen,
            same_key_iff key key,
          )
    ]

    pub teardown-IsCapped :
        (key : Key) (e : Engine G) → IsCapped e.sessions → IsCapped (teardown key e).sessions
    unfolding teardown
    teardown-IsCapped key e v =
        ground (
          arith,
          v.all,
          v.of_link,
          length-remove-le e.sessions key,
          count-remove uuid e.sessions key,
        )

    teardown_all-IsCapped :
        (keys : List Key) (e : Engine G)
        → IsCapped e.sessions
        → IsCapped (teardown_all keys e).sessions
    unfolding teardown_all
    teardown_all-IsCapped [] e v = v
    teardown_all-IsCapped (key ∷ keys) e v =
        teardown_all-IsCapped keys (teardown key e) (teardown-IsCapped key e v)

    pub reap-IsCapped :
        (now : ℕ) (cutoff : Str) (e : Engine G)
        → IsCapped e.sessions
        → IsCapped (reap now cutoff e).sessions
    unfolding reap
    reap-IsCapped now cutoff e v = teardown_all-IsCapped (stale_keys now e.sessions) e v
