-- ===== src/Console/Auth/Capped.antt =====
-- console/api/emunel_console/auth/sessions.py: how many sessions a user has.
use emunel.Prelude.{
  ℕ, ◌+◌, ◌-◌, ◌≤◌, ◌≡◌, Bool, not, List, [], ◌∷◌, nat_beq, if◌then◌else◌, Str, str_eq, ◌==◌, keep,
  length, arith, inl, inr, Bool-cases,
}
use emunel.Console.Auth.{
  Session, session_ttl, max_sessions_per_user, keep_newest, create_session, destroy_session,
  destroy_all_sessions, Event, login, logout, logout_all, happen, happen_all,
}

-- How many sessions of the table are the user's.
unfoldable pub sessions_of : ℕ → List Session → ℕ
sessions_of user [] = 0
sessions_of user (row ∷ rows) =
    if nat_beq row.user_id user then 1 + sessions_of user rows else sessions_of user rows

sessions_of-keep_newest :
    (user n : ℕ) (rows : List Session) → sessions_of user (keep_newest user n rows) ≤ n
unfolding sessions_of keep_newest
sessions_of-keep_newest user n [] = omega arith
sessions_of-keep_newest user n (row ∷ rows) =
    ground (arith, sessions_of-keep_newest user n rows, sessions_of-keep_newest user (n - 1) rows)

sessions_of-keep_newest_le :
    (user other n : ℕ) (rows : List Session)
    → sessions_of user (keep_newest other n rows) ≤ sessions_of user rows
unfolding sessions_of keep_newest
sessions_of-keep_newest_le user other n [] = omega arith
sessions_of-keep_newest_le user other n (row ∷ rows) = ground (
  arith,
  sessions_of-keep_newest_le user other n rows,
  sessions_of-keep_newest_le user other (n - 1) rows,
)

sessions_of-keep :
    (user : ℕ) (p : Session → Bool) (rows : List Session)
    → sessions_of user (keep p rows) ≤ sessions_of user rows
unfolding sessions_of
sessions_of-keep user p [] = omega arith
sessions_of-keep user p (row ∷ rows) = ground (arith, sessions_of-keep user p rows)

sessions_of-push :
    (user : ℕ) (row : Session) (rows : List Session)
    → sessions_of user rows ≤ max_sessions_per_user
    → sessions_of user (keep_newest row.user_id max_sessions_per_user (row ∷ rows))
      ≤ max_sessions_per_user
unfolding sessions_of
sessions_of-push user row rows h = elim (Bool-cases (nat_beq row.user_id user)) [
  | inl own ↦
      let same : user ≡ row.user_id = ground (arith, own) in
      rw same (sessions_of-keep_newest row.user_id max_sessions_per_user (row ∷ rows))
  | inr other ↦
      let all = sessions_of-keep_newest_le user row.user_id max_sessions_per_user (row ∷ rows) in
      let others : sessions_of user (row ∷ rows) ≡ sessions_of user rows = rw other in
      omega (arith, all, others, h)
]

module _ (hash_token : Str → Str) where
  sessions_of-happen :
      (user : ℕ) (event : Event) (rows : List Session)
      → sessions_of user rows ≤ max_sessions_per_user
      → sessions_of user (happen hash_token event rows) ≤ max_sessions_per_user
  unfolding happen create_session destroy_session destroy_all_sessions
  sessions_of-happen user (login token other now) rows h =
      sessions_of-push user
        (record {
          id = hash_token token;
          user_id = other;
          created_at = now;
          expires_at = now + session_ttl;
        })
        rows h
  sessions_of-happen user (logout token) rows h = elim (Bool-cases (nat_beq (length token) 0)) [
    | inl absent ↦ rw absent h
    | inr given ↦
        let fewer = sessions_of-keep user (λ row. not (row.id == hash_token token)) rows in
        rw given (omega (arith, fewer, h))
  ]
  sessions_of-happen user (logout_all other) rows h =
      omega (arith, sessions_of-keep user (λ row. not (nat_beq row.user_id other)) rows, h)

  -- However often users log in and out, a user who has at most 100 sessions never has more.
  pub sessions_of-happen_all :
      (user : ℕ) (events : List Event) (rows : List Session)
      → sessions_of user rows ≤ max_sessions_per_user
      → sessions_of user (happen_all hash_token events rows) ≤ max_sessions_per_user
  unfolding happen_all
  sessions_of-happen_all user [] rows h = h
  sessions_of-happen_all user (event ∷ events) rows h =
      sessions_of-happen_all user events (happen hash_token event rows)
        (sessions_of-happen user event rows h)
