-- ===== src/Console/Auth/Lasting.antt =====
-- console/api/emunel_console/auth/sessions.py: how long a session lasts.
use emunel.Prelude.{
  ℕ, suc, ◌+◌, ◌-◌, ◌≤◌, ◌<◌, ◌≡◌, refl, ap, Bool, true, false, not, List, [], ◌∷◌, some, nat_beq,
  nat_same_iff, if◌then◌else◌, Str, str_eq, str_beq_iff, ◌==◌, keep, length, ltb, All, arith, inl,
  inr, Bool-cases,
}
use emunel.Console.Auth.{
  Session, User, session_ttl, max_sessions_per_user, keep_newest, create_session, find_session,
  find_user, enabled_user, get_session_user, destroy_session, destroy_all_sessions, Event, login,
  logout, logout_all, happen, happen_all,
}

-- The session stands in the table, behind `k` newer sessions of its user and no other of its id.
data Stands (row : Session) : ℕ → List Session → Type 0 where
  here : {rows : List Session} → Stands row 0 (row ∷ rows)
  behind_own :
      {k : ℕ} {r : Session} {rows : List Session}
      → nat_beq r.user_id row.user_id ≡ true
      → (r.id == row.id) ≡ false
      → Stands row k rows
      → Stands row (suc k) (r ∷ rows)
  behind_other :
      {k : ℕ} {r : Session} {rows : List Session}
      → nat_beq r.user_id row.user_id ≡ false
      → (r.id == row.id) ≡ false
      → Stands row k rows
      → Stands row k (r ∷ rows)

-- The newest `n` sessions of its user are kept, so it is where it is among these.
keep_newest-Stands :
    {row : Session} {k : ℕ} {rows : List Session} (user n : ℕ)
    → nat_beq row.user_id user ≡ true
    → k < n
    → Stands row k rows
    → Stands row k (keep_newest user n rows)
unfolding keep_newest
keep_newest-Stands user n own few here =
    let some_left : nat_beq n 0 ≡ false = ground arith in rw (own, some_left) here
keep_newest-Stands {row} user n own few (behind_own {r} u i s) =
    let some_left : nat_beq n 0 ≡ false = ground arith in
    let same : nat_beq r.user_id user ≡ true = ground arith in
    rw (same, some_left) (behind_own u i (keep_newest-Stands user (n - 1) own (omega arith) s))
keep_newest-Stands {row} user n own few (behind_other {r} u i s) =
    let apart : nat_beq r.user_id user ≡ false = ground arith in
    rw apart (behind_other u i (keep_newest-Stands user n own few s))

-- Those of other users are kept as well.
keep_newest-Stands_other :
    {row : Session} {k : ℕ} {rows : List Session} (user n : ℕ)
    → nat_beq row.user_id user ≡ false
    → Stands row k rows
    → Stands row k (keep_newest user n rows)
unfolding keep_newest
keep_newest-Stands_other user n other here = rw other here
keep_newest-Stands_other {row} user n other (behind_own {r} u i s) =
    let apart : nat_beq r.user_id user ≡ false = ground arith in
    rw apart (behind_own u i (keep_newest-Stands_other user n other s))
keep_newest-Stands_other {row} user n other (behind_other {r} u i s) =
    elim (Bool-cases (nat_beq r.user_id user)) [
      | inl same ↦ elim (Bool-cases (nat_beq n 0)) [
        | inl full ↦ rw (same, full) (keep_newest-Stands_other user n other s)
        | inr left ↦
            rw (same, left) (behind_other u i (keep_newest-Stands_other user (n - 1) other s))
      ]
      | inr apart ↦ rw apart (behind_other u i (keep_newest-Stands_other user n other s))
    ]

-- A deletion of other rows moves it ahead, if at all.
keep-Stands :
    {row : Session} {k : ℕ} {rows : List Session} (p : Session → Bool)
    → p row ≡ true
    → Stands row k rows
    → (j : ℕ) × (j ≤ k) × Stands row j (keep p rows)
keep-Stands p stays here = (0, omega arith, rw stays here)
keep-Stands p stays (behind_own {r} u i s) =
    let (j, le, there) = keep-Stands p stays s in
    elim (Bool-cases (p r)) [
      | inl kept ↦ (suc j, omega arith, rw kept (behind_own u i there))
      | inr gone ↦ (j, omega arith, rw gone there)
    ]
keep-Stands p stays (behind_other {r} u i s) =
    let (j, le, there) = keep-Stands p stays s in
    elim (Bool-cases (p r)) [
      | inl kept ↦ (j, le, rw kept (behind_other u i there))
      | inr gone ↦ (j, le, rw gone there)
    ]

find_session-Stands :
    {row : Session} {k : ℕ} {rows : List Session} (now : ℕ)
    → ltb now row.expires_at ≡ true
    → Stands row k rows
    → find_session row.id now rows ≡ some row
unfolding find_session
find_session-Stands {row} now alive here = ground (arith, alive, (str_beq_iff row.id row.id).1 refl)
find_session-Stands now alive (behind_own u i s) = rw i (find_session-Stands now alive s)
find_session-Stands now alive (behind_other u i s) = rw i (find_session-Stands now alive s)

module _ (hash_token : Str → Str) (row : Session) where
  -- The events leave the session alone: no one logs in or out with its token, and its user does not log out
  -- everywhere.
  abbrev pub Spares : Event → Type 0
  Spares (login token user now) = (hash_token token == row.id) ≡ false
  Spares (logout token) = (row.id == hash_token token) ≡ false
  Spares (logout_all user) = nat_beq row.user_id user ≡ false

  -- How many logins of its user there are among the events.
  abbrev pub own_logins : List Event → ℕ
  own_logins [] = 0
  own_logins (login token user now ∷ events) =
      (if nat_beq row.user_id user then 1 else 0) + own_logins events
  own_logins (logout token ∷ events) = own_logins events
  own_logins (logout_all user ∷ events) = own_logins events

  login-Stands :
      (k : ℕ) (rows : List Session) (token : Str) (user now : ℕ)
      → (hash_token token == row.id) ≡ false
      → k + (if nat_beq row.user_id user then 1 else 0) < max_sessions_per_user
      → Stands row k rows
      → Stands row
          (k + (if nat_beq row.user_id user then 1 else 0))
          (create_session hash_token token user now rows)
  unfolding create_session
  login-Stands k rows token user now new few s = elim (Bool-cases (nat_beq row.user_id user)) [
    | inl own ↦
        let back : nat_beq user row.user_id ≡ true = ground arith in
        let more : k + 1 ≡ suc k = omega arith in
        rw (own, more)
          (keep_newest-Stands user max_sessions_per_user own (ground (arith, few, own))
            (behind_own back new s))
    | inr other ↦
        let back : nat_beq user row.user_id ≡ false = ground arith in
        let same : k + 0 ≡ k = omega arith in
        rw (other, same)
          (keep_newest-Stands_other user max_sessions_per_user other (behind_other back new s))
  ]

  happen_all-Stands :
      (events : List Event) (k : ℕ) (rows : List Session)
      → k + own_logins events < max_sessions_per_user
      → All Spares events
      → Stands row k rows
      → (j : ℕ) × Stands row j (happen_all hash_token events rows)
  unfolding happen_all happen destroy_session destroy_all_sessions
  happen_all-Stands [] k rows few h s = (k, s)
  happen_all-Stands (login token user now ∷ events) k rows few h s =
      let more : ℕ = if nat_beq row.user_id user then 1 else 0 in
      happen_all-Stands events (k + more) (create_session hash_token token user now rows)
        (omega arith) h.1 (login-Stands k rows token user now h.0 (omega arith) s)
  happen_all-Stands (logout token ∷ events) k rows few h s =
      elim (Bool-cases (nat_beq (length token) 0)) [
        | inl absent ↦ rw absent (happen_all-Stands events k rows few h.1 s)
        | inr given ↦
            let (j, le, there) = keep-Stands (λ r. not (r.id == hash_token token)) (ap not h.0) s in
            rw given (happen_all-Stands events j _ (omega arith) h.1 there)
      ]
  happen_all-Stands (logout_all user ∷ events) k rows few h s =
      let (j, le, there) = keep-Stands (λ r. not (nat_beq r.user_id user)) (ap not h.0) s in
      happen_all-Stands events j _ (omega arith) h.1 there

-- The row that a login makes.
abbrev pub made : (Str → Str) → Str → ℕ → ℕ → Session
made hash_token token user start = record {
  id = hash_token token;
  user_id = user;
  created_at = start;
  expires_at = start + session_ttl;
}

-- A session lasts: until 30 days after the login its token stands for the user, unless the user's account is
-- disabled, if among the events in between there are fewer than 100 further logins of the user and none
-- that ends it.
pub get_session_user-happen_all :
    (hash_token : Str → Str) (token : Str) (user start now : ℕ) (users : List User)
    (rows : List Session) (events : List Event)
    → nat_beq (length token) 0 ≡ false
    → now < start + session_ttl
    → own_logins hash_token (made hash_token token user start) events < max_sessions_per_user
    → All (Spares hash_token (made hash_token token user start)) events
    → get_session_user hash_token token now users
        (happen_all hash_token events (create_session hash_token token user start rows))
      ≡ enabled_user (find_user user users)
unfolding get_session_user create_session
get_session_user-happen_all hash_token token user start now users rows events given alive few h =
    let row = made hash_token token user start in
    let own : Stands row 0 (row ∷ rows) = here in
    let first : Stands row 0 (create_session hash_token token user start rows) =
      keep_newest-Stands user max_sessions_per_user ((nat_same_iff user user).1 refl) (omega arith)
        own in
    let (j, there) = happen_all-Stands hash_token row events 0 _ (omega arith) h first in
    rw (given, find_session-Stands now (ground arith) there)
