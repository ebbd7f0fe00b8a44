-- ===== src/Console/Auth.antt =====
-- console/api/emunel_console/auth/sessions.py: the sessions of the Console's users. The table lists the newest
-- session first: the clock does not go back, and of two sessions of one time the later one counts as newer.
-- The hash of a token is a parameter; of a row the address and the browser are left out.
pub mod Capped
pub mod Lasting
use emunel.Prelude.{
  ℕ, zero, suc, ◌+◌, ◌-◌, ◌*◌, Bool, true, false, not, ◌&&◌, List, [], ◌∷◌, Option, none, some, ltb,
  nat_beq, nat_eq, ◌==◌, elem, if◌then◌else◌, Str, str_eq, codes, keep, length,
}

pub record Session : Type 0 where
  pub id : Str
  pub user_id : ℕ
  pub created_at : ℕ
  pub expires_at : ℕ

pub record User : Type 0 where
  pub user_id : ℕ
  pub is_admin : Bool
  pub is_disabled : Bool

-- 30 days, in seconds
abbrev pub session_ttl : ℕ
session_ttl = 30 * 86400

abbrev pub max_sessions_per_user : ℕ
max_sessions_per_user = 100

-- The rows without those of the user that come after the first `n` of them
unfoldable pub keep_newest : ℕ → ℕ → List Session → List Session
keep_newest user n [] = []
keep_newest user n (row ∷ rows) =
    let other = row ∷ keep_newest user n rows in
    let newest = row ∷ keep_newest user (n - 1) rows in
    let old = keep_newest user n rows in
    if not (nat_beq row.user_id user) then other else if nat_beq n 0 then old else newest

-- `WHERE s.id = $1 AND s.expires_at > $2`
unfoldable pub find_session : Str → ℕ → List Session → Option Session
find_session id now [] = none
find_session id now (row ∷ rows) =
    let rest = find_session id now rows in
    if row.id == id && ltb now row.expires_at then some row else rest

unfoldable pub find_user : ℕ → List User → Option User
find_user id [] = none
find_user id (user ∷ users) =
    let rest = find_user id users in if nat_beq user.user_id id then some user else rest

abbrev pub enabled_user : Option User → Option User
enabled_user none = none
enabled_user (some user) = if user.is_disabled then none else some user

abbrev pub user_of : List User → Option Session → Option User
user_of users none = none
user_of users (some row) = enabled_user (find_user row.user_id users)

unfoldable pub destroy_all_sessions : ℕ → List Session → List Session
destroy_all_sessions user rows = keep (λ row. not (nat_beq row.user_id user)) rows

pub data Event : Type 0 where
  login : Str → ℕ → ℕ → Event
  logout : Str → Event
  logout_all : ℕ → Event

module _ (hash_token : Str → Str) where
  -- The random token is an argument.
  unfoldable pub create_session : Str → ℕ → ℕ → List Session → List Session
  create_session token user now rows = keep_newest user max_sessions_per_user (
      record {
        id = hash_token token;
        user_id = user;
        created_at = now;
        expires_at = now + session_ttl;
      }
      ∷ rows)

  -- An empty cookie is none.
  unfoldable pub get_session_user : Str → ℕ → List User → List Session → Option User
  get_session_user token now users rows =
      if nat_beq (length token) 0
      then none
      else user_of users (find_session (hash_token token) now rows)

  unfoldable pub destroy_session : Str → List Session → List Session
  destroy_session token rows =
      if nat_beq (length token) 0 then rows else keep (λ row. not (row.id == hash_token token)) rows

  unfoldable pub happen : Event → List Session → List Session
  happen (login token user now) rows = create_session token user now rows
  happen (logout token) rows = destroy_session token rows
  happen (logout_all user) rows = destroy_all_sessions user rows

  unfoldable pub happen_all : List Event → List Session → List Session
  happen_all [] rows = rows
  happen_all (event ∷ events) rows = happen_all events (happen event rows)

-- `check_csrf`: whether the request goes on. `safe` says that the method is GET, HEAD or OPTIONS.
unfoldable pub check_csrf : Bool → Option User → Str → Str → Bool
check_csrf safe none cookie header = true
check_csrf safe (some user) cookie header =
    if safe then true else not (nat_beq (length header) 0) && header == cookie
