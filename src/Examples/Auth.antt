-- ===== src/Examples/Auth.antt =====
-- console/api/emunel_console/auth/sessions.py: a user who logs in twice, beside another one.
use emunel.Prelude.{◌≤◌, ◌≡◌, refl, false, List, [], All, ◌∷◌, Str, codes, arith, str_beq}
use emunel.Console.Auth.{
  User, Event, login, logout, logout_all, get_session_user, create_session, happen_all,
  enabled_user, find_user,
}
use emunel.Console.Auth.Capped.{sessions_of, sessions_of-happen_all}
use emunel.Console.Auth.Lasting.{made, Spares, get_session_user-happen_all}

-- A hash that changes every token.
abbrev hash_of : Str → Str
hash_of token = 35 ∷ token

abbrev users : List User
users = record { user_id = 1; is_admin = false; is_disabled = false } ∷ []

abbrev events : List Event
events = login (codes "b") 2 110 ∷ login (codes "c") 1 120 ∷ logout (codes "b") ∷ logout_all 2 ∷ []

events-Spares : All (Spares hash_of (made hash_of (codes "a") 1 100)) events
unfolding str_beq
events-Spares = (refl, (refl, (refl, (refl, tt))))

get_session_user-happen_all_example :
    get_session_user hash_of
      (codes "a")
      2000000
      users
      (happen_all hash_of events (create_session hash_of (codes "a") 1 100 []))
    ≡ enabled_user (find_user 1 users)
get_session_user-happen_all_example =
    get_session_user-happen_all hash_of (codes "a") 1 100 2000000 users [] events refl (omega arith)
      (omega arith) events-Spares

sessions_of-happen_all_example : sessions_of 1 (happen_all hash_of events []) ≤ 100
unfolding sessions_of
sessions_of-happen_all_example = sessions_of-happen_all hash_of 1 events [] (omega arith)
