-- ===== src/Identity/Tests.antt =====
-- Runs of the identity store (core/identity/src/openroad_platform_identity/auth.py), and the theorems about
-- it at concrete inputs. The hash of a token is the token here, and that of a password its code points.
mod Spending
use chip_evolve.Base.{
  ℕ, ◌+◌, ◌*◌, ◌≤◌, ◌≡◌, ◌≢◌, refl, Bool, true, false, Option, none, some, List, [], ◌∷◌, ◌++◌,
  String, codes, arith, first, some_row, update_where, list_eq, All, ◌||◌, ◌==◌, str_eq,
  if◌then◌else◌, leb, map,
}
use chip_evolve.Contracts.Names.{is_alnum, all_codes}
use chip_evolve.Identity.State.{
  User, SessionRow, IdentityDb, AuthSession, Role, developer, member, done, raised, new_store,
  second, session_seconds, pbkdf2_iterations, invalid_login,
}
use chip_evolve.Identity.Names.{
  valid_username, matches_username, is_username_char, is_valid_password, strip, same_name,
}
use chip_evolve.Identity.Accounts.{
  Drawn, register, login, resolve, has_user, ensure_local_user, new_session, insert_session,
  insert_user,
}
use chip_evolve.Identity.Allowance.{used_in, upsert_use, consume_allowance, window_of}
use chip_evolve.Identity.Requests.{
  Request, registers, logs_in, resolves, logs_out, ensures, binds, consumes, after_request,
  after_requests,
}
use chip_evolve.Identity.Spending.Totals.{keeps_limit, granted, asked, granted_exactly}
use chip_evolve.Identity.Passwords.{RestIsOrdinary, login_same_work, one_developer}
use chip_evolve.Identity.Registration.{register-login}
use chip_evolve.Identity.Sessions.Life.{login_lasts}

abbrev plain : String → String
plain token = token

abbrev spelled : String → List ℕ → ℕ → List ℕ
spelled password salt iterations = codes password

abbrev drawn : String → ℕ → Drawn
drawn token id = record { token = token; session_id = id }

abbrev joins : List Request
joins =
    registers "alice" "wonderland" 1 [] (drawn "tok-a" 11) 5
    ∷ registers " bob" "builder-8" 2 [] (drawn "tok-b" 12) 6
    ∷ []

abbrev alice : User
alice = record {
  user_id = 1;
  username = codes "alice";
  password_salt = [];
  password_hash = codes "wonderland";
  password_iterations = pbkdf2_iterations;
  role = developer;
  created_at = 5;
}

abbrev bob : User
bob = record {
  user_id = 2;
  username = codes "bob";
  password_salt = [];
  password_hash = codes "builder-8";
  password_iterations = pbkdf2_iterations;
  role = member;
  created_at = 6;
}

abbrev session_row : String → ℕ → ℕ → ℕ → SessionRow
session_row token id user now = record {
  token_hash = token;
  session_id = id;
  user_id = user;
  created_at = now;
  expires_at = now + session_seconds * second;
  last_seen_at = now;
}

abbrev joined : IdentityDb
joined = record {
  users = alice ∷ bob ∷ [];
  sessions = session_row "tok-a" 11 1 5 ∷ session_row "tok-b" 12 2 6 ∷ [];
  owners = [];
  usage = [];
}

they_join : after_requests plain spelled joins new_store ≡ joined
unfolding after_requests after_request register new_session insert_session insert_user
    valid_username strip matches_username is_alnum all_codes is_username_char is_valid_password
    same_name some_row
they_join = refl

abbrev bob_session : ℕ → AuthSession
bob_session id = record { user_id = 2; username = codes "bob"; developer = false; session_id = id }

-- bob logs in as BOB.
abbrev bob_in : IdentityDb
bob_in = record joined { sessions = joined.sessions ++ session_row "tok-c" 13 2 10 ∷ [] }

bob_logs_in :
    login plain spelled "BOB" "builder-8" (drawn "tok-c" 13) 10 joined
    ≡ (done (bob_session 13, "tok-c"), bob_in, 310000)
unfolding login new_session insert_session valid_username strip matches_username is_alnum all_codes
    is_username_char same_name list_eq first some_row
bob_logs_in = refl

-- A wrong password and an unknown name are told alike.
wrong_password :
    login plain spelled "bob" "builder-9" (drawn "tok-c" 13) 10 joined
    ≡ (raised invalid_login, joined, 310000)
unfolding login valid_username strip matches_username is_alnum all_codes is_username_char same_name
    list_eq first
wrong_password = refl

unknown_name :
    login plain spelled "carol" "builder-9" (drawn "tok-c" 13) 10 joined
    ≡ (raised invalid_login, joined, 310000)
unfolding login valid_username strip matches_username is_alnum all_codes is_username_char same_name
    list_eq first
unknown_name = refl

login_lasts_example :
    (resolve plain (some "tok-c") 700 (
      after_requests plain spelled
        (resolves (some "tok-c") 600 ∷ logs_out (some "tok-b") ∷ [])
        bob_in)).0
    ≡ some (bob_session 13)
login_lasts_example =
    login_lasts plain spelled joins (resolves (some "tok-c") 600 ∷ logs_out (some "tok-b") ∷ [])
      "BOB" "builder-8" (drawn "tok-c" 13) 10 310000 700 bob_in (bob_session 13) "tok-c" refl
      (rw they_join bob_logs_in) (refl, (refl, tt)) (omega arith)

carol_is_valid : valid_username "carol" ≡ some (codes "carol")
unfolding valid_username strip matches_username is_alnum all_codes is_username_char
carol_is_valid = refl

login_same_work_example :
    (login plain spelled "carol" "guess-guess"
      (drawn "tok-c" 13)
      10
      (after_requests plain spelled joins new_store)).2
    ≡ pbkdf2_iterations
login_same_work_example =
    login_same_work plain spelled joins "carol" "guess-guess" (drawn "tok-c" 13) 10 (codes "carol")
      carol_is_valid

one_developer_example : RestIsOrdinary (after_requests plain spelled joins new_store).users
one_developer_example = one_developer plain spelled joins

-- bob registers after alice, and logs in as BOB.
abbrev alice_joined : IdentityDb
alice_joined = record {
  users = alice ∷ [];
  sessions = session_row "tok-a" 11 1 5 ∷ [];
  owners = [];
  usage = [];
}

bob_joins :
    register plain spelled " bob" "builder-8" 2 [] (drawn "tok-b" 12) 6 alice_joined
    ≡ (done (bob_session 12, "tok-b"), joined)
unfolding register new_session insert_session insert_user valid_username strip matches_username
    is_alnum all_codes is_username_char is_valid_password same_name some_row
bob_joins = refl

bob_is_valid : valid_username " bob" ≡ some (codes "bob")
unfolding valid_username strip matches_username is_alnum all_codes is_username_char
bob_is_valid = refl

loud_bob_is_valid : valid_username "BOB" ≡ some (codes "BOB")
unfolding valid_username strip matches_username is_alnum all_codes is_username_char
loud_bob_is_valid = refl

folds : same_name (codes "bob") (codes "BOB") ≡ true
unfolding same_name list_eq
folds = refl

unused_token :
    some_row
      (λ s. str_eq s.token_hash "tok-c" || s.session_id == 13)
      (after_requests plain spelled [] joined).sessions
    ≡ false
unfolding after_requests some_row
unused_token = refl

register-login_example :
    (login plain spelled "BOB" "builder-8"
      (drawn "tok-c" 13)
      10
      (after_requests plain spelled [] joined)).0
    ≡ done (bob_session 13, "tok-c")
register-login_example =
    register-login plain spelled " bob" "BOB" "builder-8" 2 [] (drawn "tok-b" 12) (drawn "tok-c" 13)
      6 10 alice_joined joined [] (bob_session 12) "tok-b" (codes "bob") (codes "BOB") bob_joins
      bob_is_valid loud_bob_is_valid folds unused_token

-- A user of the name Local-User keeps ensure_local_user from adding its row, and no user has the name as
-- the gateway then looks it up.
abbrev squatted : IdentityDb
squatted = record joined { users = record bob { username = codes "Local-User" } ∷ [] }

not_ensured : ensure_local_user 3 20 squatted ≡ (done false, squatted)
unfolding ensure_local_user same_name list_eq some_row
not_ensured = refl

not_found : some_row (λ u. list_eq ◌==◌ u.username (codes "local-user")) squatted.users ≡ false
unfolding some_row list_eq
not_found = refl

-- A deployment that ran without authentication first gives its first account no developer role.
abbrev bob_first : List Request
bob_first = ensures 9 1 ∷ registers "bob" "builder-8" 2 [] (drawn "tok-b" 12) 6 ∷ []

no_bootstrap :
    map (λ u. u.role) (after_requests plain spelled bob_first new_store).users
    ≡ developer ∷ member ∷ []
unfolding after_requests after_request ensure_local_user register new_session insert_session
    insert_user valid_username strip matches_username is_alnum all_codes is_username_char
    is_valid_password same_name some_row
no_bootstrap = refl
