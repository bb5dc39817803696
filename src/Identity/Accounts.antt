-- ===== src/Identity/Accounts.antt =====
-- Users and sessions: register, login, resolve, logout, ensure_local_user, has_user and _new_session of
-- IdentityStore in core/identity/src/openroad_platform_identity/auth.py.
use chip_evolve.Base.{
  ℕ, ◌+◌, ◌*◌, Bool, true, false, ◌||◌, not, Option, none, some, List, [], ◌∷◌, ◌++◌, leb, ◌==◌,
  if◌then◌else◌, String, str_eq, list_eq, first, some_row, update_where, delete_where,
}
use chip_evolve.Identity.State.{
  User, SessionRow, IdentityDb, AuthSession, Role, developer, member, is_developer, Outcome, done,
  raised, bad_username, bad_password, username_taken, invalid_login, constraint_failed, second,
  session_seconds, pbkdf2_iterations,
}
use chip_evolve.Identity.Names.{valid_username, is_valid_password, same_name, local_user}

abbrev pub is_user : ℕ → User → Bool
is_user id u = u.user_id == id

abbrev pub is_named : List ℕ → User → Bool
is_named name u = same_name u.username name

abbrev pub has_token : String → SessionRow → Bool
has_token token_hash s = str_eq s.token_hash token_hash

-- has_user
abbrev pub has_user : ℕ → IdentityDb → Bool
has_user id db = some_row (is_user id) db.users

-- INSERT INTO identity_users, with its two keys: none is the IntegrityError.
unfoldable pub insert_user : User → IdentityDb → Option IdentityDb
insert_user user db =
    if some_row (λ u. u.user_id == user.user_id || same_name u.username user.username) db.users
    then none
    else some (record db { users = db.users ++ user ∷ [] })

-- INSERT INTO identity_sessions, with its two keys and its foreign key.
unfoldable pub insert_session : SessionRow → IdentityDb → Option IdentityDb
insert_session row db =
    if some_row (λ s. str_eq s.token_hash row.token_hash || s.session_id == row.session_id)
        db.sessions
      || not (has_user row.user_id db)
    then none
    else some (record db { sessions = db.sessions ++ row ∷ [] })

abbrev pub is_empty_table : List User → Bool
is_empty_table [] = true
is_empty_table (u ∷ us) = false

abbrev pub first_role : Bool → Role
first_role true = developer
first_role false = member

-- What the code draws at random for a new session.
pub record Drawn : Type 0 where
  pub token : String
  pub session_id : ℕ

-- `token_hash` is the SHA-256 of a token. `derive` is hashlib.pbkdf2_hmac("sha256", …), of a
-- password, a salt and a number of iterations.
module _ (token_hash : String → String) where
  abbrev pub new_row : ℕ → Drawn → ℕ → SessionRow
  new_row user_id drawn now = record {
    token_hash = token_hash drawn.token;
    session_id = drawn.session_id;
    user_id = user_id;
    created_at = now;
    expires_at = now + session_seconds * second;
    last_seen_at = now;
  }

  -- _new_session
  unfoldable pub new_session :
      ℕ → List ℕ → Bool → Drawn → ℕ → IdentityDb → Outcome (AuthSession × String) × IdentityDb
  new_session user_id username is_dev drawn now db =
      elim (insert_session (new_row user_id drawn now) db) [
        | none ↦ (raised constraint_failed, db)
        | some after ↦ (
          done (
            record {
              user_id = user_id;
              username = username;
              developer = is_dev;
              session_id = drawn.session_id;
            },
            drawn.token,
          ),
          after,
        )
      ]

  -- resolve
  unfoldable pub resolve : Option String → ℕ → IdentityDb → Option AuthSession × IdentityDb
  resolve none now db = (none, db)
  resolve (some token) now db =
      if str_eq token ""
      then (none, db)
      else elim (first (has_token (token_hash token)) db.sessions) [
        | none ↦ (none, db)
        | some row ↦ elim (first (is_user row.user_id) db.users) [
          | none ↦ (none, db)
          | some user ↦
              if leb row.expires_at now
              then (
                none,
                record db { sessions = delete_where (has_token (token_hash token)) db.sessions },
              )
              else (
                some (record {
                  user_id = row.user_id;
                  username = user.username;
                  developer = is_developer user.role;
                  session_id = row.session_id;
                }),
                record db {
                  sessions =
                      update_where (has_token (token_hash token))
                        (λ s. record s { last_seen_at = now }) db.sessions;
                },
              )
        ]
      ]

  -- logout
  unfoldable pub logout : Option String → IdentityDb → IdentityDb
  logout none db = db
  logout (some token) db =
      if str_eq token ""
      then db
      else record db { sessions = delete_where (has_token (token_hash token)) db.sessions }

-- The row that register inserts.
abbrev pub new_user :
    (String → List ℕ → ℕ → List ℕ) → String → ℕ → List ℕ → List ℕ → ℕ → Bool → User
new_user derive password user_id salt name now first_user = record {
  user_id = user_id;
  username = name;
  password_salt = salt;
  password_hash = derive password salt pbkdf2_iterations;
  password_iterations = pbkdf2_iterations;
  role = first_role first_user;
  created_at = now;
}

module _ (token_hash : String → String) (derive : String → List ℕ → ℕ → List ℕ) where
  -- register
  unfoldable pub register :
      String
      → String
      → ℕ
      → List ℕ
      → Drawn
      → ℕ
      → IdentityDb
      → Outcome (AuthSession × String) × IdentityDb
  register username password user_id salt drawn now db = elim (valid_username username) [
    | none ↦ (raised bad_username, db)
    | some name ↦
        if not (is_valid_password password)
        then (raised bad_password, db)
        else (let first_user = is_empty_table db.users in
            elim (insert_user (new_user derive password user_id salt name now first_user) db) [
              | none ↦ (raised username_taken, db)
              | some after ↦ new_session token_hash user_id name first_user drawn now after
            ])
  ]

  -- login: the result, the state, and the iterations of key derivation that were performed, by _derive or,
  -- for a name that no user has, by _dummy_password_check.
  unfoldable pub login :
      String → String → Drawn → ℕ → IdentityDb → Outcome (AuthSession × String) × IdentityDb × ℕ
  login username password drawn now db = elim (valid_username username) [
    | none ↦ (raised bad_username, db, 0)
    | some name ↦ elim (first (is_named name) db.users) [
      | none ↦ (raised invalid_login, db, pbkdf2_iterations)
      | some user ↦
          if list_eq ◌==◌ (derive password user.password_salt user.password_iterations)
            user.password_hash
          then (let (outcome, after) =
                new_session token_hash user.user_id user.username (is_developer user.role) drawn now
                  db in
              (outcome, after, user.password_iterations))
          else (raised invalid_login, db, user.password_iterations)
    ]
  ]

-- The row that ensure_local_user inserts.
abbrev pub new_local : ℕ → ℕ → User
new_local user_id now = record {
  user_id = user_id;
  username = local_user;
  password_salt = [];
  password_hash = [];
  password_iterations = pbkdf2_iterations;
  role = developer;
  created_at = now;
}

-- ensure_local_user
unfoldable pub ensure_local_user : ℕ → ℕ → IdentityDb → Outcome Bool × IdentityDb
ensure_local_user user_id now db =
    if some_row (is_named local_user) db.users
    then (done false, db)
    else elim (insert_user (new_local user_id now) db) [
      | none ↦ (raised constraint_failed, db)
      | some after ↦ (done true, after)
    ]
