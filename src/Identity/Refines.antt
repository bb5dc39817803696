-- ===== src/Identity/Refines.antt =====
-- What each call of IdentityStore (core/identity/src/openroad_platform_identity/auth.py) does to the
-- tables, as a sequence of changes.
use chip_evolve.Base.{
  ℕ, ◌≡◌, Bool, true, Option, none, some, List, String, str_eq, leb, first, Bool-cases,
  Option-cases, inl, inr, some_row,
}
use chip_evolve.Base.{refl}
use chip_evolve.Identity.State.{SessionRow, IdentityDb}
use chip_evolve.Identity.Accounts.{
  Drawn, is_user, has_user, has_token, insert_user, insert_session, new_row, new_session, register,
  login, resolve, logout, ensure_local_user, new_user, new_local, is_named,
}
use chip_evolve.Identity.Owners.{owner_of, bind_resource}
use chip_evolve.Identity.Allowance.{consume_allowance}
use chip_evolve.Base.{ltb, ◌||◌, list_eq, ◌==◌}
use chip_evolve.Identity.State.{is_developer}
use chip_evolve.Identity.Accounts.{is_empty_table}
use chip_evolve.Identity.Names.{valid_username, is_valid_password, local_user, is_resource_type}
use chip_evolve.Identity.Owners.{new_owner}
use chip_evolve.Identity.Allowance.{used_in, window_of}
use chip_evolve.Identity.Requests.{
  Request, registers, logs_in, resolves, logs_out, ensures, binds, consumes, after_request,
}
use chip_evolve.Identity.Changes.{
  add_user, add_session, drop_session, touch_session, add_owner, count, Changes, at_start,
  then_change,
}

module _ (token_hash : String → String) (derive : String → List ℕ → ℕ → List ℕ)
    (Drops Adds : String → Type 0) where
  -- The sessions that a request deletes or inserts are of such hashes.
  abbrev pub Allows : Request → IdentityDb → Type 0
  Allows (registers username password user_id salt drawn now) db = Adds (token_hash drawn.token)
  Allows (logs_in username password drawn now) db = Adds (token_hash drawn.token)
  Allows (resolves none now) db = Unit
  Allows (resolves (some token) now) db =
      (row : SessionRow)
      → first (has_token (token_hash token)) db.sessions ≡ some row
      → leb row.expires_at now ≡ true
      → Drops (token_hash token)
  Allows (logs_out none) db = Unit
  Allows (logs_out (some token)) db = Drops (token_hash token)
  Allows (ensures user_id now) db = Unit
  Allows (binds kind id user_id now) db = Unit
  Allows (consumes user_id feature limit window_seconds now) db = Unit

  new_session-Changes :
      {start : IdentityDb} (user_id : ℕ) (username : List ℕ) (is_dev : Bool) (drawn : Drawn)
      (now : ℕ) (db : IdentityDb)
      → Adds (token_hash drawn.token)
      → Changes Drops Adds start db
      → Changes Drops Adds start (new_session token_hash user_id username is_dev drawn now db).1
  unfolding new_session
  new_session-Changes {start} user_id username is_dev drawn now db adds cs =
      elim (Option-cases (insert_session (new_row token_hash user_id drawn now) db)) [
        | inl failed ↦ rw (failed, new_session) cs
        | inr (after, ok) ↦
            rw (ok, new_session)
              (then_change cs (add_session db (new_row token_hash user_id drawn now) after adds ok))
      ]

  resolve-Changes :
      (token : Option String) (now : ℕ) (db : IdentityDb)
      → Allows (resolves token now) db
      → Changes Drops Adds db (resolve token_hash token now db).1
  unfolding resolve
  resolve-Changes none now db allowed = at_start
  resolve-Changes (some token) now db allowed = elim (Bool-cases (str_eq token "")) [
    | inl blank ↦ rw blank at_start
    | inr given ↦ elim (Option-cases (first (has_token (token_hash token)) db.sessions)) [
      | inl absent ↦ rw given (rw (absent, resolve) at_start)
      | inr (row, found) ↦ elim (Option-cases (first (is_user row.user_id) db.users)) [
        | inl gone ↦ rw given (rw (found, resolve) (rw (gone, resolve) at_start))
        | inr (user, known) ↦ elim (Bool-cases (leb row.expires_at now)) [
          | inl over ↦ rw given (
              rw (found, resolve)
                (rw (known, resolve)
                  (rw over (
                    then_change at_start
                      (drop_session db (token_hash token) (allowed row found over))))))
          | inr alive ↦ rw given (
              rw (found, resolve)
                (rw (known, resolve)
                  (rw alive (then_change at_start (touch_session db (token_hash token) now)))))
        ]
      ]
    ]
  ]

  register-Changes :
      (username password : String) (user_id : ℕ) (salt : List ℕ) (drawn : Drawn) (now : ℕ)
      (db : IdentityDb)
      → Adds (token_hash drawn.token)
      → Changes Drops Adds db
          (register token_hash derive username password user_id salt drawn now db).1
  unfolding register
  register-Changes username password user_id salt drawn now db adds =
      elim (Option-cases (valid_username username)) [
        | inl bad ↦ rw (bad, register) at_start
        | inr (name, valid) ↦ elim (Bool-cases (is_valid_password password)) [
          | inr weak ↦ rw (valid, register) (rw weak at_start)
          | inl strong ↦
              let row = new_user derive password user_id salt name now (is_empty_table db.users) in
              elim (Option-cases (insert_user row db)) [
                | inl taken ↦ rw (valid, register) (rw strong (rw (taken, register) at_start))
                | inr (after, added) ↦
                    rw (valid, register)
                      (rw strong (
                        rw (added, register)
                          (new_session-Changes user_id name (is_empty_table db.users) drawn now
                            after adds
                            (then_change at_start (
                              add_user db row after (record { work = refl; role = inl refl })
                                added)))))
              ]
        ]
      ]

  login-Changes :
      (username password : String) (drawn : Drawn) (now : ℕ) (db : IdentityDb)
      → Adds (token_hash drawn.token)
      → Changes Drops Adds db (login token_hash derive username password drawn now db).1
  unfolding login
  login-Changes username password drawn now db adds =
      elim (Option-cases (valid_username username)) [
        | inl bad ↦ rw (bad, login) at_start
        | inr (name, valid) ↦ elim (Option-cases (first (is_named name) db.users)) [
          | inl unknown ↦ rw (valid, login) (rw (unknown, login) at_start)
          | inr (user, known) ↦
              elim (Bool-cases (
                list_eq ◌==◌ (derive password user.password_salt user.password_iterations)
                  user.password_hash)) [
                    | inr wrong ↦ rw (valid, login) (rw (known, login) (rw wrong at_start))
                    | inl right ↦
                        rw (valid, login)
                          (rw (known, login)
                            (rw right (
                              new_session-Changes user.user_id user.username
                                (is_developer user.role) drawn now db adds at_start)))
                  ]
        ]
      ]

  ensure-Changes :
      (user_id now : ℕ) (db : IdentityDb)
      → Changes Drops Adds db (ensure_local_user user_id now db).1
  unfolding ensure_local_user
  ensure-Changes user_id now db = elim (Bool-cases (some_row (is_named local_user) db.users)) [
    | inl present ↦ rw present at_start
    | inr absent ↦ elim (Option-cases (insert_user (new_local user_id now) db)) [
      | inl failed ↦ rw absent (rw (failed, ensure_local_user) at_start)
      | inr (after, added) ↦ rw absent (
          rw (added, ensure_local_user)
            (then_change at_start (
              add_user db (new_local user_id now) after (record { work = refl; role = inr refl })
                added)))
    ]
  ]

  bind-Changes :
      (kind id : String) (user_id now : ℕ) (db : IdentityDb)
      → Changes Drops Adds db (bind_resource kind id user_id now db).1
  unfolding bind_resource
  bind-Changes kind id user_id now db = elim (Bool-cases (is_resource_type kind)) [
    | inr bad ↦ rw bad at_start
    | inl good ↦ elim (Bool-cases (str_eq id "")) [
      | inl blank ↦ rw (good, blank) at_start
      | inr named ↦ elim (Option-cases (owner_of kind id db)) [
        | inr (owner, owned) ↦ elim (Bool-cases (owner == user_id)) [
          | inl same ↦ rw good (rw named (rw (owned, bind_resource) (rw same at_start)))
          | inr other ↦ rw good (rw named (rw (owned, bind_resource) (rw other at_start)))
        ]
        | inl free ↦ elim (Bool-cases (has_user user_id db)) [
          | inr unknown ↦ rw good (rw named (rw (free, bind_resource) (rw unknown at_start)))
          | inl known ↦ rw good (
              rw named (
                rw (free, bind_resource)
                  (rw known (
                    then_change at_start
                      (add_owner db (new_owner kind id user_id now) free known)))))
        ]
      ]
    ]
  ]

  consume-Changes :
      (user_id : ℕ) (feature : String) (limit window_seconds now : ℕ) (db : IdentityDb)
      → Changes Drops Adds db (consume_allowance user_id feature limit window_seconds now db).1
  unfolding consume_allowance
  consume-Changes user_id feature limit window_seconds now db =
      elim (Bool-cases (ltb limit 1 || ltb window_seconds 60)) [
        | inl bad ↦ rw bad at_start
        | inr good ↦
            let window = window_of window_seconds now in
            elim (Bool-cases (leb limit (used_in user_id feature window db.usage))) [
              | inl spent ↦ rw good (rw spent at_start)
              | inr left ↦ elim (Bool-cases (has_user user_id db)) [
                | inr unknown ↦ rw good (rw left (rw unknown at_start))
                | inl known ↦ rw good (
                    rw left
                      (rw known (then_change at_start (count db user_id feature window now known))))
              ]
            ]
      ]

  -- Each request makes a sequence of changes, on every branch.
  pub after_request-Changes :
      (r : Request) (db : IdentityDb)
      → Allows r db
      → Changes Drops Adds db (after_request token_hash derive r db)
  unfolding after_request logout
  after_request-Changes (registers username password user_id salt drawn now) db allowed =
      register-Changes username password user_id salt drawn now db allowed
  after_request-Changes (logs_in username password drawn now) db allowed =
      login-Changes username password drawn now db allowed
  after_request-Changes (resolves token now) db allowed = resolve-Changes token now db allowed
  after_request-Changes (logs_out none) db allowed = at_start
  after_request-Changes (logs_out (some token)) db allowed = elim (Bool-cases (str_eq token "")) [
    | inl blank ↦ rw blank at_start
    | inr given ↦ rw given (then_change at_start (drop_session db (token_hash token) allowed))
  ]
  after_request-Changes (ensures user_id now) db allowed = ensure-Changes user_id now db
  after_request-Changes (binds kind id user_id now) db allowed = bind-Changes kind id user_id now db
  after_request-Changes (consumes user_id feature limit window_seconds now) db allowed =
      consume-Changes user_id feature limit window_seconds now db
