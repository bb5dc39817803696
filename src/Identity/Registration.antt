-- ===== src/Identity/Registration.antt =====
-- Registration and login of core/identity/src/openroad_platform_identity/auth.py: an account can be used.
use chip_evolve.Base.{
  ℕ, ◌≡◌, refl, ap, ◌∙◌, Bool, true, false, ◌||◌, none, some, List, [], ◌∷◌, ◌++◌, String, str_eq,
  arith, first, some_row, first-append, first-none, Bool-cases, inl, inr, ◌==◌, ==_refl,
  Option-cases, list_eq, list_eq_refl,
}
use chip_evolve.Identity.State.{User, IdentityDb, AuthSession, done, is_developer}
use chip_evolve.Identity.Names.{valid_username, same_name, is_valid_password}
use chip_evolve.Identity.Accounts.{
  Drawn, is_user, is_named, has_user, insert_user, insert_session, new_row, new_user, new_session,
  register, login, is_empty_table, first_role,
}
use chip_evolve.Identity.Requests.{Request, after_requests}
use chip_evolve.Identity.Kept.{user_inserted, session_inserted, user_kept}
use chip_evolve.Identity.Sessions.{opened}

-- Two names that are the third but for the case of letters are one another.
same_name-both :
    (a b c : List ℕ) → same_name a c ≡ true → same_name b c ≡ true → same_name a b ≡ true
unfolding same_name list_eq
same_name-both [] [] c p q = refl
same_name-both [] (y ∷ b) [] p q = absurd (ground arith)
same_name-both [] (y ∷ b) (z ∷ c) p q = absurd (ground arith)
same_name-both (x ∷ a) [] [] p q = absurd (ground arith)
same_name-both (x ∷ a) [] (z ∷ c) p q = absurd (ground arith)
same_name-both (x ∷ a) (y ∷ b) [] p q = absurd (ground arith)
same_name-both (x ∷ a) (y ∷ b) (z ∷ c) p q = ground (arith, same_name-both a b c)

first-some_row {ℓ} :
    {A : Type ℓ} (p : A → Bool) (xs : List A) {x : A} → first p xs ≡ some x → some_row p xs ≡ true
unfolding first some_row
first-some_row p [] h = absurd (ground arith)
first-some_row p (y ∷ xs) h = elim (Bool-cases (p y)) [
  | inl hit ↦ rw hit refl
  | inr miss ↦ rw miss (first-some_row p xs (rw miss at h))
]

or_true : (b : Bool) → (b || true) ≡ true
or_true true = refl
or_true false = refl

first_role_developer : (b : Bool) → is_developer (first_role b) ≡ b
first_role_developer true = refl
first_role_developer false = refl

module _ (token_hash : String → String) (derive : String → List ℕ → ℕ → List ℕ) where
  -- What a registration that returned has done.
  registered :
      (username password : String) (user_id : ℕ) (salt : List ℕ) (drawn : Drawn) (now : ℕ)
      (db after : IdentityDb) (session : AuthSession) (token : String)
      → register token_hash derive username password user_id salt drawn now db
        ≡ (done (session, token), after)
      → (name : List ℕ) × (middle : IdentityDb) × (valid_username username ≡ some name)
        × (insert_user (new_user derive password user_id salt name now (is_empty_table db.users)) db
            ≡ some middle)
        × (new_session token_hash user_id name (is_empty_table db.users) drawn now middle
            ≡ (done (session, token), after))
  unfolding register
  registered username password user_id salt drawn now db after session token h =
      elim (Option-cases (valid_username username)) [
        | inl bad ↦ absurd (ground arith)
        | inr (name, valid) ↦ elim (Bool-cases (is_valid_password password)) [
          | inr weak ↦ absurd (ground arith)
          | inl strong ↦
              elim (Option-cases (
                insert_user
                  (new_user derive password user_id salt name now (is_empty_table db.users)) db)) [
                    | inl taken ↦ absurd (ground arith)
                    | inr (middle, added) ↦ (name, middle, valid, added, ground arith)
                  ]
        ]
      ]

  -- A login of a user that is known, with the right password and an unused token.
  login-known :
      (username password : String) (drawn : Drawn) (now : ℕ) (db : IdentityDb) (name : List ℕ)
      (user : User)
      → valid_username username ≡ some name
      → first (is_named name) db.users ≡ some user
      → has_user user.user_id db ≡ true
      → user.password_hash ≡ derive password user.password_salt user.password_iterations
      → some_row
          (λ s. str_eq s.token_hash (token_hash drawn.token) || s.session_id == drawn.session_id)
          db.sessions
        ≡ false
      → (login token_hash derive username password drawn now db).0
        ≡ done (
          record {
            user_id = user.user_id;
            username = user.username;
            developer = is_developer user.role;
            session_id = drawn.session_id;
          },
          drawn.token,
        )
  unfolding login
  login-known username password drawn now db name user valid found known hash free =
      let right : list_eq ◌==◌ (derive password user.password_salt user.password_iterations)
            user.password_hash
          ≡ true =
        rw hash (
          list_eq_refl ◌==◌ ==_refl
            (derive password user.password_salt user.password_iterations)) in
      let row = new_row token_hash user.user_id drawn now in
      let opens : insert_session row db ≡ some (record db { sessions = db.sessions ++ row ∷ [] }) =
        unfold insert_session in rw (free, known) refl in
      let logs : (new_session token_hash user.user_id user.username (is_developer user.role) drawn
            now db).0
          ≡ done (
            record {
              user_id = user.user_id;
              username = user.username;
              developer = is_developer user.role;
              session_id = drawn.session_id;
            },
            drawn.token,
          ) =
        unfold new_session in rw (opens, new_session) refl in
      rw (valid, login) (rw (found, login) (rw right logs))

  -- After a registration, whatever is called in between, a login under the same name up to the case of its
  -- letters and with the same password opens a session of the same user with the same rights, if its token
  -- and session id are not in use.
  pub register-login :
      (username username2 password : String) (user_id : ℕ) (salt : List ℕ) (drawn drawn2 : Drawn)
      (now now2 : ℕ) (db after : IdentityDb) (later : List Request) (session : AuthSession)
      (token : String) (name name2 : List ℕ)
      → register token_hash derive username password user_id salt drawn now db
        ≡ (done (session, token), after)
      → valid_username username ≡ some name
      → valid_username username2 ≡ some name2
      → same_name name name2 ≡ true
      → some_row
          (λ s. str_eq s.token_hash (token_hash drawn2.token) || s.session_id == drawn2.session_id)
          (after_requests token_hash derive later after).sessions
        ≡ false
      → (login token_hash derive username2 password drawn2 now2
          (after_requests token_hash derive later after)).0
        ≡ done (record session { session_id = drawn2.session_id }, drawn2.token)
  register-login username username2 password user_id salt drawn drawn2 now now2 db after later
        session token name name2 h valid valid2 same free =
      let (name1, middle, valid1, added, made) =
        registered username password user_id salt drawn now db after session token h in
      let is_first = is_empty_table db.users in
      let is_name : name1 ≡ name = ground arith in
      let row = new_user derive password user_id salt name1 now is_first in
      let (unused, is_middle) = user_inserted row db middle added in
      let (ok, is_token, is_session) =
        opened token_hash derive user_id name1 is_first drawn now middle after session token made in
      let (fresh, known, is_after) =
        session_inserted (new_row token_hash user_id drawn now) middle after ok in
      let folded : same_name name1 name2 ≡ true = rw is_name same in
      let unnamed : first (is_named name2) db.users ≡ none =
        first-none (λ v. v.user_id == user_id || same_name v.username name1) (is_named name2)
          db.users
          (λ v e.
            rw (same_name-both v.username name1 name2 e folded) (or_true (v.user_id == user_id)))
          unused in
      let no_id : first (is_user user_id) db.users ≡ none =
        first-none (λ v. v.user_id == user_id || same_name v.username name1) (is_user user_id)
          db.users (λ v e. rw e refl) unused in
      let users : after.users ≡ db.users ++ row ∷ [] =
        ap (λ (d : IdentityDb). d.users) is_after ∙ ap (λ (d : IdentityDb). d.users) is_middle in
      let named : first (is_named name2) after.users ≡ some row =
        rw users (rw (first-append, unnamed) (unfold first in rw folded refl)) in
      let by_id : first (is_user user_id) after.users ≡ some row =
        rw users (rw (first-append, no_id) (unfold first in rw (==_refl user_id) refl)) in
      let end = after_requests token_hash derive later after in
      login-known username2 password drawn2 now2 end name2 row valid2
        (user_kept token_hash derive (is_named name2) row later after named)
        (first-some_row (is_user user_id) end.users
          (user_kept token_hash derive (is_user user_id) row later after by_id))
        refl free
      ∙ rw is_session (rw (first_role_developer is_first) refl)
