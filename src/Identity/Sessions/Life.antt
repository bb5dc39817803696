-- ===== src/Identity/Sessions/Life.antt =====
-- From a login of core/identity/src/openroad_platform_identity/auth.py to the end of its session.
use chip_evolve.Base.{
  ℕ, ◌+◌, ◌*◌, ◌<◌, ◌≡◌, refl, sym, ap, ◌∙◌, Bool, true, false, ◌||◌, not, none, some, List, [],
  ◌∷◌, String, str_eq, arith, first, delete_where, first-append, first-none, Bool-cases, inl, inr,
  ◌==◌, str_eq_iff, str_eq_refl, All, Option-cases, list_eq, All-first, first-update_where,
}
use chip_evolve.Identity.State.{
  User, IdentityDb, AuthSession, done, is_developer, new_store, second, session_seconds,
}
use chip_evolve.Identity.Names.{valid_username}
use chip_evolve.Identity.Accounts.{
  Drawn, is_user, is_named, has_token, new_row, new_session, login, resolve, logout,
}
use chip_evolve.Identity.Requests.{
  Request, after_request, after_requests, registers, logs_in, resolves, logs_out, ensures, binds,
  consumes,
}
use chip_evolve.Identity.Changes.{
  Change, add_user, add_session, drop_session, touch_session, add_owner, count, Changes-induction,
}
use chip_evolve.Identity.Refines.{Allows, after_request-Changes}
use chip_evolve.Identity.Kept.{Anything, user_inserted, session_inserted, user_kept}
use chip_evolve.Identity.Sessions.{
  Holds, IsOther, reached-IdsAreOwn, spares, requests-Holds, opened, resolve-live,
}

-- What a deletion selects is not found again.
first-deleted {ℓ} : {A : Type ℓ} (p : A → Bool) (xs : List A) → first p (delete_where p xs) ≡ none
unfolding first delete_where
first-deleted p [] = refl
first-deleted p (x ∷ xs) = ground (arith, first-deleted p xs)

first-delete_none {ℓ} :
    {A : Type ℓ} (q p : A → Bool) (xs : List A)
    → first q xs ≡ none
    → first q (delete_where p xs) ≡ none
unfolding first delete_where
first-delete_none q p [] h = refl
first-delete_none q p (x ∷ xs) h = ground (arith, first-delete_none q p xs)

abbrev IsGone : String → IdentityDb → Type 0
IsGone hash db = first (has_token hash) db.sessions ≡ none

Change-IsGone :
    (hash : String) (a b : IdentityDb)
    → Change Anything (IsOther hash) a b
    → IsGone hash a
    → IsGone hash b
Change-IsGone hash _ _ (add_user db v after new h) gone =
    let (free, made) = user_inserted v db after h in rw made gone
Change-IsGone hash _ _ (add_session db row after apart h) gone =
    let (free, known, made) = session_inserted row db after h in
    let other : has_token hash row ≡ false = elim (Bool-cases (has_token hash row)) [
      | inr e ↦ e
      | inl e ↦
          let same : row.token_hash ≡ hash = (str_eq_iff row.token_hash hash).0 e in
          absurd (
            let twin : str_eq hash row.token_hash ≡ true = rw same (str_eq_refl hash) in
            ground (arith, twin))
    ] in
    rw made (rw (first-append, gone) (unfold first in rw other refl))
Change-IsGone hash _ _ (drop_session db other may) gone =
    first-delete_none (has_token hash) (has_token other) db.sessions gone
Change-IsGone hash _ _ (touch_session db other now) gone =
    rw
      (first-update_where (has_token hash) (has_token other) (λ s. record s { last_seen_at = now })
        db.sessions (λ s. refl))
      (rw gone refl)
Change-IsGone hash _ _ (add_owner db row free known) gone = gone
Change-IsGone hash _ _ (count db id feature window now known) gone = gone

module _ (token_hash : String → String) where
  -- A request does not draw a token of the hash.
  abbrev pub draws_other : String → Request → Bool
  draws_other hash (registers username password user_id salt drawn now) =
      not (str_eq hash (token_hash drawn.token))
  draws_other hash (logs_in username password drawn now) =
      not (str_eq hash (token_hash drawn.token))
  draws_other hash _ = true

module _ (token_hash : String → String) (derive : String → List ℕ → ℕ → List ℕ) where
  draws_other-Allows :
      (hash : String) (r : Request) (db : IdentityDb)
      → draws_other token_hash hash r ≡ true
      → Allows token_hash derive Anything (IsOther hash) r db
  draws_other-Allows hash (registers username password user_id salt drawn now) db ok = ground arith
  draws_other-Allows hash (logs_in username password drawn now) db ok = ground arith
  draws_other-Allows hash (resolves none now) db ok = tt
  draws_other-Allows hash (resolves (some token) now) db ok = λ row found over. tt
  draws_other-Allows hash (logs_out none) db ok = tt
  draws_other-Allows hash (logs_out (some token)) db ok = tt
  draws_other-Allows hash (ensures user_id now) db ok = tt
  draws_other-Allows hash (binds kind id user_id now) db ok = tt
  draws_other-Allows hash (consumes user_id feature limit window_seconds now) db ok = tt

  requests-IsGone :
      (hash : String) (rs : List Request) (db : IdentityDb)
      → All (λ r. draws_other token_hash hash r ≡ true) rs
      → IsGone hash db
      → IsGone hash (after_requests token_hash derive rs db)
  unfolding after_requests
  requests-IsGone hash [] db others gone = gone
  requests-IsGone hash (r ∷ rs) db others gone =
      requests-IsGone hash rs (after_request token_hash derive r db) others.1 (
        Changes-induction (IsGone hash) (Change-IsGone hash)
          (after_request-Changes token_hash derive Anything (IsOther hash) r db
            (draws_other-Allows hash r db others.0))
          gone)

  resolve-gone :
      (token : String) (now : ℕ) (db : IdentityDb)
      → IsGone (token_hash token) db
      → (resolve token_hash (some token) now db).0 ≡ none
  unfolding resolve
  resolve-gone token now db gone = elim (Bool-cases (str_eq token "")) [
    | inl blank ↦ rw blank refl
    | inr given ↦ rw given (rw (gone, resolve) refl)
  ]

  logout-IsGone :
      (token : String) (db : IdentityDb)
      → str_eq token "" ≡ false
      → IsGone (token_hash token) (logout token_hash (some token) db)
  unfolding logout
  logout-IsGone token db given = rw given (first-deleted (has_token (token_hash token)) db.sessions)

  -- After a logout the token resolves to no session, whatever is called afterwards, unless a session
  -- with a token of the same hash is opened.
  pub logout_final :
      (token : String) (now : ℕ) (later : List Request) (db : IdentityDb)
      → All (λ r. draws_other token_hash (token_hash token) r ≡ true) later
      → (resolve token_hash
          (some token)
          now
          (after_requests token_hash derive later (logout token_hash (some token) db))).0
        ≡ none
  logout_final token now later db others = elim (Bool-cases (str_eq token "")) [
    | inl blank ↦ unfold resolve in rw blank refl
    | inr given ↦
        resolve-gone token now
          (after_requests token_hash derive later (logout token_hash (some token) db))
          (requests-IsGone (token_hash token) later (logout token_hash (some token) db) others
            (logout-IsGone token db given))
  ]

  -- A login that returned has found a user of the name and derived the user's hash.
  pub logged_in :
      (username password : String) (drawn : Drawn) (now work : ℕ) (db after : IdentityDb)
      (session : AuthSession) (token : String)
      → login token_hash derive username password drawn now db
        ≡ (done (session, token), after, work)
      → (name : List ℕ) × (user : User) × (valid_username username ≡ some name)
        × (first (is_named name) db.users ≡ some user)
        × (list_eq ◌==◌
              (derive password user.password_salt user.password_iterations)
              user.password_hash
            ≡ true)
        × (new_session token_hash user.user_id user.username (is_developer user.role) drawn now db
            ≡ (done (session, token), after))
  unfolding login
  logged_in username password drawn now work db after session token h =
      elim (Option-cases (valid_username username)) [
        | inl bad ↦ absurd (ground arith)
        | inr (name, valid) ↦ elim (Option-cases (first (is_named name) db.users)) [
          | inl unknown ↦ absurd (ground arith)
          | inr (user, known) ↦
              elim (Bool-cases (
                list_eq ◌==◌ (derive password user.password_salt user.password_iterations)
                  user.password_hash)) [
                    | inr wrong ↦ absurd (ground arith)
                    | inl right ↦ (name, user, valid, known, right, ground arith)
                  ]
        ]
      ]

  session_opened :
      (user : User) (drawn : Drawn) (now : ℕ) (db after : IdentityDb) (session : AuthSession)
      (token : String)
      → new_session token_hash user.user_id user.username (is_developer user.role) drawn now db
        ≡ (done (session, token), after)
      → (after.users ≡ db.users)
        × (session ≡ record {
          user_id = user.user_id;
          username = user.username;
          developer = is_developer user.role;
          session_id = drawn.session_id;
        })
        × Holds
            (token_hash token)
            (drawn.session_id, user.user_id, now + session_seconds * second)
            after
  session_opened user drawn now db after session token h =
      let (ok, same_token, made_session) =
        opened token_hash derive user.user_id user.username (is_developer user.role) drawn now db
          after session token h in
      let row = new_row token_hash user.user_id drawn now in
      let (free, known, made) = session_inserted row db after ok in
      let absent : first (has_token row.token_hash) db.sessions ≡ none =
        first-none (λ s. str_eq s.token_hash row.token_hash || s.session_id == row.session_id)
          (has_token row.token_hash) db.sessions (λ s e. rw e refl) free in
      let new : first (has_token row.token_hash) (row ∷ []) ≡ some row =
        unfold first in rw (str_eq_refl row.token_hash) refl in
      (
        ap (λ (d : IdentityDb). d.users) made,
        made_session,
        rw same_token (rw made (rw (first-append, absent) (rw new refl))),
      )

  -- In every reachable state, the session that a login returned is the one that its token resolves to
  -- until a week has passed, whatever is called in between, unless the session is logged out or, once it is
  -- over, asked for.
  pub login_lasts :
      (before later : List Request) (username password : String) (drawn : Drawn) (now work t : ℕ)
      (after : IdentityDb) (session : AuthSession) (token : String)
      → str_eq token "" ≡ false
      → login token_hash derive username password drawn now
          (after_requests token_hash derive before new_store)
        ≡ (done (session, token), after, work)
      → All
          (λ r. spares token_hash (token_hash token) (now + session_seconds * second) r ≡ true)
          later
      → t < now + session_seconds * second
      → (resolve token_hash (some token) t (after_requests token_hash derive later after)).0
        ≡ some session
  login_lasts before later username password drawn now work t after session token given h spared
        live =
      let db = after_requests token_hash derive before new_store in
      let (name, user, valid, found, right, made) =
        logged_in username password drawn now work db after session token h in
      let (users, is_session, held) = session_opened user drawn now db after session token made in
      let own : first (is_user user.user_id) db.users ≡ some user =
        All-first (λ u. first (is_user u.user_id) db.users ≡ some u) (is_named name) db.users
          (reached-IdsAreOwn token_hash derive before) found in
      let known : first (is_user user.user_id) (after_requests token_hash derive later after).users
          ≡ some user =
        user_kept token_hash derive (is_user user.user_id) user later after (rw users own) in
      resolve-live token_hash derive token t drawn.session_id user.user_id
        (now + session_seconds * second) user (after_requests token_hash derive later after) given
        (requests-Holds token_hash derive (token_hash token) drawn.session_id user.user_id
          (now + session_seconds * second) later after spared held)
        known live
      ∙ ap some (sym is_session)
