-- ===== src/Identity/Sessions.antt =====
-- How long a session of core/identity/src/openroad_platform_identity/auth.py lasts.
pub mod Life
use chip_evolve.Base.{
  ℕ, ◌<◌, ◌≡◌, refl, ◌∙◌, Bool, true, false, ◌||◌, not, none, some, List, [], ◌∷◌, ◌++◌, String,
  str_eq, arith, first, first-append, first-none, first-delete_where, column-append,
  column-update_where, Bool-cases, inl, inr, ◌==◌, str_eq_iff, ==_refl, leb, ltb, All, All-map,
  All-append, Option-cases,
}
use mathlib.Core.Option
use chip_evolve.Identity.State.{
  User, SessionRow, IdentityDb, AuthSession, done, is_developer, new_store,
}
use chip_evolve.Identity.Names.{same_name}
use chip_evolve.Identity.Accounts.{
  Drawn, is_user, has_token, insert_session, new_row, new_session, resolve,
}
use chip_evolve.Identity.Requests.{
  Request, after_request, after_requests, registers, logs_in, resolves, logs_out, ensures, binds,
  consumes,
}
use chip_evolve.Identity.Changes.{
  Change, add_user, add_session, drop_session, touch_session, add_owner, count, Changes-induction,
}
use chip_evolve.Identity.Refines.{Allows, after_request-Changes}
use chip_evolve.Identity.Kept.{
  Anything, user_inserted, session_inserted, found_before, after_requests-induction,
}

-- What a session is to resolve: its id, its user and its expiry.
abbrev fixed : SessionRow → ℕ × ℕ × ℕ
fixed s = (s.session_id, s.user_id, s.expires_at)

abbrev Holds : String → ℕ × ℕ × ℕ → IdentityDb → Type 0
Holds hash what db = Option.map fixed (first (has_token hash) db.sessions) ≡ some what

-- A hash of another token.
abbrev IsOther : String → String → Type 0
IsOther hash other = str_eq hash other ≡ false

other_row :
    (hash other : String) (s : SessionRow)
    → IsOther hash other
    → has_token hash s ≡ true
    → has_token other s ≡ false
other_row hash other s apart e =
    let same : s.token_hash ≡ hash = (str_eq_iff s.token_hash hash).0 e in rw same apart

Change-Holds :
    (hash : String) (what : ℕ × ℕ × ℕ) (a b : IdentityDb)
    → Change (IsOther hash) Anything a b
    → Holds hash what a
    → Holds hash what b
Change-Holds hash what _ _ (add_user db v after new h) held =
    let (free, made) = user_inserted v db after h in rw made held
Change-Holds hash what _ _ (add_session db row after may h) held =
    let (free, known, made) = session_inserted row db after h in
    rw made (column-append fixed (has_token hash) db.sessions (row ∷ []) held)
Change-Holds hash what _ _ (drop_session db other apart) held =
    rw
      (first-delete_where (has_token hash) (has_token other) db.sessions
        (λ s e. other_row hash other s apart e))
      held
Change-Holds hash what _ _ (touch_session db other now) held =
    column-update_where fixed (has_token hash) (has_token other)
      (λ s. record s { last_seen_at = now }) db.sessions (λ s. refl) (λ s. refl)
    ∙ held
Change-Holds hash what _ _ (add_owner db row free known) held = held
Change-Holds hash what _ _ (count db id feature window now known) held = held

-- Each user is the one that is found by its id.
abbrev IdsAreOwn : IdentityDb → Type 0
IdsAreOwn db = All (λ u. first (is_user u.user_id) db.users ≡ some u) db.users

Change-IdsAreOwn : (a b : IdentityDb) → Change Anything Anything a b → IdsAreOwn a → IdsAreOwn b
Change-IdsAreOwn _ _ (add_user db v after new h) own =
    let (free, made) = user_inserted v db after h in
    let absent : first (is_user v.user_id) db.users ≡ none =
      first-none (λ u. u.user_id == v.user_id || same_name u.username v.username)
        (is_user v.user_id) db.users (λ u e. rw e refl) free in
    let found : first (is_user v.user_id) (v ∷ []) ≡ some v =
      unfold first in rw (==_refl v.user_id) refl in
    rw made (
      All-append (λ u. first (is_user u.user_id) (db.users ++ v ∷ []) ≡ some u) db.users (v ∷ [])
        (All-map (λ u. first (is_user u.user_id) db.users ≡ some u)
          (λ u. first (is_user u.user_id) (db.users ++ v ∷ []) ≡ some u) db.users
          (λ u e. found_before (is_user u.user_id) db.users (v ∷ []) e) own)
        (rw (first-append, absent) found, tt))
Change-IdsAreOwn _ _ (add_session db row after may h) own =
    let (free, known, made) = session_inserted row db after h in rw made own
Change-IdsAreOwn _ _ (drop_session db other apart) own = own
Change-IdsAreOwn _ _ (touch_session db other now) own = own
Change-IdsAreOwn _ _ (add_owner db row free known) own = own
Change-IdsAreOwn _ _ (count db id feature window now known) own = own

module _ (token_hash : String → String) where
  -- A request neither logs the session of a hash out nor asks for it once it is over.
  abbrev pub spares : String → ℕ → Request → Bool
  spares hash expires (resolves (some token) now) =
      not (str_eq hash (token_hash token)) || ltb now expires
  spares hash expires (logs_out (some token)) = not (str_eq hash (token_hash token))
  spares hash expires _ = true

module _ (token_hash : String → String) (derive : String → List ℕ → ℕ → List ℕ) where
  pub reached-IdsAreOwn :
      (rs : List Request) → IdsAreOwn (after_requests token_hash derive rs new_store)
  reached-IdsAreOwn rs =
      after_requests-induction token_hash derive IdsAreOwn Change-IdsAreOwn rs new_store tt

  spares-Allows :
      (hash : String) (id uid expires : ℕ) (r : Request) (db : IdentityDb)
      → spares token_hash hash expires r ≡ true
      → Holds hash (id, uid, expires) db
      → Allows token_hash derive (IsOther hash) Anything r db
  spares-Allows hash id uid expires (registers username password user_id salt drawn now) db ok
        held =
      tt
  spares-Allows hash id uid expires (logs_in username password drawn now) db ok held = tt
  spares-Allows hash id uid expires (resolves none now) db ok held = tt
  spares-Allows hash id uid expires (resolves (some token) now) db ok held = λ row found over.
      elim (Bool-cases (str_eq hash (token_hash token))) [
        | inr apart ↦ apart
        | inl e ↦
            let same : hash ≡ token_hash token = (str_eq_iff hash (token_hash token)).0 e in
            let found_here : first (has_token hash) db.sessions ≡ some row = rw same found in
            let ends : row.expires_at ≡ expires = ground (arith, found_here, held) in
            absurd (ground arith)
      ]
  spares-Allows hash id uid expires (logs_out none) db ok held = tt
  spares-Allows hash id uid expires (logs_out (some token)) db ok held = ground arith
  spares-Allows hash id uid expires (ensures user_id now) db ok held = tt
  spares-Allows hash id uid expires (binds kind rid user_id now) db ok held = tt
  spares-Allows hash id uid expires (consumes user_id feature limit window_seconds now) db ok held =
      tt

  requests-Holds :
      (hash : String) (id uid expires : ℕ) (rs : List Request) (db : IdentityDb)
      → All (λ r. spares token_hash hash expires r ≡ true) rs
      → Holds hash (id, uid, expires) db
      → Holds hash (id, uid, expires) (after_requests token_hash derive rs db)
  unfolding after_requests
  requests-Holds hash id uid expires [] db spared held = held
  requests-Holds hash id uid expires (r ∷ rs) db spared held =
      requests-Holds hash id uid expires rs (after_request token_hash derive r db) spared.1 (
        Changes-induction (Holds hash (id, uid, expires)) (Change-Holds hash (id, uid, expires))
          (after_request-Changes token_hash derive (IsOther hash) Anything r db
            (spares-Allows hash id uid expires r db spared.0 held))
          held)

  pub opened :
      (user_id : ℕ) (username : List ℕ) (is_dev : Bool) (drawn : Drawn) (now : ℕ)
      (db after : IdentityDb) (session : AuthSession) (token : String)
      → new_session token_hash user_id username is_dev drawn now db ≡ (done (session, token), after)
      → (insert_session (new_row token_hash user_id drawn now) db ≡ some after)
        × (token ≡ drawn.token)
        × (session ≡ record {
          user_id = user_id;
          username = username;
          developer = is_dev;
          session_id = drawn.session_id;
        })
  unfolding new_session
  opened user_id username is_dev drawn now db after session token h = ground arith

  -- What resolve says of a session that is there and not over.
  resolve-live :
      (token : String) (t id uid expires : ℕ) (user : User) (db : IdentityDb)
      → str_eq token "" ≡ false
      → Holds (token_hash token) (id, uid, expires) db
      → first (is_user uid) db.users ≡ some user
      → t < expires
      → (resolve token_hash (some token) t db).0
        ≡ some (record {
          user_id = uid;
          username = user.username;
          developer = is_developer user.role;
          session_id = id;
        })
  unfolding resolve
  resolve-live token t id uid expires user db given held known before =
      elim (Option-cases (first (has_token (token_hash token)) db.sessions)) [
        | inl absent ↦ absurd (ground (arith, held))
        | inr (row, found) ↦
            let same_id : row.session_id ≡ id = ground (arith, held) in
            let same_user : row.user_id ≡ uid = ground (arith, held) in
            let ends : row.expires_at ≡ expires = ground (arith, held) in
            let owner : first (is_user row.user_id) db.users ≡ some user = rw same_user known in
            let alive : leb row.expires_at t ≡ false = ground arith in
            rw given
              (rw (found, resolve) (rw (owner, resolve) (rw alive (rw (same_id, same_user) refl))))
      ]
