-- ===== src/Identity/Kept.antt =====
-- What the calls of IdentityStore (core/identity/src/openroad_platform_identity/auth.py) leave as it was.
use chip_evolve.Base.{
  ℕ, ◌≡◌, refl, Bool, true, false, ◌||◌, none, some, List, [], ◌∷◌, ◌++◌, String, str_eq, arith,
  first, some_row, first-append, ◌==◌,
}
use chip_evolve.Identity.State.{User, SessionRow, IdentityDb}
use chip_evolve.Identity.Names.{same_name}
use chip_evolve.Base.{some_row}
use chip_evolve.Identity.Accounts.{is_user, has_user, insert_user, insert_session}
use chip_evolve.Identity.Owners.{owner_of, is_resource}
use chip_evolve.Identity.Requests.{
  registers, logs_in, resolves, logs_out, ensures, binds, consumes, Request, after_request,
  after_requests,
}
use chip_evolve.Identity.Changes.{
  Change, add_user, add_session, drop_session, touch_session, add_owner, count, Changes-induction,
}
use chip_evolve.Identity.Refines.{Allows, after_request-Changes}

abbrev pub Anything : String → Type 0
Anything hash = Unit

pub user_inserted :
    (u : User) (db after : IdentityDb)
    → insert_user u db ≡ some after
    → (some_row (λ v. v.user_id == u.user_id || same_name v.username u.username) db.users ≡ false)
      × (after ≡ record db { users = db.users ++ u ∷ [] })
unfolding insert_user
user_inserted u db after h = ground arith

pub session_inserted :
    (row : SessionRow) (db after : IdentityDb)
    → insert_session row db ≡ some after
    → (some_row
          (λ s. str_eq s.token_hash row.token_hash || s.session_id == row.session_id)
          db.sessions
        ≡ false)
      × (has_user row.user_id db ≡ true)
      × (after ≡ record db { sessions = db.sessions ++ row ∷ [] })
unfolding insert_session
session_inserted row db after h = ground arith

-- A row that is found is found again when rows are added behind it.
pub found_before {ℓ} :
    {A : Type ℓ} (q : A → Bool) (xs ys : List A) {x : A}
    → first q xs ≡ some x
    → first q (xs ++ ys) ≡ some x
found_before q xs ys h = rw (first-append, h) refl

module _ {Drops Adds : String → Type 0} where
  -- The users that are found stay found.
  pub Change-user :
      (q : User → Bool) (u : User) (a b : IdentityDb)
      → Change Drops Adds a b
      → first q a.users ≡ some u
      → first q b.users ≡ some u
  Change-user q u _ _ (add_user db v after new h) found =
      let (free, made) = user_inserted v db after h in
      rw made (found_before q db.users (v ∷ []) found)
  Change-user q u _ _ (add_session db row after may h) found =
      let (free, known, made) = session_inserted row db after h in rw made found
  Change-user q u _ _ (drop_session db hash may) found = found
  Change-user q u _ _ (touch_session db hash now) found = found
  Change-user q u _ _ (add_owner db row free known) found = found
  Change-user q u _ _ (count db id feature window now known) found = found

  pub Change-owner :
      (kind id : String) (owner : ℕ) (a b : IdentityDb)
      → Change Drops Adds a b
      → owner_of kind id a ≡ some owner
      → owner_of kind id b ≡ some owner
  unfolding owner_of
  Change-owner kind id o _ _ (add_user db v after new h) found =
      let (free, made) = user_inserted v db after h in rw made found
  Change-owner kind id o _ _ (add_session db row after may h) found =
      let (free, known, made) = session_inserted row db after h in rw made found
  Change-owner kind id o _ _ (drop_session db hash may) found = found
  Change-owner kind id o _ _ (touch_session db hash now) found = found
  Change-owner kind id o _ _ (add_owner db row free known) found =
      ground (arith, first-append (is_resource kind id) db.owners (row ∷ []))
  Change-owner kind id o _ _ (count db uid feature window now known) found = found

some_row-append {ℓ} :
    {A : Type ℓ} (p : A → Bool) (xs ys : List A)
    → some_row p xs ≡ true
    → some_row p (xs ++ ys) ≡ true
unfolding some_row
some_row-append p [] ys h = absurd (ground arith)
some_row-append p (x ∷ xs) ys h = ground (arith, some_row-append p xs ys)

Change-has_user :
    (id : ℕ) (a b : IdentityDb)
    → Change Anything Anything a b
    → has_user id a ≡ true
    → has_user id b ≡ true
Change-has_user id _ _ (add_user db v after new h) known =
    let (free, made) = user_inserted v db after h in
    rw made (some_row-append (is_user id) db.users (v ∷ []) known)
Change-has_user id _ _ (add_session db row after may h) known =
    let (free, there, made) = session_inserted row db after h in rw made known
Change-has_user id _ _ (drop_session db hash may) known = known
Change-has_user id _ _ (touch_session db hash now) known = known
Change-has_user id _ _ (add_owner db row free there) known = known
Change-has_user id _ _ (count db uid feature window now there) known = known

module _ (token_hash : String → String) (derive : String → List ℕ → ℕ → List ℕ) where
  any_Allows : (r : Request) (db : IdentityDb) → Allows token_hash derive Anything Anything r db
  any_Allows (registers username password user_id salt drawn now) db = tt
  any_Allows (logs_in username password drawn now) db = tt
  any_Allows (resolves none now) db = tt
  any_Allows (resolves (some token) now) db = λ row found over. tt
  any_Allows (logs_out none) db = tt
  any_Allows (logs_out (some token)) db = tt
  any_Allows (ensures user_id now) db = tt
  any_Allows (binds kind id user_id now) db = tt
  any_Allows (consumes user_id feature limit window_seconds now) db = tt

  pub after_requests-induction {ℓ} :
      (P : IdentityDb → Type ℓ)
      → ((a b : IdentityDb) → Change Anything Anything a b → P a → P b)
      → (rs : List Request) (db : IdentityDb) → P db
      → P (after_requests token_hash derive rs db)
  unfolding after_requests
  after_requests-induction P keeps [] db h = h
  after_requests-induction P keeps (r ∷ rs) db h =
      after_requests-induction P keeps rs (after_request token_hash derive r db) (
        Changes-induction P keeps
          (after_request-Changes token_hash derive Anything Anything r db (any_Allows r db)) h)

  pub user_kept :
      (q : User → Bool) (u : User) (rs : List Request) (db : IdentityDb)
      → first q db.users ≡ some u
      → first q (after_requests token_hash derive rs db).users ≡ some u
  user_kept q u = after_requests-induction (λ db. first q db.users ≡ some u) (Change-user q u)

  -- Once a resource has an owner, no sequence of calls gives it to another or takes it away.
  pub owner_kept :
      (kind id : String) (owner : ℕ) (rs : List Request) (db : IdentityDb)
      → owner_of kind id db ≡ some owner
      → owner_of kind id (after_requests token_hash derive rs db) ≡ some owner
  owner_kept kind id owner =
      after_requests-induction (λ db. owner_of kind id db ≡ some owner) (Change-owner kind id owner)

  pub request-has_user :
      (id : ℕ) (r : Request) (db : IdentityDb)
      → has_user id db ≡ true
      → has_user id (after_request token_hash derive r db) ≡ true
  request-has_user id r db =
      Changes-induction (λ d. has_user id d ≡ true) (Change-has_user id)
        (after_request-Changes token_hash derive Anything Anything r db (any_Allows r db))
