-- ===== src/Identity/Passwords.antt =====
-- Logins and roles of core/identity/src/openroad_platform_identity/auth.py: what a caller can learn from a
-- login, and who becomes a developer.
use chip_evolve.Base.{
  ℕ, ◌≡◌, refl, some, List, [], ◌∷◌, ◌++◌, String, first, Bool-cases, inl, inr, ◌⊎◌, ◌==◌, All,
  All-append, Option-cases, list_eq, All-first,
}
use chip_evolve.Identity.State.{User, IdentityDb, member, new_store, pbkdf2_iterations}
use chip_evolve.Identity.Names.{valid_username, local_user}
use chip_evolve.Identity.Accounts.{Drawn, is_named, login, is_empty_table, first_role}
use chip_evolve.Identity.Requests.{Request, after_requests}
use chip_evolve.Identity.Changes.{
  Change, add_user, add_session, drop_session, touch_session, add_owner, count,
}
use chip_evolve.Identity.Kept.{Anything, user_inserted, session_inserted, after_requests-induction}

abbrev Costs : User → Type 0
Costs u = u.password_iterations ≡ pbkdf2_iterations

abbrev AllCost : IdentityDb → Type 0
AllCost db = All Costs db.users

Change-AllCost : (a b : IdentityDb) → Change Anything Anything a b → AllCost a → AllCost b
Change-AllCost _ _ (add_user db v after new h) costs =
    let (free, made) = user_inserted v db after h in
    rw made (All-append Costs db.users (v ∷ []) costs (new.work, tt))
Change-AllCost _ _ (add_session db row after may h) costs =
    let (free, known, made) = session_inserted row db after h in rw made costs
Change-AllCost _ _ (drop_session db other may) costs = costs
Change-AllCost _ _ (touch_session db other now) costs = costs
Change-AllCost _ _ (add_owner db row free known) costs = costs
Change-AllCost _ _ (count db id feature window now known) costs = costs

abbrev IsOrdinary : User → Type 0
IsOrdinary u = (u.role ≡ member) ⊎ (u.username ≡ local_user)

-- Every user but the first.
abbrev pub RestIsOrdinary : List User → Type 0
RestIsOrdinary [] = Unit
RestIsOrdinary (u ∷ us) = All IsOrdinary us

append-RestIsOrdinary :
    (us : List User) (v : User)
    → (v.role ≡ first_role (is_empty_table us)) ⊎ (v.username ≡ local_user)
    → RestIsOrdinary us
    → RestIsOrdinary (us ++ v ∷ [])
append-RestIsOrdinary [] v role rest = tt
append-RestIsOrdinary (u ∷ us) v role rest = All-append IsOrdinary us (v ∷ []) rest (role, tt)

Change-RestIsOrdinary :
    (a b : IdentityDb)
    → Change Anything Anything a b
    → RestIsOrdinary a.users
    → RestIsOrdinary b.users
Change-RestIsOrdinary _ _ (add_user db v after new h) rest =
    let (free, made) = user_inserted v db after h in
    rw made (append-RestIsOrdinary db.users v new.role rest)
Change-RestIsOrdinary _ _ (add_session db row after may h) rest =
    let (free, known, made) = session_inserted row db after h in rw made rest
Change-RestIsOrdinary _ _ (drop_session db other may) rest = rest
Change-RestIsOrdinary _ _ (touch_session db other now) rest = rest
Change-RestIsOrdinary _ _ (add_owner db row free known) rest = rest
Change-RestIsOrdinary _ _ (count db id feature window now known) rest = rest

module _ (token_hash : String → String) (derive : String → List ℕ → ℕ → List ℕ) where
  -- In every reachable state a login under a well-formed name performs 310,000 iterations of key
  -- derivation: whether a user has the name or not, and whether the password is right or wrong.
  pub login_same_work :
      (before : List Request) (username password : String) (drawn : Drawn) (now : ℕ) (name : List ℕ)
      → valid_username username ≡ some name
      → (login token_hash derive username password drawn now
          (after_requests token_hash derive before new_store)).2
        ≡ pbkdf2_iterations
  unfolding login
  login_same_work before username password drawn now name valid =
      let db = after_requests token_hash derive before new_store in
      elim (Option-cases (first (is_named name) db.users)) [
        | inl unknown ↦ rw (valid, login) (rw (unknown, login) refl)
        | inr (user, known) ↦
            let costs : Costs user =
              All-first Costs (is_named name) db.users
                (after_requests-induction token_hash derive AllCost Change-AllCost before new_store
                  tt)
                known in
            elim (Bool-cases (
              list_eq ◌==◌ (derive password user.password_salt user.password_iterations)
                user.password_hash)) [
                  | inl right ↦ rw (valid, login) (rw (known, login) (rw right costs))
                  | inr wrong ↦ rw (valid, login) (rw (known, login) (rw wrong costs))
                ]
      ]

  -- In every reachable state each user but the first to be added is an ordinary member or bears the
  -- name local-user.
  pub one_developer :
      (rs : List Request) → RestIsOrdinary (after_requests token_hash derive rs new_store).users
  one_developer rs =
      after_requests-induction token_hash derive (λ db. RestIsOrdinary db.users)
        Change-RestIsOrdinary rs new_store tt
