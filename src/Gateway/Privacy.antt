-- ===== src/Gateway/Privacy.antt =====
-- Whom KernelApi (gateway/src/openroad_platform_gateway/kernel_api.py) lets at a resource that has an owner.
use chip_evolve.Base.{
  ℕ, ◌≡◌, ◌≢◌, refl, true, false, Option, some, List, String, arith, first, ◌==◌, ==_refl,
}
use chip_evolve.Identity.State.{User, IdentityDb, AuthSession, is_developer}
use chip_evolve.Identity.Accounts.{is_user}
use chip_evolve.Identity.Owners.{owner_of, owns_resource, has_developer_role}
use chip_evolve.Identity.Requests.{Request, after_requests}
use chip_evolve.Identity.Kept.{user_kept, owner_kept}
use chip_evolve.Runtime.State.{Db}
use chip_evolve.Base.{All}
use chip_evolve.Identity.Accounts.{logout}
use chip_evolve.Identity.Sessions.Life.{draws_other, logout_final}
use chip_evolve.Gateway.Access.{
  HttpRequest, Answer, bearer_token, is_public, guarded, authenticate, anonymous, Kernel,
  require_ownership, cancel_run, retry_run, refuses,
}

-- A member is refused what another owns, and the owner is not.
refused :
    (kernel : Kernel) (kind id : String) (session : AuthSession) (owner : ℕ) (user : User)
    (db : IdentityDb)
    → owner_of kind id db ≡ some owner
    → first (is_user session.user_id) db.users ≡ some user
    → is_developer user.role ≡ false
    → (owner == session.user_id) ≡ false
    → require_ownership kernel kind id (some session) db ≡ false
unfolding require_ownership owns_resource has_developer_role
refused kernel kind id session owner user db owned known ordinary other =
    rw (owned, owns_resource) (rw other (rw (known, has_developer_role) ordinary))

admitted :
    (kernel : Kernel) (kind id : String) (session : AuthSession) (owner : ℕ) (db : IdentityDb)
    → owner_of kind id db ≡ some owner
    → (owner == session.user_id) ≡ true
    → require_ownership kernel kind id (some session) db ≡ true
unfolding require_ownership owns_resource
admitted kernel kind id session owner db owned own = rw (owned, owns_resource) (rw own refl)

different : (a b : ℕ) → a ≢ b → (a == b) ≡ false
different a b h = ground arith

module _ (token_hash : String → String) (derive : String → List ℕ → ℕ → List ℕ)
    (kernel : Kernel) where
  -- Once a resource has an owner, then whatever is called on the identity store: a session of the owner is
  -- let at it, and a session of any other user that is not a developer is not.
  pub resource_private :
      (kind id : String) (owner : ℕ) (user : User) (mine theirs : AuthSession) (rs : List Request)
      (db : IdentityDb)
      → owner_of kind id db ≡ some owner
      → mine.user_id ≡ owner
      → first (is_user theirs.user_id) db.users ≡ some user
      → is_developer user.role ≡ false
      → owner ≢ theirs.user_id
      → (require_ownership kernel kind id (some mine) (after_requests token_hash derive rs db)
          ≡ true)
        × (require_ownership kernel kind id (some theirs) (after_requests token_hash derive rs db)
            ≡ false)
  resource_private kind id owner user mine theirs rs db owned own known ordinary other =
      let later = after_requests token_hash derive rs db in
      let still = owner_kept token_hash derive kind id owner rs db owned in
      (
        admitted kernel kind id mine owner later still (rw own (==_refl owner)),
        refused kernel kind id theirs owner user later still
            (user_kept token_hash derive (is_user theirs.user_id) user rs db known) ordinary
            (different owner theirs.user_id other),
      )

  -- Once a run has an owner, no session of another user that is not a developer changes the run by a
  -- cancellation or a retry: both are answered with 404, and the runtime store is left as it was.
  pub run_private :
      (run_name user_name : ℕ → String) (run_id owner : ℕ) (user : User) (session : AuthSession)
      (rs : List Request) (identity : IdentityDb) (reason : Option String) (event_id now : ℕ)
      (db : Db)
      → owner_of "run" (run_name run_id) identity ≡ some owner
      → first (is_user session.user_id) identity.users ≡ some user
      → is_developer user.role ≡ false
      → owner ≢ session.user_id
      → (cancel_run run_name user_name kernel run_id
            (some session)
            now
            (after_requests token_hash derive rs identity)
            db
          ≡ (refuses 404, db))
        × (retry_run run_name user_name kernel run_id reason
              (some session)
              event_id
              now
              (after_requests token_hash derive rs identity)
              db
            ≡ (refuses 404, db))
  unfolding cancel_run retry_run
  run_private run_name user_name run_id owner user session rs identity reason event_id now db owned
        known ordinary other =
      let later = after_requests token_hash derive rs identity in
      let no : require_ownership kernel "run" (run_name run_id) (some session) later ≡ false =
        refused kernel "run" (run_name run_id) session owner user later
          (owner_kept token_hash derive "run" (run_name run_id) owner rs identity owned)
          (user_kept token_hash derive (is_user session.user_id) user rs identity known) ordinary
          (different owner session.user_id other) in
      (rw no refl, rw no refl)

  -- Without the anonymous mode, a request that names a token which has been logged out is answered with
  -- 401 by every handler that is not public, whatever is called after the logout, unless a session with a
  -- token of the same hash is opened.
  pub logged_out_refused {ℓ} :
      {A : Type ℓ} (handler : Option AuthSession → IdentityDb → Answer A × IdentityDb)
      (session_local : ℕ) (request : HttpRequest) (token : String) (now : ℕ) (later : List Request)
      (db : IdentityDb)
      → kernel.allow_anonymous ≡ false
      → bearer_token request.authorization ≡ some token
      → is_public request ≡ false
      → All (λ r. draws_other token_hash (token_hash token) r ≡ true) later
      → (guarded token_hash session_local kernel handler request now
          (after_requests token_hash derive later (logout token_hash (some token) db))).0
        ≡ refuses 401
  unfolding guarded authenticate anonymous
  logged_out_refused handler session_local request token now later db closed bearer private others =
      let gone = logout_final token_hash derive token now later db others in
      rw (bearer, authenticate) (rw gone (rw closed (rw private refl)))
