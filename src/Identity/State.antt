-- ===== src/Identity/State.antt =====
-- The tables of IdentityStore in core/identity/src/openroad_platform_identity/auth.py, and what its
-- operations return.
use chip_evolve.Base.{ℕ, ◌*◌, Bool, true, false, List, [], String, ◌≡◌, refl, ◌⊎◌, inl, inr}

-- The column `role`, of which the code writes two texts.
pub data Role : Type 0 where
  developer member : Role

abbrev pub is_developer : Role → Bool
is_developer developer = true
is_developer member = false

-- identity_users. A user name is held as its code points; salts and digests are bytes.
pub record User : Type 0 where
  pub user_id : ℕ
  pub username : List ℕ
  pub password_salt : List ℕ
  pub password_hash : List ℕ
  pub password_iterations : ℕ
  pub role : Role
  pub created_at : ℕ

-- identity_sessions
pub record SessionRow : Type 0 where
  pub token_hash : String
  pub session_id : ℕ
  pub user_id : ℕ
  pub created_at : ℕ
  pub expires_at : ℕ
  pub last_seen_at : ℕ

-- identity_resource_owners
pub record Owner : Type 0 where
  pub resource_type : String
  pub resource_id : String
  pub user_id : ℕ
  pub created_at : ℕ

-- identity_feature_usage
pub record FeatureUsage : Type 0 where
  pub user_id : ℕ
  pub feature : String
  pub window_id : ℕ
  pub usage_count : ℕ
  pub updated_at : ℕ

pub record IdentityDb : Type 0 where
  pub users : List User
  pub sessions : List SessionRow
  pub owners : List Owner
  pub usage : List FeatureUsage

abbrev pub new_store : IdentityDb
new_store = record { users = []; sessions = []; owners = []; usage = [] }

-- AuthSession
pub record AuthSession : Type 0 where
  pub user_id : ℕ
  pub username : List ℕ
  pub developer : Bool
  pub session_id : ℕ

-- What an operation raises: a ValueError, by the place that raises it, or sqlite3.IntegrityError.
pub data IdentityError : Type 0 where
  bad_username bad_password username_taken invalid_login : IdentityError
  bad_resource_type no_resource_id owned_by_another bad_allowance : IdentityError
  constraint_failed : IdentityError

pub data Outcome {ℓ} (A : Type ℓ) : Type ℓ where
  done : A → Outcome A
  raised : IdentityError → Outcome A

pub Outcome-cases {ℓ} :
    {A : Type ℓ} (o : Outcome A) → ((a : A) × (o ≡ done a)) ⊎ ((e : IdentityError) × (o ≡ raised e))
Outcome-cases (done a) = inl (a, refl)
Outcome-cases (raised e) = inr (e, refl)

-- Times are whole microseconds.
abbrev pub second : ℕ
second = 1000000

-- SESSION_SECONDS
abbrev pub session_seconds : ℕ
session_seconds = 7 * 24 * 3600

-- PBKDF2_ITERATIONS
abbrev pub pbkdf2_iterations : ℕ
pbkdf2_iterations = 310000
