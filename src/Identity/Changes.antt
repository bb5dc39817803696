-- ===== src/Identity/Changes.antt =====
-- The changes of the tables of IdentityStore
-- (core/identity/src/openroad_platform_identity/auth.py) that its calls are made of.
use chip_evolve.Base.{ℕ, ◌≡◌, true, none, some, [], ◌∷◌, ◌++◌, String, update_where, delete_where}
use chip_evolve.Base.{◌⊎◌}
use chip_evolve.Identity.Accounts.{first_role}
use chip_evolve.Identity.State.{pbkdf2_iterations, User, SessionRow, Owner, IdentityDb}
use chip_evolve.Identity.Accounts.{has_user, has_token, insert_user, insert_session}
use chip_evolve.Identity.Owners.{owner_of}
use chip_evolve.Identity.Allowance.{upsert_use}
use chip_evolve.Identity.Accounts.{is_empty_table}
use chip_evolve.Identity.Names.{local_user}

-- A user that is added: the work factor of its hash, and its role.
pub record IsNew (u : User) (db : IdentityDb) : Type 0 where
  pub work : u.password_iterations ≡ pbkdf2_iterations
  pub role : (u.role ≡ first_role (is_empty_table db.users)) ⊎ (u.username ≡ local_user)

-- A change of the tables. A request makes at most one, but for `registers`, which makes two. `Drops` and
-- `Adds` say of which token hashes a session may be deleted and inserted.
pub data Change (Drops Adds : String → Type 0) : IdentityDb → IdentityDb → Type 0 where
  add_user :
      (db : IdentityDb) (u : User) (after : IdentityDb)
      → IsNew u db
      → insert_user u db ≡ some after
      → Change Drops Adds db after
  add_session :
      (db : IdentityDb) (row : SessionRow) (after : IdentityDb)
      → Adds row.token_hash
      → insert_session row db ≡ some after
      → Change Drops Adds db after
  drop_session :
      (db : IdentityDb) (hash : String)
      → Drops hash
      → Change Drops Adds db (record db { sessions = delete_where (has_token hash) db.sessions })
  touch_session :
      (db : IdentityDb) (hash : String) (now : ℕ)
      → Change Drops Adds db (record db {
        sessions = update_where (has_token hash) (λ s. record s { last_seen_at = now }) db.sessions;
      })
  add_owner :
      (db : IdentityDb) (row : Owner)
      → owner_of row.resource_type row.resource_id db ≡ none
      → has_user row.user_id db ≡ true
      → Change Drops Adds db (record db { owners = db.owners ++ row ∷ [] })
  count :
      (db : IdentityDb) (user_id : ℕ) (feature : String) (window now : ℕ)
      → has_user user_id db ≡ true
      → Change Drops Adds db (record db { usage = upsert_use user_id feature window now db.usage })

pub data Changes (Drops Adds : String → Type 0) (start : IdentityDb) : IdentityDb → Type 0 where
  at_start : Changes Drops Adds start start
  then_change :
      {a b : IdentityDb}
      → Changes Drops Adds start a
      → Change Drops Adds a b
      → Changes Drops Adds start b

pub Changes-induction {ℓ} :
    {Drops Adds : String → Type 0} (P : IdentityDb → Type ℓ)
    → ((a b : IdentityDb) → Change Drops Adds a b → P a → P b)
    → {a b : IdentityDb} → Changes Drops Adds a b
    → P a
    → P b
Changes-induction P keeps at_start h = h
Changes-induction P keeps (then_change {a} {b} cs c) h =
    keeps a b c (Changes-induction P keeps cs h)
