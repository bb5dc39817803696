-- ===== src/Identity/Spending.antt =====
-- The allowances of core/identity/src/openroad_platform_identity/auth.py over any sequence of calls.
pub mod Totals
use chip_evolve.Base.{ℕ, ◌≡◌, refl, Bool, Option, none, some, List, String, arith, if◌then◌else◌}
use chip_evolve.Identity.State.{IdentityDb, Outcome, done, raised}
use chip_evolve.Identity.Accounts.{
  Drawn, new_session, insert_session, insert_user, register, login, resolve, ensure_local_user,
}
use chip_evolve.Identity.Owners.{bind_resource}

-- The change of a call but for the units that it grants.
new_session-usage :
    (token_hash : String → String) (user_id : ℕ) (username : List ℕ) (is_dev : Bool) (drawn : Drawn)
    (now : ℕ) (db : IdentityDb)
    → (new_session token_hash user_id username is_dev drawn now db).1.usage ≡ db.usage
unfolding new_session insert_session
new_session-usage token_hash user_id username is_dev drawn now db = ground arith

resolve-usage :
    (token_hash : String → String) (token : Option String) (now : ℕ) (db : IdentityDb)
    → (resolve token_hash token now db).1.usage ≡ db.usage
unfolding resolve
resolve-usage token_hash none now db = refl
resolve-usage token_hash (some token) now db = ground arith

module _ (token_hash : String → String) (derive : String → List ℕ → ℕ → List ℕ) where
  register-usage :
      (username password : String) (user_id : ℕ) (salt : List ℕ) (drawn : Drawn) (now : ℕ)
      (db : IdentityDb)
      → (register token_hash derive username password user_id salt drawn now db).1.usage ≡ db.usage
  unfolding register insert_user
  register-usage username password user_id salt drawn now db = grind (arith, new_session-usage)

  login-usage :
      (username password : String) (drawn : Drawn) (now : ℕ) (db : IdentityDb)
      → (login token_hash derive username password drawn now db).1.usage ≡ db.usage
  unfolding login
  login-usage username password drawn now db = grind (arith, new_session-usage)

ensure-usage :
    (user_id now : ℕ) (db : IdentityDb) → (ensure_local_user user_id now db).1.usage ≡ db.usage
unfolding ensure_local_user insert_user
ensure-usage user_id now db = ground arith

bind-usage :
    (kind id : String) (user_id now : ℕ) (db : IdentityDb)
    → (bind_resource kind id user_id now db).1.usage ≡ db.usage
unfolding bind_resource
bind-usage kind id user_id now db = ground arith
