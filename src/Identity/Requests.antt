-- ===== src/Identity/Requests.antt =====
-- The calls of IdentityStore (core/identity/src/openroad_platform_identity/auth.py) in any order, and
-- what each does to the tables.
use chip_evolve.Base.{ℕ, Option, List, [], ◌∷◌, String}
use chip_evolve.Identity.State.{IdentityDb}
use chip_evolve.Identity.Accounts.{Drawn, register, login, resolve, logout, ensure_local_user}
use chip_evolve.Identity.Owners.{bind_resource}
use chip_evolve.Identity.Allowance.{consume_allowance}

pub data Request : Type 0 where
  registers :
      (username password : String) (user_id : ℕ) (salt : List ℕ) (drawn : Drawn) (now : ℕ) → Request
  logs_in : (username password : String) (drawn : Drawn) (now : ℕ) → Request
  resolves : (token : Option String) (now : ℕ) → Request
  logs_out : (token : Option String) → Request
  ensures : (user_id now : ℕ) → Request
  binds : (kind id : String) (user_id now : ℕ) → Request
  consumes : (user_id : ℕ) (feature : String) (limit window_seconds now : ℕ) → Request

module _ (token_hash : String → String) (derive : String → List ℕ → ℕ → List ℕ) where
  -- The state after a call, whether it returns or raises.
  unfoldable pub after_request : Request → IdentityDb → IdentityDb
  after_request (registers username password user_id salt drawn now) db =
      (register token_hash derive username password user_id salt drawn now db).1
  after_request (logs_in username password drawn now) db =
      (login token_hash derive username password drawn now db).1
  after_request (resolves token now) db = (resolve token_hash token now db).1
  after_request (logs_out token) db = logout token_hash token db
  after_request (ensures user_id now) db = (ensure_local_user user_id now db).1
  after_request (binds kind id user_id now) db = (bind_resource kind id user_id now db).1
  after_request (consumes user_id feature limit window_seconds now) db =
      (consume_allowance user_id feature limit window_seconds now db).1

  unfoldable pub after_requests : List Request → IdentityDb → IdentityDb
  after_requests [] db = db
  after_requests (r ∷ rs) db = after_requests rs (after_request r db)
