-- ===== src/Gateway/Tests.antt =====
-- The checks of gateway/src/openroad_platform_gateway/kernel_api.py at concrete requests.
use chip_evolve.Base.{
  ℕ, ◌≡◌, ◌==◌, refl, true, false, Option, none, some, List, [], ◌∷◌, String, codes, arith, first,
}
use chip_evolve.Identity.State.{User, IdentityDb, AuthSession, member, pbkdf2_iterations}
use chip_evolve.Identity.Accounts.{logout}
use chip_evolve.Identity.Owners.{owner_of}
use chip_evolve.Identity.Requests.{Request, resolves, binds, ensures, after_requests}
use chip_evolve.Runtime.State.{empty}
use chip_evolve.Gateway.Access.{
  HttpRequest, Kernel, Answer, replies, refuses, bearer_token, is_public, guarded,
  require_ownership, cancel_run, retry_run,
}
use chip_evolve.Gateway.Privacy.{resource_private, run_private, logged_out_refused}

abbrev plain : String → String
plain token = token

abbrev spelled : String → List ℕ → ℕ → List ℕ
spelled password salt iterations = codes password

abbrev kernel : Kernel
kernel = record { allow_anonymous = false; local_user_id = none }

abbrev user : ℕ → String → User
user id name = record {
  user_id = id;
  username = codes name;
  password_salt = [];
  password_hash = [];
  password_iterations = pbkdf2_iterations;
  role = member;
  created_at = id;
}

abbrev session : ℕ → String → AuthSession
session id name = record { user_id = id; username = codes name; developer = false; session_id = id }

-- bob owns run-7; carol is another member.
abbrev identity : IdentityDb
identity = record {
  users = user 2 "bob" ∷ user 3 "carol" ∷ [];
  sessions = [];
  owners =
      record { resource_type = "run"; resource_id = "run-7"; user_id = 2; created_at = 4 } ∷ [];
  usage = [];
}

abbrev run_name : ℕ → String
run_name id = "run-7"

abbrev user_name : ℕ → String
user_name id = "user"

-- carol tries to take the run over.
abbrev calls : List Request
calls = binds "run" "run-7" 3 9 ∷ ensures 4 10 ∷ []

bob_owns : owner_of "run" "run-7" identity ≡ some 2
unfolding owner_of first
bob_owns = refl

carol_is_known : first (λ u. u.user_id == 3) identity.users ≡ some (user 3 "carol")
unfolding first
carol_is_known = refl

resource_private_example :
    (require_ownership kernel "run" "run-7"
        (some (session 2 "bob"))
        (after_requests plain spelled calls identity)
      ≡ true)
    × (require_ownership kernel "run" "run-7"
          (some (session 3 "carol"))
          (after_requests plain spelled calls identity)
        ≡ false)
resource_private_example =
    resource_private plain spelled kernel "run" "run-7" 2 (user 3 "carol") (session 2 "bob")
      (session 3 "carol") calls identity bob_owns refl carol_is_known refl (omega arith)

run_private_example :
    (cancel_run run_name user_name kernel 7
        (some (session 3 "carol"))
        20
        (after_requests plain spelled calls identity)
        empty
      ≡ (refuses 404, empty))
    × (retry_run run_name user_name kernel 7
          (some "again")
          (some (session 3 "carol"))
          8
          20
          (after_requests plain spelled calls identity)
          empty
        ≡ (refuses 404, empty))
run_private_example =
    run_private plain spelled kernel run_name user_name 7 2 (user 3 "carol") (session 3 "carol")
      calls identity (some "again") 8 20 empty bob_owns carol_is_known refl (omega arith)

abbrev request : HttpRequest
request = record { method = "GET"; path = "/kernel/runs"; authorization = some "Bearer  tok-c " }

bears : bearer_token request.authorization ≡ some "tok-c"
unfolding bearer_token
bears = refl

not_public : is_public request ≡ false
unfolding is_public
not_public = refl

abbrev greets : Option AuthSession → IdentityDb → Answer String × IdentityDb
greets who db = (replies "hello", db)

logged_out_refused_example :
    (guarded plain 0 kernel greets request 30 (
      after_requests plain spelled
        (resolves (some "tok-c") 20 ∷ [])
        (logout plain (some "tok-c") identity))).0
    ≡ refuses 401
logged_out_refused_example =
    logged_out_refused plain spelled kernel greets 0 request "tok-c" 30
      (resolves (some "tok-c") 20 ∷ []) identity refl bears not_public (refl, tt)
