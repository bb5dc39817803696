-- ===== src/Gateway/Access.antt =====
-- The checks that stand before the handlers of KernelApi in
-- gateway/src/openroad_platform_gateway/kernel_api.py, and the handlers that change a run.
use Prim.Native.Char.{code}
use chip_evolve.Base.{
  ℕ, zero, suc, ◌+◌, Bool, true, false, ◌&&◌, ◌||◌, not, Option, none, some, List, [], ◌∷◌, ◌==◌,
  if◌then◌else◌, String, str_eq, codes, is_some,
}
use chip_evolve.Contracts.Names.{between}
use chip_evolve.Identity.State.{IdentityDb, AuthSession}
use chip_evolve.Identity.Names.{is_space, local_user}
use chip_evolve.Identity.Accounts.{resolve}
use chip_evolve.Identity.Owners.{owner_of, owns_resource}
use chip_evolve.Runtime.State.{Db}
use chip_evolve.Runtime.Result.{Result, ok, err}
use chip_evolve.Runtime.Runs.{request_cancel}
use chip_evolve.Runtime.Retry.{request_retry}

-- The parts of a Request that the checks read; `authorization` is the header of that name.
pub record HttpRequest : Type 0 where
  pub method : String
  pub path : String
  pub authorization : Option String

-- The fields of KernelApi that the checks read.
pub record Kernel : Type 0 where
  pub allow_anonymous : Bool
  pub local_user_id : Option ℕ

-- PUBLIC_PATHS and _is_public
unfoldable pub is_public : HttpRequest → Bool
is_public r =
    str_eq r.method "GET" && str_eq r.path "/kernel/health"
    || str_eq r.method "POST" && str_eq r.path "/kernel/auth/register"
    || str_eq r.method "POST" && str_eq r.path "/kernel/auth/login"

-- `text[n:]`
unfoldable pub drop_text : ℕ → String → String
drop_text zero s = s
drop_text (suc n) String.[] = String.[]
drop_text (suc n) (String.◌∷◌ c s) = drop_text n s

strip_text_left : String → String
strip_text_left String.[] = String.[]
strip_text_left (String.◌∷◌ c s) = if is_space (code c) then strip_text_left s else String.◌∷◌ c s

strip_text_right : String → String
strip_text_right String.[] = String.[]
strip_text_right (String.◌∷◌ c s) =
    let rest = strip_text_right s in
    if is_space (code c) && str_eq rest "" then String.[] else String.◌∷◌ c rest

-- `text.strip()`
unfoldable pub strip_text : String → String
unfolding strip_text_left strip_text_right is_space
strip_text s = strip_text_right (strip_text_left s)

-- str.lower, of the letters that "bearer " can come from
abbrev lower_code : ℕ → ℕ
lower_code c = if between b'A' b'Z' c then c + 32 else c

starts_with_lower : List ℕ → List ℕ → Bool
starts_with_lower [] s = true
starts_with_lower (p ∷ ps) [] = false
starts_with_lower (p ∷ ps) (c ∷ cs) = p == lower_code c && starts_with_lower ps cs

-- The token of an Authorization header, if it is a bearer token.
unfoldable pub bearer_token : Option String → Option String
unfolding starts_with_lower drop_text strip_text
bearer_token none = none
bearer_token (some header) =
    if starts_with_lower (codes "bearer ") (codes header)
    then some (strip_text (drop_text 7 header))
    else none

-- The session of the mode without authentication. Its id is the text "session-local" and no number.
abbrev pub local_session : ℕ → ℕ → AuthSession
local_session session_local id = record {
  user_id = id;
  username = local_user;
  developer = true;
  session_id = session_local;
}

-- The fallback at the end of _authenticate.
unfoldable pub anonymous : ℕ → Kernel → Option AuthSession
anonymous session_local kernel =
    if kernel.allow_anonymous
    then elim kernel.local_user_id [ none ↦ none | some id ↦ some (local_session session_local id) ]
    else none

abbrev pub or_anonymous : Option AuthSession → Option AuthSession → Option AuthSession
or_anonymous (some session) fallback = some session
or_anonymous none fallback = fallback

-- `session.user_id if session else self.local_user_id`
abbrev pub caller : Kernel → Option AuthSession → Option ℕ
caller kernel none = kernel.local_user_id
caller kernel (some session) = some session.user_id

abbrev pub is_developer_session : Option AuthSession → Bool
is_developer_session none = false
is_developer_session (some session) = session.developer

-- _require_ownership: whether it returns; where it does not, it raises HttpError 404.
unfoldable pub require_ownership : Kernel → String → String → Option AuthSession → IdentityDb → Bool
require_ownership kernel kind id session db = elim (caller kernel session) [
  | none ↦ true
  | some user ↦
      if not (is_some (owner_of kind id db)) && not (is_developer_session session)
      then false
      else owns_resource kind id user true db
]

-- What a handler answers: an HTTP status, with what the handler returns where it succeeds.
pub data Answer {ℓ} (A : Type ℓ) : Type ℓ where
  replies : A → Answer A
  refuses : ℕ → Answer A

module _ (token_hash : String → String) (session_local : ℕ) (kernel : Kernel) where
  -- _authenticate
  unfoldable pub authenticate : HttpRequest → ℕ → IdentityDb → Option AuthSession × IdentityDb
  unfolding bearer_token anonymous
  authenticate request now db = elim (bearer_token request.authorization) [
    | none ↦ (anonymous session_local kernel, db)
    | some token ↦
        let (session, after) = resolve token_hash (some token) now db in
        (or_anonymous session (anonymous session_local kernel), after)
  ]

  -- _guarded: the handler is called with the session and the tables that resolve left.
  unfoldable pub guarded {ℓ} :
      {A : Type ℓ}
      → (Option AuthSession → IdentityDb → Answer A × IdentityDb)
      → HttpRequest
      → ℕ
      → IdentityDb
      → Answer A × IdentityDb
  guarded handler request now db =
      let (session, after) = authenticate request now db in
      if not (is_some session) && not (is_public request)
      then (refuses 401, after)
      else handler session after

abbrev answered : {A : Type 0} → ℕ → Result A × Db → Answer (Unit {0}) × Db
answered status (ok x, db) = (replies tt, db)
answered status (err e, db) = (refuses status, db)

-- `requester or "anonymous"`, of a caller's id as a text
abbrev requester : (ℕ → String) → Option ℕ → String
requester user_name none = "anonymous"
requester user_name (some id) = user_name id

-- The handlers that change a run, without the detail that they return. The table of owners names a run
-- by the text of its id, and request_retry a user by that of its own.
module _ (run_name user_name : ℕ → String) (kernel : Kernel) where
  unfoldable pub cancel_run : ℕ → Option AuthSession → ℕ → IdentityDb → Db → Answer (Unit {0}) × Db
  cancel_run run_id session now identity db =
      if require_ownership kernel "run" (run_name run_id) session identity
      then answered 404 (request_cancel run_id now db)
      else (refuses 404, db)

  -- `reason` is none where the body is no JSON object.
  unfoldable pub retry_run :
      ℕ → Option String → Option AuthSession → ℕ → ℕ → IdentityDb → Db → Answer (Unit {0}) × Db
  retry_run run_id reason session event_id now identity db =
      if require_ownership kernel "run" (run_name run_id) session identity
      then elim reason [
        | none ↦ (refuses 400, db)
        | some text ↦ answered 400 (
            request_retry run_id (requester user_name (caller kernel session)) text event_id now db)
      ]
      else (refuses 404, db)
