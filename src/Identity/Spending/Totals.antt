-- ===== src/Identity/Spending/Totals.antt =====
-- How many units a sequence of calls is granted
-- (core/identity/src/openroad_platform_identity/auth.py).
use chip_evolve.Base.{
  ℕ, ◌+◌, ◌≤◌, ◌≡◌, refl, sym, ◌∙◌, Bool, true, false, ◌&&◌, ◌||◌, not, none, some, List, [], ◌∷◌,
  String, str_eq, arith, Bool-cases, inl, inr, if◌then◌else◌, ◌==◌, ==_iff, leb, ltb, All,
  str_eq_iff,
}
use chip_evolve.Identity.State.{IdentityDb, Outcome, done, raised}
use chip_evolve.Identity.Accounts.{has_user, logout}
use chip_evolve.Identity.Allowance.{is_window, used_in, first_use, window_of, consume_allowance}
use chip_evolve.Identity.Allowance.Granted.{used-upsert, used-upsert_other}
use chip_evolve.Identity.Requests.{
  Request, after_request, registers, logs_in, resolves, logs_out, ensures, binds, consumes,
}
use chip_evolve.Identity.Kept.{request-has_user}
use chip_evolve.Identity.Spending.{
  register-usage, login-usage, resolve-usage, ensure-usage, bind-usage,
}

abbrev unit_of : Outcome (Bool × ℕ) → ℕ
unit_of (done (true, remaining)) = 1
unit_of (done (false, remaining)) = 0
unit_of (raised e) = 0

-- The count of a call's own window grows by the unit that it grants,
consume-own :
    (user_id : ℕ) (feature : String) (limit window_seconds now : ℕ) (db : IdentityDb)
    → used_in user_id feature
        (window_of window_seconds now)
        (consume_allowance user_id feature limit window_seconds now db).1.usage
      ≡ used_in user_id feature (window_of window_seconds now) db.usage
        + unit_of (consume_allowance user_id feature limit window_seconds now db).0
unfolding consume_allowance
consume-own user_id feature limit window_seconds now db =
    ground (arith, used-upsert user_id feature (window_of window_seconds now) now db.usage)

-- and that of another does not.
consume-other :
    (uid : ℕ) (f : String) (w user_id : ℕ) (feature : String) (limit window_seconds now : ℕ)
    (db : IdentityDb)
    → is_window uid f w (first_use user_id feature (window_of window_seconds now) 0) ≡ false
    → used_in uid f w (consume_allowance user_id feature limit window_seconds now db).1.usage
      ≡ used_in uid f w db.usage
unfolding consume_allowance
consume-other uid f w user_id feature limit window_seconds now db apart = ground (
  arith,
  used-upsert_other uid f w user_id feature (window_of window_seconds now) now db.usage apart,
)

consume-same :
    (uid : ℕ) (f : String) (w user_id : ℕ) (feature : String) (limit window_seconds now : ℕ)
    (db : IdentityDb)
    → uid ≡ user_id
    → f ≡ feature
    → w ≡ window_of window_seconds now
    → used_in uid f w (consume_allowance user_id feature limit window_seconds now db).1.usage
      ≡ used_in uid f w db.usage
        + unit_of (consume_allowance user_id feature limit window_seconds now db).0
consume-same uid f w user_id feature limit window_seconds now db u g v =
    rw (u, g, v) (consume-own user_id feature limit window_seconds now db)

-- A call for a unit is granted one while the count is below the limit.
consume-grants :
    (user_id : ℕ) (feature : String) (limit window_seconds now : ℕ) (db : IdentityDb)
    → ltb limit 1 ≡ false
    → leb 60 window_seconds ≡ true
    → has_user user_id db ≡ true
    → unit_of (consume_allowance user_id feature limit window_seconds now db).0 ≡ (
        if leb limit (used_in user_id feature (window_of window_seconds now) db.usage)
        then 0
        else 1)
unfolding consume_allowance
consume-grants user_id feature limit window_seconds now db some_limit minute known = ground arith

module _ (token_hash : String → String) (derive : String → List ℕ → ℕ → List ℕ) (uid : ℕ)
    (f : String) (w : ℕ) where
  -- A call asks for a unit of the user's feature in the window.
  abbrev pub is_ask : Request → Bool
  is_ask (consumes user_id feature limit window_seconds now) =
      user_id == uid && str_eq feature f && window_of window_seconds now == w
  is_ask _ = false

  -- The units of the window that a call grants.
  abbrev pub granted_by : Request → IdentityDb → ℕ
  granted_by (consumes user_id feature limit window_seconds now) db =
      if is_ask (consumes user_id feature limit window_seconds now)
      then unit_of (consume_allowance user_id feature limit window_seconds now db).0
      else 0
  granted_by _ db = 0

  -- The units of the window that a sequence of calls grants, and how often it asks for one.
  unfoldable pub granted : List Request → IdentityDb → ℕ
  granted [] db = 0
  granted (r ∷ rs) db = granted_by r db + granted rs (after_request token_hash derive r db)

  unfoldable pub asked : List Request → ℕ
  asked [] = 0
  asked (r ∷ rs) = (if is_ask r then 1 else 0) + asked rs

  -- A call for the window names the limit, and a window of a minute at least.
  abbrev pub keeps_limit : ℕ → Request → Bool
  keeps_limit limit (consumes user_id feature limit2 window_seconds now) =
      not (is_ask (consumes user_id feature limit2 window_seconds now))
      || limit2 == limit && leb 60 window_seconds
  keeps_limit limit _ = true

  consume-counts :
      (user_id : ℕ) (feature : String) (limit window_seconds now : ℕ) (db : IdentityDb)
      → used_in uid f w (consume_allowance user_id feature limit window_seconds now db).1.usage
        ≡ used_in uid f w db.usage
          + granted_by (consumes user_id feature limit window_seconds now) db
  consume-counts user_id feature limit window_seconds now db =
      elim (Bool-cases (is_ask (consumes user_id feature limit window_seconds now))) [
        | inl hit ↦ rw hit (
            consume-same uid f w user_id feature limit window_seconds now db
              (sym ((==_iff user_id uid).0 (ground arith)))
              (sym ((str_eq_iff feature f).0 (ground arith)))
              (sym ((==_iff (window_of window_seconds now) w).0 (ground arith))))
        | inr miss ↦
            rw miss (
              consume-other uid f w user_id feature limit window_seconds now db miss
              ∙ (omega arith))
      ]

  -- The count of the window grows by the units granted.
  request-counts :
      (r : Request) (db : IdentityDb)
      → used_in uid f w (after_request token_hash derive r db).usage
        ≡ used_in uid f w db.usage + granted_by r db
  unfolding after_request logout
  request-counts (registers username password user_id salt drawn now) db =
      rw (register-usage token_hash derive username password user_id salt drawn now db)
        (omega arith)
  request-counts (logs_in username password drawn now) db =
      rw (login-usage token_hash derive username password drawn now db) (omega arith)
  request-counts (resolves token now) db = rw (resolve-usage token_hash token now db) (omega arith)
  request-counts (logs_out none) db = omega arith
  request-counts (logs_out (some token)) db = ground arith
  request-counts (ensures user_id now) db = rw (ensure-usage user_id now db) (omega arith)
  request-counts (binds kind id user_id now) db =
      rw (bind-usage kind id user_id now db) (omega arith)
  request-counts (consumes user_id feature limit window_seconds now) db =
      consume-counts user_id feature limit window_seconds now db

  request-grants :
      (limit : ℕ) (r : Request) (db : IdentityDb)
      → ltb limit 1 ≡ false
      → keeps_limit limit r ≡ true
      → has_user uid db ≡ true
      → granted_by r db
        ≡ (if is_ask r then (if leb limit (used_in uid f w db.usage) then 0 else 1) else 0)
  request-grants limit (registers username password user_id salt drawn now) db s k known = refl
  request-grants limit (logs_in username password drawn now) db s k known = refl
  request-grants limit (resolves token now) db s k known = refl
  request-grants limit (logs_out token) db s k known = refl
  request-grants limit (ensures user_id now) db s k known = refl
  request-grants limit (binds kind id user_id now) db s k known = refl
  request-grants limit (consumes user_id feature limit2 window_seconds now) db s k known =
      elim (Bool-cases (is_ask (consumes user_id feature limit2 window_seconds now))) [
        | inr miss ↦ rw miss refl
        | inl hit ↦
            let u : user_id ≡ uid = (==_iff user_id uid).0 (ground arith) in
            let g : feature ≡ f = (str_eq_iff feature f).0 (ground arith) in
            let v : window_of window_seconds now ≡ w =
              (==_iff (window_of window_seconds now) w).0 (ground arith) in
            let l : limit2 ≡ limit = (==_iff limit2 limit).0 (ground arith) in
            rw hit (
              consume-grants user_id feature limit2 window_seconds now db (rw l s) (ground arith)
                (rw u known)
              ∙ rw (u, g, v, l) refl)
      ]

  -- While a user exists and every call for the window names one limit, the calls are granted as many units
  -- as they ask for, up to what is left of the limit, and none beyond it, whatever is called in between.
  pub granted_exactly :
      (limit : ℕ) (rs : List Request) (db : IdentityDb)
      → ltb limit 1 ≡ false
      → All (λ r. keeps_limit limit r ≡ true) rs
      → has_user uid db ≡ true
      → used_in uid f w db.usage ≤ limit
      → used_in uid f w db.usage + granted rs db ≡ (
          if leb (used_in uid f w db.usage + asked rs) limit
          then used_in uid f w db.usage + asked rs
          else limit)
  unfolding granted asked
  granted_exactly limit [] db s k known below = ground arith
  granted_exactly limit (r ∷ rs) db s k known below =
      let after = after_request token_hash derive r db in
      let counts = request-counts r db in
      let one = request-grants limit r db s k.0 known in
      let within : used_in uid f w after.usage ≤ limit = ground (arith, counts, one) in
      let rest =
        granted_exactly limit rs after s k.1 (request-has_user token_hash derive uid r db known)
          within in
      ground (arith, counts, one, rest)
