-- ===== src/Runtime/Result.antt =====
-- What an operation of the store returns: a value or the exception that it raised; and the write
-- transaction, which leaves no trace of an operation that raised.
use chip_evolve.Base.{Bool, true, false, Option, none, some, ◌≡◌, refl, ◌⊎◌, inl, inr}
use chip_evolve.Runtime.State.{Db}

-- The exceptions, by the place that raises them. `invalid_transition` is the class
-- InvalidTransition; the others up to `untraced_metric` are plain RuntimeStoreError; `staging_error` is
-- runtime.py's InputStagingError, `protocol_error` adapter.py's AdapterProtocolError, `contract_error` the contracts' ContractError, `integrity_error`
-- sqlite3.IntegrityError and `index_error` Python's IndexError.
pub data StoreError : Type 0 where
  unknown_run unknown_stage unknown_attempt unknown_input unknown_artifact : StoreError
  plugin_missing empty_key spec_conflict version_conflict : StoreError
  empty_preflight bad_lease bad_process foreign_lease memory_missing : StoreError
  empty_retry_request not_retryable budget_exhausted bad_limit : StoreError
  escapes_workspace missing_file inconsistent_object source_changed : StoreError
  missing_object object_differs unknown_storage untraced_metric staging_error : StoreError
  protocol_error : StoreError
  index_error : StoreError
  invalid_transition : StoreError
  contract_error : StoreError
  integrity_error : StoreError

-- `except InvalidTransition`
abbrev pub is_invalid_transition : StoreError → Bool
is_invalid_transition invalid_transition = true
is_invalid_transition _ = false

pub data Result {ℓ} (A : Type ℓ) : Type ℓ where
  ok : A → Result A
  err : StoreError → Result A

-- A statement that may raise, and the statements that follow it.
abbrev pub ◌>>=◌ {ℓ μ} : {X : Type ℓ} {Y : Type μ} → Result X → (X → Result Y) → Result Y
err raised >>= rest = err raised
ok x >>= rest = rest x

abbrev pub ◌>>◌ {μ} : {Y : Type μ} → Result (Unit {0}) → Result Y → Result Y
statement >> rest = statement >>= λ done. rest

infixl 5 ◌>>=◌ ◌>>◌
-- `if not test: raise error`
abbrev pub guard : Bool → StoreError → Result (Unit {0})
guard true e = ok tt
guard false e = err e

-- `if row is None: raise error`
abbrev pub required {ℓ} : {A : Type ℓ} → StoreError → Option A → Result A
required e none = err e
required e (some a) = ok a

-- BEGIN IMMEDIATE; body; COMMIT, and ROLLBACK and raise on an exception.
abbrev pub commit {ℓ} : {A : Type ℓ} → Db → Result (A × Db) → Result A × Db
commit db (ok (a, after)) = (ok a, after)
commit db (err e) = (err e, db)

abbrev pub transaction {ℓ} : {A : Type ℓ} → (Db → Result (A × Db)) → Db → Result A × Db
transaction body db = commit db (body db)

-- `P` holds of what a body returns, if it returns.
abbrev pub Post {ℓ κ} : {A : Type ℓ} → (A → Type κ) → Result A → Type κ
Post P (ok a) = P a
Post P (err e) = Unit

module _ {ℓ κ} {A : Type ℓ} (P : A → Type κ) where
  pub Post-guard :
      (b : Bool) (e : StoreError) (k : Result A) → (b ≡ true → Post P k) → Post P (guard b e >> k)
  Post-guard true e k h = h refl
  Post-guard false e k h = tt

  pub Post-required {μ} :
      {R : Type μ} (e : StoreError) (o : Option R) (k : R → Result A)
      → ((r : R) → o ≡ some r → Post P (k r))
      → Post P (required e o >>= k)
  Post-required e none k h = tt
  Post-required e (some r) k h = h r refl

  pub Post-bind {μ} :
      {R : Type μ} (m : Result R) (k : R → Result A)
      → ((r : R) → m ≡ ok r → Post P (k r))
      → Post P (m >>= k)
  Post-bind (ok r) k h = h r refl
  Post-bind (err e) k h = tt

pub Result-cases {ℓ} :
    {A : Type ℓ} (r : Result A) → ((a : A) × (r ≡ ok a)) ⊎ ((e : StoreError) × (r ≡ err e))
Result-cases (ok a) = inl (a, refl)
Result-cases (err e) = inr (e, refl)

pub Post-ok {ℓ κ} :
    {A : Type ℓ} (P : A → Type κ) (r : Result A) → ((a : A) → r ≡ ok a → P a) → Post P r
Post-ok P (ok a) h = h a refl
Post-ok P (err e) h = tt

-- An operation that returned has committed what its body wrote.
pub commit-ok {ℓ} :
    {A : Type ℓ} (db : Db) (r : Result (A × Db)) (a : A) (after : Db)
    → commit db r ≡ (ok a, after)
    → r ≡ ok (a, after)
commit-ok db (ok (x, y)) a after h = cc
commit-ok db (err x) a after h = absurd cc

-- What a sequence that returned went through.
module _ {ℓ μ} {A : Type ℓ} {R : Type μ} where
  pub bind-ok :
      (m : Result R) (k : R → Result A) {a : A}
      → (m >>= k) ≡ ok a
      → (r : R) × (m ≡ ok r) × (k r ≡ ok a)
  bind-ok (ok r) k h = (r, refl, h)
  bind-ok (err e) k h = absurd cc

  pub required-ok :
      (e : StoreError) (o : Option R) (k : R → Result A) {a : A}
      → (required e o >>= k) ≡ ok a
      → (r : R) × (o ≡ some r) × (k r ≡ ok a)
  required-ok e (some r) k h = (r, refl, h)
  required-ok e none k h = absurd cc

pub guard-ok {ℓ} :
    {A : Type ℓ} (b : Bool) (e : StoreError) (k : Result A) {a : A}
    → (guard b e >> k) ≡ ok a
    → (b ≡ true) × (k ≡ ok a)
guard-ok true e k h = (refl, h)
guard-ok false e k h = absurd cc

pub ok_inj {ℓ} : {A : Type ℓ} {x y : A} → ok x ≡ ok y → x ≡ y
ok_inj h = cc
