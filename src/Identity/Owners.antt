-- ===== src/Identity/Owners.antt =====
-- Resource ownership: bind_resource, owner_of, owns_resource and resources_owned of IdentityStore in
-- core/identity/src/openroad_platform_identity/auth.py.
use chip_evolve.Base.{
  ℕ, Bool, true, false, ◌&&◌, not, Option, none, some, List, [], ◌∷◌, ◌++◌, map, ◌==◌,
  if◌then◌else◌, String, str_eq, first, select,
}
use mathlib.Core.Option
use chip_evolve.Identity.State.{
  Owner, IdentityDb, is_developer, Outcome, done, raised, bad_resource_type, no_resource_id,
  owned_by_another, constraint_failed,
}
use chip_evolve.Identity.Names.{is_resource_type}
use chip_evolve.Identity.Accounts.{is_user, has_user}

abbrev pub is_resource : String → String → Owner → Bool
is_resource kind id o = str_eq o.resource_type kind && str_eq o.resource_id id

-- owner_of
unfoldable pub owner_of : String → String → IdentityDb → Option ℕ
owner_of kind id db = Option.map (λ o. o.user_id) (first (is_resource kind id) db.owners)

-- INSERT INTO identity_resource_owners, with its foreign key; its key is free where it is called.
unfoldable pub insert_owner : Owner → IdentityDb → Outcome (Unit {0}) × IdentityDb
insert_owner row db =
    if has_user row.user_id db
    then (done tt, record db { owners = db.owners ++ row ∷ [] })
    else (raised constraint_failed, db)

abbrev pub new_owner : String → String → ℕ → ℕ → Owner
new_owner kind id user_id now = record {
  resource_type = kind;
  resource_id = id;
  user_id = user_id;
  created_at = now;
}

-- bind_resource
unfoldable pub bind_resource :
    String → String → ℕ → ℕ → IdentityDb → Outcome (Unit {0}) × IdentityDb
unfolding insert_owner owner_of
bind_resource kind id user_id now db =
    if not (is_resource_type kind)
    then (raised bad_resource_type, db)
    else if str_eq id ""
    then (raised no_resource_id, db)
    else elim (owner_of kind id db) [
      | some owner ↦ if owner == user_id then (done tt, db) else (raised owned_by_another, db)
      | none ↦ insert_owner (new_owner kind id user_id now) db
    ]

-- The query of the role at the end of owns_resource.
unfoldable pub has_developer_role : ℕ → IdentityDb → Bool
has_developer_role user_id db = elim (first (is_user user_id) db.users) [
  | none ↦ false
  | some user ↦ is_developer user.role
]

-- owns_resource
unfoldable pub owns_resource : String → String → ℕ → Bool → IdentityDb → Bool
unfolding owner_of has_developer_role
owns_resource kind id user_id developer_all db = elim (owner_of kind id db) [
  | none ↦ true
  | some owner ↦
      if owner == user_id
      then true
      else if not developer_all
      then false
      else has_developer_role user_id db
]

-- resources_owned
unfoldable pub resources_owned : String → ℕ → IdentityDb → List String
resources_owned kind user_id db =
    map (λ o. o.resource_id)
      (select (λ o. str_eq o.resource_type kind && o.user_id == user_id) db.owners)
