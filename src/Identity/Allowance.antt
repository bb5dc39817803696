-- ===== src/Identity/Allowance.antt =====
-- consume_allowance of IdentityStore in core/identity/src/openroad_platform_identity/auth.py.
pub mod Granted
use chip_evolve.Base.{
  ℕ, suc, ◌-◌, ◌*◌, Bool, true, false, ◌&&◌, ◌||◌, none, some, List, [], ◌∷◌, ◌++◌, ltb, leb, ◌==◌,
  if◌then◌else◌, String, str_eq, first, some_row, update_where,
}
use Prim.Native.Nat.{◌/◌}
use chip_evolve.Identity.State.{
  FeatureUsage, IdentityDb, Outcome, done, raised, bad_allowance, constraint_failed, second,
}
use chip_evolve.Identity.Accounts.{has_user}

abbrev pub is_window : ℕ → String → ℕ → FeatureUsage → Bool
is_window user_id feature window u =
    u.user_id == user_id && str_eq u.feature feature && u.window_id == window

-- The SELECT of the count, 0 where there is no row.
unfoldable pub used_in : ℕ → String → ℕ → List FeatureUsage → ℕ
used_in user_id feature window rows = elim (first (is_window user_id feature window) rows) [
  | none ↦ 0
  | some row ↦ row.usage_count
]

abbrev pub count_use : ℕ → FeatureUsage → FeatureUsage
count_use now u = record u { usage_count = suc u.usage_count; updated_at = now }

abbrev pub first_use : ℕ → String → ℕ → ℕ → FeatureUsage
first_use user_id feature window now = record {
  user_id = user_id;
  feature = feature;
  window_id = window;
  usage_count = 1;
  updated_at = now;
}

-- INSERT … ON CONFLICT DO UPDATE
unfoldable pub upsert_use : ℕ → String → ℕ → ℕ → List FeatureUsage → List FeatureUsage
upsert_use user_id feature window now rows =
    if some_row (is_window user_id feature window) rows
    then update_where (is_window user_id feature window) (count_use now) rows
    else rows ++ first_use user_id feature window now ∷ []

-- `int(now // window_seconds)`
unfoldable pub window_of : ℕ → ℕ → ℕ
window_of window_seconds now = now / (window_seconds * second)

-- consume_allowance: whether a unit is granted, and what remains. A limit or a window below 0 is
-- refused as 0 is.
unfoldable pub consume_allowance :
    ℕ → String → ℕ → ℕ → ℕ → IdentityDb → Outcome (Bool × ℕ) × IdentityDb
consume_allowance user_id feature limit window_seconds now db =
    if ltb limit 1 || ltb window_seconds 60
    then (raised bad_allowance, db)
    else (let window = window_of window_seconds now in
        let used = used_in user_id feature window db.usage in
        if leb limit used
        then (done (false, 0), db)
        else if has_user user_id db
        then (
          done (true, limit - used - 1),
          record db { usage = upsert_use user_id feature window now db.usage },
        )
        else (raised constraint_failed, db))
