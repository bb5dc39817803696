-- ===== src/Identity/Allowance/Granted.antt =====
-- How many units of an allowance consume_allowance grants
-- (core/identity/src/openroad_platform_identity/auth.py).
use chip_evolve.Base.{
  ℕ, suc, ◌≡◌, refl, ap, ◌∙◌, Bool, true, false, Option, none, some, List, [], ◌∷◌, ◌++◌, String,
  arith, first, some_row, update_where, first-append, first-none, first_holds, first-update_where,
  or_else, Bool-cases, inl, inr, if◌then◌else◌, str_eq_iff, str_eq_refl, ==_refl,
}
use mathlib.Core.Option
use chip_evolve.Identity.State.{FeatureUsage}
use chip_evolve.Identity.Allowance.{is_window, used_in, count_use, first_use, upsert_use}

-- The key of a row is the one of the window.
same_window :
    (uid : ℕ) (f : String) (w : ℕ) (uid2 : ℕ) (f2 : String) (w2 : ℕ) (u : FeatureUsage)
    → is_window uid f w u ≡ true
    → is_window uid2 f2 w2 u ≡ true
    → is_window uid f w (first_use uid2 f2 w2 0) ≡ true
same_window uid f w uid2 f2 w2 u p q =
    ground (arith, str_eq_iff u.feature f, str_eq_iff u.feature f2, str_eq_iff f2 f, str_eq_refl f)

window_itself :
    (uid : ℕ) (f : String) (w now : ℕ) → is_window uid f w (first_use uid f w now) ≡ true
window_itself uid f w now = rw (==_refl uid, str_eq_refl f, ==_refl w) refl

some_row-found {ℓ} :
    {A : Type ℓ} (p : A → Bool) (xs : List A)
    → some_row p xs ≡ true
    → (x : A) × (first p xs ≡ some x)
unfolding some_row first
some_row-found p [] h = absurd (ground arith)
some_row-found p (x ∷ xs) h = elim (Bool-cases (p x)) [
  | inl hit ↦ (x, rw hit refl)
  | inr miss ↦ let (y, found) = some_row-found p xs (rw miss at h) in (y, rw miss found)
]

or_else-none {ℓ} : {A : Type ℓ} (o : Option A) → or_else o none ≡ o
or_else-none none = refl
or_else-none (some a) = refl

count_of : Option FeatureUsage → ℕ
count_of none = 0
count_of (some u) = u.usage_count

-- A unit adds one to the count of its own window,
pub used-upsert :
    (uid : ℕ) (f : String) (w now : ℕ) (rows : List FeatureUsage)
    → used_in uid f w (upsert_use uid f w now rows) ≡ suc (used_in uid f w rows)
unfolding used_in upsert_use
used-upsert uid f w now rows = elim (Bool-cases (some_row (is_window uid f w) rows)) [
  | inl present ↦
      let (u, found) = some_row-found (is_window uid f w) rows present in
      let hit : is_window uid f w u ≡ true = first_holds (is_window uid f w) rows found in
      let later : first (is_window uid f w) (update_where (is_window uid f w) (count_use now) rows)
          ≡ some (count_use now u) =
        first-update_where (is_window uid f w) (is_window uid f w) (count_use now) rows (λ x. refl)
        ∙ rw found (rw hit refl) in
      rw present (rw (later, used_in) (rw (found, used_in) refl))
  | inr absent ↦
      let gone : first (is_window uid f w) rows ≡ none =
        first-none (is_window uid f w) (is_window uid f w) rows (λ x e. e) absent in
      let later : first (is_window uid f w) (rows ++ first_use uid f w now ∷ [])
          ≡ some (first_use uid f w now) =
        first-append (is_window uid f w) rows (first_use uid f w now ∷ [])
        ∙ rw gone (unfold first in rw (window_itself uid f w now) refl) in
      rw absent (rw (later, used_in) (rw (gone, used_in) refl))
]

-- and leaves that of every other.
pub used-upsert_other :
    (uid : ℕ) (f : String) (w uid2 : ℕ) (f2 : String) (w2 now : ℕ) (rows : List FeatureUsage)
    → is_window uid f w (first_use uid2 f2 w2 0) ≡ false
    → used_in uid f w (upsert_use uid2 f2 w2 now rows) ≡ used_in uid f w rows
unfolding used_in upsert_use count_of
used-upsert_other uid f w uid2 f2 w2 now rows apart =
    let same : first (is_window uid f w) (upsert_use uid2 f2 w2 now rows)
        ≡ first (is_window uid f w) rows =
      (elim (Bool-cases (some_row (is_window uid2 f2 w2) rows)) [
        | inl present ↦ rw present (
            first-update_where (is_window uid f w) (is_window uid2 f2 w2) (count_use now) rows
              (λ x. refl)
            ∙ untouched (first (is_window uid f w) rows) refl)
        | inr absent ↦ rw absent (
            first-append (is_window uid f w) rows (first_use uid2 f2 w2 now ∷ [])
            ∙ (unfold first in rw apart (or_else-none (first (is_window uid f w) rows))))
      ]) in
    ap count_of same
  where
    untouched :
        (o : Option FeatureUsage)
        → first (is_window uid f w) rows ≡ o
        → Option.map (λ x. if is_window uid2 f2 w2 x then count_use now x else x) o ≡ o
    untouched none e = refl
    untouched (some u) e =
        let hit : is_window uid f w u ≡ true = first_holds (is_window uid f w) rows e in
        elim (Bool-cases (is_window uid2 f2 w2 u)) [
          | inr miss ↦ rw miss refl
          | inl both ↦
              absurd (let one = same_window uid f w uid2 f2 w2 u hit both in ground (arith, one))
        ]
