-- ===== src/Base/Keyed.antt =====
-- Tables whose rows have different texts as keys.
use mathlib.Core.Path.{◌≡◌, refl, ap}
use mathlib.Core.Logic.{inl, inr}
use mathlib.Core.Bool.{Bool, true, false}
use mathlib.Core.Option.{some}
use mathlib.Core.List.{List, [], ◌∷◌, ◌++◌}
use Prim.Native.String.{String}
use native.Mathlib.Omega.{arith}
use chip_evolve.Base.Tests.{if◌then◌else◌, Bool-cases}
use chip_evolve.Base.Rows.{
  All, first, update_where, some_row, All-map, All-update_where, All-append,
}
use chip_evolve.Base.Text.{str_eq, str_eq_iff, str_eq_refl}

pub str_eq_sym : (a b : String) → str_eq a b ≡ false → str_eq b a ≡ false
str_eq_sym a b h = elim (Bool-cases (str_eq b a)) [
  | inr e ↦ e
  | inl e ↦
      let same : b ≡ a = (str_eq_iff b a).0 e in
      absurd (let again : str_eq a b ≡ true = rw same (str_eq_refl a) in ground (arith, again))
]

module _ {ℓ} {A : Type ℓ} where
  -- An update that selects no row changes nothing.
  pub update_where-miss :
      (p : A → Bool) (f : A → A) (xs : List A)
      → All (λ x. p x ≡ false) xs
      → update_where p f xs ≡ xs
  unfolding update_where
  update_where-miss p f [] h = refl
  update_where-miss p f (x ∷ xs) h = rw h.0 (ap (λ ys. x ∷ ys) (update_where-miss p f xs h.1))

  pub update_where-twice :
      (p : A → Bool) (f g : A → A) (xs : List A)
      → ((x : A) → p (f x) ≡ p x)
      → update_where p g (update_where p f xs) ≡ update_where p (λ x. g (f x)) xs
  unfolding update_where
  update_where-twice p f g [] keeps = refl
  update_where-twice p f g (x ∷ xs) keeps =
      ground (arith, keeps x, update_where-twice p f g xs keeps)

module _ {ℓ} {A : Type ℓ} (key : A → String) where
  -- The row of a key.
  abbrev pub has : String → A → Bool
  has k x = str_eq (key x) k

  -- The keys differ.
  abbrev pub IsApart : List A → Type 0
  IsApart [] = Unit
  IsApart (x ∷ xs) = All (λ y. str_eq (key x) (key y) ≡ false) xs × IsApart xs

  pub rest_missed :
      (x : A) (k : String) (xs : List A)
      → has k x ≡ true
      → All (λ y. str_eq (key x) (key y) ≡ false) xs
      → All (λ y. has k y ≡ false) xs
  rest_missed x k xs hit =
      let same : key x ≡ k = (str_eq_iff (key x) k).0 hit in
      All-map (λ y. str_eq (key x) (key y) ≡ false) (λ y. has k y ≡ false) xs
        (λ y h. str_eq_sym k (key y) (rw (← same) h))

  -- An update of one key changes the row that is found, and no other.
  pub All-update_key {κ} :
      (P : A → Type κ) (k : String) (f : A → A) (xs : List A) (s : A)
      → IsApart xs
      → first (has k) xs ≡ some s
      → P (f s)
      → All P xs
      → All P (update_where (has k) f xs)
  unfolding first update_where
  All-update_key P k f [] s apart found new h = h
  All-update_key P k f (x ∷ xs) s apart found new h = elim (Bool-cases (has k x)) [
    | inl e ↦
        let same : x ≡ s = ground arith in
        rw e (rw same (new, rw (update_where-miss (has k) f xs (rest_missed x k xs e apart.0)) h.1))
    | inr e ↦ rw e (h.0, All-update_key P k f xs s apart.1 (rw e at found) new h.1)
  ]

  pub IsApart-update :
      (p : A → Bool) (f : A → A) (xs : List A)
      → ((x : A) → key (f x) ≡ key x)
      → IsApart xs
      → IsApart (update_where p f xs)
  unfolding update_where
  IsApart-update p f [] keeps h = h
  IsApart-update p f (x ∷ xs) keeps h =
      let kept : key (if p x then f x else x) ≡ key x = ground (arith, keeps x) in
      (
        rw kept (
            All-update_where (λ y. str_eq (key x) (key y) ≡ false)
              (λ y. str_eq (key x) (key y) ≡ false) p f xs (λ y old e. rw (keeps y) old)
              (λ y old e. old) h.0),
        IsApart-update p f xs keeps h.1,
      )

  pub IsApart-append :
      (xs : List A) (y : A)
      → some_row (has (key y)) xs ≡ false
      → IsApart xs
      → IsApart (xs ++ y ∷ [])
  unfolding some_row
  IsApart-append [] y free h = (tt, tt)
  IsApart-append (x ∷ xs) y free h =
      let other : str_eq (key x) (key y) ≡ false = ground arith in
      let later : some_row (has (key y)) xs ≡ false = ground arith in
      (
        All-append (λ z. str_eq (key x) (key z) ≡ false) xs (y ∷ []) h.0 (other, tt),
        IsApart-append xs y later h.1,
      )
