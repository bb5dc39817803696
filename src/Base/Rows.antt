-- ===== src/Base/Rows.antt =====
-- A table of a relational store as the list of its rows, in the order of insertion.
use mathlib.Core.Path.{◌≡◌, refl}
use mathlib.Core.Logic.{inl, inr}
use mathlib.Core.Bool.{Bool, true, false, ◌&&◌}
use mathlib.Core.Option.{Option, none, some}
use mathlib.Core.Option
use mathlib.Core.List.{List, [], ◌∷◌, ◌++◌}
use native.Mathlib.Omega.{arith}
use chip_evolve.Base.Tests.{if◌then◌else◌, Bool-cases}

-- A predicate of every row.
abbrev pub All {ℓ κ} : {A : Type ℓ} → (A → Type κ) → List A → Type κ
All P [] = Unit
All P (x ∷ xs) = P x × All P xs

module _ {ℓ} {A : Type ℓ} where
  -- SELECT … WHERE p LIMIT 1
  unfoldable pub first : (A → Bool) → List A → Option A
  first p [] = none
  first p (x ∷ xs) = if p x then some x else first p xs

  -- SELECT … WHERE p
  unfoldable pub select : (A → Bool) → List A → List A
  select p [] = []
  select p (x ∷ xs) = let rest = select p xs in if p x then x ∷ rest else rest

  -- UPDATE … SET f WHERE p
  unfoldable pub update_where : (A → Bool) → (A → A) → List A → List A
  update_where p f [] = []
  update_where p f (x ∷ xs) = (if p x then f x else x) ∷ update_where p f xs

  -- DELETE … WHERE p
  unfoldable pub delete_where : (A → Bool) → List A → List A
  delete_where p [] = []
  delete_where p (x ∷ xs) = let rest = delete_where p xs in if p x then rest else x ∷ rest

  -- SELECT 1 … WHERE p
  unfoldable pub some_row : (A → Bool) → List A → Bool
  some_row p [] = false
  some_row p (x ∷ xs) = if p x then true else some_row p xs

module _ {ℓ} {A : Type ℓ} where
  pub first_holds : (p : A → Bool) (xs : List A) {x : A} → first p xs ≡ some x → p x ≡ true
  unfolding first
  first_holds p [] h = absurd (ground arith)
  first_holds p (y ∷ xs) {x} h = elim (Bool-cases (p y)) [
    | inl e ↦ let same : y ≡ x = ground arith in rw (← same) e
    | inr e ↦ first_holds p xs (rw e at h)
  ]

  -- An update that keeps what `q` reads changes the row that is found, and not which one is.
  pub first-update_where :
      (q p : A → Bool) (f : A → A) (xs : List A)
      → ((x : A) → q (f x) ≡ q x)
      → first q (update_where p f xs) ≡ Option.map (λ x. if p x then f x else x) (first q xs)
  unfolding first update_where
  first-update_where q p f [] keeps = refl
  first-update_where q p f (x ∷ xs) keeps =
      ground (arith, keeps x, first-update_where q p f xs keeps)

  abbrev pub or_else : Option A → Option A → Option A
  or_else none d = d
  or_else (some a) d = some a

  pub first-append :
      (q : A → Bool) (xs ys : List A) → first q (xs ++ ys) ≡ or_else (first q xs) (first q ys)
  unfolding first
  first-append q [] ys = refl
  first-append q (x ∷ xs) ys = ground (arith, first-append q xs ys)

  -- A deletion of other rows leaves the row that is found.
  pub first-delete_where :
      (q p : A → Bool) (xs : List A)
      → ((x : A) → q x ≡ true → p x ≡ false)
      → first q (delete_where p xs) ≡ first q xs
  unfolding first delete_where
  first-delete_where q p [] apart = refl
  first-delete_where q p (x ∷ xs) apart = ground (arith, apart x, first-delete_where q p xs apart)

module _ {ℓ κ} {A : Type ℓ} (P : A → Type κ) where
  pub All-first : (p : A → Bool) (xs : List A) {x : A} → All P xs → first p xs ≡ some x → P x
  unfolding first
  All-first p [] a h = absurd (ground arith)
  All-first p (y ∷ xs) {x} a h = elim (Bool-cases (p y)) [
    | inl e ↦ subst_first e
    | inr e ↦ All-first p xs a.1 (rw e at h)
  ]
    where
      subst_first : p y ≡ true → P x
      subst_first e = let same : y ≡ x = ground arith in rw (← same) a.0

  pub All-append : (xs ys : List A) → All P xs → All P ys → All P (xs ++ ys)
  All-append [] ys hx hy = hy
  All-append (x ∷ xs) ys hx hy = (hx.0, All-append xs ys hx.1 hy)

  pub All-delete_where : (p : A → Bool) (xs : List A) → All P xs → All P (delete_where p xs)
  unfolding delete_where
  All-delete_where p [] h = h
  All-delete_where p (x ∷ xs) h = elim (Bool-cases (p x)) [
    | inl e ↦ rw e (All-delete_where p xs h.1)
    | inr e ↦ rw e (h.0, All-delete_where p xs h.1)
  ]

module _ {ℓ κ} {A : Type ℓ} (P Q : A → Type κ) where
  pub All-map : (xs : List A) → ((x : A) → P x → Q x) → All P xs → All Q xs
  All-map [] f h = h
  All-map (x ∷ xs) f h = (f x h.0, All-map xs f h.1)

  pub All-update_where :
      (p : A → Bool) (f : A → A) (xs : List A)
      → ((x : A) → P x → p x ≡ true → Q (f x))
      → ((x : A) → P x → p x ≡ false → Q x)
      → All P xs
      → All Q (update_where p f xs)
  unfolding update_where
  All-update_where p f [] hit miss h = h
  All-update_where p f (x ∷ xs) hit miss h =
      (row (p x) (hit x h.0) (miss x h.0), All-update_where p f xs hit miss h.1)
    where
      row : (b : Bool) → (b ≡ true → Q (f x)) → (b ≡ false → Q x) → Q (if b then f x else x)
      row true t e = t refl
      row false t e = e refl

  pub All-delete_where_hit :
      (p : A → Bool) (xs : List A)
      → ((x : A) → P x → p x ≡ false → Q x)
      → All P xs
      → All Q (delete_where p xs)
  unfolding delete_where
  All-delete_where_hit p [] miss h = h
  All-delete_where_hit p (x ∷ xs) miss h = elim (Bool-cases (p x)) [
    | inl e ↦ rw e (All-delete_where_hit p xs miss h.1)
    | inr e ↦ rw e (miss x h.0 e, All-delete_where_hit p xs miss h.1)
  ]

module _ {ℓ κ} {A : Type ℓ} {C : Type κ} (column : A → C) where
  -- A column that an update keeps, of the row that is found.
  pub column-update_where :
      (q p : A → Bool) (f : A → A) (xs : List A)
      → ((x : A) → q (f x) ≡ q x)
      → ((x : A) → column (f x) ≡ column x)
      → Option.map column (first q (update_where p f xs)) ≡ Option.map column (first q xs)
  unfolding first update_where
  column-update_where q p f [] keeps same = refl
  column-update_where q p f (x ∷ xs) keeps same =
      ground (arith, keeps x, same x, column-update_where q p f xs keeps same)

  pub column-append :
      (q : A → Bool) (xs ys : List A) {c : C}
      → Option.map column (first q xs) ≡ some c
      → Option.map column (first q (xs ++ ys)) ≡ some c
  unfolding first
  column-append q [] ys h = absurd (ground arith)
  column-append q (x ∷ xs) ys h = elim (Bool-cases (q x)) [
    | inl e ↦ rw e (rw e at h)
    | inr e ↦ rw e (column-append q xs ys (rw e at h))
  ]

module _ {ℓ} {A : Type ℓ} where
  -- Where no row meets a test, no row meets a stronger one.
  pub first-none :
      (p q : A → Bool) (xs : List A)
      → ((x : A) → q x ≡ true → p x ≡ true)
      → some_row p xs ≡ false
      → first q xs ≡ none
  unfolding first some_row
  first-none p q [] h e = refl
  first-none p q (x ∷ xs) h e = ground (arith, h x, first-none p q xs h)

  pub some_row-first :
      (p q : A → Bool) (xs : List A) {x : A}
      → first p xs ≡ some x
      → q x ≡ true
      → some_row (λ y. p y && q y) xs ≡ true
  unfolding first some_row
  some_row-first p q [] found h = absurd (ground arith)
  some_row-first p q (y ∷ xs) {x} found h = elim (Bool-cases (p y)) [
    | inl e ↦ let same : y ≡ x = ground arith in let yes_q : q y ≡ true = rw same h in rw (e, yes_q)
    | inr e ↦ rw e (some_row-first p q xs (rw e at found) h)
  ]

module _ {ℓ κ} {A : Type ℓ} (P : A → Type κ) where
  pub All-some_row :
      (q : A → Bool) (xs : List A) → All P xs → some_row q xs ≡ true → (x : A) × P x × (q x ≡ true)
  unfolding some_row
  All-some_row q [] h e = absurd (ground arith)
  All-some_row q (x ∷ xs) h e = elim (Bool-cases (q x)) [
    | inl hit ↦ (x, h.0, hit)
    | inr miss ↦ All-some_row q xs h.1 (rw miss at e)
  ]
