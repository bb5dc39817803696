-- ===== src/Custody/Later.antt =====
-- What every operation on the custody of files leaves as it is: nothing that is stored changes.
use chip_evolve.Base.{
  ℕ, ◌≡◌, refl, ◌∙◌, Bool, true, Bool-cases, Option-cases, inl, inr, none, some, List, [], ◌∷◌,
  ◌++◌, arith, String, str_eq, str_eq_refl, subst, first, first-append,
}
use chip_evolve.Runtime.Result.{ok_inj, StoreError, ok}
use chip_evolve.Custody.Objects.{Bytes, Object, stored, is_intact, publish}

-- Objects of before are there afterwards, with the same bytes.
abbrev pub Grows : List Object → List Object → Type 0
Grows before after =
    (name : String) (content : Bytes)
    → stored name before ≡ some content
    → stored name after ≡ some content

pub Grows-refl : (objects : List Object) → Grows objects objects
Grows-refl objects name content h = h

pub Grows-trans : (a b c : List Object) → Grows a b → Grows b c → Grows a c
Grows-trans a b c first then name content h = then name content (first name content h)

pub Grows-append : (objects more : List Object) → Grows objects (objects ++ more)
unfolding stored
Grows-append [] more name content h = absurd (ground arith)
Grows-append (o ∷ os) more name content h = elim (Bool-cases (str_eq o.name name)) [
  | inl e ↦ rw e (rw e at h)
  | inr e ↦ rw e (Grows-append os more name content (rw e at h))
]

pub stored-append :
    (objects more : List Object) (name : String)
    → stored name objects ≡ none
    → stored name (objects ++ more) ≡ stored name more
unfolding stored
stored-append [] more name h = refl
stored-append (o ∷ os) more name h = elim (Bool-cases (str_eq o.name name)) [
  | inl e ↦ absurd (ground arith)
  | inr e ↦ rw e (stored-append os more name (rw e at h))
]

-- Rows that are only added to keep what is found by a key.
pub first-kept {ℓ} :
    {A : Type ℓ} (p : A → Bool) (xs ys : List A) (x : A)
    → first p xs ≡ some x
    → first p (xs ++ ys) ≡ some x
first-kept p xs ys x h = rw (first-append p xs ys, h)

module _ (digest : Bytes → String) where
  -- An object of this name holds bytes of this digest and this size.
  pub record IsHeld (objects : List Object) (name : String) (size : ℕ) : Type 0 where
    pub content : Bytes
    pub there : stored name objects ≡ some content
    pub intact : is_intact digest content name size ≡ true

  pub IsHeld-Grows :
      (before after : List Object) (name : String) (size : ℕ)
      → Grows before after
      → IsHeld before name size
      → IsHeld after name size
  IsHeld-Grows before after name size grows h = record {
    content = h.content;
    there = grows name h.content h.there;
    intact = h.intact;
  }

  -- A publication that returns leaves the object intact, and the others as they were.
  pub record IsPublished (before after : List Object) (name : String) (size : ℕ) : Type 0 where
    pub grows : Grows before after
    pub held : IsHeld after name size

  pub publish-IsPublished :
      (broken changed : StoreError) (content : Bytes) (name : String) (size : ℕ)
      (before after : List Object)
      → publish digest broken changed content name size before ≡ ok after
      → IsPublished before after name size
  unfolding publish
  publish-IsPublished broken changed content name size before after h =
      elim (Option-cases (stored name before)) [
        | inr (existing, there) ↦ elim (Bool-cases (is_intact digest existing name size)) [
          | inl intact ↦
              let same : before ≡ after = ok_inj (rw (publish, there, intact) at h) in
              record {
                grows = subst (λ o. Grows before o) same (Grows-refl before);
                held =
                    subst (λ o. IsHeld o name size) same
                      (record { content = existing; there = there; intact = intact });
              }
          | inr broken ↦ absurd (let e = rw (publish, there, broken) at h in cc)
        ]
        | inl fresh ↦ elim (Bool-cases (is_intact digest content name size)) [
          | inl intact ↦
              let new : List Object = record { name = name; content = content } ∷ [] in
              let same : before ++ new ≡ after = ok_inj (rw (publish, fresh, intact) at h) in
              record {
                grows = subst (λ o. Grows before o) same (Grows-append before new);
                held =
                    subst (λ o. IsHeld o name size) same
                      (record {
                        content = content;
                        there =
                            stored-append before new name fresh
                            ∙ unfold stored in rw (str_eq_refl name);
                        intact = intact;
                      });
              }
          | inr broken ↦ absurd (let e = rw (publish, fresh, broken) at h in cc)
        ]
      ]
