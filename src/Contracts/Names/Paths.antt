-- ===== src/Contracts/Names/Paths.antt =====
-- What validate_relative_path rules out: a path that climbs out of its container.
use chip_evolve.Base.{
  ℕ, zero, suc, ◌≡◌, refl, Bool, true, false, Option, none, some, List, [], ◌∷◌, ◌++◌, ◌==◌, ==_iff,
  if◌then◌else◌, Bool-cases, inl, inr,
}
use chip_evolve.Contracts.Names.{split_slash, push_char, is_parent}

join_slash : List (List ℕ) → List ℕ
join_slash [] = []
join_slash (w ∷ []) = w
join_slash (w ∷ v ∷ ws) = w ++ b'/' ∷ join_slash (v ∷ ws)

-- The split of a text is never empty, so a character has a first part to go to.
join-push_char :
    (c : ℕ) (w : List ℕ) (ws : List (List ℕ))
    → join_slash (push_char c (w ∷ ws)) ≡ c ∷ join_slash (w ∷ ws)
unfolding join_slash push_char
join-push_char c w [] = refl
join-push_char c w (v ∷ ws) = refl

split_shape : (s : List ℕ) → (w : List ℕ) × (ws : List (List ℕ)) × (split_slash s ≡ w ∷ ws)
unfolding split_slash
split_shape [] = ([], [], refl)
split_shape (c ∷ cs) = elim (Bool-cases (c == b'/')) [
  | inl e ↦ ([], split_slash cs, rw e)
  | inr e ↦ let (w, ws, h) = split_shape cs in (c ∷ w, ws, rw (e, h))
]

join-push_split :
    (c : ℕ) (s : List ℕ) → join_slash (push_char c (split_slash s)) ≡ c ∷ join_slash (split_slash s)
join-push_split c s = let (w, ws, h) = split_shape s in rw h (join-push_char c w ws)

join-empty_split :
    (s : List ℕ) → join_slash ([] ∷ split_slash s) ≡ b'/' ∷ join_slash (split_slash s)
unfolding join_slash
join-empty_split s = let (w, ws, h) = split_shape s in rw h

-- The parts of a path, joined by slashes, are the path: the split loses nothing.
join-split : (s : List ℕ) → join_slash (split_slash s) ≡ s
unfolding split_slash
join-split [] = unfold join_slash in refl
join-split (c ∷ cs) = elim (Bool-cases (c == b'/')) [
  | inl e ↦ rw e (cc (join-empty_split cs, join-split cs, (==_iff c b'/').0 e))
  | inr e ↦ rw e (cc (join-push_split c cs, join-split cs))
]

-- A part that stays where it is: `.`, or the empty part between two slashes.
is_here : List ℕ → Bool
is_here [] = true
is_here (c ∷ []) = c == b'.'
is_here _ = false

-- Where a path leads, as a depth below the container: `none` is outside it.
pub walk : List (List ℕ) → ℕ → Option ℕ
walk [] depth = some depth
walk (p ∷ ps) depth = elim (is_parent p) [
  | true ↦ elim depth [ zero ↦ none | suc d ↦ walk ps d ]
  | false ↦ walk ps (if is_here p then depth else suc depth)
]
