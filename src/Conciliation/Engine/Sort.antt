-- ===== src/Conciliation/Engine/Sort.antt =====
-- The sort of the engine: a permutation that puts a positive score first.
use mathlib.Core.List.{Perm}
use mathlib.Core.List.Perm
use reconbanker.Common.{
  ℕ, zero, suc, ◌*◌, ◌<◌, ◌≡◌, refl, sym, ◌∙◌, ap, inl, inr, Bool, true, false, ◌||◌, List, [], ◌∷◌,
  arith, filter, any, count, Bool-cases,
}
use reconbanker.Conciliation.Fuzzy.{Score, score_lt, is_positive}
use reconbanker.Conciliation.Engine.{insert_by_score, sort_by_score}

product_pos : (a b c d : ℕ) → a * suc d < b * suc c → 0 < b
product_pos a zero c d h = grind arith
product_pos a (suc b) c d h = omega arith

product_pos_of_le : (a b c d : ℕ) → 0 < b → ¬ (a * suc d < b * suc c) → 0 < a
product_pos_of_le zero (suc b) c d p h = absurd (h (grind arith))
product_pos_of_le zero zero c d p h = p
product_pos_of_le (suc a) b c d p h = omega arith

score_lt-positive : (a b : Score) → score_lt a b ≡ true → is_positive b ≡ true
score_lt-positive a b h = ground (arith, product_pos a.num b.num a.den_pred b.den_pred)

positive_of_not_lt :
    (a b : Score) → score_lt a b ≡ false → is_positive b ≡ true → is_positive a ≡ true
positive_of_not_lt a b h p = ground (arith, product_pos_of_le a.num b.num a.den_pred b.den_pred)

module _ {ℓ} {A : Type ℓ} (score : A → Score) where
  abbrev positive : A → Bool
  positive x = is_positive (score x)

  abbrev pub head_positive : List A → Bool
  head_positive [] = false
  head_positive (x ∷ xs) = is_positive (score x)

  head_positive-insert :
      (x : A) (l : List A)
      → head_positive l ≡ any positive l
      → head_positive (insert_by_score score x l) ≡ (positive x || any positive l)
  unfolding insert_by_score
  head_positive-insert x [] h = ground arith
  head_positive-insert x (y ∷ l) h =
      ground (arith, score_lt-positive (score x) (score y), positive_of_not_lt (score x) (score y))

  any-insert :
      (p : A → Bool) (x : A) (l : List A) → any p (insert_by_score score x l) ≡ (p x || any p l)
  unfolding insert_by_score
  any-insert p x [] = refl
  any-insert p x (y ∷ l) = ground (arith, any-insert p x l)

  any-sort : (p : A → Bool) (l : List A) → any p (sort_by_score score l) ≡ any p l
  unfolding sort_by_score
  any-sort p [] = refl
  any-sort p (x ∷ l) = any-insert p x (sort_by_score score l) ∙ ap (λ b. p x || b) (any-sort p l)

  pub head_positive-sort : (l : List A) → head_positive (sort_by_score score l) ≡ any positive l
  unfolding sort_by_score
  head_positive-sort [] = refl
  head_positive-sort (x ∷ l) =
      head_positive-insert x (sort_by_score score l)
        (head_positive-sort l ∙ sym (any-sort positive l))
      ∙ ap (λ b. positive x || b) (any-sort positive l)

  count-insert :
      (p : A → Bool) (x : A) (l : List A) → count p (insert_by_score score x l) ≡ count p (x ∷ l)
  unfolding insert_by_score
  count-insert p x [] = refl
  count-insert p x (y ∷ l) = ground (arith, count-insert p x l)

  pub count-sort : (p : A → Bool) (l : List A) → count p (sort_by_score score l) ≡ count p l
  unfolding sort_by_score
  count-sort p [] = refl
  count-sort p (x ∷ l) = ground (arith, count-insert p x (sort_by_score score l), count-sort p l)

  insert-perm : (x : A) (l : List A) → Perm (insert_by_score score x l) (x ∷ l)
  unfolding insert_by_score
  insert-perm x [] = Perm.refl (x ∷ [])
  insert-perm x (y ∷ l) = elim (Bool-cases (score_lt (score x) (score y))) [
    | inl e ↦ rw (e, insert_by_score) (Perm.trans (Perm.cons y (insert-perm x l)) (Perm.swap x y l))
    | inr e ↦ rw (e, insert_by_score) (Perm.refl (x ∷ y ∷ l))
  ]

  pub sort-perm : (l : List A) → Perm (sort_by_score score l) l
  unfolding sort_by_score
  sort-perm [] = Perm.refl []
  sort-perm (x ∷ l) = Perm.trans (insert-perm x (sort_by_score score l)) (Perm.cons x (sort-perm l))

  filter-insert_skip :
      (p : A → Bool) (x : A) (l : List A)
      → p x ≡ false
      → filter p (insert_by_score score x l) ≡ filter p l
  unfolding insert_by_score
  filter-insert_skip p x [] h = ground arith
  filter-insert_skip p x (y ∷ l) h = ground (arith, filter-insert_skip p x l h)

  filter-insert_only :
      (p : A → Bool) (x : A) (l : List A)
      → p x ≡ true
      → filter p l ≡ []
      → filter p (insert_by_score score x l) ≡ x ∷ []
  unfolding insert_by_score
  filter-insert_only p x [] h e = ground arith
  filter-insert_only p x (y ∷ l) h e = ground (arith, filter-insert_only p x l h)

  filter-sort_nil :
      (p : A → Bool) (l : List A) → filter p l ≡ [] → filter p (sort_by_score score l) ≡ []
  unfolding sort_by_score
  filter-sort_nil p [] h = refl
  filter-sort_nil p (x ∷ l) h =
      ground (arith, filter-insert_skip p x (sort_by_score score l), filter-sort_nil p l)

  -- The one element that passes a test is still the one after the sort.
  pub filter-sort_single :
      (p : A → Bool) (l : List A) (t : A)
      → filter p l ≡ t ∷ []
      → filter p (sort_by_score score l) ≡ t ∷ []
  unfolding sort_by_score
  filter-sort_single p [] t h = h
  filter-sort_single p (x ∷ l) t h = ground (
    arith,
    filter-insert_skip p x (sort_by_score score l),
    filter-insert_only p x (sort_by_score score l),
    filter-sort_nil p l,
    filter-sort_single p l t,
  )
