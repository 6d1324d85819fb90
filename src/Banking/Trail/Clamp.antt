-- ===== src/Banking/Trail/Clamp.antt =====
-- What an entry of the trail is when it comes into the buffer.
use reconbanker.Common.{
  ℕ, zero, suc, ◌≤◌, ◌≡◌, refl, not, any, ◌⊎◌, inl, inr, Bool, true, false, List, [], ◌∷◌, ◌++◌,
  Option, arith, ltb, leb, length, length-append, take, Bool-cases,
}
use reconbanker.Banking.Trail.{
  Value, text, scalar, nested, Entry, truncate, identity, units, last_resort, trim, clamp_entry,
  serialized_size, field, max_entry_chars, max_string_chars,
}

-- A value of known size: a scalar, or a string of no more than the limit and the ellipsis.
abbrev pub is_small : Value → Bool
is_small (text s) = leb (length s) (suc max_string_chars)
is_small (scalar s) = true
is_small (nested s) = false

length-take : {A : Type 0} (n : ℕ) (xs : List A) → length (take n xs) ≤ n
length-take zero xs = omega arith
length-take (suc n) [] = omega arith
length-take (suc n) (x ∷ xs) = ground (arith, length-take n xs)

cut : (n : ℕ) (s : List ℕ) → length (take n s ++ (0x2026 ∷ [])) ≤ suc n
cut n s = ground (arith, length-take n s, length-append (take n s) (0x2026 ∷ []))

leb-true : (a b : ℕ) → a ≤ b → leb a b ≡ true
leb-true a b h = ground (arith, h)

not_longer : (n m : ℕ) → ltb n m ≡ false → m ≤ suc n
not_longer n m h = ground (arith, h)

truncate-is_small : (s : List ℕ) → is_small (truncate (text s)) ≡ true
unfolding truncate
truncate-is_small s = elim (Bool-cases (ltb max_string_chars (length s))) [
  | inl e ↦ rw e (leb-true _ _ (cut max_string_chars s))
  | inr e ↦ rw e (leb-true _ _ (not_longer max_string_chars (length s) e))
]

identity-is_small : (v : Value) → is_small (identity v) ≡ true
unfolding identity truncate units
identity-is_small (text s) = truncate-is_small s
identity-is_small (scalar s) = refl
identity-is_small (nested s) = refl

module _ (json_length : Entry → Option ℕ) where
  -- An entry that fits comes in as it is; one that does not comes in within the budget, or with three
  -- fields alone, each of them small.
  pub clamp_entry_lem :
      (e : Entry)
      → (serialized_size json_length e ≤ max_entry_chars → clamp_entry json_length e ≡ e)
        × ((serialized_size json_length (clamp_entry json_length e) ≤ max_entry_chars)
            ⊎ ((length (clamp_entry json_length e) ≡ 3)
                × (any (λ f. not (is_small f.1)) (clamp_entry json_length e) ≡ false)))
  unfolding clamp_entry last_resort
  clamp_entry_lem e = elim (Bool-cases (leb (serialized_size json_length e) max_entry_chars)) [
    | inl f ↦ rw f (λ h. refl, inl (ground (arith, f)))
    | inr f ↦ rw f (
      λ h. absurd (ground (arith, f, h)),
      elim (Bool-cases (leb (serialized_size json_length (trim e)) max_entry_chars)) [
        | inl g ↦ rw g (inl (ground (arith, g)))
        | inr g ↦ rw g (
            inr (
              refl,
              ground (arith, identity-is_small (field "at" e), identity-is_small (field "event" e)),
            ))
      ],
    )
  ]
