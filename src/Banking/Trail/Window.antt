-- ===== src/Banking/Trail/Window.antt =====
-- What is in the buffer after any number of events.
use reconbanker.Common.{
  ℕ, zero, suc, ◌+◌, ◌-◌, ◌≤◌, ◌<◌, ◌≡◌, refl, sym, ap, ◌∙◌, inl, inr, true, false, List, [], ◌∷◌,
  ◌++◌, map, Option, arith, ltb, if◌then◌else◌, length, length-append, take, append-nil,
  append_assoc, subst, Bool-cases,
}
use reconbanker.Banking.Trail.{
  Entry, Line, entry, trail_truncated, Buffer, empty, push, shift, drain, pinned, rolling, event,
  events, clamp_entry,
}

module _ {A : Type 0} where
  -- The list without its first elements.
  abbrev pub skip : ℕ → List A → List A
  skip zero xs = xs
  skip (suc n) [] = []
  skip (suc n) (x ∷ xs) = skip n xs

  length-skip : (n : ℕ) (xs : List A) → length (skip n xs) ≡ length xs - n
  length-skip zero xs = omega arith
  length-skip (suc n) [] = omega arith
  length-skip (suc n) (x ∷ xs) = ground (arith, length-skip n xs)

  length-take : (n : ℕ) (xs : List A) → n ≤ length xs → length (take n xs) ≡ n
  length-take zero xs h = refl
  length-take (suc n) [] h = ground arith
  length-take (suc n) (x ∷ xs) h = ground (arith, length-take n xs)

  take-short : (n : ℕ) (xs : List A) → length xs ≤ n → take n xs ≡ xs
  take-short zero [] h = refl
  take-short zero (x ∷ xs) h = absurd (ground (arith, h))
  take-short (suc n) [] h = refl
  take-short (suc n) (x ∷ xs) h = ap (λ l. x ∷ l) (take-short n xs (ground (arith, h)))

  take-append : (n : ℕ) (xs ys : List A) → n ≤ length xs → take n (xs ++ ys) ≡ take n xs
  take-append zero xs ys h = refl
  take-append (suc n) [] ys h = absurd (ground (arith, h))
  take-append (suc n) (x ∷ xs) ys h = ap (λ l. x ∷ l) (take-append n xs ys (ground (arith, h)))

  skip-short : (n : ℕ) (xs : List A) → length xs ≤ n → skip n xs ≡ []
  skip-short zero [] h = refl
  skip-short zero (x ∷ xs) h = absurd (ground (arith, h))
  skip-short (suc n) [] h = refl
  skip-short (suc n) (x ∷ xs) h = skip-short n xs (ground (arith, h))

  skip-append : (n : ℕ) (xs ys : List A) → n ≤ length xs → skip n (xs ++ ys) ≡ skip n xs ++ ys
  skip-append zero xs ys h = refl
  skip-append (suc n) [] ys h = absurd (ground (arith, h))
  skip-append (suc n) (x ∷ xs) ys h = skip-append n xs ys (ground (arith, h))

  -- The last elements, at most so many.
  abbrev pub last : ℕ → List A → List A
  last n xs = skip (length xs - n) xs

shift-skip : (n : ℕ) (xs : List Entry) → shift (skip n xs) ≡ skip (suc n) xs
shift-skip zero [] = refl
shift-skip zero (x ∷ xs) = refl
shift-skip (suc n) [] = refl
shift-skip (suc n) (x ∷ xs) = shift-skip n xs

-- `push` with any two sizes.
abbrev pushed : ℕ → ℕ → Entry → Buffer → Buffer
pushed p m e b =
    if ltb (length b.head) p
    then record b { head = b.head ++ (e ∷ []) }
    else let tail = b.tail ++ (e ∷ []) in
      if ltb m (length tail)
      then record b { tail = shift tail; dropped = b.dropped + 1 }
      else record b { tail = tail }

push-pushed : (e : Entry) (b : Buffer) → push e b ≡ pushed pinned rolling e b
unfolding push
push-pushed e b = refl

-- The buffer holds the first entries, the last of the others, and the number of those between.
record Holds (p m : ℕ) (xs : List Entry) (b : Buffer) : Type 0 where
  heads : b.head ≡ take p xs
  tails : b.tail ≡ last m (skip p xs)
  counts : b.dropped ≡ length (skip p xs) - m

rolls-short :
    (m : ℕ) (z : List Entry) (e : Entry)
    → length z < m
    → (last m z ++ (e ∷ []) ≡ last m (z ++ (e ∷ [])))
      × (ltb m (length (last m z ++ (e ∷ []))) ≡ false)
rolls-short m z e h =
    let a : length z - m ≡ 0 = omega arith in
    let b : length (z ++ (e ∷ [])) - m ≡ 0 = ground (arith, length-append z (e ∷ [])) in
    rw (a, b) (refl, ground (arith, length-append z (e ∷ [])))

rolls-long :
    (m : ℕ) (z : List Entry) (e : Entry)
    → m ≤ length z
    → (shift (last m z ++ (e ∷ [])) ≡ last m (z ++ (e ∷ [])))
      × (ltb m (length (last m z ++ (e ∷ []))) ≡ true)
rolls-long m z e h =
    let k : length (z ++ (e ∷ [])) - m ≡ suc (length z - m) =
      ground (arith, length-append z (e ∷ [])) in
    let s = skip-append (length z - m) z (e ∷ []) (omega arith) in
    (
      ap shift (sym s)
          ∙ shift-skip (length z - m) (z ++ (e ∷ []))
          ∙ ap (λ n. skip n (z ++ (e ∷ []))) (sym k),
      ground (arith, length-skip (length z - m) z, length-append (last m z) (e ∷ [])),
    )

pushed-Holds :
    (p m : ℕ) (xs : List Entry) (e : Entry) (b : Buffer)
    → Holds p m xs b
    → Holds p m (xs ++ (e ∷ [])) (pushed p m e b)
pushed-Holds p m xs e b h = elim (Bool-cases (ltb (length b.head) p)) [
  | inl f ↦
      let n : length xs < p = short f in
      let o : length (xs ++ (e ∷ [])) ≤ p = ground (arith, length-append xs (e ∷ []), n) in
      let s = skip-short p xs (omega arith) in
      let s' = skip-short p (xs ++ (e ∷ [])) o in
      rw f (record {
        heads =
            ap (λ l. l ++ (e ∷ [])) (h.heads ∙ take-short p xs (omega arith))
            ∙ sym (take-short p (xs ++ (e ∷ [])) o);
        tails = h.tails ∙ ap (last m) s ∙ sym (ap (last m) s');
        counts = h.counts ∙ ap (λ l. length l - m) (s ∙ sym s');
      })
  | inr f ↦
      let n : p ≤ length xs = long f in
      let s = skip-append p xs (e ∷ []) n in
      rw f (elim (Bool-cases (ltb (length (skip p xs)) m)) [
        | inl g ↦
            let (t, u) = rolls-short m (skip p xs) e (ground (arith, g)) in
            rw (h.tails, u)
              (record {
                heads = h.heads ∙ sym (take-append p xs (e ∷ []) n);
                tails = t ∙ sym (ap (last m) s);
                counts = ground (arith, h.counts, s, g, length-append (skip p xs) (e ∷ []));
              })
        | inr g ↦
            let (t, u) = rolls-long m (skip p xs) e (ground (arith, g)) in
            rw (h.tails, u)
              (record {
                heads = h.heads ∙ sym (take-append p xs (e ∷ []) n);
                tails = t ∙ sym (ap (last m) s);
                counts = ground (arith, h.counts, s, g, length-append (skip p xs) (e ∷ []));
              })
      ])
]
  where
    long : ltb (length b.head) p ≡ false → p ≤ length xs
    long f = elim (Bool-cases (ltb (length xs) p)) [
      | inl g ↦
          absurd (ground (arith, f, g, ap length (h.heads ∙ take-short p xs (ground (arith, g)))))
      | inr g ↦ ground (arith, g)
    ]

    short : ltb (length b.head) p ≡ true → length xs < p
    short f = elim (Bool-cases (ltb (length xs) p)) [
      | inl g ↦ ground (arith, g)
      | inr g ↦
          absurd (ground (arith, f, g, ap length h.heads, length-take p xs (ground (arith, g))))
    ]

events-Holds :
    (json_length : Entry → Option ℕ) (es xs : List Entry) (b : Buffer)
    → Holds pinned rolling xs b
    → Holds pinned rolling (xs ++ map (clamp_entry json_length) es) (events json_length es b)
unfolding events event
events-Holds json_length [] xs b h = subst (λ l. Holds pinned rolling l b) (sym (append-nil xs)) h
events-Holds json_length (e ∷ es) xs b h =
    let c = clamp_entry json_length e in
    subst (λ l. Holds pinned rolling l (events json_length es (push c b)))
      (append_assoc xs (c ∷ []) (map (clamp_entry json_length) es))
      (events-Holds json_length es (xs ++ (c ∷ [])) (push c b) (
        subst (Holds pinned rolling (xs ++ (c ∷ []))) (sym (push-pushed c b))
          (pushed-Holds pinned rolling xs c b h)))

-- The trail of a list of events.
abbrev pub trail_of : List Entry → List Line
trail_of ys =
    let rest = skip pinned ys in
    map entry (take pinned ys)
    ++ (if ltb rolling (length rest) then trail_truncated (length rest - rolling) ∷ [] else [])
    ++ map entry (last rolling rest)

-- After any events in a new buffer, draining it gives the first 50 of them clamped, then, if there
-- were more than 150 others, the number of those dropped, then the last 150 of the others, and
-- leaves the buffer empty.
pub drain-events :
    (json_length : Entry → Option ℕ) (es : List Entry)
    → drain (events json_length es empty) ≡ (trail_of (map (clamp_entry json_length) es), empty)
unfolding drain
drain-events json_length es =
    let h = events-Holds json_length es [] empty start in
    let f : ltb 0 (events json_length es empty).dropped
        ≡ ltb rolling (length (skip pinned (map (clamp_entry json_length) es))) =
      ap (ltb 0) h.counts ∙ positive _ rolling in
    rw (h.heads, h.tails, f, h.counts) refl
  where
    positive : (n m : ℕ) → ltb 0 (n - m) ≡ ltb m n
    positive n m = ground arith

    start : Holds pinned rolling [] empty
    start = record { heads = refl; tails = refl; counts = refl }
