-- ===== src/Users/ApiKeys/Wire.antt =====
-- contexts/user/infrastructure/apiKeyCrypto.ts: the wire format of a key.
use reconbanker.Common.{
  ℕ, zero, suc, ◌≡◌, refl, ap, sym, subst, ◌∙◌, ◌↔◌, true, false, List, [], ◌∷◌, ◌++◌, Option, none,
  some, ◌==◌, All, length, arith, Bool-cases, inl, inr, append-nil,
}
use reconbanker.Conciliation.Fuzzy.{is_space, trim, trim_start, trim_end}
use reconbanker.Users.{Code}
use reconbanker.Users.ApiKeys.{
  Generated, is_hex, cons_first, take_hex, then_take, generated_of, after_prefix, take_tag,
  parse_api_key, plaintext,
}

abbrev pub Hex : Code → Type 0
Hex s = All (λ c. is_hex c ≡ true) s

-- What randomBytes(4) and randomBytes(32) give in hex.
pub record IsKey (g : Generated) : Type 0 where
  pub prefix_length : length g.prefix ≡ 8
  pub prefix_hex : Hex g.prefix
  pub secret_length : length g.secret ≡ 64
  pub secret_hex : Hex g.secret

take_hex-append :
    (n : ℕ) (s rest : Code) → length s ≡ n → Hex s → take_hex n (s ++ rest) ≡ some (s, rest)
unfolding take_hex
take_hex-append zero [] rest e h = refl
take_hex-append zero (c ∷ s) rest e h = absurd (omega arith)
take_hex-append (suc n) [] rest e h = absurd (omega arith)
take_hex-append (suc n) (c ∷ s) rest e h = rw (h.0, take_hex-append n s rest (omega arith) h.1) refl

-- Hex digits that were taken, and what follows them.
abbrev pub Took : ℕ → Code → Option (Code × Code) → Type 0
Took n s none = Unit
Took n s (some (p, rest)) = (s ≡ p ++ rest) × (length p ≡ n) × Hex p

Took-cons :
    (n c : ℕ) (s : Code) (o : Option (Code × Code))
    → is_hex c ≡ true
    → Took n s o
    → Took (suc n) (c ∷ s) (cons_first c o)
Took-cons n c s none e h = tt
Took-cons n c s (some (p, rest)) e h = (ap (λ l. c ∷ l) h.0, ap suc h.1, (e, h.2))

take_hex-Took : (n : ℕ) (s : Code) → Took n s (take_hex n s)
unfolding take_hex
take_hex-Took zero s = (refl, refl, tt)
take_hex-Took (suc n) [] = tt
take_hex-Took (suc n) (c ∷ s) = elim (Bool-cases (is_hex c)) [
  | inl e ↦ rw e (Took-cons n c s (take_hex n s) e (take_hex-Took n s))
  | inr e ↦ rw e tt
]

hex-not-space : (c : ℕ) → is_hex c ≡ true → is_space c ≡ false
unfolding is_hex is_space
hex-not-space c h = ground arith

trim_end-solid : (s : Code) → All (λ c. is_space c ≡ false) s → trim_end s ≡ s
unfolding trim_end
trim_end-solid [] h = refl
trim_end-solid (c ∷ s) h = rw (h.0, trim_end-solid s h.1) refl

Hex-solid : (s : Code) → Hex s → All (λ c. is_space c ≡ false) s
Hex-solid [] h = tt
Hex-solid (c ∷ s) h = (hex-not-space c h.0, Hex-solid s h.1)

pub All-append {κ} :
    {A : Type 0} (P : A → Type κ) (s t : List A) → All P s → All P t → All P (s ++ t)
All-append P [] t h k = k
All-append P (x ∷ s) t h k = (h.0, All-append P s t h.1 k)

plaintext-trim : (g : Generated) → IsKey g → trim (plaintext g) ≡ plaintext g
unfolding plaintext trim_start is_space
plaintext-trim g k = trim_end-solid (plaintext g) (
  refl,
  (
    refl,
    (
      refl,
      (
        refl,
        All-append (λ c. is_space c ≡ false) g.prefix (b'_' ∷ g.secret)
            (Hex-solid g.prefix k.prefix_hex) (refl, Hex-solid g.secret k.secret_hex),
      ),
    ),
  ),
)

take_hex-all : (n : ℕ) (s : Code) → length s ≡ n → Hex s → take_hex n s ≡ some (s, [])
take_hex-all n s e h = ap (take_hex n) (sym (append-nil s)) ∙ take_hex-append n s [] e h

read_plaintext :
    (g : Generated)
    → IsKey g
    → after_prefix (then_take (take_tag (plaintext g)) (take_hex 8)) ≡ some g
unfolding plaintext
read_plaintext g k =
    rw
      (
        take_hex-append 8 g.prefix (b'_' ∷ g.secret) k.prefix_length k.prefix_hex,
        take_hex-all 64 g.secret k.secret_length k.secret_hex,
      )
      refl

-- A key that was generated is read back as its prefix and its secret.
pub parse-plaintext : (g : Generated) → IsKey g → parse_api_key (plaintext g) ≡ some g
unfolding parse_api_key
parse-plaintext g k = rw (plaintext-trim g k) (read_plaintext g k)

take_tag-eq : (t s : Code) → take_tag t ≡ some s → t ≡ b'r' ∷ b'b' ∷ b'k' ∷ b'_' ∷ s
take_tag-eq [] s h = cc
take_tag-eq (a ∷ []) s h = cc
take_tag-eq (a ∷ b ∷ []) s h = cc
take_tag-eq (a ∷ b ∷ c ∷ []) s h = cc
take_tag-eq (a ∷ b ∷ c ∷ d ∷ t) s h = ground arith

-- What a text that was read is.
abbrev Reads : Code → Option Generated → Type 0
Reads t none = Unit
Reads t (some g) = (t ≡ g.prefix ++ (b'_' ∷ g.secret)) × IsKey g

generated-Reads :
    (prefix rest : Code) (o : Option (Code × Code))
    → length prefix ≡ 8
    → Hex prefix
    → Took 64 rest o
    → Reads (prefix ++ (b'_' ∷ rest)) (generated_of o prefix)
generated-Reads prefix rest none e h k = tt
generated-Reads prefix rest (some (secret, c ∷ r)) e h k = tt
generated-Reads prefix rest (some (secret, [])) e h k = (
  ap (λ l. prefix ++ (b'_' ∷ l)) (k.0 ∙ append-nil secret),
  record { prefix_length = e; prefix_hex = h; secret_length = k.1; secret_hex = k.2 },
)

after_prefix-Reads : (t : Code) (o : Option (Code × Code)) → Took 8 t o → Reads t (after_prefix o)
after_prefix-Reads t none h = tt
after_prefix-Reads t (some (prefix, [])) h = tt
after_prefix-Reads t (some (prefix, c ∷ rest)) h = elim (Bool-cases (b'_' == c)) [
  | inl e ↦
      let under : b'_' ≡ c = ground arith in
      rw (e, h.0, ← under)
        (generated-Reads prefix rest (take_hex 64 rest) h.1 h.2 (take_hex-Took 64 rest))
  | inr e ↦ rw e tt
]

tagged-Reads :
    (t : Code) (o : Option Code) (g : Generated)
    → take_tag t ≡ o
    → after_prefix (then_take o (take_hex 8)) ≡ some g
    → (t ≡ plaintext g) × IsKey g
unfolding plaintext
tagged-Reads t none g e h = cc
tagged-Reads t (some s) g e h =
    let r = subst (Reads s) h (after_prefix-Reads s (take_hex 8 s) (take_hex-Took 8 s)) in
    (take_tag-eq t s e ∙ ap (λ l. b'r' ∷ b'b' ∷ b'k' ∷ b'_' ∷ l) (r.0), r.1)

-- A text is read as a prefix and a secret exactly when, trimmed, it is the plaintext of a key with
-- 8 and 64 hex digits.
pub parse_api_key_lem :
    (raw : Code) (g : Generated)
    → (parse_api_key raw ≡ some g) ↔ ((trim raw ≡ plaintext g) × IsKey g)
unfolding parse_api_key
parse_api_key_lem raw g = (
  (λ h. tagged-Reads (trim raw) (take_tag (trim raw)) g refl h),
  (λ h. rw h.0 (read_plaintext g h.1)),
)
