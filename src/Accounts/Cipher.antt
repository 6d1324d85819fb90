-- ===== src/Accounts/Cipher.antt =====
-- shared/infrastructure/crypto/CredentialsCipher.ts: the format of a secret at rest. The bytes, base64,
-- AES-256-GCM and randomBytes are parameters; the key has its 32 bytes.
use reconbanker.Common.{
  ℕ, ◌≡◌, refl, ap, ◌∙◌, Bool, true, false, List, [], ◌∷◌, Option, none, some, String, ◌==◌,
  if◌then◌else◌, Result, ok, err, other, ◌>>=◌, arith, Bool-cases, inl, inr,
}
use Prim.Native.Char.{code}

-- `+` on strings.
unfoldable pub append : String → String → String
append String.[] t = t
append (String.◌∷◌ c s) t = String.◌∷◌ c (append s t)

-- value.startsWith(prefix), with value.slice(prefix.length)
unfoldable pub strip : String → String → Option String
strip String.[] s = some s
strip (String.◌∷◌ c p) String.[] = none
strip (String.◌∷◌ c p) (String.◌∷◌ d s) =
    let rest = strip p s in if code c == code d then rest else none

abbrev pub cons_head : String → List String → List String
cons_head c [] = c ∷ []
cons_head c (h ∷ t) = append c h ∷ t

-- value.split(':')
unfoldable pub split_colon : String → List String
unfolding append
split_colon String.[] = "" ∷ []
split_colon (String.◌∷◌ c s) =
    let rest = split_colon s in if code c == 58 then "" ∷ rest else cons_head (String.◌∷◌ c "") rest

unfoldable pub has_colon : String → Bool
has_colon String.[] = false
has_colon (String.◌∷◌ c s) = let rest = has_colon s in if code c == 58 then true else rest

abbrev pub prefix : String
prefix = "enc:v1:"

-- isEncrypted
unfoldable pub is_encrypted : String → Bool
unfolding strip
is_encrypted value = elim (strip prefix value) [ none ↦ false | some s ↦ true ]

-- [iv, authTag, ciphertext].join(':')
unfoldable pub join : String → String → String → String
unfolding append
join a b c = append a (append ":" (append b (append ":" c)))

module _ {Bytes : Type 0} (to_base64 : Bytes → String) (from_base64 : String → Bytes)
    (seal : Bytes → String → Bytes × Bytes) (unseal : Bytes → Bytes → Bytes → Option String) where
  -- encrypt: `seal` gives the tag and the ciphertext for an iv.
  unfoldable pub encrypt : Bytes → String → String
  unfolding append join
  encrypt iv plain =
      let (tag, sealed) = seal iv plain in
      append prefix (join (to_base64 iv) (to_base64 tag) (to_base64 sealed))

  -- The decipher throws on an iv or a tag that it does not take, and final() where the tag does not
  -- fit: `unseal` is then none.
  abbrev pub opened : Option String → Result String
  opened none = err (other "unable to authenticate data")
  opened (some plain) = ok plain

  -- Buffer.from(undefined) throws where a part is missing.
  unfoldable pub decrypt_parts : List String → Result String
  decrypt_parts [] = err (other "TypeError")
  decrypt_parts (iv ∷ []) = err (other "TypeError")
  decrypt_parts (iv ∷ tag ∷ []) = err (other "TypeError")
  decrypt_parts (iv ∷ tag ∷ sealed ∷ rest) =
      opened (unseal (from_base64 iv) (from_base64 tag) (from_base64 sealed))

  abbrev pub decrypt_rest : String → Option String → Result String
  decrypt_rest value none = ok value
  decrypt_rest value (some rest) = decrypt_parts (split_colon rest)

  unfoldable pub decrypt : String → Result String
  unfolding decrypt_parts strip split_colon
  decrypt value = decrypt_rest value (strip prefix value)

  unfoldable pub encrypt_nullable : Bytes → Option String → Option String
  unfolding encrypt
  encrypt_nullable iv none = none
  encrypt_nullable iv (some v) = some (encrypt iv v)

  unfoldable pub decrypt_nullable : Option String → Result (Option String)
  unfolding decrypt
  decrypt_nullable none = ok none
  decrypt_nullable (some v) = decrypt v >>= λ p. ok (some p)

same_number : (n : ℕ) → (n == n) ≡ true
same_number n = ground arith

strip-append : (p s : String) → strip p (append p s) ≡ some s
unfolding strip append
strip-append String.[] s = refl
strip-append (String.◌∷◌ c p) s = rw (same_number (code c)) (strip-append p s)

split_colon-plain : (s : String) → has_colon s ≡ false → split_colon s ≡ s ∷ []
unfolding split_colon has_colon append
split_colon-plain String.[] h = refl
split_colon-plain (String.◌∷◌ c s) h = elim (Bool-cases (code c == 58)) [
  | inl e ↦ cc (rw e at h)
  | inr e ↦ rw e (ap (cons_head (String.◌∷◌ c "")) (split_colon-plain s (rw e at h)))
]

split_colon-append :
    (s t : String) → has_colon s ≡ false → split_colon (append s (append ":" t)) ≡ s ∷ split_colon t
unfolding split_colon has_colon append
split_colon-append String.[] t h = refl
split_colon-append (String.◌∷◌ c s) t h = elim (Bool-cases (code c == 58)) [
  | inl e ↦ cc (rw e at h)
  | inr e ↦ rw e (ap (cons_head (String.◌∷◌ c "")) (split_colon-append s t (rw e at h)))
]

-- What the formats promise: base64 reads back and has no colon, and an intact ciphertext of a text
-- that UTF-8 can carry opens.
pub record IsCipher {Bytes : Type 0} (to_base64 : Bytes → String) (from_base64 : String → Bytes)
    (seal : Bytes → String → Bytes × Bytes) (unseal : Bytes → Bytes → Bytes → Option String)
    (is_well_formed : String → Bool) : Type 0 where
  pub reads_back : (b : Bytes) → from_base64 (to_base64 b) ≡ b
  pub has_none : (b : Bytes) → has_colon (to_base64 b) ≡ false
  pub opens :
      (iv : Bytes) (plain : String)
      → is_well_formed plain ≡ true
      → unseal iv (seal iv plain).0 (seal iv plain).1 ≡ some plain

module _ {Bytes : Type 0} (to_base64 : Bytes → String) (from_base64 : String → Bytes)
    (seal : Bytes → String → Bytes × Bytes) (unseal : Bytes → Bytes → Bytes → Option String)
    (is_well_formed : String → Bool)
    (cipher : IsCipher to_base64 from_base64 seal unseal is_well_formed) where
  split_colon-join :
      (a b c : Bytes)
      → split_colon (join (to_base64 a) (to_base64 b) (to_base64 c))
        ≡ to_base64 a ∷ to_base64 b ∷ to_base64 c ∷ []
  unfolding join
  split_colon-join a b c =
      split_colon-append (to_base64 a) _ (cipher.has_none a)
      ∙ ap (λ l. to_base64 a ∷ l)
          (split_colon-append (to_base64 b) (to_base64 c) (cipher.has_none b)
            ∙ ap (λ l. to_base64 b ∷ l) (split_colon-plain (to_base64 c) (cipher.has_none c)))

  decrypt_parts-sealed :
      (iv : Bytes) (plain : String)
      → is_well_formed plain ≡ true
      → decrypt_parts to_base64 from_base64 seal unseal
          (to_base64 iv ∷ to_base64 (seal iv plain).0 ∷ to_base64 (seal iv plain).1 ∷ [])
        ≡ ok plain
  unfolding decrypt_parts
  decrypt_parts-sealed iv plain h =
      rw
        (
          cipher.reads_back iv,
          cipher.reads_back (seal iv plain).0,
          cipher.reads_back (seal iv plain).1,
          cipher.opens iv plain h,
        )
        refl

  pub decrypt-encrypt :
      (iv : Bytes) (plain : String)
      → is_well_formed plain ≡ true
      → decrypt to_base64 from_base64 seal unseal
          (encrypt to_base64 from_base64 seal unseal iv plain)
        ≡ ok plain
  unfolding decrypt encrypt
  decrypt-encrypt iv plain h =
      let (tag, sealed) = seal iv plain in
      let joined = join (to_base64 iv) (to_base64 tag) (to_base64 sealed) in
      ap (decrypt_rest to_base64 from_base64 seal unseal (append prefix joined))
        (strip-append prefix joined)
      ∙ ap (decrypt_parts to_base64 from_base64 seal unseal) (split_colon-join iv tag sealed)
      ∙ decrypt_parts-sealed iv plain h
