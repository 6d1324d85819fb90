-- ===== src/SafeUrl/Ranges.antt =====
-- shared/net/assertSafeUrl.ts: what the check of the octets means for the address as a number.
use reconbanker.Common.{
  ℕ, ◌+◌, ◌*◌, ◌≤◌, ◌≡◌, refl, sym, subst, ◌∙◌, Bool, true, false, not, ◌&&◌, ◌||◌, List, [], ◌∷◌,
  map, Option, some, ◌==◌, ltb, leb, any, All, ok, err, Error, validation_error, require, >>=-eq-ok,
  arith, Bool-cases, Option-cases, inl, inr,
}
use reconbanker.Conciliation.Candidate.{Text}
use reconbanker.Conciliation.Fuzzy.{text_eq}
use reconbanker.Banking.Trail.{units}
use reconbanker.SafeUrl.{
  Url, is_private, is_blocked_parts, is_blocked_ipv4, is_blocked_address, split_dots, addresses_of,
  strip_open, strip_close, check_url, assert_safe_url, is_suffix,
}

-- The 32-bit number of a.b.c.d.
abbrev pub number : ℕ → ℕ → ℕ → ℕ → ℕ
number a b c d = ((a * 256 + b) * 256 + c) * 256 + d

-- A block of addresses: its first one and its size.
abbrev pub Block : Type 0
Block = ℕ × ℕ

abbrev pub is_in : ℕ → Block → Bool
is_in n (first, size) = leb first n && ltb n (first + size)

-- 0.0.0.0/8, 10.0.0.0/8, 127.0.0.0/8, 169.254.0.0/16, 172.16.0.0/12, 192.168.0.0/16, 100.64.0.0/10,
-- 224.0.0.0/3.
abbrev pub listed_blocks : List Block
listed_blocks =
    (0, 16777216)
    ∷ (10 * 16777216, 16777216)
    ∷ (127 * 16777216, 16777216)
    ∷ ((169 * 256 + 254) * 65536, 65536)
    ∷ ((172 * 256 + 16) * 65536, 16 * 65536)
    ∷ ((192 * 256 + 168) * 65536, 65536)
    ∷ ((100 * 256 + 64) * 65536, 64 * 65536)
    ∷ (224 * 16777216, 32 * 16777216)
    ∷ []

or_false : (b : Bool) → (b || false) ≡ b
or_false true = refl
or_false false = refl

module _ (a b c d : ℕ) (ha : a ≤ 255) (hb : b ≤ 255) (hc : c ≤ 255) (hd : d ≤ 255) where
  eight_bits : (x : ℕ) → is_in (number a b c d) (x * 16777216, 16777216) ≡ (a == x)
  eight_bits x = ground arith

  sixteen_bits :
      (x y : ℕ)
      → y ≤ 255
      → is_in (number a b c d) ((x * 256 + y) * 65536, 65536) ≡ (a == x && b == y)
  sixteen_bits x y h = ground arith

  some_bits :
      (x y n : ℕ)
      → y + n ≤ 255
      → is_in (number a b c d) ((x * 256 + y) * 65536, (n + 1) * 65536)
        ≡ (a == x && (leb y b && leb b (y + n)))
  some_bits x y n h = ground arith

  top_bits : is_in (number a b c d) (224 * 16777216, 32 * 16777216) ≡ leb 224 a
  top_bits = ground arith

  -- The tests of the octets are membership in the listed blocks.
  private-listed : is_private a b ≡ any (is_in (number a b c d)) listed_blocks
  unfolding is_private
  private-listed = cc (
    eight_bits 0,
    eight_bits 10,
    eight_bits 127,
    sixteen_bits 169 254 (omega arith),
    some_bits 172 16 15 (omega arith),
    sixteen_bits 192 168 (omega arith),
    some_bits 100 64 63 (omega arith),
    top_bits,
    or_false (leb 224 a),
  )

-- An address of four octets.
abbrev pub quad : ℕ → ℕ → ℕ → ℕ → List (Option ℕ)
quad a b c d = some a ∷ some b ∷ some c ∷ some d ∷ []

-- The octets of an address that passes are in range and outside of the blocks.
parts-outside :
    (a b c d : ℕ)
    → is_blocked_parts (quad a b c d) ≡ false
    → any (is_in (number a b c d)) listed_blocks ≡ false
unfolding is_blocked_parts
parts-outside a b c d h = elim (Bool-cases (leb a 255 && (leb b 255 && (leb c 255 && leb d 255)))) [
  | inl e ↦
      sym (
        private-listed a b c d (ground (arith, e)) (ground (arith, e)) (ground (arith, e))
          (ground (arith, e)))
      ∙ (rw e at h)
  | inr e ↦ let t : true ≡ false = (rw e at h) in cc
]

module _ (to_number : Text → Option ℕ) (is_ip : Text → ℕ) (lower_case : Text → Text)
    (parse_url : Text → Option Url) (lookup : Text → Option (List Text)) where
  -- An IPv4 address outside of the listed blocks.
  abbrev pub IsOutside : Text → Type 0
  IsOutside address =
      (a b c d : ℕ)
      → is_ip address ≡ 4
      → map to_number (split_dots address) ≡ quad a b c d
      → any (is_in (number a b c d)) listed_blocks ≡ false

  address-IsOutside :
      (address : Text)
      → is_blocked_address to_number is_ip lower_case address ≡ false
      → IsOutside address
  unfolding is_blocked_address is_blocked_ipv4
  address-IsOutside address h a b c d four parts =
      let v4 : (is_ip address == 4) ≡ true = ground arith in
      parts-outside a b c d (subst (λ l. is_blocked_parts l ≡ false) parts (rw v4 at h))

  addresses-IsOutside :
      (l : List Text)
      → any (is_blocked_address to_number is_ip lower_case) l ≡ false
      → All IsOutside l
  addresses-IsOutside [] h = tt
  addresses-IsOutside (x ∷ l) h =
      (address-IsOutside x (ground arith), addresses-IsOutside l (ground arith))

  -- What a URL that is accepted shows.
  pub record IsSafe (raw : Text) (url : Url) : Type 0 where
    pub parsed : parse_url raw ≡ some url
    pub scheme :
        (text_eq url.protocol (units "http:") || text_eq url.protocol (units "https:")) ≡ true
    pub addresses : List Text
    pub resolved :
        addresses_of to_number is_ip lower_case parse_url lookup
          (strip_close (strip_open url.hostname))
        ≡ ok addresses
    pub all_outside : All IsOutside addresses

  require-true : (b : Bool) (e : Error) (x : Unit {0}) → require b e ≡ ok x → b ≡ true
  require-true true e x h = refl
  require-true false e x h = cc

  check_url-IsSafe :
      (raw : Text) (url u : Url)
      → parse_url raw ≡ some u
      → check_url to_number is_ip lower_case parse_url lookup u ≡ ok url
      → IsSafe raw url
  unfolding check_url
  check_url-IsSafe raw url u parsed h =
      let web = text_eq u.protocol (units "http:") || text_eq u.protocol (units "https:") in
      let host = strip_close (strip_open u.hostname) in
      let name = lower_case host in
      let outside = not (text_eq name (units "localhost") || is_suffix (units ".localhost") name) in
      let blocked = is_blocked_address to_number is_ip lower_case in
      let (_, scheme, h1) = >>=-eq-ok (require web _) _ h in
      let (_, _, h2) = >>=-eq-ok (require outside _) _ h1 in
      let (l, found, h3) =
        >>=-eq-ok (addresses_of to_number is_ip lower_case parse_url lookup host) _ h2 in
      let (x, open_to_all, h4) = >>=-eq-ok (require (not (any blocked l)) _) _ h3 in
      let same : u ≡ url = cc h4 in
      subst (IsSafe raw) same (record {
        parsed = parsed;
        scheme = require-true web _ _ scheme;
        addresses = l;
        resolved = found;
        all_outside = addresses-IsOutside l (ground (arith, require-true _ _ x open_to_all));
      })

  -- A URL that is accepted has the scheme http or https, and every address that its host is or
  -- resolves to, where it is an IPv4 address, lies outside of 0.0.0.0/8, 10.0.0.0/8, 127.0.0.0/8,
  -- 169.254.0.0/16, 172.16.0.0/12, 192.168.0.0/16, 100.64.0.0/10 and 224.0.0.0/3. Other blocks that
  -- are not public are not among these.
  pub assert_safe_url-IsSafe :
      (raw : Text) (url : Url)
      → assert_safe_url to_number is_ip lower_case parse_url lookup raw ≡ ok url
      → IsSafe raw url
  unfolding assert_safe_url
  assert_safe_url-IsSafe raw url h = elim (Option-cases (parse_url raw)) [
    | inl e ↦ let k : err (validation_error "url") ≡ ok url = (rw e at h) in cc
    | inr (u, e) ↦ check_url-IsSafe raw url u e (rw e at h)
  ]
