-- ===== src/SafeUrl.antt =====
-- shared/net/assertSafeUrl.ts: the check of a URL that an operator gives. The URL parser, isIP, the
-- DNS lookup, toLowerCase and Number are parameters: a Number is nothing where it is NaN, and the
-- numbers that are compared are whole and not negative.
pub mod Ranges
mod Tests
use reconbanker.Common.{
  ℕ, zero, suc, ◌+◌, ◌-◌, ◌*◌, ◌/◌, ◌%◌, Bool, true, false, not, ◌&&◌, ◌||◌, List, [], ◌∷◌, ◌++◌,
  map, Option, none, some, String, ◌==◌, ltb, leb, if◌then◌else◌, any, is_empty, length, Result, ok,
  err, Error, validation_error, require, ◌>>=◌, ◌>>◌,
}
use reconbanker.Conciliation.Candidate.{Text}
use reconbanker.Conciliation.Fuzzy.{text_eq}
use reconbanker.Banking.Trail.{units}
use reconbanker.Users.ApiKeys.{is_hex}

-- What `new URL(raw)` gives.
pub record Url : Type 0 where
  pub protocol : Text
  pub hostname : Text

-- A part of an address: a number from 0 to 255.
abbrev pub is_octet : Option ℕ → Bool
is_octet none = false
is_octet (some n) = leb n 255

-- The ranges that a test of the first two octets blocks.
unfoldable pub is_private : ℕ → ℕ → Bool
is_private a b =
    a == 0
    || (a == 10
        || (a == 127
            || ((a == 169 && b == 254)
                || ((a == 172 && (leb 16 b && leb b 31))
                    || ((a == 192 && b == 168)
                        || ((a == 100 && (leb 64 b && leb b 127)) || leb 224 a))))))

unfoldable pub is_blocked_parts : List (Option ℕ) → Bool
unfolding is_private
is_blocked_parts (some a ∷ some b ∷ some c ∷ some d ∷ []) =
    if leb a 255 && (leb b 255 && (leb c 255 && leb d 255)) then is_private a b else true
is_blocked_parts _ = true

abbrev pub cons_part : ℕ → List Text → List Text
cons_part c [] = (c ∷ []) ∷ []
cons_part c (s ∷ parts) = (c ∷ s) ∷ parts

-- address.split('.')
unfoldable pub split_dots : Text → List Text
split_dots [] = [] ∷ []
split_dots (c ∷ s) = let rest = split_dots s in if c == b'.' then [] ∷ rest else cons_part c rest

-- s.startsWith(prefix), and what follows the prefix.
unfoldable pub after : Text → Text → Option Text
after [] s = some s
after (c ∷ prefix) [] = none
after (c ∷ prefix) (d ∷ s) = let rest = after prefix s in if c == d then rest else none

abbrev pub is_some : Option Text → Bool
is_some none = false
is_some (some s) = true

unfoldable pub starts_with : Text → Text → Bool
unfolding after
starts_with prefix s = is_some (after prefix s)

-- \d+
abbrev pub is_digits : Text → Bool
is_digits s = not (is_empty s) && not (any (λ c. not (leb b'0' c && leb c b'9')) s)

-- \d+\.\d+\.\d+\.\d+
abbrev pub is_dotted : List Text → Bool
is_dotted (a ∷ b ∷ c ∷ d ∷ []) = is_digits a && (is_digits b && (is_digits c && is_digits d))
is_dotted _ = false

-- One to four hex digits.
abbrev pub is_group : Text → Bool
is_group s = not (is_empty s) && (leb (length s) 4 && not (any (λ c. not (is_hex c)) s))

abbrev pub hex_value : ℕ → ℕ
hex_value c = if leb c b'9' then c - b'0' else (c - b'a') + 10

-- parseInt(s, 16)
unfoldable pub parse_hex : ℕ → Text → ℕ
parse_hex acc [] = acc
parse_hex acc (c ∷ s) = parse_hex (acc * 16 + hex_value c) s

-- The text before the first colon and the text after it.
unfoldable pub split_colon : Text → Option (Text × Text)
split_colon [] = none
split_colon (c ∷ s) =
    let rest = split_colon s in
    if c == b':' then some ([], s) else elim rest [ none ↦ none | some (a, b) ↦ some (c ∷ a, b) ]

abbrev pub hex_pair : Option (Text × Text) → Option (ℕ × ℕ)
hex_pair none = none
hex_pair (some (a, b)) =
    if is_group a && is_group b then some (parse_hex 0 a, parse_hex 0 b) else none

abbrev pub mapped_prefix : Text
mapped_prefix = b':' ∷ b':' ∷ b'f' ∷ b'f' ∷ b'f' ∷ b'f' ∷ b':' ∷ []

abbrev pub mapped_hex : Option Text → Option (ℕ × ℕ)
mapped_hex none = none
mapped_hex (some s) = hex_pair (split_colon s)

-- The octets that the hex form of a mapped address stands for.
abbrev pub octets : ℕ × ℕ → List (Option ℕ)
octets (hi, lo) =
    some ((hi / 256) % 256) ∷ some (hi % 256) ∷ some ((lo / 256) % 256) ∷ some (lo % 256) ∷ []

-- hostname.replace(/^\[|\]$/g, '')
unfoldable pub strip_open : Text → Text
strip_open [] = []
strip_open (c ∷ s) = if c == b'[' then s else c ∷ s

unfoldable pub strip_close : Text → Text
strip_close [] = []
strip_close (c ∷ s) = let rest = strip_close s in if c == b']' && is_empty s then [] else c ∷ rest

abbrev pub is_suffix : Text → Text → Bool
is_suffix suffix [] = text_eq [] suffix
is_suffix suffix (c ∷ s) = let rest = is_suffix suffix s in text_eq (c ∷ s) suffix || rest

abbrev pub resolved : Option (List Text) → Result (List Text)
resolved none = err (validation_error "host could not be resolved")
resolved (some addresses) = ok addresses

module _ (to_number : Text → Option ℕ) (is_ip : Text → ℕ) (lower_case : Text → Text) where
  unfoldable pub is_blocked_ipv4 : Text → Bool
  unfolding is_blocked_parts split_dots
  is_blocked_ipv4 address = is_blocked_parts (map to_number (split_dots address))

  abbrev pub blocked_dotted : Option Text → Option Bool
  blocked_dotted none = none
  blocked_dotted (some s) = if is_dotted (split_dots s) then some (is_blocked_ipv4 s) else none

  abbrev pub blocked_hex : Option (ℕ × ℕ) → Option Bool
  blocked_hex none = none
  blocked_hex (some p) = some (is_blocked_parts (octets p))

  -- The tests of an address that is not a mapped one.
  unfoldable pub is_blocked_plain : Text → Bool
  unfolding units starts_with
  is_blocked_plain addr =
      text_eq addr (units "::1")
      || text_eq addr (units "::")
      || starts_with (units "fe80") addr
      || starts_with (units "fc") addr
      || starts_with (units "fd") addr
      || starts_with (units "ff") addr

  abbrev pub first_verdict : Option Bool → Bool → Bool
  first_verdict none b = b
  first_verdict (some v) b = v

  unfoldable pub is_blocked_ipv6 : Text → Bool
  unfolding is_blocked_ipv4 is_blocked_plain after parse_hex split_colon is_hex
  is_blocked_ipv6 address =
      let addr = lower_case address in
      let rest = after mapped_prefix addr in
      first_verdict (blocked_dotted rest)
        (first_verdict (blocked_hex (mapped_hex rest)) (is_blocked_plain addr))

  unfoldable pub is_blocked_address : Text → Bool
  unfolding is_blocked_ipv4 is_blocked_ipv6
  is_blocked_address address =
      if is_ip address == 4
      then is_blocked_ipv4 address
      else if is_ip address == 6
      then is_blocked_ipv6 address
      else true

  -- What `lookup` gives: the addresses, or nothing where it throws.
  module _ (parse_url : Text → Option Url) (lookup : Text → Option (List Text)) where
    unfoldable pub addresses_of : Text → Result (List Text)
    addresses_of hostname =
        if not (is_ip hostname == 0) then ok (hostname ∷ []) else resolved (lookup hostname)

    unfoldable pub check_url : Url → Result Url
    unfolding strip_open strip_close addresses_of is_blocked_address units
    check_url url = do
      require (text_eq url.protocol (units "http:") || text_eq url.protocol (units "https:"))
          (validation_error "protocol")
      let hostname = strip_close (strip_open url.hostname)
      let name = lower_case hostname
      require (not (text_eq name (units "localhost") || is_suffix (units ".localhost") name))
          (validation_error "localhost")
      addresses ← addresses_of hostname
      require (not (any is_blocked_address addresses)) (validation_error "private")
      ok url

    abbrev pub checked : Option Url → Result Url
    checked none = err (validation_error "url")
    checked (some url) = check_url url

    -- assertSafeUrl
    unfoldable pub assert_safe_url : Text → Result Url
    unfolding check_url
    assert_safe_url raw = checked (parse_url raw)
