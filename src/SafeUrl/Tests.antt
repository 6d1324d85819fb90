-- ===== src/SafeUrl/Tests.antt =====
-- A host that resolves to one public address.
use reconbanker.Common.{
  ℕ, ◌+◌, ◌-◌, ◌*◌, ◌≡◌, refl, ◌&&◌, List, [], ◌∷◌, Option, some, leb, if◌then◌else◌, false, ok,
  err, validation_error,
}
use reconbanker.Conciliation.Candidate.{Text}
use reconbanker.Banking.Trail.{units}
use reconbanker.SafeUrl.{Url, assert_safe_url, is_blocked_parts, is_private}
use reconbanker.SafeUrl.Ranges.{IsSafe, assert_safe_url-IsSafe}

abbrev decimal : ℕ → Text → ℕ
decimal acc [] = acc
decimal acc (c ∷ s) = decimal (acc * 10 + (c - b'0')) s

abbrev to_number : Text → Option ℕ
to_number s = some (decimal 0 s)

-- What starts with a digit is an IPv4 address.
abbrev is_ip : Text → ℕ
is_ip [] = 0
is_ip (c ∷ s) = if leb b'0' c && leb c b'9' then 4 else 0

abbrev same : Text → Text
same s = s

abbrev parse_url : Text → Option Url
parse_url raw = some (record { protocol = units "https:"; hostname = raw })

abbrev public_host : Text → Option (List Text)
public_host host = some (units "8.8.4.4" ∷ [])

abbrev metadata_host : Text → Option (List Text)
metadata_host host = some (units "8.8.4.4" ∷ units "169.254.169.254" ∷ [])

abbrev shop : Text
shop = units "shop.example"

abbrev shop_url : Url
shop_url = record { protocol = units "https:"; hostname = shop }

shop_is_accepted : assert_safe_url to_number is_ip same parse_url public_host shop ≡ ok shop_url
unfolding assert_safe_url units
shop_is_accepted = refl

assert_safe_url-IsSafe_example : IsSafe to_number is_ip same parse_url public_host shop shop_url
assert_safe_url-IsSafe_example =
    assert_safe_url-IsSafe to_number is_ip same parse_url public_host shop shop_url shop_is_accepted

metadata_is_refused :
    assert_safe_url to_number is_ip same parse_url metadata_host shop
    ≡ err (validation_error "private")
unfolding assert_safe_url units
metadata_is_refused = refl

-- An address for benchmarks, 198.18.0.1, passes: its block is not listed.
benchmark_passes : is_blocked_parts (some 198 ∷ some 18 ∷ some 0 ∷ some 1 ∷ []) ≡ false
unfolding is_blocked_parts is_private
benchmark_passes = refl
