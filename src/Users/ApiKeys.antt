-- ===== src/Users/ApiKeys.antt =====
-- contexts/user: the keys of the /v1 API (domain/ApiKey.ts, infrastructure/apiKeyCrypto.ts,
-- infrastructure/ApiKeyRepository.ts, application/CreateApiKeyUseCase.ts and
-- ManageApiKeysUseCase.ts) with api/middlewares/apiKey.middleware.ts. The digest, Buffer.from, the
-- random bytes and the TOTP library are parameters.
pub mod Wire
pub mod Use
pub mod Issue
pub mod Revoked
pub mod Guard
mod Tests
use reconbanker.Common.{
  ℕ, zero, suc, Bool, true, false, not, ◌&&◌, ◌||◌, List, [], ◌∷◌, ◌++◌, map, Option, none, some,
  String, ◌=s◌, ◌==◌, leb, if◌then◌else◌, filter, any, find, is_empty, Result, ok, err, Error,
  validation_error, not_found_error, unauthorized_error, unique_violation, require, ◌>>=◌, ◌>>◌,
}
use reconbanker.Conciliation.Fuzzy.{text_eq, trim, trim_start, trim_end}
use reconbanker.Users.{Code, User, Verdict, find_user, save_user, record_step?}

-- A row of api_keys.
pub record ApiKeyRow : Type 0 where
  pub id : String
  pub user_id : String
  pub name : Code
  pub prefix : Code
  pub hash : Code
  pub scopes : List String
  pub account_ids : Option (List String)
  pub last_used_at : Option ℕ
  pub revoked_at : Option ℕ

-- ApiKeyPrincipal
pub record Principal : Type 0 where
  pub key_id : String
  pub user_id : String
  pub scopes : List String
  pub account_ids : Option (List String)

-- What randomBytes gives a new key: its prefix and its secret in hex.
pub record Generated : Type 0 where
  pub prefix : Code
  pub secret : Code

abbrev pub all_api_scopes : List String
all_api_scopes = "otp:write" ∷ "status:read" ∷ []

abbrev pub includes : List String → String → Bool
includes xs x = any (λ y. y =s x) xs

-- hasScope
unfoldable pub has_scope : Principal → String → Bool
has_scope p scope = includes p.scopes scope

abbrev pub allows : Option (List String) → String → Bool
allows none account = true
allows (some ids) account = includes ids account

-- allowsAccount
unfoldable pub allows_account : Principal → String → Bool
allows_account p account = allows p.account_ids account

abbrev pub account_allowed : Principal → Option String → Bool
account_allowed p none = true
account_allowed p (some account) = (account =s "") || allows_account p account

-- requireScope: the request goes on.
unfoldable pub require_scope : String → Option Principal → Option String → Bool
unfolding has_scope allows_account
require_scope scope none account = false
require_scope scope (some p) account = has_scope p scope && account_allowed p account

-- [0-9a-f]
unfoldable pub is_hex : ℕ → Bool
is_hex c = (leb b'0' c && leb c b'9') || (leb b'a' c && leb c b'f')

abbrev pub cons_first : ℕ → Option (Code × Code) → Option (Code × Code)
cons_first c none = none
cons_first c (some (s, rest)) = some (c ∷ s, rest)

-- [0-9a-f]{n} and what follows it.
unfoldable pub take_hex : ℕ → Code → Option (Code × Code)
unfolding is_hex
take_hex zero s = some ([], s)
take_hex (suc n) [] = none
take_hex (suc n) (c ∷ s) = let rest = take_hex n s in if is_hex c then cons_first c rest else none

-- One literal character and what follows it.
abbrev pub take_char : ℕ → Code → Option Code
take_char c [] = none
take_char c (d ∷ s) = if c == d then some s else none

abbrev pub then_take : Option Code → (Code → Option (Code × Code)) → Option (Code × Code)
then_take none next = none
then_take (some s) next = next s

abbrev pub generated_of : Option (Code × Code) → Code → Option Generated
generated_of none prefix = none
generated_of (some (secret, [])) prefix = some (record { prefix = prefix; secret = secret })
generated_of (some (secret, c ∷ rest)) prefix = none

abbrev pub after_prefix : Option (Code × Code) → Option Generated
after_prefix none = none
after_prefix (some (prefix, rest)) =
    generated_of (then_take (take_char b'_' rest) (take_hex 64)) prefix

abbrev pub take_tag : Code → Option Code
take_tag (a ∷ b ∷ c ∷ d ∷ s) =
    if (a == b'r') && ((b == b'b') && ((c == b'k') && (d == b'_'))) then some s else none
take_tag _ = none

-- KEY_RE.exec(raw.trim())
unfoldable pub parse_api_key : Code → Option Generated
unfolding take_hex trim_start trim_end
parse_api_key raw = after_prefix (then_take (take_tag (trim raw)) (take_hex 8))

-- `rbk_${prefix}_${secret}`
unfoldable pub plaintext : Generated → Code
plaintext g = b'r' ∷ b'b' ∷ b'k' ∷ b'_' ∷ (g.prefix ++ (b'_' ∷ g.secret))

-- `SELECT … WHERE prefix = $1 AND revoked_at IS NULL`
abbrev pub is_active : Option ℕ → Bool
is_active none = true
is_active (some t) = false

unfoldable pub find_active_by_prefix : Code → List ApiKeyRow → Option ApiKeyRow
find_active_by_prefix prefix rows =
    find (λ r. text_eq r.prefix prefix && is_active r.revoked_at) rows

-- The rows after the UPDATE, and whether it changed one.
unfoldable pub revoke : ℕ → String → String → List ApiKeyRow → List ApiKeyRow × Bool
revoke now id user rows = (
  map
      (λ r.
        if (r.id =s id) && ((r.user_id =s user) && is_active r.revoked_at)
        then record r { revoked_at = some now }
        else r)
      rows,
  any (λ r. (r.id =s id) && ((r.user_id =s user) && is_active r.revoked_at)) rows,
)

unfoldable pub touch_last_used : ℕ → String → List ApiKeyRow → List ApiKeyRow
touch_last_used now id rows =
    map (λ r. if r.id =s id then record r { last_used_at = some now } else r) rows

-- The INSERT, under the unique index on prefixes; a database that is down throws otherwise.
unfoldable pub create_row : Bool → ApiKeyRow → List ApiKeyRow → Result (List ApiKeyRow)
create_row down row rows =
    if down
    then err (Error.other "database")
    else if any (λ r. text_eq r.prefix row.prefix) rows
    then err (unique_violation "uq_api_keys_prefix")
    else ok (rows ++ (row ∷ []))
