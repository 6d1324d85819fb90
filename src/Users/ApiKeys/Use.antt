-- ===== src/Users/ApiKeys/Use.antt =====
-- contexts/user/application/CreateApiKeyUseCase.ts and ManageApiKeysUseCase.ts: creating a key and
-- presenting one, on the rows of api_keys.
use reconbanker.Common.{
  ℕ, Bool, not, List, [], ◌∷◌, Option, none, some, String, if◌then◌else◌, filter, is_empty, Result,
  ok, err, Error, validation_error, require, ◌>>◌,
}
use reconbanker.Conciliation.Fuzzy.{text_eq, trim, trim_start, trim_end}
use reconbanker.Users.{Code}
use reconbanker.Users.ApiKeys.{
  ApiKeyRow, Principal, Generated, all_api_scopes, includes, parse_api_key, find_active_by_prefix,
  touch_last_used, create_row,
}

pub record CreateCommand : Type 0 where
  pub user_id : String
  pub name : Code
  pub scopes : List String
  pub account_ids : Option (List String)

-- `cmd.accountIds && cmd.accountIds.length ? cmd.accountIds : null`
abbrev pub restriction : Option (List String) → Option (List String)
restriction none = none
restriction (some []) = none
restriction (some (a ∷ ids)) = some (a ∷ ids)

-- One attempt of the loop: the new id, the random bytes, and whether the database is down.
pub record Attempt : Type 0 where
  pub id : String
  pub generated : Generated
  pub down : Bool

abbrev pub no_attempt : Error
no_attempt = Error.other "undefined"

-- The `try` of an attempt: its rows, or the next attempts with its error.
abbrev pub first_ok :
    Attempt
    → Result (List ApiKeyRow)
    → (Error → Result (Attempt × List ApiKeyRow))
    → Result (Attempt × List ApiKeyRow)
first_ok a (err e) next = next e
first_ok a (ok rows) next = ok (a, rows)

module _ (hash_secret : Code → Code) (from_hex : Code → Code) where
  -- secretMatches: buffers of the same length with the same bytes.
  unfoldable pub secret_matches : Code → Code → Bool
  secret_matches secret stored = text_eq (from_hex (hash_secret secret)) (from_hex stored)

  abbrev pub new_row : CreateCommand → Attempt → ApiKeyRow
  new_row cmd a = record {
    id = a.id;
    user_id = cmd.user_id;
    name = trim cmd.name;
    prefix = a.generated.prefix;
    hash = hash_secret a.generated.secret;
    scopes = cmd.scopes;
    account_ids = restriction cmd.account_ids;
    last_used_at = none;
    revoked_at = none;
  }

  -- The loop over the attempts that are left: the first INSERT that goes through, with its rows.
  unfoldable pub create_loop :
      Error → CreateCommand → List Attempt → List ApiKeyRow → Result (Attempt × List ApiKeyRow)
  unfolding create_row trim_start trim_end
  create_loop last cmd [] rows = err last
  create_loop last cmd (a ∷ attempts) rows =
      first_ok a (create_row a.down (new_row cmd a) rows) (λ e. create_loop e cmd attempts rows)

  -- CreateApiKeyUseCase.execute; its three attempts are given.
  unfoldable pub create_api_key :
      CreateCommand
      → Attempt × (Attempt × Attempt)
      → List ApiKeyRow
      → Result (Attempt × List ApiKeyRow)
  unfolding create_loop trim_start trim_end
  create_api_key cmd (a, (b, c)) rows = do
    require (not (is_empty (trim cmd.name))) (validation_error "name")
    require (is_empty (filter (λ s. not (includes all_api_scopes s)) cmd.scopes))
        (validation_error "scopes")
    require (not (is_empty cmd.scopes)) (validation_error "scope")
    create_loop no_attempt cmd (a ∷ b ∷ c ∷ []) rows

  abbrev pub principal_of : ApiKeyRow → Principal
  principal_of r = record {
    key_id = r.id;
    user_id = r.user_id;
    scopes = r.scopes;
    account_ids = r.account_ids;
  }

  abbrev pub admit : Generated → Option ApiKeyRow → Option ApiKeyRow
  admit g none = none
  admit g (some r) = if secret_matches g.secret r.hash then some r else none

  abbrev pub authenticated : Option Generated → List ApiKeyRow → Option ApiKeyRow
  authenticated none rows = none
  authenticated (some g) rows = admit g (find_active_by_prefix g.prefix rows)

  abbrev pub touched :
      ℕ → Bool → Option ApiKeyRow → List ApiKeyRow → Option Principal × List ApiKeyRow
  touched now works none rows = (none, rows)
  touched now works (some r) rows =
      (some (principal_of r), if works then touch_last_used now r.id rows else rows)

  -- AuthenticateApiKeyUseCase.execute; `works` says whether the UPDATE of the last use goes through.
  unfoldable pub authenticate : ℕ → Bool → Code → List ApiKeyRow → Option Principal × List ApiKeyRow
  unfolding parse_api_key find_active_by_prefix secret_matches touch_last_used
  authenticate now works raw rows = touched now works (authenticated (parse_api_key raw) rows) rows
