-- ===== src/Users.antt =====
-- contexts/user: the second factor (domain/User.ts, application/verifyTwoFactorCode.ts,
-- application/backupCodes.ts, the TOTP use cases, infrastructure/BackupCodeRepository.ts). The TOTP
-- library, the password hasher and toUpperCase are parameters.
pub mod Steps
pub mod Replay
pub mod ApiKeys
mod Tests
use reconbanker.Common.{
  ℕ, Bool, true, false, not, ◌&&◌, ◌||◌, List, [], ◌∷◌, ◌++◌, map, Option, none, some, String, leb,
  ◌=s◌, if◌then◌else◌, filter, any, find, is_empty, Result, ok, err, Error, unauthorized_error,
  not_found_error, conflict_error, validation_error, require, ◌>>=◌, ◌>>◌,
}
use reconbanker.Conciliation.Fuzzy.{trim, trim_start, trim_end}

-- A code as the user typed it: its UTF-16 code units.
abbrev pub Code : Type 0
Code = List ℕ

pub record User : Type 0 where
  pub id : String
  pub email : String
  pub name : Option String
  pub password_hash : String
  pub is_active : Bool
  pub totp_secret : Option String
  pub totp_enabled : Bool
  pub totp_confirmed_at : Option ℕ
  pub totp_last_step : Option ℕ

-- A row of user_backup_codes.
pub record CodeRow : Type 0 where
  pub id : String
  pub user_id : String
  pub code_hash : String
  pub is_used : Bool

pub record Db : Type 0 where
  pub users : List User
  pub codes : List CodeRow

-- `if (user.totpSecret)`: an empty secret counts as none.
abbrev pub is_secret : Option String → Bool
is_secret none = false
is_secret (some s) = not (s =s "")

unfoldable pub record_totp_step : ℕ → User → User
record_totp_step step u = record u { totp_last_step = some step }

unfoldable pub confirm_totp : ℕ → User → Result User
confirm_totp now u = do
  require (is_secret u.totp_secret) (validation_error "totp")
  ok (record u { totp_enabled = true; totp_confirmed_at = some now })

unfoldable pub disable_totp : User → User
disable_totp u = record u {
  totp_secret = none;
  totp_enabled = false;
  totp_confirmed_at = none;
  totp_last_step = none;
}

unfoldable pub find_user : String → List User → Option User
find_user id users = find (λ u. u.id =s id) users

-- The UPDATE of UserRepository.save; a user that was found has a row.
unfoldable pub save_user : User → List User → List User
save_user u users = map (λ x. if x.id =s u.id then u else x) users

unfoldable pub list_active : String → List CodeRow → List CodeRow
list_active user rows = filter (λ c. (c.user_id =s user) && not c.is_used) rows

-- The rows after the UPDATE, and whether it changed one.
unfoldable pub mark_used : String → List CodeRow → List CodeRow × Bool
mark_used id rows = (
  map (λ c. if (c.id =s id) && not c.is_used then record c { is_used = true } else c) rows,
  any (λ c. (c.id =s id) && not c.is_used) rows,
)

unfoldable pub delete_for_user : String → List CodeRow → List CodeRow
delete_for_user user rows = filter (λ c. not (c.user_id =s user)) rows

-- TotpVerifyResult
pub record Verdict : Type 0 where
  pub valid : Bool
  pub time_step : Option ℕ

-- What the user proved: nothing, a TOTP code of a step, or the backup code with this id.
pub data Factor : Type 0 where
  refused : Factor
  by_step : Option ℕ → Factor
  by_backup : String → Factor

abbrev pub is_accepted : Factor → Bool
is_accepted refused = false
is_accepted _ = true

abbrev pub record_step? : Option ℕ → User → User
record_step? none u = u
record_step? (some step) u = record_totp_step step u

-- The decoded challenge token.
pub record Challenge : Type 0 where
  pub sub : String
  pub scope : Option String

abbrev pub is_pending : Option String → Bool
is_pending none = false
is_pending (some s) = s =s "2fa_pending"

-- One call of the second step of a login: the clock, what the token decodes to, the code.
pub record Attempt : Type 0 where
  pub now : ℕ
  pub payload : Option Challenge
  pub code : Code

-- The user that the token is for.
abbrev pub subject : Option Challenge → String
subject none = ""
subject (some p) = p.sub

module _ (totp_verify : ℕ → String → Code → Option ℕ → Verdict)
    (hash_matches : Code → String → Bool) (upper_case : Code → Code) where
  -- normalizeBackupCode
  unfoldable pub normalize_backup_code : Code → Code
  unfolding trim_start trim_end
  normalize_backup_code code =
      filter (λ c. (leb b'A' c && leb c b'Z') || (leb b'0' c && leb c b'9'))
        (upper_case (trim code))

  -- The loop over the active codes: the last that matches.
  unfoldable pub match_code : Code → List CodeRow → Option String → Option String
  match_code code [] found = found
  match_code code (c ∷ rows) found =
      match_code code rows (if hash_matches code c.code_hash then some c.id else found)

  abbrev pub use_code : Option String → List CodeRow → Factor × List CodeRow
  use_code none rows = (refused, rows)
  use_code (some id) rows =
      let (rows', was_unused) = mark_used id rows in
      (if was_unused then by_backup id else refused, rows')

  unfoldable pub verify_backup : User → Code → List CodeRow → Factor × List CodeRow
  unfolding normalize_backup_code match_code list_active mark_used
  verify_backup u trimmed rows =
      let normalized = normalize_backup_code trimmed in
      if is_empty normalized
      then (refused, rows)
      else use_code (match_code normalized (list_active u.id rows) none) rows

  abbrev pub totp_of : ℕ → User → Code → Option String → Verdict
  totp_of now u trimmed none = record { valid = false; time_step = none }
  totp_of now u trimmed (some secret) =
      if secret =s ""
      then record { valid = false; time_step = none }
      else totp_verify now secret trimmed u.totp_last_step

  -- verifyTwoFactorCode: what was proved, the user with the step recorded, and the codes.
  unfoldable pub verify_two_factor_code :
      ℕ → User → Code → List CodeRow → Factor × (User × List CodeRow)
  unfolding verify_backup record_totp_step trim_start trim_end
  verify_two_factor_code now u code rows =
      let v = totp_of now u (trim code) u.totp_secret in
      if v.valid
      then (by_step v.time_step, (record_step? v.time_step u, rows))
      else let (f, rows') = verify_backup u (trim code) rows in (f, (u, rows'))

  unfoldable pub verify_found : ℕ → Code → Db → Option User → Factor × Db
  unfolding verify_two_factor_code save_user
  verify_found now code db none = (refused, db)
  verify_found now code db (some u) =
      let (f, (u', codes)) = verify_two_factor_code now u code db.codes in
      if u.totp_enabled
      then (
        f,
        if is_accepted f
            then record { users = save_user u' db.users; codes = codes }
            else record db { codes = codes },
      )
      else (refused, db)

  abbrev pub verify_challenge : ℕ → Code → Db → Option Challenge → Factor × Db
  verify_challenge now code db none = (refused, db)
  verify_challenge now code db (some p) =
      if is_pending p.scope
      then verify_found now code db (find_user p.sub db.users)
      else (refused, db)

  -- VerifyTotpLoginUseCase.execute: a session token is issued unless the factor is refused.
  unfoldable pub verify_totp_login : Attempt → Db → Factor × Db
  unfolding verify_found find_user
  verify_totp_login a db = verify_challenge a.now a.code db a.payload

  -- Logins one after another.
  unfoldable pub logins : List Attempt → Db → List (String × Factor) × Db
  unfolding verify_totp_login
  logins [] db = ([], db)
  logins (a ∷ attempts) db =
      let (f, db') = verify_totp_login a db in
      let (fs, db'') = logins attempts db' in ((subject a.payload, f) ∷ fs, db'')

  -- DisableTotpUseCase.execute, from the tables on: `password` is the hasher's answer.
  unfoldable pub disable_found : ℕ → Bool → Code → Db → Option User → Result Db
  unfolding verify_two_factor_code disable_totp save_user delete_for_user
  disable_found now password code db none = err (not_found_error "user")
  disable_found now password code db (some u) = do
    require u.totp_enabled (validation_error "2fa")
    require password (unauthorized_error "credentials")
    let (f, (u', codes)) = verify_two_factor_code now u code db.codes
    require (is_accepted f) (unauthorized_error "code")
    ok (record { users = save_user (disable_totp u') db.users; codes = delete_for_user u.id codes })
