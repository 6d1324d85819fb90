-- ===== src/Users/ApiKeys/Tests.antt =====
-- A key that is created, used and revoked, with a digest that changes nothing.
use reconbanker.Common.{
  ℕ, ◌≤◌, ◌≡◌, refl, true, false, [], ◌∷◌, ◌++◌, Option, none, some, String, arith, count, ok, ◌↔◌,
}
use reconbanker.Conciliation.Fuzzy.{trim, is_space}
use reconbanker.Users.{Code, User, Verdict, save_user, record_totp_step}
use reconbanker.Users.ApiKeys.{
  ApiKeyRow, Generated, create_row, plaintext, parse_api_key, revoke, is_hex,
}
use reconbanker.Users.ApiKeys.Use.{
  CreateCommand, Attempt, create_api_key, create_loop, new_row, authenticate, principal_of,
}
use reconbanker.Users.ApiKeys.Wire.{IsKey, Hex, All-append, parse_api_key_lem}
use reconbanker.Users.ApiKeys.Issue.{create-authenticate, has_prefix}
use reconbanker.Users.ApiKeys.Revoked.{presented, calls, revoked-refused}
use reconbanker.Users.ApiKeys.Guard.{
  Outcome, Revoked, revoke_api_key, revoke_api_key-Revoked, or_blank,
}

abbrev same : Code → Code
same s = s

abbrev eight : Code
eight = b'0' ∷ b'1' ∷ b'2' ∷ b'3' ∷ b'a' ∷ b'b' ∷ b'c' ∷ b'f' ∷ []

abbrev sixteen : Code
sixteen = eight ++ eight

abbrev generated : Generated
generated = record { prefix = eight; secret = sixteen ++ (sixteen ++ (sixteen ++ sixteen)) }

eight-Hex : Hex eight
unfolding is_hex
eight-Hex = (refl, (refl, (refl, (refl, (refl, (refl, (refl, (refl, tt))))))))

sixteen-Hex : Hex sixteen
sixteen-Hex = All-append (λ c. is_hex c ≡ true) eight eight eight-Hex eight-Hex

more-Hex : (s : Code) → Hex s → Hex (sixteen ++ s)
more-Hex s h = All-append (λ c. is_hex c ≡ true) sixteen s sixteen-Hex h

generated-IsKey : IsKey generated
generated-IsKey = record {
  prefix_length = refl;
  prefix_hex = eight-Hex;
  secret_length = refl;
  secret_hex =
      more-Hex (sixteen ++ (sixteen ++ sixteen))
        (more-Hex (sixteen ++ sixteen) (more-Hex sixteen sixteen-Hex));
}

parse_api_key_lem_example :
    (parse_api_key (plaintext generated) ≡ some generated)
    ↔ ((trim (plaintext generated) ≡ plaintext generated) × IsKey generated)
parse_api_key_lem_example = parse_api_key_lem (plaintext generated) generated

abbrev command : CreateCommand
command = record {
  user_id = "u1";
  name = b'C' ∷ b'I' ∷ [];
  scopes = "otp:write" ∷ [];
  account_ids = some ("a1" ∷ []);
}

-- The first attempt finds the database down.
abbrev down : Attempt
down = record { id = "k0"; generated = generated; down = true }

abbrev up : Attempt
up = record { id = "k1"; generated = generated; down = false }

abbrev key_row : ApiKeyRow
key_row = new_row same same command up

create_runs : create_api_key same same command (down, (up, up)) [] ≡ ok (up, key_row ∷ [])
unfolding create_api_key create_loop create_row is_space
create_runs = refl

create-authenticate_example :
    (authenticate same same 5 true (plaintext generated) (key_row ∷ [])).0
    ≡ some (record {
      key_id = "k1";
      user_id = "u1";
      scopes = "otp:write" ∷ [];
      account_ids = some ("a1" ∷ []);
    })
create-authenticate_example =
    create-authenticate same same command (down, (up, up)) [] (key_row ∷ []) up 5 true
      generated-IsKey create_runs

one_row : (p : Code) → count (has_prefix p) (key_row ∷ []) ≤ 1
one_row p = ground arith

revoked-refused_example :
    (authenticate same same 9 true (plaintext generated) (
      calls same same
        (presented 8 true (plaintext generated) ∷ [])
        (revoke 7 "k1" "u1" (key_row ∷ [])).0)).0
    ≡ none
revoked-refused_example =
    revoked-refused same same (presented 8 true (plaintext generated) ∷ []) (plaintext generated)
      (key_row ∷ []) (principal_of same same key_row) 5 7 9 true true one_row
      create-authenticate_example

abbrev owner : User
owner = record {
  id = "u1";
  email = "u@x.io";
  name = none;
  password_hash = "h";
  is_active = true;
  totp_secret = some "S";
  totp_enabled = true;
  totp_confirmed_at = some 1;
  totp_last_step = some 5;
}

abbrev accepts : ℕ → String → Code → Option ℕ → Verdict
accepts now secret code last = record { valid = true; time_step = some now }

abbrev answer : Outcome
answer = record {
  done = true;
  users = record owner { totp_last_step = some 7 } ∷ [];
  keys = record key_row { revoked_at = some 7 } ∷ [];
}

revoke_runs :
    revoke_api_key accepts 7 "k1" "u1" (some eight) (owner ∷ []) (key_row ∷ []) ≡ ok answer
unfolding revoke_api_key is_space save_user record_totp_step
revoke_runs = refl

revoke_api_key-Revoked_example :
    Revoked accepts 7 "k1" "u1" (or_blank (some eight)) (owner ∷ []) (key_row ∷ []) answer
revoke_api_key-Revoked_example =
    revoke_api_key-Revoked accepts 7 "k1" "u1" (some eight) (owner ∷ []) (key_row ∷ []) answer
      revoke_runs
