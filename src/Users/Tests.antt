-- ===== src/Users/Tests.antt =====
-- A login with a second factor, run on a library that accepts any code not used before.
use reconbanker.Common.{
  ℕ, ◌≤◌, ◌≡◌, refl, Bool, true, false, ◌&&◌, List, [], ◌∷◌, Option, none, some, String, arith, ltb,
  ◌=s◌, count,
}
use reconbanker.Users.{Code, Db, Verdict, Attempt, logins}
use reconbanker.Users.Steps.{RejectsReplays, is_step}
use reconbanker.Users.Replay.{logins-once}

abbrev after_last : ℕ → Option ℕ → Bool
after_last now none = true
after_last now (some l) = ltb l now

abbrev step_is_now : ℕ → String → Code → Option ℕ → Verdict
step_is_now now secret code last = record { valid = after_last now last; time_step = some now }

step_is_now-RejectsReplays : RejectsReplays step_is_now
step_is_now-RejectsReplays now last step secret code a b = ground arith

abbrev never_matches : Code → String → Bool
never_matches code hash = false

abbrev same_case : Code → Code
same_case code = code

abbrev one_user : Db
one_user = record {
  users =
      record {
        id = "u1";
        email = "u@x.io";
        name = none;
        password_hash = "h";
        is_active = true;
        totp_secret = some "S";
        totp_enabled = true;
        totp_confirmed_at = some 1;
        totp_last_step = some 5;
      }
      ∷ [];
  codes = [];
}

abbrev login_at : ℕ → Attempt
login_at now = record {
  now = now;
  payload = some (record { sub = "u1"; scope = some "2fa_pending" });
  code = 49 ∷ 50 ∷ [];
}

abbrev three_logins : List Attempt
three_logins = login_at 7 ∷ login_at 7 ∷ login_at 8 ∷ []

logins-once_example :
    count
      (λ w. (w.0 =s "u1") && is_step 7 w.1)
      (logins step_is_now never_matches same_case three_logins one_user).0
    ≤ 1
logins-once_example =
    logins-once step_is_now never_matches same_case step_is_now-RejectsReplays three_logins "u1" 7
      one_user

-- The code of step 7 is accepted once in the three logins, and the third login with that of step 8.
three_accepted :
    (count (λ w. is_step 7 w.1) (logins step_is_now never_matches same_case three_logins one_user).0
      ≡ 1)
    × (count
          (λ w. is_step 8 w.1)
          (logins step_is_now never_matches same_case three_logins one_user).0
        ≡ 1)
unfolding logins
three_accepted = (refl, refl)
