-- ===== src/Users/ApiKeys/Guard.antt =====
-- contexts/user/application/ManageApiKeysUseCase.ts: RevokeApiKeyUseCase.
use reconbanker.Common.{
  ℕ, ◌≡◌, refl, sym, ap, subst, ◌∙◌, ◌&&◌, ◌=s◌, =s_iff, ◌∷◌, map, any, Bool, true, false, not,
  List, [], Option, none, some, String, is_empty, Result, ok, err, Error, not_found_error,
  unauthorized_error, require, ◌>>=◌, ◌>>◌, >>=-eq-ok, if◌then◌else◌, arith,
}
use reconbanker.Conciliation.Fuzzy.{trim, trim_start, trim_end}
use reconbanker.Users.{Code, User, Verdict, find_user, save_user, record_totp_step}
use reconbanker.Users.Steps.{last_step, save-last_step}
use reconbanker.Users.ApiKeys.{ApiKeyRow, revoke, is_active}

if_true {ℓ} : {A : Type ℓ} (b : Bool) (x y : A) → b ≡ true → (if b then x else y) ≡ x
if_true true x y h = refl
if_true false x y h = cc

-- `code ?? ''`
abbrev pub or_blank : Option Code → Code
or_blank none = []
or_blank (some code) = code

-- The users after a revoke: the step is recorded only with a key revoked.
abbrev pub consume : Bool → Option ℕ → User → List User → List User
consume true (some step) u users = save_user (record_totp_step step u) users
consume true none u users = users
consume false step u users = users

-- What a revoke returns, with the tables after it.
pub record Outcome : Type 0 where
  pub done : Bool
  pub users : List User
  pub keys : List ApiKeyRow

-- A key of the user that is not revoked yet.
abbrev pub is_target : String → String → ApiKeyRow → Bool
is_target id user k = (k.id =s id) && ((k.user_id =s user) && is_active k.revoked_at)

abbrev pub revoked_if : ℕ → String → String → ApiKeyRow → ApiKeyRow
revoked_if now id user k = if is_target id user k then record k { revoked_at = some now } else k

-- Without a key revoked, the users stay as they are.
abbrev pub KeptUnless : Bool → List User → List User → Type 0
KeptUnless true after before = Unit
KeptUnless false after before = after ≡ before

-- `step ?? before`
abbrev pub or_before : Option ℕ → Option ℕ → Option ℕ
or_before none before = before
or_before (some step) before = some step

consume-kept :
    (done : Bool) (step : Option ℕ) (u : User) (users : List User)
    → KeptUnless done (consume done step u users) users
consume-kept true step u users = tt
consume-kept false step u users = refl

either_same : (b : Bool) (o : Option ℕ) → o ≡ (if b then o else o)
either_same true o = refl
either_same false o = refl

consume-last_step :
    (done : Bool) (step : Option ℕ) (u v : User) (users : List User) (j : String)
    → find_user u.id users ≡ some v
    → last_step j (consume done step u users)
      ≡ (if done && (u.id =s j) then or_before step (last_step j users) else last_step j users)
unfolding record_totp_step
consume-last_step true (some step) u v users j h =
    save-last_step j (record u { totp_last_step = some step }) users v h
consume-last_step true none u v users j h = either_same (u.id =s j) (last_step j users)
consume-last_step false step u v users j h = refl

find_user-id :
    (id : String) (users : List User) (u : User) → find_user id users ≡ some u → u.id ≡ id
unfolding find_user
find_user-id id [] u h = cc
find_user-id id (x ∷ users) u h = ground (arith, =s_iff x.id id, find_user-id id users u)

module _ (totp_verify : ℕ → String → Code → Option ℕ → Verdict) where
  -- The verdict on the code; the library throws on a secret that is null.
  abbrev pub verified : ℕ → User → Code → Option String → Result (Option ℕ)
  verified now u code none = err (Error.other "secret")
  verified now u code (some secret) =
      let v = totp_verify now secret code u.totp_last_step in
      require v.valid (unauthorized_error "code") >> ok v.time_step

  unfoldable pub check_owner : ℕ → User → Code → Result (Option ℕ)
  check_owner now u code =
      if u.totp_enabled
      then require (not (is_empty code)) (unauthorized_error "code")
        >> verified now u code u.totp_secret
      else ok none

  abbrev pub outcome :
      String → String → Option ℕ → User → List User → List ApiKeyRow × Bool → Outcome
  outcome id user step u users (keys, done) = record {
    done = done;
    users = consume done step u users;
    keys = keys;
  }

  unfoldable pub revoke_found :
      ℕ → String → String → Code → List User → List ApiKeyRow → Option User → Result Outcome
  unfolding check_owner revoke trim_start trim_end
  revoke_found now id user code users keys none = err (not_found_error "user")
  revoke_found now id user code users keys (some u) = check_owner now u (trim code) >>= λ step.
      ok (outcome id user step u users (revoke now id user keys))

  -- RevokeApiKeyUseCase.execute
  unfoldable pub revoke_api_key :
      ℕ → String → String → Option Code → List User → List ApiKeyRow → Result Outcome
  unfolding revoke_found find_user
  revoke_api_key now id user code users keys =
      revoke_found now id user (or_blank code) users keys (find_user user users)

  -- With the second factor on, the library accepted the code for the secret of the user.
  pub record Accepted (now : ℕ) (u : User) (code : Code) (step : Option ℕ) : Type 0 where
    pub given : is_empty code ≡ false
    pub secret : String
    pub has_secret : u.totp_secret ≡ some secret
    pub valid : (totp_verify now secret code u.totp_last_step).valid ≡ true
    pub at_step : step ≡ (totp_verify now secret code u.totp_last_step).time_step

  verified-Accepted :
      (now : ℕ) (u : User) (code : Code) (step : Option ℕ) (o : Option String)
      → u.totp_secret ≡ o
      → is_empty code ≡ false
      → verified now u code o ≡ ok step
      → Accepted now u code step
  verified-Accepted now u code step none e g h = cc
  verified-Accepted now u code step (some secret) e g h = record {
    given = g;
    secret = secret;
    has_secret = e;
    valid = ground arith;
    at_step = ground arith;
  }

  check_owner-Accepted :
      (now : ℕ) (u : User) (code : Code) (step : Option ℕ)
      → u.totp_enabled ≡ true
      → check_owner now u code ≡ ok step
      → Accepted now u code step
  unfolding check_owner
  check_owner-Accepted now u code step on h =
      let asked = require (not (is_empty code)) (unauthorized_error "code") in
      let q =
        sym (if_true u.totp_enabled (asked >> verified now u code u.totp_secret) (ok none) on)
        ∙ h in
      let (_, given, ver) = >>=-eq-ok asked (λ _. verified now u code u.totp_secret) q in
      verified-Accepted now u code step u.totp_secret refl (ground (arith, given)) ver

  -- What a revoke that went through shows, and what it changed: the key of the user that was still
  -- active, if there is one, and with it the last step of its owner.
  pub record Revoked (now : ℕ) (id user : String) (code : Code) (users : List User)
      (keys : List ApiKeyRow) (x : Outcome) : Type 0 where
    pub owner : User
    pub step : Option ℕ
    pub found : find_user user users ≡ some owner
    pub accepted : owner.totp_enabled ≡ true → Accepted now owner (trim code) step
    pub no_step : owner.totp_enabled ≡ false → step ≡ none
    pub keys_after : x.keys ≡ map (revoked_if now id user) keys
    pub done_after : x.done ≡ any (is_target id user) keys
    pub users_kept : KeptUnless x.done x.users users
    pub steps_after :
        (j : String)
        → last_step j x.users ≡ (
            if x.done && (owner.id =s j)
            then or_before step (last_step j users)
            else last_step j users)

  revoke_found-Revoked :
      (now : ℕ) (id user : String) (code : Code) (users : List User) (keys : List ApiKeyRow)
      (o : Option User) (x : Outcome)
      → find_user user users ≡ o
      → revoke_found now id user code users keys o ≡ ok x
      → Revoked now id user code users keys x
  unfolding revoke_found revoke check_owner
  revoke_found-Revoked now id user code users keys none x e h = cc
  revoke_found-Revoked now id user code users keys (some u) x e h =
      let (step, checked, made) = >>=-eq-ok (check_owner now u (trim code)) _ h in
      let same : outcome id user step u users (revoke now id user keys) ≡ x =
        ground (arith, made) in
      let own : find_user u.id users ≡ some u =
        ap (λ i. find_user i users) (find_user-id user users u e) ∙ e in
      record {
        owner = u;
        step = step;
        found = e;
        accepted = λ on. check_owner-Accepted now u (trim code) step on checked;
        no_step = λ off. ground (arith, off, checked);
        keys_after = ap (λ y. y.keys) (sym same);
        done_after = ap (λ y. y.done) (sym same);
        users_kept =
            subst (λ y. KeptUnless y.done y.users users) same
              (consume-kept (revoke now id user keys).1 step u users);
        steps_after = λ j.
            subst
              (λ y. last_step j y.users ≡ (
                if y.done && (u.id =s j)
                then or_before step (last_step j users)
                else last_step j users))
              same (consume-last_step (revoke now id user keys).1 step u u users j own);
      }

  -- A revoke that goes through revokes the user's key of that id if it is still active, and no other,
  -- and tells whether it did. With the second factor on, the library accepted the code for the user's
  -- secret and last step; the step becomes the user's last one exactly where a key was revoked, no
  -- other user's last step changes, and with no key revoked the users stay as they are.
  pub revoke_api_key-Revoked :
      (now : ℕ) (id user : String) (code : Option Code) (users : List User) (keys : List ApiKeyRow)
      (x : Outcome)
      → revoke_api_key now id user code users keys ≡ ok x
      → Revoked now id user (or_blank code) users keys x
  unfolding revoke_api_key
  revoke_api_key-Revoked now id user code users keys x h =
      revoke_found-Revoked now id user (or_blank code) users keys (find_user user users) x refl h
