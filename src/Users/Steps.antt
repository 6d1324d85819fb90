-- ===== src/Users/Steps.antt =====
-- What one check of a second factor records, and the step it leaves in the user's row.
use reconbanker.Common.{
  ℕ, ◌<◌, ◌≡◌, refl, inl, inr, Bool, true, false, List, [], ◌∷◌, Option, none, some, String, arith,
  leb, ◌==◌, ◌=s◌, =s_iff, if◌then◌else◌, subst, is_empty, Bool-cases,
}
use reconbanker.Conciliation.Fuzzy.{trim}
use reconbanker.Users.{
  Code, User, CodeRow, Verdict, Factor, refused, by_step, by_backup, record_step?, find_user,
  save_user, totp_of, verify_backup, verify_two_factor_code, use_code, mark_used,
  normalize_backup_code, record_totp_step,
}

-- The step is not after the last one recorded.
abbrev pub is_past : ℕ → Option ℕ → Bool
is_past t none = false
is_past t (some l) = leb t l

abbrev pub is_step : ℕ → Factor → Bool
is_step t (by_step (some s)) = s == t
is_step t _ = false

abbrev pub last_step? : Option User → Option ℕ
last_step? none = none
last_step? (some u) = u.totp_last_step

abbrev pub last_step : String → List User → Option ℕ
last_step id users = last_step? (find_user id users)

save-skip :
    (j : String) (u : User) (users : List User)
    → (u.id =s j) ≡ false
    → last_step j (save_user u users) ≡ last_step j users
unfolding find_user save_user
save-skip j u [] h = refl
save-skip j u (x ∷ users) h =
    ground (arith, =s_iff x.id u.id, =s_iff u.id j, =s_iff x.id j, save-skip j u users h)

save-hit :
    (u : User) (users : List User) (v : User)
    → find_user u.id users ≡ some v
    → last_step u.id (save_user u users) ≡ u.totp_last_step
unfolding find_user save_user
save-hit u [] v h = cc
save-hit u (x ∷ users) v h = ground (arith, =s_iff u.id u.id, =s_iff x.id u.id, save-hit u users v)

-- Saving a user changes the user of that id alone.
pub save-last_step :
    (j : String) (u : User) (users : List User) (v : User)
    → find_user u.id users ≡ some v
    → last_step j (save_user u users) ≡ (if u.id =s j then u.totp_last_step else last_step j users)
save-last_step j u users v h = elim (Bool-cases (u.id =s j)) [
  | inl e ↦ rw e (
      subst (λ k. last_step k (save_user u users) ≡ u.totp_last_step) ((=s_iff u.id j).0 e)
        (save-hit u users v h))
  | inr e ↦ rw e (save-skip j u users e)
]

pub find_user-id :
    (id : String) (users : List User) (u : User) → find_user id users ≡ some u → u.id ≡ id
unfolding find_user
find_user-id id [] u h = cc
find_user-id id (x ∷ users) u h = ground (arith, =s_iff x.id id, find_user-id id users u)

-- What is accepted as step t records it, and a step that is past is not accepted, and stays past.
pub record IsFresh (t : ℕ) (last : Option ℕ) (f : Factor) (last' : Option ℕ) : Type 0 where
  pub records : is_step t f ≡ true → is_past t last' ≡ true
  pub rejects : is_past t last ≡ true → is_step t f ≡ false
  pub persists : is_past t last ≡ true → is_past t last' ≡ true

-- The library accepts no step that is not after the last one.
abbrev pub RejectsReplays : (ℕ → String → Code → Option ℕ → Verdict) → Type 0
RejectsReplays totp_verify =
    (now last step : ℕ) (secret : String) (code : Code)
    → (totp_verify now secret code (some last)).valid ≡ true
    → (totp_verify now secret code (some last)).time_step ≡ some step
    → last < step

pub same-IsFresh :
    (t : ℕ) (last : Option ℕ) (f : Factor) → is_step t f ≡ false → IsFresh t last f last
same-IsFresh t last f n = record {
  records = λ h. ground (arith, h, n);
  rejects = λ h. n;
  persists = λ h. h;
}

module _ (totp_verify : ℕ → String → Code → Option ℕ → Verdict)
    (hash_matches : Code → String → Bool) (upper_case : Code → Code)
    (rejects_replays : RejectsReplays totp_verify) where
  use-is_step :
      (t : ℕ) (o : Option String) (rows : List CodeRow)
      → is_step t (use_code totp_verify hash_matches upper_case o rows).0 ≡ false
  use-is_step t none rows = refl
  use-is_step t (some id) rows = go (mark_used id rows).1
    where
      go : (b : Bool) → is_step t (if b then by_backup id else refused) ≡ false
      go true = refl
      go false = refl

  backup-is_step :
      (t : ℕ) (u : User) (code : Code) (rows : List CodeRow)
      → is_step t (verify_backup totp_verify hash_matches upper_case u code rows).0 ≡ false
  unfolding verify_backup
  backup-is_step t u code rows =
      elim (Bool-cases
        (is_empty (normalize_backup_code totp_verify hash_matches upper_case code))) [
          | inl e ↦ rw e refl
          | inr e ↦ rw e (use-is_step t _ rows)
        ]

  step-IsFresh :
      (t : ℕ) (u : User) (o : Option ℕ)
      → ((last step : ℕ) → u.totp_last_step ≡ some last → o ≡ some step → last < step)
      → IsFresh t u.totp_last_step (by_step o) (record_step? o u).totp_last_step
  unfolding record_totp_step
  step-IsFresh t u none r = same-IsFresh t u.totp_last_step (by_step none) refl
  step-IsFresh t u (some s) r = go u.totp_last_step refl
    where
      go : (l : Option ℕ) → u.totp_last_step ≡ l → IsFresh t l (by_step (some s)) (some s)
      go none e = record { records = λ h. ground (arith, h); rejects = λ h. cc; persists = λ h. cc }
      go (some l) e =
          let q : l < s = r l s e refl in
          record {
            records = λ h. ground (arith, h);
            rejects = λ h. ground (arith, h, q);
            persists = λ h. ground (arith, h, q);
          }

  totp-after :
      (now : ℕ) (u : User) (code : Code) (secret : Option String) (last step : ℕ)
      → u.totp_last_step ≡ some last
      → (totp_of totp_verify hash_matches upper_case now u code secret).valid ≡ true
      → (totp_of totp_verify hash_matches upper_case now u code secret).time_step ≡ some step
      → last < step
  totp-after now u code none last step e = λ a b. cc
  totp-after now u code (some s) last step e = elim (Bool-cases (s =s "")) [
    | inl h ↦ rw h (λ a b. cc)
    | inr h ↦ rw (h, e) (λ a b. rejects_replays now last step s code a b)
  ]

  pub verify-IsFresh :
      (now t : ℕ) (u : User) (code : Code) (rows : List CodeRow)
      → let x = verify_two_factor_code totp_verify hash_matches upper_case now u code rows in
        IsFresh t u.totp_last_step x.0 x.1.0.totp_last_step × (x.1.0.id ≡ u.id)
  unfolding verify_two_factor_code record_totp_step
  verify-IsFresh now t u code rows =
      let v = totp_of totp_verify hash_matches upper_case now u (trim code) u.totp_secret in
      elim (Bool-cases v.valid) [
        | inl e ↦ rw e (
          step-IsFresh t u v.time_step
              (λ last step l o. totp-after now u (trim code) u.totp_secret last step l e o),
          same_id u v.time_step,
        )
        | inr e ↦
            rw e (same-IsFresh t u.totp_last_step _ (backup-is_step t u (trim code) rows), refl)
      ]
    where
      same_id : (u : User) (o : Option ℕ) → (record_step? o u).id ≡ u.id
      same_id u none = refl
      same_id u (some s) = refl
