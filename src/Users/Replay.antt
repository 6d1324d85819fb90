-- ===== src/Users/Replay.antt =====
-- No TOTP code is accepted twice.
use reconbanker.Common.{
  ℕ, ◌≤◌, ◌≡◌, refl, sym, ap, ◌∙◌, inl, inr, Bool, true, false, ◌&&◌, List, [], ◌∷◌, Option, none,
  some, String, arith, ◌=s◌, =s_iff, if◌then◌else◌, subst, count, Bool-cases,
}
use reconbanker.Users.{
  Code, User, CodeRow, Db, Verdict, Factor, refused, by_step, by_backup, is_accepted, Challenge,
  Attempt, subject, is_pending, find_user, save_user, verify_two_factor_code, verify_found,
  verify_challenge, verify_totp_login, logins,
}
use reconbanker.Users.Steps.{
  is_past, is_step, last_step?, last_step, save-last_step, find_user-id, IsFresh, RejectsReplays,
  verify-IsFresh,
}

module _ (totp_verify : ℕ → String → Code → Option ℕ → Verdict)
    (hash_matches : Code → String → Bool) (upper_case : Code → Code)
    (rejects_replays : RejectsReplays totp_verify) where
  -- The same of a login, for the user with this id.
  record IsFreshFor (uid : String) (t : ℕ) (db : Db) (hit : Bool) (db' : Db) : Type 0 where
    records : hit ≡ true → is_past t (last_step uid db'.users) ≡ true
    rejects : is_past t (last_step uid db.users) ≡ true → hit ≡ false
    persists :
        is_past t (last_step uid db.users) ≡ true → is_past t (last_step uid db'.users) ≡ true

  abbrev found : ℕ → Code → Db → Option User → Factor × Db
  found now code db o = verify_found totp_verify hash_matches upper_case now code db o

  none-IsFreshFor :
      (uid : String) (t : ℕ) (db : Db) (b : Bool) → IsFreshFor uid t db (b && false) db
  none-IsFreshFor uid t db b = record {
    records = λ h. ground (arith, h);
    rejects = λ h. ground arith;
    persists = λ h. h;
  }

  none-codes :
      (uid : String) (t : ℕ) (db : Db) (codes : List CodeRow) (b : Bool)
      → IsFreshFor uid t db (b && false) (record db { codes = codes })
  none-codes uid t db codes b = record {
    records = λ h. ground (arith, h);
    rejects = λ h. ground arith;
    persists = λ h. h;
  }

  users-IsFreshFor :
      (uid id : String) (t : ℕ) (db : Db) (u u' : User) (f : Factor) (codes : List CodeRow)
      → find_user id db.users ≡ some u
      → IsFresh t u.totp_last_step f u'.totp_last_step
      → u'.id ≡ u.id
      → IsFreshFor uid t db
          ((id =s uid) && is_step t f)
          (record { users = save_user u' db.users; codes = codes })
  users-IsFreshFor uid id t db u u' f codes h x i =
      let k : u'.id ≡ id = i ∙ find_user-id id db.users u h in
      let saved : last_step uid (save_user u' db.users)
          ≡ (if u'.id =s uid then u'.totp_last_step else last_step uid db.users) =
        save-last_step uid u' db.users u (subst (λ j. find_user j db.users ≡ some u) (sym k) h) in
      let same : (u'.id =s uid) ≡ (id =s uid) = ap (λ j. j =s uid) k in
      elim (Bool-cases (id =s uid)) [
        | inl e ↦
            let new : last_step uid (save_user u' db.users) ≡ u'.totp_last_step =
              ground (arith, saved, same, e) in
            let old : last_step uid db.users ≡ u.totp_last_step =
              ap (λ j. last_step j db.users) (sym ((=s_iff id uid).0 e)) ∙ ap last_step? h in
            rw e (record {
              records = λ q. ap (is_past t) new ∙ x.records q;
              rejects = λ q. x.rejects (sym (ap (is_past t) old) ∙ q);
              persists = λ q. ap (is_past t) new ∙ x.persists (sym (ap (is_past t) old) ∙ q);
            })
        | inr e ↦
            let new : last_step uid (save_user u' db.users) ≡ last_step uid db.users =
              ground (arith, saved, same, e) in
            rw e (record {
              records = λ q. cc;
              rejects = λ q. refl;
              persists = λ q. ap (is_past t) new ∙ q;
            })
      ]

  saved-IsFreshFor :
      (uid id : String) (t : ℕ) (db : Db) (u u' : User) (f : Factor) (codes : List CodeRow)
      → find_user id db.users ≡ some u
      → IsFresh t u.totp_last_step f u'.totp_last_step
      → u'.id ≡ u.id
      → IsFreshFor uid t db ((id =s uid) && is_step t f) (
          if is_accepted f
          then record { users = save_user u' db.users; codes = codes }
          else record db { codes = codes })
  saved-IsFreshFor uid id t db u u' refused codes h x i = none-codes uid t db codes (id =s uid)
  saved-IsFreshFor uid id t db u u' (by_step o) codes h x i =
      users-IsFreshFor uid id t db u u' (by_step o) codes h x i
  saved-IsFreshFor uid id t db u u' (by_backup c) codes h x i =
      users-IsFreshFor uid id t db u u' (by_backup c) codes h x i

  either :
      (uid id : String) (t : ℕ) (db : Db) (b : Bool) (x y : Factor × Db)
      → IsFreshFor uid t db ((id =s uid) && is_step t x.0) x.1
      → IsFreshFor uid t db ((id =s uid) && is_step t y.0) y.1
      → let z = if b then x else y in IsFreshFor uid t db ((id =s uid) && is_step t z.0) z.1
  either uid id t db true x y p q = p
  either uid id t db false x y p q = q

  found-IsFreshFor :
      (now : ℕ) (code : Code) (uid id : String) (t : ℕ) (db : Db) (o : Option User)
      → find_user id db.users ≡ o
      → let x = found now code db o in IsFreshFor uid t db ((id =s uid) && is_step t x.0) x.1
  unfolding verify_found
  found-IsFreshFor now code uid id t db none h = none-IsFreshFor uid t db (id =s uid)
  found-IsFreshFor now code uid id t db (some u) h =
      let x = verify_two_factor_code totp_verify hash_matches upper_case now u code db.codes in
      let (fresh, i) =
        verify-IsFresh totp_verify hash_matches upper_case rejects_replays now t u code db.codes in
      either uid id t db u.totp_enabled _ _
        (saved-IsFreshFor uid id t db u x.1.0 x.0 x.1.1 h fresh i)
        (none-IsFreshFor uid t db (id =s uid))

  abbrev hits : String → ℕ → String × Factor → Bool
  hits uid t w = (w.0 =s uid) && is_step t w.1

  login-IsFreshFor :
      (a : Attempt) (uid : String) (t : ℕ) (db : Db)
      → let x = verify_totp_login totp_verify hash_matches upper_case a db in
        IsFreshFor uid t db (hits uid t (subject a.payload, x.0)) x.1
  unfolding verify_totp_login
  login-IsFreshFor a uid t db = go a.payload
    where
      go :
          (p : Option Challenge)
          → let x = verify_challenge totp_verify hash_matches upper_case a.now a.code db p in
            IsFreshFor uid t db ((subject p =s uid) && is_step t x.0) x.1
      go none = none-IsFreshFor uid t db ("" =s uid)
      go (some c) = elim (Bool-cases (is_pending c.scope)) [
        | inl e ↦
            rw e (found-IsFreshFor a.now a.code uid c.sub t db (find_user c.sub db.users) refl)
        | inr e ↦ rw e (none-IsFreshFor uid t db (c.sub =s uid))
      ]

  past-count :
      (attempts : List Attempt) (uid : String) (t : ℕ) (db : Db)
      → is_past t (last_step uid db.users) ≡ true
      → count (hits uid t) (logins totp_verify hash_matches upper_case attempts db).0 ≡ 0
  unfolding logins
  past-count [] uid t db h = refl
  past-count (a ∷ attempts) uid t db h =
      let x = login-IsFreshFor a uid t db in
      rw (x.rejects h) (past-count attempts uid t _ (x.persists h))

  -- If the library accepts no step that is not after the last one, then over any logins one after
  -- another a user's TOTP code of one time step is accepted at most once.
  pub logins-once :
      (attempts : List Attempt) (uid : String) (t : ℕ) (db : Db)
      → count
          (λ w. (w.0 =s uid) && is_step t w.1)
          (logins totp_verify hash_matches upper_case attempts db).0
        ≤ 1
  unfolding logins
  logins-once [] uid t db = omega arith
  logins-once (a ∷ attempts) uid t db =
      let x = login-IsFreshFor a uid t db in
      let (f, db') = verify_totp_login totp_verify hash_matches upper_case a db in
      elim (Bool-cases (hits uid t (subject a.payload, f))) [
        | inl e ↦ rw (e, past-count attempts uid t db' (x.records e)) (omega arith)
        | inr e ↦ rw e (logins-once attempts uid t db')
      ]
