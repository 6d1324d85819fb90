-- ===== src/Users/ApiKeys/Revoked.antt =====
-- contexts/user/application/ManageApiKeysUseCase.ts: a key that was revoked stays out.
use reconbanker.Common.{
  ℕ, ◌≤◌, ◌≡◌, refl, ap, sym, subst, ◌∙◌, Bool, true, false, List, [], ◌∷◌, ◌++◌, Option, none,
  some, String, =s_refl, any, any-append, count, Result, ok, err, arith, Bool-cases, inl, inr,
  false-ne-true,
}
use reconbanker.Conciliation.Fuzzy.{text_eq}
use reconbanker.Users.{Code}
use reconbanker.Users.ApiKeys.{
  ApiKeyRow, Principal, Generated, find_active_by_prefix, parse_api_key, revoke, touch_last_used,
}
use reconbanker.Users.ApiKeys.Use.{
  CreateCommand, Attempt, new_row, create_api_key, authenticate, touched, authenticated,
}
use reconbanker.Users.ApiKeys.Issue.{has_prefix, create_api_key-Inserted}

-- A call that changes the table.
pub data Call : Type 0 where
  created : CreateCommand → Attempt × (Attempt × Attempt) → Call
  revoked : ℕ → String → String → Call
  presented : ℕ → Bool → Code → Call

-- The prefix is taken by a row, and no active row has it.
pub record IsDead (p : Code) (rows : List ApiKeyRow) : Type 0 where
  pub taken : any (has_prefix p) rows ≡ true
  pub inactive : find_active_by_prefix p rows ≡ none

abbrev pub rows_of : List ApiKeyRow → Result (Attempt × List ApiKeyRow) → List ApiKeyRow
rows_of rows (err e) = rows
rows_of rows (ok (a, rows')) = rows'

revoke-inactive :
    (now : ℕ) (id user : String) (p : Code) (rows : List ApiKeyRow)
    → find_active_by_prefix p rows ≡ none
    → find_active_by_prefix p (revoke now id user rows).0 ≡ none
unfolding revoke find_active_by_prefix
revoke-inactive now id user p [] h = h
revoke-inactive now id user p (r ∷ rows) h = ground (arith, revoke-inactive now id user p rows)

revoke-taken :
    (now : ℕ) (id user : String) (p : Code) (rows : List ApiKeyRow)
    → any (has_prefix p) rows ≡ true
    → any (has_prefix p) (revoke now id user rows).0 ≡ true
unfolding revoke
revoke-taken now id user p [] h = h
revoke-taken now id user p (r ∷ rows) h = ground (arith, revoke-taken now id user p rows)

touch_last_used-inactive :
    (now : ℕ) (id : String) (p : Code) (rows : List ApiKeyRow)
    → find_active_by_prefix p rows ≡ none
    → find_active_by_prefix p (touch_last_used now id rows) ≡ none
unfolding touch_last_used find_active_by_prefix
touch_last_used-inactive now id p [] h = h
touch_last_used-inactive now id p (r ∷ rows) h =
    ground (arith, touch_last_used-inactive now id p rows)

touch_last_used-taken :
    (now : ℕ) (id : String) (p : Code) (rows : List ApiKeyRow)
    → any (has_prefix p) rows ≡ true
    → any (has_prefix p) (touch_last_used now id rows) ≡ true
unfolding touch_last_used
touch_last_used-taken now id p [] h = h
touch_last_used-taken now id p (r ∷ rows) h = ground (arith, touch_last_used-taken now id p rows)

-- A row with another prefix.
snoc-inactive :
    (p : Code) (row : ApiKeyRow) (rows : List ApiKeyRow)
    → text_eq row.prefix p ≡ false
    → find_active_by_prefix p rows ≡ none
    → find_active_by_prefix p (rows ++ (row ∷ [])) ≡ none
unfolding find_active_by_prefix
snoc-inactive p row [] e h = ground arith
snoc-inactive p row (r ∷ rows) e h = ground (arith, snoc-inactive p row rows)

text_eq→eq : (s t : Code) → text_eq s t ≡ true → s ≡ t
text_eq→eq [] [] h = refl
text_eq→eq [] (d ∷ t) h = cc
text_eq→eq (c ∷ s) [] h = cc
text_eq→eq (c ∷ s) (d ∷ t) h = ground (arith, text_eq→eq s t)

-- The row of a new key never has a prefix that is taken.
snoc-IsDead :
    (p : Code) (row : ApiKeyRow) (rows : List ApiKeyRow)
    → any (has_prefix row.prefix) rows ≡ false
    → IsDead p rows
    → IsDead p (rows ++ (row ∷ []))
snoc-IsDead p row rows fresh d = record {
  taken = ground (arith, any-append (has_prefix p) rows (row ∷ []), d.taken);
  inactive = elim (Bool-cases (text_eq row.prefix p)) [
    | inl e ↦
        let same = ap (λ q. any (has_prefix q) rows) (text_eq→eq row.prefix p e) in
        absurd (false-ne-true (sym fresh ∙ (same ∙ d.taken)))
    | inr e ↦ snoc-inactive p row rows e d.inactive
  ];
}

absent-inactive :
    (p : Code) (rows : List ApiKeyRow)
    → count (has_prefix p) rows ≡ 0
    → find_active_by_prefix p rows ≡ none
unfolding find_active_by_prefix
absent-inactive p [] h = refl
absent-inactive p (r ∷ rows) h = ground (arith, absent-inactive p rows)

found-taken :
    (p : Code) (r : ApiKeyRow) (rows : List ApiKeyRow)
    → find_active_by_prefix p rows ≡ some r
    → any (has_prefix p) rows ≡ true
unfolding find_active_by_prefix
found-taken p r [] h = cc
found-taken p r (x ∷ rows) h = ground (arith, found-taken p r rows)

-- The one active row with a prefix that no other row has is revoked by its id and its user.
revoke-kills :
    (now : ℕ) (p : Code) (r : ApiKeyRow) (rows : List ApiKeyRow)
    → count (has_prefix p) rows ≤ 1
    → find_active_by_prefix p rows ≡ some r
    → find_active_by_prefix p (revoke now r.id r.user_id rows).0 ≡ none
unfolding revoke find_active_by_prefix
revoke-kills now p r [] u h = cc
revoke-kills now p r (x ∷ rows) u h = ground (
  arith,
  absent-inactive p rows,
  revoke-inactive now r.id r.user_id p rows,
  revoke-kills now p r rows,
  =s_refl x.id,
  =s_refl x.user_id,
)

authenticated-found :
    (hash_secret from_hex : Code → Code) (o : Option Generated) (rows : List ApiKeyRow)
    (r : ApiKeyRow)
    → authenticated hash_secret from_hex o rows ≡ some r
    → (g : Generated) × (o ≡ some g) × (find_active_by_prefix g.prefix rows ≡ some r)
authenticated-found hash_secret from_hex none rows r h = cc
authenticated-found hash_secret from_hex (some g) rows r h = (g, refl, ground arith)

module _ (hash_secret : Code → Code) (from_hex : Code → Code) where
  -- One call, and calls one after another, on the table.
  pub call : Call → List ApiKeyRow → List ApiKeyRow
  call (created cmd x) rows = rows_of rows (create_api_key hash_secret from_hex cmd x rows)
  call (revoked now id user) rows = (revoke now id user rows).0
  call (presented now works raw) rows = (authenticate hash_secret from_hex now works raw rows).1

  pub calls : List Call → List ApiKeyRow → List ApiKeyRow
  unfolding call
  calls [] rows = rows
  calls (c ∷ cs) rows = calls cs (call c rows)

  created-IsDead :
      (p : Code) (cmd : CreateCommand) (x : Attempt × (Attempt × Attempt)) (rows : List ApiKeyRow)
      (o : Result (Attempt × List ApiKeyRow))
      → create_api_key hash_secret from_hex cmd x rows ≡ o
      → IsDead p rows
      → IsDead p (rows_of rows o)
  created-IsDead p cmd x rows (err e) made d = d
  created-IsDead p cmd x rows (ok (a, rows')) made d =
      let i = create_api_key-Inserted hash_secret from_hex cmd x rows rows' a made in
      subst (IsDead p) (sym i.0) (snoc-IsDead p (new_row hash_secret from_hex cmd a) rows i.1 d)

  touched-IsDead :
      (p : Code) (now : ℕ) (works : Bool) (o : Option ApiKeyRow) (rows : List ApiKeyRow)
      → IsDead p rows
      → IsDead p (touched hash_secret from_hex now works o rows).1
  touched-IsDead p now works none rows d = d
  touched-IsDead p now false (some r) rows d = d
  touched-IsDead p now true (some r) rows d = record {
    taken = touch_last_used-taken now r.id p rows d.taken;
    inactive = touch_last_used-inactive now r.id p rows d.inactive;
  }

  call-IsDead :
      (p : Code) (c : Call) (rows : List ApiKeyRow) → IsDead p rows → IsDead p (call c rows)
  unfolding call authenticate
  call-IsDead p (created cmd x) rows d = created-IsDead p cmd x rows _ refl d
  call-IsDead p (revoked now id user) rows d = record {
    taken = revoke-taken now id user p rows d.taken;
    inactive = revoke-inactive now id user p rows d.inactive;
  }
  call-IsDead p (presented now works raw) rows d = touched-IsDead p now works _ rows d

  calls-IsDead :
      (p : Code) (cs : List Call) (rows : List ApiKeyRow) → IsDead p rows → IsDead p (calls cs rows)
  unfolding calls
  calls-IsDead p [] rows d = d
  calls-IsDead p (c ∷ cs) rows d = calls-IsDead p cs (call c rows) (call-IsDead p c rows d)

  touched-principal :
      (now : ℕ) (works : Bool) (o : Option ApiKeyRow) (rows : List ApiKeyRow) (key : Principal)
      → (touched hash_secret from_hex now works o rows).0 ≡ some key
      → (r : ApiKeyRow) × (o ≡ some r) × (key.key_id ≡ r.id) × (key.user_id ≡ r.user_id)
  touched-principal now works none rows key h = cc
  touched-principal now works (some r) rows key h = (r, refl, ground arith, ground arith)

  dead-refused :
      (now : ℕ) (works : Bool) (raw : Code) (g : Generated) (rows : List ApiKeyRow)
      → parse_api_key raw ≡ some g
      → IsDead g.prefix rows
      → (authenticate hash_secret from_hex now works raw rows).0 ≡ none
  unfolding authenticate
  dead-refused now works raw g rows parsed d = rw (parsed, d.inactive) refl

  -- Where no two keys share a prefix, a key that authenticated and was then revoked for its user is
  -- refused after any calls that create, revoke or present keys.
  pub revoked-refused :
      (cs : List Call) (raw : Code) (rows : List ApiKeyRow) (key : Principal) (now later last : ℕ)
      (works works' : Bool)
      → ((p : Code) → count (has_prefix p) rows ≤ 1)
      → (authenticate hash_secret from_hex now works raw rows).0 ≡ some key
      → (authenticate hash_secret from_hex last works' raw
          (calls cs (revoke later key.key_id key.user_id rows).0)).0
        ≡ none
  unfolding authenticate
  revoked-refused cs raw rows key now later last works works' unique h =
      let (r, o, i, u) = touched-principal now works _ rows key h in
      let (g, parsed, found) =
        authenticated-found hash_secret from_hex (parse_api_key raw) rows r o in
      let dead : IsDead g.prefix (revoke later r.id r.user_id rows).0 = record {
        taken = revoke-taken later r.id r.user_id g.prefix rows (found-taken g.prefix r rows found);
        inactive = revoke-kills later g.prefix r rows (unique g.prefix) found;
      } in
      dead-refused last works' raw g _ parsed (calls-IsDead g.prefix cs _ (rw (i, u) dead))
