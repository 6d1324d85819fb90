-- ===== src/Users/ApiKeys/Issue.antt =====
-- contexts/user/application/CreateApiKeyUseCase.ts and ManageApiKeysUseCase.ts: a key that was issued
-- authenticates.
use reconbanker.Common.{
  ℕ, ◌≡◌, refl, Bool, true, false, not, List, [], ◌∷◌, ◌++◌, none, some, any, filter, is_empty,
  Result, ok, err, Error, require, >>=-eq-ok, subst, arith,
}
use reconbanker.Conciliation.Fuzzy.{text_eq, trim}
use reconbanker.Users.{Code}
use reconbanker.Users.ApiKeys.{
  ApiKeyRow, create_row, includes, all_api_scopes, find_active_by_prefix, plaintext,
}
use reconbanker.Users.ApiKeys.Use.{
  CreateCommand, Attempt, new_row, create_loop, no_attempt, create_api_key, restriction, first_ok,
  secret_matches, authenticate,
}
use reconbanker.Users.ApiKeys.Wire.{IsKey, parse-plaintext}

pub text_eq_refl : (s : Code) → text_eq s s ≡ true
text_eq_refl [] = refl
text_eq_refl (c ∷ s) = ground (arith, text_eq_refl s)

abbrev pub has_prefix : Code → ApiKeyRow → Bool
has_prefix p r = text_eq r.prefix p

find_active-snoc :
    (row : ApiKeyRow) (rows : List ApiKeyRow)
    → any (has_prefix row.prefix) rows ≡ false
    → row.revoked_at ≡ none
    → find_active_by_prefix row.prefix (rows ++ (row ∷ [])) ≡ some row
unfolding find_active_by_prefix
find_active-snoc row [] h e = rw (text_eq_refl row.prefix, e) refl
find_active-snoc row (r ∷ rows) h e = ground (arith, find_active-snoc row rows)

create_row-ok :
    (down : Bool) (row : ApiKeyRow) (rows rows' : List ApiKeyRow)
    → create_row down row rows ≡ ok rows'
    → (rows' ≡ rows ++ (row ∷ [])) × (any (has_prefix row.prefix) rows ≡ false)
unfolding create_row
create_row-ok down row rows rows' h = ground arith

module _ (hash_secret : Code → Code) (from_hex : Code → Code) where
  abbrev row_of : CreateCommand → Attempt → ApiKeyRow
  row_of cmd a = new_row hash_secret from_hex cmd a

  -- What a loop that went through has inserted.
  abbrev pub Inserted : CreateCommand → Attempt → List ApiKeyRow → List ApiKeyRow → Type 0
  Inserted cmd a rows rows' =
      (rows' ≡ rows ++ (new_row hash_secret from_hex cmd a ∷ []))
      × (any (has_prefix a.generated.prefix) rows ≡ false)

  first_ok-Inserted :
      (cmd : CreateCommand) (a b : Attempt) (rows rows' : List ApiKeyRow)
      (o : Result (List ApiKeyRow)) (next : Error → Result (Attempt × List ApiKeyRow))
      → create_row b.down (row_of cmd b) rows ≡ o
      → ((e : Error) → next e ≡ ok (a, rows') → Inserted cmd a rows rows')
      → first_ok b o next ≡ ok (a, rows')
      → Inserted cmd a rows rows'
  first_ok-Inserted cmd a b rows rows' (err e) next made ih h = ih e h
  first_ok-Inserted cmd a b rows rows' (ok l) next made ih h =
      let same : b ≡ a = cc h in
      let out : l ≡ rows' = cc h in
      subst (λ x. Inserted cmd x rows rows') same
        (subst (λ x. Inserted cmd b rows x) out (create_row-ok b.down (row_of cmd b) rows l made))

  create_loop-Inserted :
      (last : Error) (cmd : CreateCommand) (attempts : List Attempt) (rows rows' : List ApiKeyRow)
      (a : Attempt)
      → create_loop hash_secret from_hex last cmd attempts rows ≡ ok (a, rows')
      → Inserted cmd a rows rows'
  unfolding create_loop
  create_loop-Inserted last cmd [] rows rows' a h = cc
  create_loop-Inserted last cmd (b ∷ attempts) rows rows' a h =
      first_ok-Inserted cmd a b rows rows' _
        (λ e. create_loop hash_secret from_hex e cmd attempts rows) refl
        (λ e q. create_loop-Inserted e cmd attempts rows rows' a q) h

  pub create_api_key-Inserted :
      (cmd : CreateCommand) (x : Attempt × (Attempt × Attempt)) (rows rows' : List ApiKeyRow)
      (a : Attempt)
      → create_api_key hash_secret from_hex cmd x rows ≡ ok (a, rows')
      → Inserted cmd a rows rows'
  unfolding create_api_key
  create_api_key-Inserted cmd (x, (y, z)) rows rows' a h =
      let (_, _, h1) = >>=-eq-ok (require (not (is_empty (trim cmd.name))) _) _ h in
      let known = is_empty (filter (λ s. not (includes all_api_scopes s)) cmd.scopes) in
      let (_, _, h2) = >>=-eq-ok (require known _) _ h1 in
      let (_, _, h3) = >>=-eq-ok (require (not (is_empty cmd.scopes)) _) _ h2 in
      create_loop-Inserted no_attempt cmd (x ∷ y ∷ z ∷ []) rows rows' a h3

  -- A key that was created, and whose random bytes are hex, authenticates from its plaintext as the
  -- user, the scopes and the accounts that it was created with.
  pub create-authenticate :
      (cmd : CreateCommand) (x : Attempt × (Attempt × Attempt)) (rows rows' : List ApiKeyRow)
      (a : Attempt) (now : ℕ) (works : Bool)
      → IsKey a.generated
      → create_api_key hash_secret from_hex cmd x rows ≡ ok (a, rows')
      → (authenticate hash_secret from_hex now works (plaintext a.generated) rows').0
        ≡ some (record {
          key_id = a.id;
          user_id = cmd.user_id;
          scopes = cmd.scopes;
          account_ids = restriction cmd.account_ids;
        })
  unfolding authenticate secret_matches
  create-authenticate cmd x rows rows' a now works k h =
      let made = create_api_key-Inserted cmd x rows rows' a h in
      rw
        (
          parse-plaintext a.generated k,
          made.0,
          find_active-snoc (row_of cmd a) rows made.1 refl,
          text_eq_refl (from_hex (hash_secret a.generated.secret)),
        )
        refl
