-- ===== src/Accounts/Store.antt =====
-- contexts/account/infrastructure/AccountConfigRepository.ts with mappers/AccountConfigRowMapper.ts:
-- the table account_config, whose three tokens are encrypted. The ids of the rows are left out.
use reconbanker.Common.{
  ◌≡◌, ◌≢◌, refl, sym, ap, ◌∙◌, Bool, true, false, List, [], ◌∷◌, Option, none, some, String, ◌=s◌,
  =s_refl, =s_iff, if◌then◌else◌, Result, ok, ◌>>=◌, find, Bool-cases, inl, inr,
}
use reconbanker.Accounts.{AccountConfig}
use reconbanker.Accounts.Cipher.{encrypt_nullable, decrypt_nullable, IsCipher, decrypt-encrypt}

-- The ivs that randomBytes gives for the three tokens.
pub record Ivs (Bytes : Type 0) : Type 0 where
  pub auth : Bytes
  pub webhook : Bytes
  pub notification : Bytes

abbrev pub of_account : String → AccountConfig → Bool
of_account id c = c.account_id =s id

-- INSERT … ON CONFLICT (account_id) DO UPDATE.
unfoldable pub upsert_row : AccountConfig → List AccountConfig → List AccountConfig
upsert_row c [] = c ∷ []
upsert_row c (r ∷ rows) =
    let rest = upsert_row c rows in if of_account c.account_id r then c ∷ rows else r ∷ rest

module _ {Bytes : Type 0} (to_base64 : Bytes → String) (from_base64 : String → Bytes)
    (seal : Bytes → String → Bytes × Bytes) (unseal : Bytes → Bytes → Bytes → Option String) where
  -- The values of the statement.
  unfoldable pub encrypt_config : Ivs Bytes → AccountConfig → AccountConfig
  unfolding encrypt_nullable
  encrypt_config ivs c = record c {
    auth_token = encrypt_nullable to_base64 from_base64 seal unseal ivs.auth c.auth_token;
    webhook_auth_token =
        encrypt_nullable to_base64 from_base64 seal unseal ivs.webhook c.webhook_auth_token;
    notification_auth_token =
        encrypt_nullable to_base64 from_base64 seal unseal ivs.notification
          c.notification_auth_token;
  }

  -- decryptConfig
  unfoldable pub decrypt_config : AccountConfig → Result AccountConfig
  unfolding decrypt_nullable
  decrypt_config c = do
    auth ← decrypt_nullable to_base64 from_base64 seal unseal c.auth_token
    webhook ← decrypt_nullable to_base64 from_base64 seal unseal c.webhook_auth_token
    notification ← decrypt_nullable to_base64 from_base64 seal unseal c.notification_auth_token
    ok (record c {
      auth_token = auth;
      webhook_auth_token = webhook;
      notification_auth_token = notification;
    })

  abbrev pub decrypt_found : Option AccountConfig → Result (Option AccountConfig)
  decrypt_found none = ok none
  decrypt_found (some c) = decrypt_config c >>= λ d. ok (some d)

  unfoldable pub find_by_account_id : String → List AccountConfig → Result (Option AccountConfig)
  unfolding decrypt_config
  find_by_account_id id rows = decrypt_found (find (of_account id) rows)

  -- AccountConfigRepository.upsert: the table, and the configuration that is returned.
  unfoldable pub upsert :
      Ivs Bytes → AccountConfig → List AccountConfig → List AccountConfig × Result AccountConfig
  unfolding encrypt_config decrypt_config upsert_row
  upsert ivs c rows =
      (upsert_row (encrypt_config ivs c) rows, decrypt_config (encrypt_config ivs c))

other-account : (a b : String) → b ≢ a → (a =s b) ≡ false
other-account a b ne = elim (Bool-cases (a =s b)) [
  | inl e ↦ absurd (ne (sym ((=s_iff a b).0 e)))
  | inr e ↦ e
]

pub find-upsert_row :
    (c : AccountConfig) (rows : List AccountConfig)
    → find (of_account c.account_id) (upsert_row c rows) ≡ some c
unfolding upsert_row
find-upsert_row c [] = rw (=s_refl c.account_id) refl
find-upsert_row c (r ∷ rows) = elim (Bool-cases (of_account c.account_id r)) [
  | inl e ↦ rw (e, =s_refl c.account_id) refl
  | inr e ↦ rw (e, e) (find-upsert_row c rows)
]

find-upsert_row_other :
    (id : String) (c : AccountConfig) (rows : List AccountConfig)
    → of_account id c ≡ false
    → find (of_account id) (upsert_row c rows) ≡ find (of_account id) rows
unfolding upsert_row
find-upsert_row_other id c [] h = rw h refl
find-upsert_row_other id c (r ∷ rows) h = elim (Bool-cases (of_account c.account_id r)) [
  | inl e ↦
      let missed : of_account id r ≡ false =
        ap (λ x. x =s id) ((=s_iff r.account_id c.account_id).0 e) ∙ h in
      rw (e, h, missed) refl
  | inr e ↦
      rw e (ap (λ o. if of_account id r then some r else o) (find-upsert_row_other id c rows h))
]

-- A token that UTF-8 can carry.
abbrev pub is_carried : (String → Bool) → Option String → Bool
is_carried is_well_formed none = true
is_carried is_well_formed (some s) = is_well_formed s

-- The tokens of a configuration.
pub record IsCarried (is_well_formed : String → Bool) (c : AccountConfig) : Type 0 where
  pub auth : is_carried is_well_formed c.auth_token ≡ true
  pub webhook : is_carried is_well_formed c.webhook_auth_token ≡ true
  pub notification : is_carried is_well_formed c.notification_auth_token ≡ true

module _ {Bytes : Type 0} (to_base64 : Bytes → String) (from_base64 : String → Bytes)
    (seal : Bytes → String → Bytes × Bytes) (unseal : Bytes → Bytes → Bytes → Option String)
    (is_well_formed : String → Bool)
    (cipher : IsCipher to_base64 from_base64 seal unseal is_well_formed) where
  decrypt_nullable-encrypt_nullable :
      (iv : Bytes) (o : Option String)
      → is_carried is_well_formed o ≡ true
      → decrypt_nullable to_base64 from_base64 seal unseal
          (encrypt_nullable to_base64 from_base64 seal unseal iv o)
        ≡ ok o
  unfolding decrypt_nullable encrypt_nullable
  decrypt_nullable-encrypt_nullable iv none h = refl
  decrypt_nullable-encrypt_nullable iv (some s) h =
      ap (λ r. r >>= λ p. ok (some p))
        (decrypt-encrypt to_base64 from_base64 seal unseal is_well_formed cipher iv s h)

  decrypt_config-encrypt_config :
      (ivs : Ivs Bytes) (c : AccountConfig)
      → IsCarried is_well_formed c
      → decrypt_config to_base64 from_base64 seal unseal
          (encrypt_config to_base64 from_base64 seal unseal ivs c)
        ≡ ok c
  unfolding decrypt_config encrypt_config
  decrypt_config-encrypt_config ivs c h =
      rw
        (
          decrypt_nullable-encrypt_nullable ivs.auth c.auth_token h.auth,
          decrypt_nullable-encrypt_nullable ivs.webhook c.webhook_auth_token h.webhook,
          decrypt_nullable-encrypt_nullable ivs.notification c.notification_auth_token
              h.notification,
        )
        refl

  -- Where base64 and the cipher read back what they wrote: a configuration that is stored, its tokens
  -- such as UTF-8 can carry, is returned and then found as it was given, and what is found for any
  -- other account stays the same.
  pub upsert-find_by_account_id :
      (ivs : Ivs Bytes) (c : AccountConfig) (rows : List AccountConfig) (id : String)
      → IsCarried is_well_formed c
      → id ≢ c.account_id
      → ((upsert to_base64 from_base64 seal unseal ivs c rows).1 ≡ ok c)
        × (find_by_account_id to_base64 from_base64 seal unseal c.account_id
              (upsert to_base64 from_base64 seal unseal ivs c rows).0
            ≡ ok (some c))
        × (find_by_account_id to_base64 from_base64 seal unseal id
              (upsert to_base64 from_base64 seal unseal ivs c rows).0
            ≡ find_by_account_id to_base64 from_base64 seal unseal id rows)
  unfolding upsert find_by_account_id encrypt_config
  upsert-find_by_account_id ivs c rows id h ne =
      let sealed = encrypt_config to_base64 from_base64 seal unseal ivs c in
      let back = decrypt_config-encrypt_config ivs c h in
      (
        back,
        ap (decrypt_found to_base64 from_base64 seal unseal) (find-upsert_row sealed rows)
            ∙ ap (λ r. r >>= λ d. ok (some d)) back,
        ap (decrypt_found to_base64 from_base64 seal unseal)
            (find-upsert_row_other id sealed rows (other-account c.account_id id ne)),
      )
