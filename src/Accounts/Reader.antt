-- ===== src/Accounts/Reader.antt =====
-- contexts/conciliation/infrastructure/adapters/AccountConfigReaderAdapter.ts: what conciliation reads
-- of account_config. Rows of the table hold their tokens as they are stored.
use reconbanker.Common.{
  ◌≡◌, ◌≢◌, refl, sym, ap, ◌∙◌, Bool, true, false, List, Option, none, some, String, find,
}
use reconbanker.Conciliation.Tables.{RequestRow, find_row}
use reconbanker.Accounts.{AccountConfig, AuthType, PollingMethod}
use reconbanker.Accounts.Cipher.{encrypt, encrypt_nullable, is_encrypted, append, strip}
use reconbanker.Accounts.Store.{Ivs, of_account, encrypt_config, upsert, find-upsert_row}

pub record PollingConfig : Type 0 where
  pub account_id : String
  pub pending_orders_endpoint : Option String
  pub polling_method : PollingMethod
  pub polling_body : Option String
  pub auth_type : AuthType
  pub auth_token : Option String

pub record WebhookConfig : Type 0 where
  pub account_id : String
  pub webhook_url : String
  pub webhook_auth_type : Option AuthType
  pub webhook_auth_token : Option String
  pub auth_type : AuthType
  pub auth_token : Option String
  pub webhook_extra_fields : Option String
  pub notify_on_expired : Bool

unfoldable pub to_polling_config : AccountConfig → PollingConfig
to_polling_config r = record {
  account_id = r.account_id;
  pending_orders_endpoint = r.pending_orders_endpoint;
  polling_method = r.polling_method;
  polling_body = r.polling_body;
  auth_type = r.auth_type;
  auth_token = r.auth_token;
}

unfoldable pub to_webhook_config : AccountConfig → WebhookConfig
to_webhook_config r = record {
  account_id = r.account_id;
  webhook_url = r.webhook_url;
  webhook_auth_type = r.webhook_auth_type;
  webhook_auth_token = r.webhook_auth_token;
  auth_type = r.auth_type;
  auth_token = r.auth_token;
  webhook_extra_fields = r.webhook_extra_fields;
  notify_on_expired = r.notify_on_expired;
}

abbrev read_as {ℓ} : {A : Type ℓ} → (AccountConfig → A) → Option AccountConfig → Option A
read_as f none = none
read_as f (some r) = some (f r)

abbrev config_of_request : Option RequestRow → List AccountConfig → Option AccountConfig
config_of_request none rows = none
config_of_request (some r) rows = find (of_account r.account_id) rows

unfoldable pub find_polling_config : String → List AccountConfig → Option PollingConfig
unfolding to_polling_config
find_polling_config id rows = read_as to_polling_config (find (of_account id) rows)

-- The JOIN of the request with the configuration of its account.
unfoldable pub find_webhook_config_for_request :
    String → List RequestRow → List AccountConfig → Option WebhookConfig
unfolding to_webhook_config
find_webhook_config_for_request request requests rows =
    read_as to_webhook_config (config_of_request (find_row request requests) rows)

abbrev notifies : Option AccountConfig → Bool
notifies none = false
notifies (some r) = r.notify_on_expired

unfoldable pub should_notify_on_expired : String → List AccountConfig → Bool
should_notify_on_expired id rows = notifies (find (of_account id) rows)

module _ {Bytes : Type 0} (to_base64 : Bytes → String) (from_base64 : String → Bytes)
    (seal : Bytes → String → Bytes × Bytes) (unseal : Bytes → Bytes → Bytes → Option String) where
  encrypt-changes :
      (iv : Bytes) (t : String)
      → is_encrypted t ≡ false
      → encrypt to_base64 from_base64 seal unseal iv t ≢ t
  unfolding encrypt is_encrypted append strip
  encrypt-changes iv t h e =
      let marked : is_encrypted (encrypt to_base64 from_base64 seal unseal iv t) ≡ true = refl in
      let back = sym marked ∙ ap is_encrypted e ∙ h in cc

  -- After a configuration is stored with a polling token and a webhook token that do not look
  -- encrypted, conciliation reads neither: the poll of its orders and the webhook of its requests are
  -- given the ciphertexts.
  pub upsert-ciphertexts_read :
      (ivs : Ivs Bytes) (c : AccountConfig) (rows : List AccountConfig) (token hook : String)
      (requests : List RequestRow) (request : String) (r : RequestRow)
      → c.auth_token ≡ some token
      → c.webhook_auth_token ≡ some hook
      → is_encrypted token ≡ false
      → is_encrypted hook ≡ false
      → find_row request requests ≡ some r
      → r.account_id ≡ c.account_id
      → (p : PollingConfig) × (w : WebhookConfig) × (find_polling_config c.account_id
            (upsert to_base64 from_base64 seal unseal ivs c rows).0
          ≡ some p)
        × (find_webhook_config_for_request request requests
              (upsert to_base64 from_base64 seal unseal ivs c rows).0
            ≡ some w)
        × (p.auth_token ≡ some (encrypt to_base64 from_base64 seal unseal ivs.auth token))
        × (w.webhook_auth_token ≡ some (encrypt to_base64 from_base64 seal unseal ivs.webhook hook))
        × (encrypt to_base64 from_base64 seal unseal ivs.auth token ≢ token)
        × (encrypt to_base64 from_base64 seal unseal ivs.webhook hook ≢ hook)
  unfolding upsert find_polling_config find_webhook_config_for_request encrypt_config
  upsert-ciphertexts_read ivs c rows token hook requests request r has_token has_hook plain
        plain_hook found owned =
      let sealed = encrypt_config to_base64 from_base64 seal unseal ivs c in
      let there = find-upsert_row sealed rows in
      (
        to_polling_config sealed,
        to_webhook_config sealed,
        ap (read_as to_polling_config) there,
        rw (found, owned) (ap (read_as to_webhook_config) there),
        ap (encrypt_nullable to_base64 from_base64 seal unseal ivs.auth) has_token,
        ap (encrypt_nullable to_base64 from_base64 seal unseal ivs.webhook) has_hook,
        encrypt-changes ivs.auth token plain,
        encrypt-changes ivs.webhook hook plain_hook,
      )
