-- ===== src/Accounts/Tests.antt =====
-- A configuration with a Slack channel, whose token is kept by the mask.
use reconbanker.Common.{
  List, cents, pos, Bool, Bool-cases, inl, inr, =s_iff, if◌then◌else◌, ◌=s◌, ◌≢◌, ◌≡◌, refl, sym,
  ap, true, false, ◌||◌, [], ◌∷◌, Option, none, some, String, ok, Error,
}
use reconbanker.Accounts.{
  AccountConfig, UpsertInput, bearer, http_get, one_shot, simple, slack, upsert_config,
  secret_present_mask,
}
use reconbanker.Conciliation.Request.{pending}
use reconbanker.Conciliation.Tables.{RequestRow}
use reconbanker.Accounts.Reader.{
  PollingConfig, WebhookConfig, find_polling_config, find_webhook_config_for_request,
  upsert-ciphertexts_read,
}
use reconbanker.Accounts.Cipher.{encrypt, is_encrypted, has_colon, IsCipher}
use reconbanker.Accounts.Store.{
  Ivs, IsCarried, upsert, find_by_account_id, upsert-find_by_account_id,
}
use reconbanker.Accounts.Config.{Accepted, upsert_config_lem}

abbrev config : Option String → AccountConfig
config token = record {
  account_id = "a1";
  pending_orders_endpoint = some "https://shop.example/orders";
  webhook_url = "https://shop.example/hook";
  retry_limit = 3;
  polling_method = http_get;
  polling_body = none;
  auth_type = bearer;
  auth_token = token;
  webhook_auth_type = none;
  webhook_auth_token = none;
  notify_on_expired = true;
  webhook_extra_fields = none;
  silent_ingestion = false;
  session_type = one_shot;
  login_mode = simple;
  notification_endpoint_url = none;
  notification_auth_type = none;
  notification_auth_token = token;
  notification_events = some ("scrape.failed" ∷ []);
  notification_transport = slack;
  notification_slack_channel = some " C1 ";
}

abbrev input : UpsertInput
input = record {
  user_id = "u1";
  config = config (some secret_present_mask);
  transport = some slack;
  bank_username = none;
  bank_password = none;
}

abbrev safe : String → Option Error
safe url = none

abbrev before : Option AccountConfig
before = some (config (some "T"))

abbrev after : AccountConfig
after = record (config (some "T")) { notification_slack_channel = some "C1" }

accepted : upsert_config safe true (some "reconcile") before input ≡ ok after
unfolding upsert_config
accepted = refl

upsert_config_lem_example : Accepted (some "reconcile") before input.config after
upsert_config_lem_example =
    upsert_config_lem safe true (some "reconcile") before input after accepted

-- A cipher of two texts, with bytes of one bit: the tag is the iv.
abbrev to_base64 : Bool → String
to_base64 true = "dA=="
to_base64 false = "Zg=="

abbrev from_base64 : String → Bool
from_base64 s = s =s "dA=="

abbrev seal : Bool → String → Bool × Bool
seal iv plain = (iv, plain =s "T")

abbrev unseal : Bool → Bool → Bool → Option String
unseal true true sealed = some (if sealed then "T" else "U")
unseal false false sealed = some (if sealed then "T" else "U")
unseal iv tag sealed = none

abbrev is_well_formed : String → Bool
is_well_formed s = (s =s "T") || (s =s "U")

reads : (b : Bool) → from_base64 (to_base64 b) ≡ b
reads true = refl
reads false = refl

plain : (b : Bool) → has_colon (to_base64 b) ≡ false
unfolding has_colon
plain true = refl
plain false = refl

chosen : (s : String) → is_well_formed s ≡ true → (if s =s "T" then "T" else "U") ≡ s
chosen s h = elim (Bool-cases (s =s "T")) [
  | inl e ↦ rw e (sym ((=s_iff s "T").0 e))
  | inr e ↦ rw e (sym ((=s_iff s "U").0 (rw e at h)))
]

opens :
    (iv : Bool) (s : String)
    → is_well_formed s ≡ true
    → unseal iv (seal iv s).0 (seal iv s).1 ≡ some s
opens true s h = ap some (chosen s h)
opens false s h = ap some (chosen s h)

two_texts-IsCipher : IsCipher to_base64 from_base64 seal unseal is_well_formed
two_texts-IsCipher = record { reads_back = reads; has_none = plain; opens = opens }

abbrev ivs : Ivs Bool
ivs = record { auth = true; webhook = false; notification = false }

config-IsCarried : IsCarried is_well_formed (config (some "T"))
config-IsCarried = record { auth = refl; webhook = refl; notification = refl }

abbrev other_id : String
other_id = "a2"

other_account : other_id ≢ "a1"
other_account e = let same : (other_id =s "a1") ≡ true = (=s_iff other_id "a1").1 e in cc

upsert-find_by_account_id_example :
    ((upsert to_base64 from_base64 seal unseal ivs (config (some "T")) []).1
      ≡ ok (config (some "T")))
    × (find_by_account_id to_base64 from_base64 seal unseal "a1"
          (upsert to_base64 from_base64 seal unseal ivs (config (some "T")) []).0
        ≡ ok (some (config (some "T"))))
    × (find_by_account_id to_base64 from_base64 seal unseal "a2"
          (upsert to_base64 from_base64 seal unseal ivs (config (some "T")) []).0
        ≡ find_by_account_id to_base64 from_base64 seal unseal "a2" [])
upsert-find_by_account_id_example =
    upsert-find_by_account_id to_base64 from_base64 seal unseal is_well_formed two_texts-IsCipher
      ivs (config (some "T")) [] "a2" config-IsCarried other_account

abbrev with_hook : AccountConfig
with_hook = record (config (some "T")) { webhook_auth_token = some "U" }

abbrev order : RequestRow
order = record {
  id = "r1";
  account_id = "a1";
  external_id = "o1";
  expected_amount = cents (pos 100);
  currency = "USD";
  sender_name = none;
  status = pending;
  idempotency_key = none;
  retry_count = 0;
  last_checked_at = none;
  created_at = 0;
}

abbrev requests : List RequestRow
requests = order ∷ []

plain_token : is_encrypted "T" ≡ false
unfolding is_encrypted
plain_token = refl

plain_hook : is_encrypted "U" ≡ false
unfolding is_encrypted
plain_hook = refl

upsert-ciphertexts_read_example :
    (p : PollingConfig) × (w : WebhookConfig) × (find_polling_config "a1"
        (upsert to_base64 from_base64 seal unseal ivs with_hook []).0
      ≡ some p)
    × (find_webhook_config_for_request "r1" requests
          (upsert to_base64 from_base64 seal unseal ivs with_hook []).0
        ≡ some w)
    × (p.auth_token ≡ some (encrypt to_base64 from_base64 seal unseal true "T"))
    × (w.webhook_auth_token ≡ some (encrypt to_base64 from_base64 seal unseal false "U"))
    × (encrypt to_base64 from_base64 seal unseal true "T" ≢ "T")
    × (encrypt to_base64 from_base64 seal unseal false "U" ≢ "U")
upsert-ciphertexts_read_example =
    upsert-ciphertexts_read to_base64 from_base64 seal unseal ivs with_hook [] "T" "U" requests "r1"
      order refl refl plain_token plain_hook refl refl
