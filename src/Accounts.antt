-- ===== src/Accounts.antt =====
-- contexts/account: application/UpsertAccountConfigUseCase.ts with domain/AccountConfig.ts. The check
-- of a URL (shared/net/assertSafeUrl.ts asks the DNS) is a parameter: the error that it throws.
pub mod Cipher
pub mod Config
pub mod Store
pub mod Reader
mod Tests
use reconbanker.Common.{
  ℕ, Bool, true, false, not, ◌&&◌, ◌||◌, List, [], ◌∷◌, Option, none, some, String, ◌=s◌,
  if◌then◌else◌, is_empty, Result, ok, err, Error, validation_error, not_found_error, require,
  ◌>>=◌, ◌>>◌,
}
use Prim.Native.Char.{code}
use reconbanker.Conciliation.Fuzzy.{is_space}

pub data AuthType : Type 0 where
  bearer api_key : AuthType

pub data PollingMethod : Type 0 where
  http_get http_post : PollingMethod

pub data SessionType : Type 0 where
  one_shot persistent : SessionType

pub data LoginMode : Type 0 where
  simple assisted : LoginMode

pub data NotificationTransport : Type 0 where
  api slack chat_webhook : NotificationTransport

-- A configuration without its id; a record of unknown values is its JSON text.
pub record AccountConfig : Type 0 where
  pub account_id : String
  pub pending_orders_endpoint : Option String
  pub webhook_url : String
  pub retry_limit : ℕ
  pub polling_method : PollingMethod
  pub polling_body : Option String
  pub auth_type : AuthType
  pub auth_token : Option String
  pub webhook_auth_type : Option AuthType
  pub webhook_auth_token : Option String
  pub notify_on_expired : Bool
  pub webhook_extra_fields : Option String
  pub silent_ingestion : Bool
  pub session_type : SessionType
  pub login_mode : LoginMode
  pub notification_endpoint_url : Option String
  pub notification_auth_type : Option AuthType
  pub notification_auth_token : Option String
  pub notification_events : Option (List String)
  pub notification_transport : NotificationTransport
  pub notification_slack_channel : Option String

-- UpsertAccountConfigInput: the configuration asked for, its user, and the bank's credentials.
pub record UpsertInput : Type 0 where
  pub user_id : String
  pub config : AccountConfig
  pub transport : Option NotificationTransport
  pub bank_username : Option String
  pub bank_password : Option String

-- String.prototype.trim
unfoldable pub trim_left : String → String
unfolding is_space
trim_left String.[] = String.[]
trim_left (String.◌∷◌ c s) =
    let rest = trim_left s in if is_space (code c) then rest else String.◌∷◌ c s

unfoldable pub trim_right : String → String
unfolding is_space
trim_right String.[] = String.[]
trim_right (String.◌∷◌ c s) =
    let rest = trim_right s in
    if is_space (code c) && (rest =s "") then String.[] else String.◌∷◌ c rest

abbrev or_null : String → Option String
or_null s = if s =s "" then none else some s

-- s?.trim() || null
unfoldable pub trim_or_null : Option String → Option String
unfolding trim_left trim_right
trim_or_null none = none
trim_or_null (some s) = or_null (trim_right (trim_left s))

abbrev pub secret_present_mask : String
secret_present_mask = "__secret_present__"

-- resolveSecret: the mask keeps the stored secret.
unfoldable pub resolve_secret : Option String → Option String → Option String
unfolding trim_or_null
resolve_secret none current = none
resolve_secret (some incoming) current =
    if incoming =s secret_present_mask then current else trim_or_null (some incoming)

-- existing?.field
abbrev pub stored : (AccountConfig → Option String) → Option AccountConfig → Option String
stored get none = none
stored get (some c) = get c

abbrev pub is_some : Option String → Bool
is_some none = false
is_some (some s) = true

abbrev pub is_subscribed : Option (List String) → Bool
is_subscribed none = false
is_subscribed (some events) = not (is_empty events)

abbrev pub is_reconcile : Option String → Bool
is_reconcile none = false
is_reconcile (some mode) = mode =s "reconcile"

abbrev pub transport_or_api : Option NotificationTransport → NotificationTransport
transport_or_api none = api
transport_or_api (some t) = t

abbrev pub unless_chat {ℓ} : {A : Type ℓ} → NotificationTransport → Option A → Option A
unless_chat chat_webhook o = none
unless_chat _ o = o

-- The configuration handed to configRepo.upsert.
unfoldable pub normalized : UpsertInput → Option AccountConfig → AccountConfig
unfolding trim_or_null resolve_secret
normalized input existing =
    let c = input.config in
    let transport = transport_or_api input.transport in
    record c {
      pending_orders_endpoint = trim_or_null c.pending_orders_endpoint;
      auth_token = resolve_secret c.auth_token (stored (λ x. x.auth_token) existing);
      webhook_auth_token =
          resolve_secret c.webhook_auth_token (stored (λ x. x.webhook_auth_token) existing);
      notification_endpoint_url = trim_or_null c.notification_endpoint_url;
      notification_auth_type = unless_chat transport c.notification_auth_type;
      notification_auth_token = unless_chat transport (
          resolve_secret c.notification_auth_token
            (stored (λ x. x.notification_auth_token) existing));
      notification_transport = transport;
      notification_slack_channel =
          unless_chat transport (trim_or_null c.notification_slack_channel);
    }

module _ (assert_safe_url : String → Option Error) where
  abbrev pub check_url : String → Result (Unit {0})
  check_url url = go (assert_safe_url url)
    where
      go : Option Error → Result (Unit {0})
      go none = ok tt
      go (some e) = err e

  abbrev pub check_url? : Option String → Result (Unit {0})
  check_url? none = ok tt
  check_url? (some url) = check_url url

  -- The checks of each transport: the URL, the channel and the token are those normalised.
  unfoldable pub check_transport :
      NotificationTransport
      → Bool
      → Option String
      → Option String
      → Option String
      → Result (Unit {0})
  check_transport api subscribed url channel token = check_url? url
  check_transport chat_webhook subscribed url channel token = do
    require (not subscribed || is_some url) (validation_error "notification_endpoint_url")
    check_url? url
  check_transport slack subscribed url channel token = do
    require (not subscribed || is_some channel) (validation_error "notification_slack_channel")
    require (not subscribed || is_some token) (validation_error "notification_auth_token")

  -- UpsertAccountConfigUseCase.execute up to configRepo.upsert: whether the account is the user's,
  -- the user's mode, and the stored configuration are what the repositories answer.
  unfoldable pub upsert_config :
      Bool → Option String → Option AccountConfig → UpsertInput → Result AccountConfig
  unfolding check_transport normalized trim_or_null resolve_secret
  upsert_config is_owned mode existing input = do
    let c = input.config
    let endpoint = trim_or_null c.pending_orders_endpoint
    require is_owned (not_found_error "account")
    require (not (c.webhook_url =s "")) (validation_error "webhook_url")
    check_url c.webhook_url
    require (not (is_reconcile mode) || is_some endpoint)
        (validation_error "pending_orders_endpoint")
    check_url? endpoint
    check_transport (transport_or_api input.transport) (is_subscribed c.notification_events)
        (trim_or_null c.notification_endpoint_url) (trim_or_null c.notification_slack_channel)
        (resolve_secret c.notification_auth_token
          (stored (λ x. x.notification_auth_token) existing))
    ok (normalized input existing)
