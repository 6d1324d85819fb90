-- ===== src/Accounts/Config.antt =====
-- What a configuration that was stored satisfies.
use reconbanker.Common.{
  ◌≡◌, refl, subst, ap, Bool, true, false, not, ◌&&◌, ◌||◌, Option, some, String, arith, ◌=s◌, none,
  if◌then◌else◌, ok, Error, >>=-eq-ok, require,
}
use reconbanker.Accounts.{
  AccountConfig, UpsertInput, NotificationTransport, api, slack, chat_webhook, trim_or_null,
  resolve_secret, stored, is_some, is_subscribed, is_reconcile, transport_or_api, check_url,
  check_url?, check_transport, unless_chat, normalized, upsert_config,
}

-- The configuration has the channel and the token that Slack needs, or the endpoint that a chat webhook
-- needs and none of what it must not keep. The transport `api` needs nothing.
abbrev pub has_needs : NotificationTransport → AccountConfig → Bool
has_needs api c = true
has_needs chat_webhook c =
    is_some c.notification_endpoint_url
    && not (is_some c.notification_auth_token)
    && not (is_some c.notification_slack_channel)
has_needs slack c = is_some c.notification_slack_channel && is_some c.notification_auth_token

require-true : (b : Bool) (e : Error) (u : Unit {0}) → require b e ≡ ok u → b ≡ true
require-true true e u h = refl
require-true false e u h = cc

-- What the checks of a transport leave: where the events go is known.
transport-has_needs :
    (safe : String → Option Error) (t : NotificationTransport) (subscribed : Bool)
    (url channel token : Option String) (u : Unit {0}) (c : AccountConfig)
    → check_transport safe t subscribed url channel token ≡ ok u
    → c.notification_endpoint_url ≡ url
    → c.notification_auth_token ≡ unless_chat t token
    → c.notification_slack_channel ≡ unless_chat t channel
    → (not subscribed || has_needs t c) ≡ true
unfolding check_transport
transport-has_needs safe api subscribed url channel token u c h a b d = ground arith
transport-has_needs safe chat_webhook subscribed url channel token u c h a b d =
    let (v, q, _) = >>=-eq-ok (require (not subscribed || is_some url) _) _ h in
    ground (arith, require-true (not subscribed || is_some url) _ v q, a, b, d)
transport-has_needs safe slack subscribed url channel token u c h a b d =
    let (v, q, k) = >>=-eq-ok (require (not subscribed || is_some channel) _) _ h in
    ground (
      arith,
      require-true (not subscribed || is_some channel) _ v q,
      require-true (not subscribed || is_some token) _ u k,
      b,
      d,
    )

-- The secret to store: the mask keeps the one before, any other is trimmed, and is none if empty.
abbrev pub kept_or_given : Option String → Option String → Option String
kept_or_given none current = none
kept_or_given (some s) current =
    if s =s "__secret_present__" then current else trim_or_null (some s)

resolve_secret-kept :
    (incoming current : Option String)
    → resolve_secret incoming current ≡ kept_or_given incoming current
unfolding resolve_secret
resolve_secret-kept none current = refl
resolve_secret-kept (some s) current = refl

-- What an accepted configuration satisfies: `existing` is the one stored before.
pub record Accepted (mode : Option String) (existing : Option AccountConfig)
    (given c : AccountConfig) : Type 0 where
  pub endpoint : (not (is_reconcile mode) || is_some c.pending_orders_endpoint) ≡ true
  pub needs :
      (not (is_subscribed c.notification_events) || has_needs c.notification_transport c) ≡ true
  pub auth : c.auth_token ≡ kept_or_given given.auth_token (stored (λ x. x.auth_token) existing)
  pub webhook :
      c.webhook_auth_token
      ≡ kept_or_given given.webhook_auth_token (stored (λ x. x.webhook_auth_token) existing)
  pub notification :
      c.notification_auth_token
      ≡ unless_chat c.notification_transport (
          kept_or_given given.notification_auth_token
            (stored (λ x. x.notification_auth_token) existing))

-- A configuration that is accepted has an endpoint for the pending orders if the user's mode is
-- reconcile; if it subscribes to events over Slack or a chat webhook, it has what that transport
-- needs; and each of its three tokens is the one stored before where it came in as the mask, else the
-- one given, trimmed and none if empty, but for the notification token of a chat webhook, which is
-- dropped.
pub upsert_config_lem :
    (safe : String → Option Error) (is_owned : Bool) (mode : Option String)
    (existing : Option AccountConfig) (input : UpsertInput) (c : AccountConfig)
    → upsert_config safe is_owned mode existing input ≡ ok c
    → Accepted mode existing input.config c
unfolding upsert_config normalized
upsert_config_lem safe is_owned mode existing input c h =
    let (_, _, h₁) = >>=-eq-ok (require is_owned _) _ h in
    let (_, _, h₂) = >>=-eq-ok (require (not (input.config.webhook_url =s "")) _) _ h₁ in
    let (_, _, h₃) = >>=-eq-ok (check_url safe input.config.webhook_url) _ h₂ in
    let (u, r, h₄) = >>=-eq-ok (require (not (is_reconcile mode) || _) _) _ h₃ in
    let (_, _, h₅) =
      >>=-eq-ok (check_url? safe (trim_or_null input.config.pending_orders_endpoint)) _ h₄ in
    let (v, t, h₆) =
      >>=-eq-ok
        (check_transport safe (transport_or_api input.transport)
          (is_subscribed input.config.notification_events)
          (trim_or_null input.config.notification_endpoint_url)
          (trim_or_null input.config.notification_slack_channel)
          (resolve_secret input.config.notification_auth_token
            (stored (λ x. x.notification_auth_token) existing)))
        _ h₅ in
    let same : normalized input existing ≡ c = ground (arith, h₆) in
    subst (Accepted mode existing input.config) same (record {
      endpoint = require-true _ _ u r;
      needs = transport-has_needs safe _ _ _ _ _ v (normalized input existing) t refl refl refl;
      auth = resolve_secret-kept input.config.auth_token (stored (λ x. x.auth_token) existing);
      webhook =
          resolve_secret-kept input.config.webhook_auth_token
            (stored (λ x. x.webhook_auth_token) existing);
      notification = ap (unless_chat (transport_or_api input.transport)) (
          resolve_secret-kept input.config.notification_auth_token
            (stored (λ x. x.notification_auth_token) existing));
    })
