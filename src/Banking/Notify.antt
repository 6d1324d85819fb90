-- ===== src/Banking/Notify.antt =====
-- contexts/banking/application/NotifyBankMovementUseCase.ts, with the claim and the release of a
-- notification (infrastructure/BankTransactionRepository.ts) and
-- shared/infrastructure/webhooks/LoggingWebhookSender.ts. What the readers return, whether a webhook
-- that is sent arrives, and what sendWebhook and the log throw are given with each call.
pub mod Once
use reconbanker.Common.{
  Bool, true, false, not, ◌&&◌, List, [], ◌∷◌, ◌++◌, map, Option, none, some, String, ◌=s◌,
  if◌then◌else◌, any, find, Error,
}

-- A row of bank_transactions, as far as a notification reads it: its amount, currency and time
-- are their JSON texts.
pub record MovementRow : Type 0 where
  pub id : String
  pub account_id : String
  pub sender_name : Option String
  pub amount : String
  pub currency : String
  pub received_at : String
  pub is_notified : Bool

pub record NotifyConfig : Type 0 where
  pub webhook_url : Option String
  pub silent_ingestion : Bool
  pub auth_type : String
  pub auth_token : Option String
  pub webhook_auth_type : Option String
  pub webhook_auth_token : Option String
  pub extra_fields : List (String × String)

-- What is handed to the webhook sender.
pub record Delivery : Type 0 where
  pub url : String
  pub payload : List (String × String)
  pub auth_type : String
  pub auth_token : Option String

-- One delivery: whether the endpoint got it, what sendWebhook throws, and what the log throws when it
-- records a success or a failure.
pub record Send : Type 0 where
  pub arrives : Bool
  pub send_throws : Option Error
  pub log_throws : Option Error
  pub error_log_throws : Option Error

pub record Call : Type 0 where
  pub config : Option NotifyConfig
  pub account_user : Option String
  pub mode : Option String
  pub send : Send

-- The table after a call, what was sent, and the error that left it.
pub record Notified : Type 0 where
  pub rows : List MovementRow
  pub sent : Option Delivery
  pub has_arrived : Bool
  pub failure : Option Error

unfoldable pub find_movement : String → List MovementRow → Option MovementRow
find_movement id rows = find (λ r. r.id =s id) rows

-- The rows after the UPDATE, and whether it changed one.
unfoldable pub claim_notification : String → List MovementRow → List MovementRow × Bool
claim_notification id rows = (
  map (λ r. if (r.id =s id) && not r.is_notified then record r { is_notified = true } else r) rows,
  any (λ r. (r.id =s id) && not r.is_notified) rows,
)

unfoldable pub release_notification : String → List MovementRow → List MovementRow
release_notification id rows =
    map (λ r. if r.id =s id then record r { is_notified = false } else r) rows

abbrev has_key : String → List (String × String) → Bool
has_key k fields = any (λ f. f.0 =s k) fields

-- The loop over the extra fields: a field of the payload is never replaced.
unfoldable pub add_extras : List (String × String) → List (String × String) → List (String × String)
add_extras payload [] = payload
add_extras payload ((k, v) ∷ extras) =
    add_extras (if has_key k payload then payload else payload ++ ((k, v) ∷ [])) extras

abbrev pub non_empty : Option String → Option String
non_empty none = none
non_empty (some s) = if s =s "" then none else some s

abbrev pub or_else : Option String → Option String → Option String
or_else none b = b
or_else (some a) b = some a

abbrev or_text : Option String → String → String
or_text none b = b
or_text (some a) b = a

abbrev pub is_passthrough : Option String → Bool
is_passthrough none = false
is_passthrough (some m) = m =s "passthrough"

abbrev pub quiet : List MovementRow → Notified
quiet rows = record { rows = rows; sent = none; has_arrived = false; failure = none }

abbrev pub delivery : NotifyConfig → String → String → MovementRow → Delivery
delivery c url name row = record {
  url = url;
  payload =
      add_extras
        (("id", row.id)
          ∷ ("amount", row.amount)
          ∷ ("currency", row.currency)
          ∷ ("name", name)
          ∷ ("received_at", row.received_at)
          ∷ [])
        c.extra_fields;
  auth_type = or_text c.webhook_auth_type c.auth_type;
  auth_token = or_else c.webhook_auth_token c.auth_token;
}

-- The catch: the failure is recorded and thrown on, unless recording it throws.
abbrev pub record_error : Send → Error → Error
record_error x e = or_error x.error_log_throws e
  where
    or_error : Option Error → Error → Error
    or_error none e = e
    or_error (some e') e = e'

abbrev pub try_log : Send → Option Error → Option Error
try_log x none = none
try_log x (some e) = some (record_error x e)

abbrev pub try_send : Send → Option Error → Option Error
try_send x none = try_log x x.log_throws
try_send x (some e) = some (record_error x e)

-- What makeLoggingWebhookSender's function throws: the log of a success stands inside its try.
unfoldable pub send_logged : Send → Option Error
send_logged x = try_send x x.send_throws

abbrev pub after_send : Option Error → Bool → Delivery → String → List MovementRow → Notified
after_send none arrives d id rows = record {
  rows = rows;
  sent = some d;
  has_arrived = arrives;
  failure = none;
}
after_send (some e) arrives d id rows = record {
  rows = release_notification id rows;
  sent = some d;
  has_arrived = arrives;
  failure = some e;
}

-- From the claim on.
unfoldable pub claim_and_send : Send → Bool → Delivery → String → List MovementRow → Notified
unfolding claim_notification release_notification send_logged
claim_and_send x silent d id rows =
    let (rows', claimed) = claim_notification id rows in
    if claimed
    then (if silent then quiet rows' else after_send (send_logged x) x.arrives d id rows')
    else quiet rows

abbrev pub notify_named :
    Call → NotifyConfig → Option String → Option String → MovementRow → List MovementRow → Notified
notify_named call c (some url) (some name) row rows =
    claim_and_send call.send c.silent_ingestion (delivery c url name row) row.id rows
notify_named call c _ _ row rows = quiet rows

abbrev pub notify_found :
    Call → Option MovementRow → Option NotifyConfig → Option String → List MovementRow → Notified
notify_found call (some row) (some c) (some user) rows =
    if is_passthrough call.mode
    then notify_named call c (non_empty c.webhook_url) (non_empty row.sender_name) row rows
    else quiet rows
notify_found call _ _ _ rows = quiet rows

-- NotifyBankMovementUseCase.execute
unfoldable pub notify_movement : Call → String → List MovementRow → Notified
unfolding find_movement claim_and_send add_extras
notify_movement call id rows =
    notify_found call (find_movement id rows) call.config call.account_user rows

abbrev pub is_thrown : Option Error → Bool
is_thrown none = false
is_thrown (some e) = true

-- The webhook arrived, but the sender threw.
abbrev pub is_unconfirmed : Notified → Bool
is_unconfirmed x = x.has_arrived && is_thrown x.failure

-- Calls for one transaction, one after another.
unfoldable pub notify_all : List Call → String → List MovementRow → List Notified
unfolding notify_movement
notify_all [] id rows = []
notify_all (call ∷ calls) id rows =
    let x = notify_movement call id rows in x ∷ notify_all calls id x.rows
