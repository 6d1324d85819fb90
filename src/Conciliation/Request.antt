-- ===== src/Conciliation/Request.antt =====
-- contexts/conciliation/domain/ConciliationRequest.ts: the aggregate of one pending order.
pub mod Lifecycle
use reconbanker.Common.{
  ℕ, ◌+◌, ◌≡◌, Bool, true, false, not, List, [], ◌∷◌, ◌++◌, Option, none, some, String, Num, ltb,
  ◌=s◌, if◌then◌else◌, is_finite_positive, Result, ok, err, Error, validation_error, conflict_error,
  ◌>>=◌, ◌>>◌, ◌||◌, utf16_length, require,
}
use reconbanker.Events.{
  DomainEvent, conciliation_matched, conciliation_failed, conciliation_expired,
  conciliation_cancelled,
}
use reconbanker.Conciliation.Candidate.{Text}

pub data ConciliationStatus : Type 0 where
  pending processing matched not_found ambiguous failed expired cancelled : ConciliationStatus

-- TERMINAL_STATUSES.includes(status)
abbrev pub is_terminal_status : ConciliationStatus → Bool
is_terminal_status matched = true
is_terminal_status cancelled = true
is_terminal_status expired = true
is_terminal_status _ = false

-- The aggregate's props, its id, and the events that it has collected since the last clear.
pub record ConciliationRequest : Type 0 where
  pub id : String
  pub account_id : String
  pub external_id : String
  pub expected_amount : Num
  pub currency : String
  pub sender_name : Option Text
  pub status : ConciliationStatus
  pub idempotency_key : Option String
  pub retry_count : ℕ
  pub last_checked_at : Option ℕ
  pub created_at : ℕ
  pub domain_events : List DomainEvent

pub record CreateProps : Type 0 where
  pub account_id : String
  pub external_id : String
  pub expected_amount : Num
  pub currency : String
  pub sender_name : Option Text
  pub idempotency_key : Option String
  pub last_checked_at : Option ℕ

-- `now` is new Date().
unfoldable pub create : ℕ → String → CreateProps → Result ConciliationRequest
create now id props = do
  require (not (props.account_id =s "")) (validation_error "accountId")
  require (not (props.external_id =s "")) (validation_error "externalId")
  require (is_finite_positive props.expected_amount) (validation_error "expectedAmount")
  require (not (props.currency =s "" || ltb (utf16_length props.currency) 3))
      (validation_error "currency")
  ok (record {
    id = id;
    account_id = props.account_id;
    external_id = props.external_id;
    expected_amount = props.expected_amount;
    currency = props.currency;
    sender_name = props.sender_name;
    status = pending;
    idempotency_key = props.idempotency_key;
    retry_count = 0;
    last_checked_at = props.last_checked_at;
    created_at = now;
    domain_events = [];
  })

abbrev pub is_terminal : ConciliationRequest → Bool
is_terminal r = is_terminal_status r.status

abbrev add_domain_event : DomainEvent → ConciliationRequest → ConciliationRequest
add_domain_event e r = record r { domain_events = r.domain_events ++ (e ∷ []) }

unfoldable pub clear_domain_events : ConciliationRequest → ConciliationRequest
clear_domain_events r = record r { domain_events = [] }

abbrev guard_not_terminal : String → ConciliationRequest → Result (Unit {0})
guard_not_terminal action r = require (not (is_terminal r)) (conflict_error action)

unfoldable pub mark_processing : ℕ → ConciliationRequest → Result ConciliationRequest
mark_processing now r = do
  guard_not_terminal "markProcessing" r
  ok (record r { status = processing; last_checked_at = some now })

unfoldable pub mark_matched : String → ConciliationRequest → Result ConciliationRequest
mark_matched tx r = do
  require (not (tx =s "")) (validation_error "bankTransactionId")
  guard_not_terminal "markMatched" r
  ok (add_domain_event (conciliation_matched r.id r.account_id tx) (record r { status = matched }))

unfoldable pub mark_not_found : ConciliationRequest → Result ConciliationRequest
mark_not_found r = do
  guard_not_terminal "markNotFound" r
  ok (
      add_domain_event (conciliation_failed r.id r.account_id "not_found")
        (record r { status = not_found; retry_count = r.retry_count + 1 }))

unfoldable pub mark_ambiguous : ConciliationRequest → Result ConciliationRequest
mark_ambiguous r = do
  guard_not_terminal "markAmbiguous" r
  ok (
      add_domain_event (conciliation_failed r.id r.account_id "ambiguous")
        (record r { status = ambiguous }))

unfoldable pub mark_failed : ConciliationRequest → Result ConciliationRequest
mark_failed r = do
  guard_not_terminal "markFailed" r
  ok (
      add_domain_event (conciliation_failed r.id r.account_id "system_error")
        (record r { status = failed; retry_count = r.retry_count + 1 }))

unfoldable pub mark_expired : ConciliationRequest → ConciliationRequest
mark_expired r =
    if is_terminal r
    then r
    else add_domain_event (conciliation_expired r.id r.account_id) (record r { status = expired })

unfoldable pub mark_cancelled : ConciliationRequest → ConciliationRequest
mark_cancelled r =
    if is_terminal r
    then r
    else add_domain_event (conciliation_cancelled r.id r.account_id)
        (record r { status = cancelled })

-- One call of a method of the aggregate.
pub data Call : Type 0 where
  processes : ℕ → Call
  matches : String → Call
  not_founds ambiguates fails expires cancels clears : Call

unfoldable pub call : Call → ConciliationRequest → Result ConciliationRequest
unfolding mark_processing mark_matched mark_not_found mark_ambiguous mark_failed mark_expired
    mark_cancelled clear_domain_events
call (processes now) r = mark_processing now r
call (matches tx) r = mark_matched tx r
call not_founds r = mark_not_found r
call ambiguates r = mark_ambiguous r
call fails r = mark_failed r
call expires r = ok (mark_expired r)
call cancels r = ok (mark_cancelled r)
call clears r = ok (clear_domain_events r)
