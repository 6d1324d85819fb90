-- ===== src/Conciliation/Tables.antt =====
-- contexts/conciliation/infrastructure: the tables behind the repositories, with the unique
-- constraints of the migrations, and the statements of each repository as functions on its table.
pub mod Laws
use reconbanker.Common.{
  ℕ, suc, ◌+◌, ◌≤◌, ◌≡◌, Bool, true, false, not, ◌&&◌, ◌||◌, List, [], ◌∷◌, ◌++◌, map, Option, none,
  some, String, Num, ltb, leb, ◌==◌, ◌=s◌, if◌then◌else◌, filter, find, any, count, take, Result,
  ok, err, unique_violation,
}
use reconbanker.Conciliation.Candidate.{Text, CandidateTransaction}
use reconbanker.Conciliation.Request.{
  ConciliationRequest, ConciliationStatus, pending, processing, matched, not_found, ambiguous,
  failed, expired, cancelled, is_terminal_status,
}

-- A row of conciliation_requests.
pub record RequestRow : Type 0 where
  pub id : String
  pub account_id : String
  pub external_id : String
  pub expected_amount : Num
  pub currency : String
  pub sender_name : Option Text
  pub status : ConciliationStatus
  pub idempotency_key : Option String
  pub retry_count : ℕ
  pub last_checked_at : Option ℕ
  pub created_at : ℕ

-- ConciliationRequestRowMapper.toAggregate
unfoldable pub to_aggregate : RequestRow → ConciliationRequest
to_aggregate row = record {
  id = row.id;
  account_id = row.account_id;
  external_id = row.external_id;
  expected_amount = row.expected_amount;
  currency = row.currency;
  sender_name = row.sender_name;
  status = row.status;
  idempotency_key = row.idempotency_key;
  retry_count = row.retry_count;
  last_checked_at = row.last_checked_at;
  created_at = row.created_at;
  domain_events = [];
}

-- The values that an INSERT binds.
unfoldable pub to_row : ConciliationRequest → RequestRow
to_row r = record {
  id = r.id;
  account_id = r.account_id;
  external_id = r.external_id;
  expected_amount = r.expected_amount;
  currency = r.currency;
  sender_name = r.sender_name;
  status = r.status;
  idempotency_key = r.idempotency_key;
  retry_count = r.retry_count;
  last_checked_at = r.last_checked_at;
  created_at = r.created_at;
}

-- A row of conciliated_transactions; is_primary is true in every row that the program writes.
pub record MatchRow : Type 0 where
  pub id : String
  pub account_id : String
  pub request_id : String
  pub bank_transaction_id : String
  pub is_notified : Bool

-- `multiple` is the status 'ambiguous'.
pub data AttemptStatus : Type 0 where
  success no_match multiple : AttemptStatus

-- A row of conciliation_attempts.
pub record AttemptRow : Type 0 where
  pub id : String
  pub account_id : String
  pub request_id : String
  pub attempt_number : ℕ
  pub status : AttemptStatus
  pub failure_type : Option String
  pub candidate_ids : List String
  pub selected_transaction_id : Option String

-- A row of bank_transactions, as far as this context reads it.
pub record BankTxRow : Type 0 where
  pub account_id : String
  pub transaction : CandidateTransaction
  pub excluded : Bool

pub record Db : Type 0 where
  pub requests : List RequestRow
  pub attempts : List AttemptRow
  pub matches : List MatchRow
  pub bank_txs : List BankTxRow

-- ConciliationRequestRepository ---------------------------------------------------------------

abbrev pub find_row : String → List RequestRow → Option RequestRow
find_row id rows = find (λ r. r.id =s id) rows

abbrev pub aggregate? : Option RequestRow → Option ConciliationRequest
aggregate? none = none
aggregate? (some r) = some (to_aggregate r)

unfoldable pub find_by_id : String → List RequestRow → Option ConciliationRequest
unfolding to_aggregate
find_by_id id rows = aggregate? (find_row id rows)

-- FOR UPDATE SKIP LOCKED: a row that another transaction holds is not seen.
unfoldable pub find_by_id_for_update :
    (String → Bool) → String → List RequestRow → Option ConciliationRequest
unfolding find_by_id
find_by_id_for_update locked id rows = if locked id then none else find_by_id id rows

-- The natural key of the ON CONFLICT clause.
abbrev pub same_order : ConciliationRequest → RequestRow → Bool
same_order r row = (row.account_id =s r.account_id) && (row.external_id =s r.external_id)

-- The flag tells whether this call inserted the row.
unfoldable pub create_if_absent :
    ConciliationRequest → List RequestRow → Result (List RequestRow × Bool)
unfolding to_row
create_if_absent r rows =
    if any (same_order r) rows
    then ok (rows, false)
    else if any (λ row. row.id =s r.id) rows
    then err (unique_violation "conciliation_requests_pkey")
    else ok (rows ++ (to_row r ∷ []), true)

abbrev pub is_active_status : ConciliationStatus → Bool
is_active_status cancelled = false
is_active_status expired = false
is_active_status _ = true

unfoldable pub find_active_external_ids : String → List RequestRow → List String
find_active_external_ids account rows =
    map (λ r. r.external_id)
      (filter (λ r. (r.account_id =s account) && is_active_status r.status) rows)

-- status IN ('pending', 'not_found')
abbrev pub is_open_status : ConciliationStatus → Bool
is_open_status pending = true
is_open_status not_found = true
is_open_status _ = false

-- ORDER BY created_at ASC
unfoldable pub insert_by_creation : RequestRow → List RequestRow → List RequestRow
insert_by_creation x [] = x ∷ []
insert_by_creation x (y ∷ l) =
    let rest = insert_by_creation x l in
    if ltb y.created_at x.created_at then y ∷ rest else x ∷ y ∷ l

unfoldable pub order_by_creation : List RequestRow → List RequestRow
unfolding insert_by_creation
order_by_creation [] = []
order_by_creation (x ∷ l) = insert_by_creation x (order_by_creation l)

unfoldable pub find_pending_by_account :
    (String → Bool) → String → List RequestRow → List ConciliationRequest
unfolding to_aggregate order_by_creation
find_pending_by_account locked account rows = map to_aggregate (
    order_by_creation (
      filter (λ r. (r.account_id =s account) && is_open_status r.status && not (locked r.id)) rows))

-- The ids and accounts of stale requests, at most `limit` of them.
unfoldable pub find_stale : ℕ → ℕ → List RequestRow → List (String × String)
find_stale older_than limit rows = take limit (
    map (λ r. (r.id, r.account_id))
      (filter (λ r. is_open_status r.status && leb r.created_at older_than) rows))

unfoldable pub has_active_requests : String → List RequestRow → Bool
has_active_requests account rows =
    any (λ r. (r.account_id =s account) && is_open_status r.status) rows

-- status IN ('pending', 'processing', 'not_found', 'ambiguous', 'failed')
abbrev is_cancellable_status : ConciliationStatus → Bool
is_cancellable_status pending = true
is_cancellable_status processing = true
is_cancellable_status not_found = true
is_cancellable_status ambiguous = true
is_cancellable_status failed = true
is_cancellable_status _ = false

abbrev pub is_missing : String → List String → RequestRow → Bool
is_missing account present r =
    (r.account_id =s account)
    && is_cancellable_status r.status
    && not (any (λ e. e =s r.external_id) present)

abbrev cancel_row : String → List String → RequestRow → RequestRow
cancel_row account present r =
    if is_missing account present r then record r { status = cancelled } else r

-- The rows after the UPDATE, and how many it changed.
unfoldable pub cancel_missing : String → List String → List RequestRow → List RequestRow × ℕ
cancel_missing account present rows =
    (map (cancel_row account present) rows, count (is_missing account present) rows)

-- ON CONFLICT (id) DO UPDATE: the status, the retry count and the time of check.
abbrev pub merge_row : ConciliationRequest → RequestRow → RequestRow
merge_row r row =
    if row.id =s r.id
    then record row {
      status = r.status;
      retry_count = r.retry_count;
      last_checked_at = r.last_checked_at;
    }
    else row

unfoldable pub save_request : ConciliationRequest → List RequestRow → Result (List RequestRow)
unfolding to_row
save_request r rows =
    if any (λ row. row.id =s r.id) rows
    then ok (map (merge_row r) rows)
    else if any (same_order r) rows
    then err (unique_violation "uq_conciliation_request_external")
    else ok (rows ++ (to_row r ∷ []))

-- ConciliatedTransactionRepository ------------------------------------------------------------

-- The INSERT, with the unique constraints in the order in which the database checks them.
unfoldable pub save_match : MatchRow → List MatchRow → Result (List MatchRow)
save_match m rows =
    if any (λ x. x.id =s m.id) rows
    then err (unique_violation "conciliated_transactions_pkey")
    else if any
        (λ x. (x.request_id =s m.request_id) && (x.bank_transaction_id =s m.bank_transaction_id))
        rows
    then err (unique_violation "uq_conciliated_pair")
    else if any (λ x. x.request_id =s m.request_id) rows
    then err (unique_violation "uq_conciliated_primary")
    else if any (λ x. x.bank_transaction_id =s m.bank_transaction_id) rows
    then err (unique_violation "uq_conciliated_bank_tx_primary")
    else ok (rows ++ (m ∷ []))

unfoldable pub find_primary_by_request : String → List MatchRow → Option MatchRow
find_primary_by_request request rows = find (λ x. x.request_id =s request) rows

unfoldable pub mark_notified : String → List MatchRow → List MatchRow
mark_notified id rows = map (λ x. if x.id =s id then record x { is_notified = true } else x) rows

-- ConciliationAttemptRepository ---------------------------------------------------------------

unfoldable pub save_attempt : AttemptRow → List AttemptRow → Result (List AttemptRow)
save_attempt a rows =
    if any (λ x. x.id =s a.id) rows
    then err (unique_violation "conciliation_attempts_pkey")
    else if any (λ x. (x.request_id =s a.request_id) && x.attempt_number == a.attempt_number) rows
    then err (unique_violation "uq_conciliation_attempt_number")
    else ok (rows ++ (a ∷ []))

-- BankTransactionFinderAdapter ----------------------------------------------------------------

unfoldable pub find_candidates_for_account : String → List BankTxRow → List CandidateTransaction
find_candidates_for_account account rows =
    map (λ r. r.transaction) (filter (λ r. (r.account_id =s account) && not r.excluded) rows)

unfoldable pub find_bank_tx : String → List BankTxRow → Option BankTxRow
find_bank_tx id rows = find (λ r. r.transaction.id =s id) rows

abbrev excluded? : Option BankTxRow → Bool
excluded? none = false
excluded? (some r) = r.excluded

unfoldable pub is_excluded : String → List BankTxRow → Bool
unfolding find_bank_tx
is_excluded id rows = excluded? (find_bank_tx id rows)

unfoldable pub mark_excluded : String → List BankTxRow → List BankTxRow
mark_excluded id rows =
    map (λ r. if r.transaction.id =s id then record r { excluded = true } else r) rows
