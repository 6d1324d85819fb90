-- ===== src/Conciliation/Run.antt =====
-- contexts/conciliation/application/RunConciliationUseCase.ts, over a unit of work
-- (shared/persistence/PgUnitOfWork.ts).
-- The row of the request is locked, so it is read as it will be written. The candidates are read
-- with no lock: they come from `seen`, the bank transactions as the query saw them, and another
-- transaction may have changed the table since.
pub mod Effects
pub mod Stuck
use reconbanker.Common.{
  ℕ, ◌+◌, Bool, true, false, List, [], ◌∷◌, Option, none, some, String, ◌=s◌, if◌then◌else◌, Result,
  ok, err, Error, unique_violation, validation_error, ◌>>=◌, ◌>>◌,
}
use reconbanker.Events.{DomainEvent}
use reconbanker.Conciliation.Candidate.{Text, CandidateTransaction, RequestData}
use reconbanker.Conciliation.Engine.{MatchResult, MatchStatus, evaluate}
use reconbanker.Conciliation.Request.{
  ConciliationRequest, is_terminal, mark_processing, mark_matched, mark_not_found, mark_ambiguous,
}
use reconbanker.Conciliation.Tables.{
  Db, BankTxRow, MatchRow, AttemptRow, success, no_match, multiple, find_by_id_for_update,
  save_match, save_attempt, save_request, find_candidates_for_account, mark_excluded,
}

-- What the run takes from outside: the clock, the ids of crypto.randomUUID(), the rows that other
-- transactions hold.
pub record Env : Type 0 where
  pub now : ℕ
  pub attempt_id : String
  pub match_id : String
  pub locked : String → Bool

-- A use case that returned or threw: the tables after it, the events that it published, and the
-- error that left it.
pub record Ran : Type 0 where
  pub db : Db
  pub published : List DomainEvent
  pub failure : Option Error

-- What the transaction hands to its caller: the tables to commit and the request.
pub record Work : Type 0 where
  pub db : Db
  pub request : ConciliationRequest

-- The transaction's function returned null, with the tables that it leaves to commit, or work done.
pub data Outcome : Type 0 where
  returned_null : Db → Outcome
  returned : Work → Outcome

-- isUniqueViolation(err, constraint)
abbrev pub is_unique_violation : Error → String → Bool
is_unique_violation (unique_violation c) constraint = c =s constraint
is_unique_violation _ constraint = false

-- PgUnitOfWork.run with the use case's `catch`: an error rolls the tables back, and the loser of a
-- double match returns.
unfoldable pub unit_of_work : Db → Result Outcome → Ran
unit_of_work db (ok (returned_null db')) = record { db = db'; published = []; failure = none }
unit_of_work db (ok (returned w)) = record {
  db = w.db;
  published = w.request.domain_events;
  failure = none;
}
unit_of_work db (err e) = record {
  db = db;
  published = [];
  failure = if is_unique_violation e "uq_conciliated_bank_tx_primary" then none else some e;
}

abbrev pub request_data : ConciliationRequest → RequestData
request_data r = record {
  expected_amount = r.expected_amount;
  currency = r.currency;
  sender_name = r.sender_name;
  created_at = r.created_at;
}

-- The branch of a match. A status `matched` comes with an id.
unfoldable pub settle_match :
    Env → ℕ → MatchResult → Option String → Db → ConciliationRequest → Result Work
unfolding mark_matched save_match save_attempt save_request mark_excluded
settle_match env number result none db r = err (validation_error "bankTransactionId")
settle_match env number result (some tx) db r = do
  r' ← mark_matched tx r
  matches ←
      save_match
        (record {
          id = env.match_id;
          account_id = r.account_id;
          request_id = r.id;
          bank_transaction_id = tx;
          is_notified = false;
        })
        db.matches
  let bank_txs = mark_excluded tx db.bank_txs
  attempts ←
      save_attempt
        (record {
          id = env.attempt_id;
          account_id = r.account_id;
          request_id = r.id;
          attempt_number = number;
          status = success;
          failure_type = none;
          candidate_ids = result.candidate_ids;
          selected_transaction_id = some tx;
        })
        db.attempts
  requests ← save_request r' db.requests
  ok (record {
    db = record {
      requests = requests;
      attempts = attempts;
      matches = matches;
      bank_txs = bank_txs;
    };
    request = r';
  })

-- The other branch: `ambiguous`, or nothing found.
unfoldable pub settle_miss : Env → ℕ → MatchResult → Bool → Db → ConciliationRequest → Result Work
unfolding mark_not_found mark_ambiguous save_attempt save_request
settle_miss env number result is_ambiguous db r = do
  r' ← if is_ambiguous then mark_ambiguous r else mark_not_found r
  attempts ←
      save_attempt
        (record {
          id = env.attempt_id;
          account_id = r.account_id;
          request_id = r.id;
          attempt_number = number;
          status = if is_ambiguous then multiple else no_match;
          failure_type = some (if is_ambiguous then "multiple_candidates" else "rule_miss");
          candidate_ids = result.candidate_ids;
          selected_transaction_id = none;
        })
        db.attempts
  requests ← save_request r' db.requests
  ok (record { db = record db { requests = requests; attempts = attempts }; request = r' })

-- From the result of the engine on.
unfoldable pub settle : Env → MatchStatus → MatchResult → Db → ConciliationRequest → Result Work
unfolding settle_match settle_miss mark_processing
settle env MatchStatus.matched result db request = do
  r ← mark_processing env.now request
  settle_match env (request.retry_count + 1) result result.transaction_id db r
settle env MatchStatus.ambiguous result db request = do
  r ← mark_processing env.now request
  settle_miss env (request.retry_count + 1) result true db r
settle env MatchStatus.not_found result db request = do
  r ← mark_processing env.now request
  settle_miss env (request.retry_count + 1) result false db r

module _ (lower_nfd : Text → Text) where
  -- engine.evaluate(request, candidates)
  unfoldable pub judge : List BankTxRow → ConciliationRequest → MatchResult
  unfolding find_candidates_for_account evaluate
  judge seen r = evaluate lower_nfd (request_data r) (find_candidates_for_account r.account_id seen)

  unfoldable pub run_found : Env → List BankTxRow → Db → Option ConciliationRequest → Result Outcome
  unfolding judge settle
  run_found env seen db none = ok (returned_null db)
  run_found env seen db (some r) =
      if is_terminal r
      then ok (returned_null db)
      else settle env (judge seen r).status (judge seen r) db r >>= λ w. ok (returned w)

  -- RunConciliationUseCase.execute
  unfoldable pub run_conciliation : Env → List BankTxRow → String → Db → Ran
  unfolding run_found unit_of_work find_by_id_for_update
  run_conciliation env seen request_id db =
      unit_of_work db
        (run_found env seen db (find_by_id_for_update env.locked request_id db.requests))
