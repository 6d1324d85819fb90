-- ===== src/Conciliation/Incoming.antt =====
-- contexts/conciliation/application/ProcessIncomingTransactionUseCase.ts and
-- OnTransactionIngestedUseCase.ts.
pub mod Effects
use reconbanker.Common.{
  ℕ, ◌+◌, Bool, true, false, List, [], ◌∷◌, Option, none, some, String, if◌then◌else◌, Result, ok,
  err, ◌>>=◌,
}
use reconbanker.Conciliation.Candidate.{Text, CandidateTransaction}
use reconbanker.Conciliation.Engine.{MatchStatus, evaluate}
use reconbanker.Conciliation.Request.{ConciliationRequest, mark_processing, mark_matched}
use reconbanker.Conciliation.Tables.{
  Db, BankTxRow, success, find_pending_by_account, find_bank_tx, is_excluded, mark_excluded,
  save_match, save_attempt, save_request, has_active_requests,
}
use reconbanker.Conciliation.Run.{
  Env, Ran, Work, Outcome, returned, returned_null, unit_of_work, request_data,
}

abbrev pub is_match : MatchStatus → Bool
is_match MatchStatus.matched = true
is_match _ = false

unfoldable pub settle_winner : Env → String → Db → ConciliationRequest → Result Outcome
unfolding mark_processing mark_matched save_match save_attempt save_request mark_excluded
settle_winner env tx db winner = do
  p ← mark_processing env.now winner
  r ← mark_matched tx p
  matches ←
      save_match
        (record {
          id = env.match_id;
          account_id = r.account_id;
          request_id = r.id;
          bank_transaction_id = tx;
          is_notified = false;
        })
        db.matches
  attempts ←
      save_attempt
        (record {
          id = env.attempt_id;
          account_id = r.account_id;
          request_id = r.id;
          attempt_number = r.retry_count + 1;
          status = success;
          failure_type = none;
          candidate_ids = tx ∷ [];
          selected_transaction_id = some tx;
        })
        db.attempts
  requests ← save_request r db.requests
  ok (
      returned (record {
        db = record {
          requests = requests;
          attempts = attempts;
          matches = matches;
          bank_txs = mark_excluded tx db.bank_txs;
        };
        request = r;
      }))

-- No request wants the transaction: it is excluded, and that is committed.
unfoldable pub settle_found : Env → String → Db → Option ConciliationRequest → Result Outcome
unfolding settle_winner mark_excluded
settle_found env tx db none =
    ok (returned_null (record db { bank_txs = mark_excluded tx db.bank_txs }))
settle_found env tx db (some winner) = settle_winner env tx db winner

module _ (lower_nfd : Text → Text) where
  -- engine.evaluate(reqData, [candidate]).status === 'matched'
  unfoldable pub wants : CandidateTransaction → ConciliationRequest → Bool
  unfolding evaluate
  wants candidate r = is_match (evaluate lower_nfd (request_data r) (candidate ∷ [])).status

  -- The loop over the pending requests, up to its `break`.
  unfoldable pub first_winner :
      CandidateTransaction → List ConciliationRequest → Option ConciliationRequest
  unfolding wants
  first_winner candidate [] = none
  first_winner candidate (r ∷ rs) =
      let rest = first_winner candidate rs in if wants candidate r then some r else rest

  unfoldable pub process_found : Env → String → Db → Option BankTxRow → Result Outcome
  unfolding is_excluded find_pending_by_account first_winner settle_found
  process_found env tx db none = ok (returned_null db)
  process_found env tx db (some row) =
      if is_excluded tx db.bank_txs
      then ok (returned_null db)
      else settle_found env tx db (
          first_winner row.transaction
            (find_pending_by_account env.locked row.account_id db.requests))

  -- ProcessIncomingTransactionUseCase.execute. The row of the transaction is locked.
  unfoldable pub process_incoming : Env → String → Db → Ran
  unfolding process_found unit_of_work find_bank_tx
  process_incoming env tx db =
      unit_of_work db (process_found env tx db (find_bank_tx tx db.bank_txs))

-- OnTransactionIngestedUseCase.execute: the tables after it, and whether the transaction was
-- enqueued for `process_incoming`.
unfoldable pub on_transaction_ingested : String → String → Db → Db × Bool
unfolding has_active_requests mark_excluded
on_transaction_ingested tx account db =
    if has_active_requests account db.requests
    then (db, true)
    else (record db { bank_txs = mark_excluded tx db.bank_txs }, false)
