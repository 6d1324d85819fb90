-- ===== src/Conciliation/Incoming/Effects.antt =====
-- ProcessIncomingTransactionUseCase moves the tables by at most one match.
use reconbanker.Common.{
  ◌≡◌, refl, inl, inr, Bool, false, List, [], ◌∷◌, map, Option, none, some, String, arith, ok,
  >>=-eq-ok, Bool-cases,
}
use reconbanker.Conciliation.Candidate.{Text, CandidateTransaction}
use reconbanker.Conciliation.Request.{ConciliationRequest, mark_processing, mark_matched}
use reconbanker.Conciliation.Tables.{
  Db, BankTxRow, RequestRow, find_pending_by_account, to_aggregate, find_bank_tx, is_excluded,
  save_match, save_attempt, save_request,
}
use reconbanker.Conciliation.Tables.Laws.{save_request-matched_at, save_match-fresh}
use reconbanker.Conciliation.Moves.{Moves, keeps, wins, stay}
use reconbanker.Conciliation.Run.{Env, Work, returned, returned_null, unit_of_work}
use reconbanker.Conciliation.Run.Effects.{mark_processing-ok, mark_matched-ok, unit-Moves}
use reconbanker.Conciliation.Incoming.{
  first_winner, settle_winner, settle_found, process_found, process_incoming,
}

settle_winner-Moves :
    (env : Env) (tx : String) (db : Db) (r : ConciliationRequest) (w : Work)
    → r.domain_events ≡ []
    → settle_winner env tx db r ≡ ok (returned w)
    → Moves db w.db w.request.domain_events
unfolding settle_winner
settle_winner-Moves env tx db r₀ w e h =
    let (r, p, h₀) = >>=-eq-ok (mark_processing env.now r₀) _ h in
    let (r', m, h₁) = >>=-eq-ok (mark_matched tx r) _ h₀ in
    let (ms, s, h₂) = >>=-eq-ok (save_match _ db.matches) _ h₁ in
    let (ats, a, h₃) = >>=-eq-ok (save_attempt _ db.attempts) _ h₂ in
    let (rs, q, h₄) = >>=-eq-ok (save_request r' db.requests) _ h₃ in
    let (i₀, d₀) = mark_processing-ok env.now r₀ r p in
    let (i, ac, st, ev) = mark_matched-ok tx r r' m in
    let (eq, fr, ft) = save_match-fresh _ db.matches ms s in
    wins
      (record {
        id = env.match_id;
        account_id = r'.account_id;
        request_id = r'.id;
        bank_transaction_id = tx;
        is_notified = false;
      })
      (λ j. ground (arith, h₄, save_request-matched_at j r' db.requests rs q, st))
      (ground (arith, h₄, eq)) fr ft (ground (arith, h₄, ev, e, d₀, i, ac))

settle_winner-null :
    (env : Env) (tx : String) (db db' : Db) (r : ConciliationRequest)
    → ¬ (settle_winner env tx db r ≡ ok (returned_null db'))
unfolding settle_winner
settle_winner-null env tx db db' r h =
    let (r, p, h₀) = >>=-eq-ok (mark_processing env.now r) _ h in
    let (r', m, h₁) = >>=-eq-ok (mark_matched tx r) _ h₀ in
    let (ms, s, h₂) = >>=-eq-ok (save_match _ db.matches) _ h₁ in
    let (ats, a, h₃) = >>=-eq-ok (save_attempt _ db.attempts) _ h₂ in
    let (rs, q, h₄) = >>=-eq-ok (save_request r' db.requests) _ h₃ in ground (arith, h₄)

module _ (lower_nfd : Text → Text) where
  first_winner-events :
      (c : CandidateTransaction) (rows : List RequestRow) (r : ConciliationRequest)
      → first_winner lower_nfd c (map to_aggregate rows) ≡ some r
      → r.domain_events ≡ []
  unfolding first_winner to_aggregate
  first_winner-events c [] r h = cc
  first_winner-events c (x ∷ rows) r h = ground (arith, first_winner-events c rows r)

  pending-events :
      (c : CandidateTransaction) (locked : String → Bool) (account : String)
      (rows : List RequestRow) (r : ConciliationRequest)
      → first_winner lower_nfd c (find_pending_by_account locked account rows) ≡ some r
      → r.domain_events ≡ []
  unfolding find_pending_by_account
  pending-events c locked account rows r h = first_winner-events c _ r h

  settle_found-Moves :
      (env : Env) (tx : String) (db : Db) (o : Option ConciliationRequest)
      → ((r : ConciliationRequest) → o ≡ some r → r.domain_events ≡ [])
      → let x = unit_of_work db (settle_found env tx db o) in Moves db x.db x.published
  unfolding settle_found
  settle_found-Moves env tx db none f = unfold unit_of_work in keeps (λ j. refl) refl refl
  settle_found-Moves env tx db (some r) f =
      unit-Moves db (settle_winner env tx db r)
        (λ db' h. absurd (settle_winner-null env tx db db' r h))
        (λ w h. settle_winner-Moves env tx db r w (f r refl) h)

  process_found-Moves :
      (env : Env) (tx : String) (db : Db) (o : Option BankTxRow)
      → let x = unit_of_work db (process_found lower_nfd env tx db o) in Moves db x.db x.published
  unfolding process_found
  process_found-Moves env tx db none = unfold unit_of_work in stay
  process_found-Moves env tx db (some row) = elim (Bool-cases (is_excluded tx db.bank_txs)) [
    | inl e ↦ rw (e, process_found) (unfold unit_of_work in stay)
    | inr e ↦
        rw (e, process_found)
          (settle_found-Moves env tx db _
            (λ r h. pending-events row.transaction env.locked row.account_id db.requests r h))
  ]

  -- An incoming transaction makes at most one match, of a request that had none with a transaction
  -- that had none, and publishes exactly the event of that match.
  pub process_incoming-Moves :
      (env : Env) (tx : String) (db : Db)
      → let x = process_incoming lower_nfd env tx db in Moves db x.db x.published
  unfolding process_incoming
  process_incoming-Moves env tx db = process_found-Moves env tx db (find_bank_tx tx db.bank_txs)
