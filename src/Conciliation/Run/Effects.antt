-- ===== src/Conciliation/Run/Effects.antt =====
-- RunConciliationUseCase moves the tables by at most one match.
use reconbanker.Common.{
  ℕ, ◌≡◌, refl, ap, subst, ◌∙◌, inl, inr, Bool, true, false, List, [], ◌∷◌, ◌++◌, Option, none,
  some, String, arith, if◌then◌else◌, count, Result, ok, err, >>=-eq-ok, Bool-cases,
}
use reconbanker.Events.{conciliation_matched}
use reconbanker.Conciliation.Candidate.{Text}
use reconbanker.Conciliation.Engine.{MatchResult, MatchStatus}
use reconbanker.Conciliation.Request.{
  ConciliationRequest, is_terminal, mark_processing, mark_matched, mark_not_found, mark_ambiguous,
}
use reconbanker.Conciliation.Request.Lifecycle.{is_matched_event, is_matched_status}
use reconbanker.Conciliation.Tables.{
  Db, BankTxRow, find_by_id, find_by_id_for_update, save_match, save_attempt, save_request,
}
use reconbanker.Conciliation.Tables.Laws.{
  keep_matched_at, find_by_id-row, not_matched_of_open, matched_at, save_request-matched_at,
  save_match-fresh,
}
use reconbanker.Conciliation.Moves.{Moves, keeps, wins, stay}
use reconbanker.Conciliation.Run.{
  Env, Work, Outcome, returned, returned_null, unit_of_work, settle_match, settle_miss, settle,
  judge, run_found, run_conciliation,
}

-- What each method leaves when it does not throw.
pub mark_matched-ok :
    (tx : String) (r r' : ConciliationRequest)
    → mark_matched tx r ≡ ok r'
    → (r'.id ≡ r.id)
      × (r'.account_id ≡ r.account_id)
      × (is_matched_status r'.status ≡ true)
      × (r'.domain_events ≡ r.domain_events ++ (conciliation_matched r.id r.account_id tx ∷ []))
unfolding mark_matched
mark_matched-ok tx r r' h = ground arith

miss-ok :
    (b : Bool) (r r' : ConciliationRequest)
    → r.domain_events ≡ []
    → (if b then mark_ambiguous r else mark_not_found r) ≡ ok r'
    → (r'.id ≡ r.id)
      × (is_matched_status r'.status ≡ false)
      × (count is_matched_event r'.domain_events ≡ 0)
unfolding mark_ambiguous mark_not_found
miss-ok b r r' e h = ground arith

settle_match-Moves :
    (env : Env) (n : ℕ) (res : MatchResult) (tx : Option String) (db : Db) (r : ConciliationRequest)
    (w : Work)
    → r.domain_events ≡ []
    → settle_match env n res tx db r ≡ ok w
    → Moves db w.db w.request.domain_events
unfolding settle_match
settle_match-Moves env n res none db r w e h = cc
settle_match-Moves env n res (some tx) db r w e h =
    let (r', m, h₁) = >>=-eq-ok (mark_matched tx r) _ h in
    let (ms, s, h₂) = >>=-eq-ok (save_match _ db.matches) _ h₁ in
    let (ats, a, h₃) = >>=-eq-ok (save_attempt _ db.attempts) _ h₂ in
    let (rs, q, h₄) = >>=-eq-ok (save_request r' db.requests) _ h₃ in
    let (i, ac, st, ev) = mark_matched-ok tx r r' m in
    let (eq, fr, ft) = save_match-fresh _ db.matches ms s in
    wins
      (record {
        id = env.match_id;
        account_id = r.account_id;
        request_id = r.id;
        bank_transaction_id = tx;
        is_notified = false;
      })
      (λ j. ground (arith, h₄, save_request-matched_at j r' db.requests rs q, i, st))
      (ground (arith, h₄, eq)) fr ft (ground (arith, h₄, ev, e))

settle_miss-Moves :
    (env : Env) (n : ℕ) (res : MatchResult) (b : Bool) (db : Db) (r : ConciliationRequest)
    (w : Work)
    → r.domain_events ≡ []
    → matched_at r.id db.requests ≡ false
    → settle_miss env n res b db r ≡ ok w
    → Moves db w.db w.request.domain_events
unfolding settle_miss
settle_miss-Moves env n res b db r w e f h =
    let (r', m, h₁) = >>=-eq-ok (if b then mark_ambiguous r else mark_not_found r) _ h in
    let (ats, a, h₂) = >>=-eq-ok (save_attempt _ db.attempts) _ h₁ in
    let (rs, q, h₃) = >>=-eq-ok (save_request r' db.requests) _ h₂ in
    let (i, st, ev) = miss-ok b r r' e m in
    keeps (λ j. ground (arith, h₃, keep_matched_at j r' db.requests rs st (rw i f) q))
      (ground (arith, h₃)) (ground (arith, h₃, ev))

pub mark_processing-ok :
    (now : ℕ) (r r' : ConciliationRequest)
    → mark_processing now r ≡ ok r'
    → (r'.id ≡ r.id) × (r'.domain_events ≡ r.domain_events)
unfolding mark_processing
mark_processing-ok now r r' h = ground arith

pub settle-Moves :
    (env : Env) (s : MatchStatus) (res : MatchResult) (db : Db) (r : ConciliationRequest) (w : Work)
    → r.domain_events ≡ []
    → matched_at r.id db.requests ≡ false
    → settle env s res db r ≡ ok w
    → Moves db w.db w.request.domain_events
unfolding settle
settle-Moves env MatchStatus.matched res db r w e f h =
    let (r', m, k) = >>=-eq-ok (mark_processing env.now r) _ h in
    let (i, d) = mark_processing-ok env.now r r' m in
    settle_match-Moves env _ res res.transaction_id db r' w (d ∙ e) k
settle-Moves env MatchStatus.ambiguous res db r w e f h =
    let (r', m, k) = >>=-eq-ok (mark_processing env.now r) _ h in
    let (i, d) = mark_processing-ok env.now r r' m in
    settle_miss-Moves env _ res true db r' w (d ∙ e) (rw i f) k
settle-Moves env MatchStatus.not_found res db r w e f h =
    let (r', m, k) = >>=-eq-ok (mark_processing env.now r) _ h in
    let (i, d) = mark_processing-ok env.now r r' m in
    settle_miss-Moves env _ res false db r' w (d ∙ e) (rw i f) k

-- A transaction that makes a move makes it as a use case, also when it is rolled back.
pub unit-Moves :
    (db : Db) (work : Result Outcome)
    → ((db' : Db) → work ≡ ok (returned_null db') → Moves db db' [])
    → ((w : Work) → work ≡ ok (returned w) → Moves db w.db w.request.domain_events)
    → Moves db (unit_of_work db work).db (unit_of_work db work).published
unfolding unit_of_work
unit-Moves db (ok (returned_null db')) n h = n db' refl
unit-Moves db (ok (returned w)) n h = h w refl
unit-Moves db (err e) n h = stay

module _ (lower_nfd : Text → Text) where
  run_found-Moves :
      (env : Env) (seen : List BankTxRow) (db : Db) (id : String) (r : ConciliationRequest)
      (w : Work)
      → find_by_id id db.requests ≡ some r
      → run_found lower_nfd env seen db (some r) ≡ ok (returned w)
      → Moves db w.db w.request.domain_events
  unfolding run_found
  run_found-Moves env seen db id r w f h = elim (Bool-cases (is_terminal r)) [
    | inl t ↦ absurd (ground (arith, h, t))
    | inr t ↦
        let (i, d, m) = find_by_id-row id db.requests r f in
        settle-Moves env (judge lower_nfd seen r).status (judge lower_nfd seen r) db r w d
          (ap (λ k. matched_at k db.requests) i ∙ m ∙ not_matched_of_open r t)
          (ground (arith, h, t))
  ]

  null-Moves :
      (env : Env) (seen : List BankTxRow) (db db' : Db) (r : ConciliationRequest)
      → run_found lower_nfd env seen db (some r) ≡ ok (returned_null db')
      → Moves db db' []
  unfolding run_found
  null-Moves env seen db db' r h =
      let same : db ≡ db' = ground (arith, h) in
      subst (λ d. Moves db d []) same (keeps (λ j. refl) refl refl)

  found-Moves :
      (env : Env) (seen : List BankTxRow) (db : Db) (id : String) (o : Option ConciliationRequest)
      → find_by_id_for_update env.locked id db.requests ≡ o
      → let x = unit_of_work db (run_found lower_nfd env seen db o) in Moves db x.db x.published
  unfolding find_by_id_for_update
  found-Moves env seen db id none f = unfold run_found unit_of_work in stay
  found-Moves env seen db id (some r) f =
      unit-Moves db (run_found lower_nfd env seen db (some r))
        (λ db' h. null-Moves env seen db db' r h)
        (λ w h. run_found-Moves env seen db id r w (ground (arith, f)) h)

  -- Whatever the candidates that it saw, a run makes at most one match, of a request that had none
  -- with a transaction that had none, and publishes exactly the event of that match.
  pub run_conciliation-Moves :
      (env : Env) (seen : List BankTxRow) (id : String) (db : Db)
      → let x = run_conciliation lower_nfd env seen id db in Moves db x.db x.published
  unfolding run_conciliation
  run_conciliation-Moves env seen id db =
      found-Moves env seen db id (find_by_id_for_update env.locked id db.requests) refl
