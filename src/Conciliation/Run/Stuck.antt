-- ===== src/Conciliation/Run/Stuck.antt =====
-- The attempt number of a run is the retry count plus one, and the table takes each number of a
-- request once. A run that ends as ambiguous does not raise the retry count.
use reconbanker.Common.{
  ℕ, ◌+◌, ◌≡◌, refl, ◌∙◌, inl, inr, Bool, true, false, ◌&&◌, List, [], ◌∷◌, map, Option, none, some,
  String, arith, ◌=s◌, =s_iff, =s_refl, ◌==◌, if◌then◌else◌, any, any-append, is_empty, Result, ok,
  err, >>=-eq-ok, Bool-cases,
}
use reconbanker.Conciliation.Candidate.{Text}
use reconbanker.Conciliation.Engine.{MatchResult, MatchStatus}
use reconbanker.Conciliation.Request.{
  ConciliationRequest, is_terminal, mark_processing, mark_matched, mark_not_found, mark_ambiguous,
}
use reconbanker.Conciliation.Tables.{
  Db, BankTxRow, RequestRow, find_row, aggregate?, AttemptRow, find_by_id, find_by_id_for_update,
  save_match, save_attempt, save_request, to_aggregate, merge_row,
}
use reconbanker.Conciliation.Tables.Laws.{find_by_id-row}
use reconbanker.Conciliation.Run.{
  Env, Work, Outcome, returned, returned_null, unit_of_work, settle_match, settle_miss, settle,
  judge, run_found, run_conciliation,
}

abbrev pub has_attempt : String → ℕ → List AttemptRow → Bool
has_attempt id n rows = any (λ x. (x.request_id =s id) && x.attempt_number == n) rows

attempt_taken :
    (a : AttemptRow) (rows rows' : List AttemptRow)
    → has_attempt a.request_id a.attempt_number rows ≡ true
    → ¬ (save_attempt a rows ≡ ok rows')
unfolding save_attempt
attempt_taken a rows rows' h e = ground arith

match_taken :
    (env : Env) (n : ℕ) (res : MatchResult) (tx : Option String) (db : Db) (r : ConciliationRequest)
    (w : Work)
    → has_attempt r.id n db.attempts ≡ true
    → ¬ (settle_match env n res tx db r ≡ ok w)
unfolding settle_match
match_taken env n res none db r w t h = cc
match_taken env n res (some tx) db r w t h =
    let (r', m, h₁) = >>=-eq-ok (mark_matched tx r) _ h in
    let (ms, s, h₂) = >>=-eq-ok (save_match _ db.matches) _ h₁ in
    let (ats, a, h₃) = >>=-eq-ok (save_attempt _ db.attempts) _ h₂ in
    attempt_taken _ db.attempts ats t a

miss_taken :
    (env : Env) (n : ℕ) (res : MatchResult) (b : Bool) (db : Db) (r : ConciliationRequest)
    (w : Work)
    → has_attempt r.id n db.attempts ≡ true
    → ¬ (settle_miss env n res b db r ≡ ok w)
unfolding settle_miss
miss_taken env n res b db r w t h =
    let (r', m, h₁) = >>=-eq-ok (if b then mark_ambiguous r else mark_not_found r) _ h in
    let (ats, a, h₂) = >>=-eq-ok (save_attempt _ db.attempts) _ h₁ in
    attempt_taken _ db.attempts ats t a

processing-id :
    (now : ℕ) (r r' : ConciliationRequest) → mark_processing now r ≡ ok r' → r'.id ≡ r.id
unfolding mark_processing
processing-id now r r' h = ground arith

ambiguous-same :
    (now : ℕ) (r p r' : ConciliationRequest)
    → mark_processing now r ≡ ok p
    → mark_ambiguous p ≡ ok r'
    → (r'.id ≡ r.id) × (p.id ≡ r.id) × (r'.retry_count ≡ r.retry_count)
unfolding mark_processing mark_ambiguous
ambiguous-same now r p r' m a = ground arith

saved-attempt :
    (a : AttemptRow) (rows rows' : List AttemptRow)
    → save_attempt a rows ≡ ok rows'
    → has_attempt a.request_id a.attempt_number rows' ≡ true
unfolding save_attempt
saved-attempt a rows rows' h = ground (
  arith,
  any-append (λ x. (x.request_id =s a.request_id) && x.attempt_number == a.attempt_number) rows
      (a ∷ []),
  =s_refl a.request_id,
)

settle_taken :
    (env : Env) (s : MatchStatus) (res : MatchResult) (db : Db) (r : ConciliationRequest) (w : Work)
    → has_attempt r.id (r.retry_count + 1) db.attempts ≡ true
    → ¬ (settle env s res db r ≡ ok w)
unfolding settle
settle_taken env MatchStatus.matched res db r w t h =
    let (r', m, k) = >>=-eq-ok (mark_processing env.now r) _ h in
    match_taken env _ res res.transaction_id db r' w (rw (processing-id env.now r r' m) t) k
settle_taken env MatchStatus.ambiguous res db r w t h =
    let (r', m, k) = >>=-eq-ok (mark_processing env.now r) _ h in
    miss_taken env _ res true db r' w (rw (processing-id env.now r r' m) t) k
settle_taken env MatchStatus.not_found res db r w t h =
    let (r', m, k) = >>=-eq-ok (mark_processing env.now r) _ h in
    miss_taken env _ res false db r' w (rw (processing-id env.now r r' m) t) k

-- The row of a request after the request is saved.
merged-row :
    (r' : ConciliationRequest) (rows : List RequestRow) (x : RequestRow)
    → find_row r'.id rows ≡ some x
    → (find_row r'.id (map (merge_row r') rows) ≡ some (merge_row r' x))
      × (x.id ≡ r'.id)
      × (any (λ row. row.id =s r'.id) rows ≡ true)
merged-row r' [] x f = cc
merged-row r' (y ∷ rows) x f = ground (arith, =s_iff y.id r'.id, merged-row r' rows x)

saved-row :
    (id : String) (r' : ConciliationRequest) (rows rows' : List RequestRow)
    (r : ConciliationRequest)
    → find_by_id id rows ≡ some r
    → r'.id ≡ id
    → save_request r' rows ≡ ok rows'
    → (x : ConciliationRequest) × (find_by_id id rows' ≡ some x)
      × (x.id ≡ id)
      × (x.retry_count ≡ r'.retry_count)
unfolding find_by_id save_request to_aggregate
saved-row id r' rows rows' r f i h = go (find_row id rows) refl f
  where
    go :
        (o : Option RequestRow)
        → find_row id rows ≡ o
        → aggregate? o ≡ some r
        → (x : ConciliationRequest) × (find_by_id id rows' ≡ some x)
          × (x.id ≡ id)
          × (x.retry_count ≡ r'.retry_count)
    go none e f = cc
    go (some x) e f =
        let (m, xi, t) = merged-row r' rows x (rw i e) in
        (
          to_aggregate (merge_row r' x),
          ground (arith, h, t, m, i),
          ground (arith, xi, i, =s_refl r'.id),
          ground (arith, xi, i, =s_refl r'.id),
        )

module _ (lower_nfd : Text → Text) where
  -- If the next attempt number of a request is taken, a run on it leaves the tables as they are and
  -- publishes nothing.
  found_taken :
      (env : Env) (seen : List BankTxRow) (db : Db) (r : ConciliationRequest) (o : Result Outcome)
      → has_attempt r.id (r.retry_count + 1) db.attempts ≡ true
      → run_found lower_nfd env seen db (some r) ≡ o
      → ((unit_of_work db o).db ≡ db) × ((unit_of_work db o).published ≡ [])
  unfolding run_found unit_of_work
  found_taken env seen db r (err e) t h = (refl, refl)
  found_taken env seen db r (ok (returned_null db')) t h = ground (arith, h)
  found_taken env seen db r (ok (returned w)) t h = elim (Bool-cases (is_terminal r)) [
    | inl q ↦ absurd (ground (arith, h, q))
    | inr q ↦ absurd (
        settle_taken env (judge lower_nfd seen r).status (judge lower_nfd seen r) db r w t
          (ground (arith, h, q)))
  ]

  locked_none :
      (env : Env) (seen : List BankTxRow) (db : Db)
      → let x = unit_of_work db (run_found lower_nfd env seen db none) in
        (x.db ≡ db) × (x.published ≡ [])
  unfolding run_found unit_of_work
  locked_none env seen db = (refl, refl)

  run_taken :
      (env : Env) (seen : List BankTxRow) (id : String) (db : Db) (r : ConciliationRequest)
      → find_by_id id db.requests ≡ some r
      → has_attempt r.id (r.retry_count + 1) db.attempts ≡ true
      → let x = run_conciliation lower_nfd env seen id db in (x.db ≡ db) × (x.published ≡ [])
  unfolding run_conciliation find_by_id_for_update
  run_taken env seen id db r f t = elim (Bool-cases (env.locked id)) [
    | inl l ↦ rw l (locked_none env seen db)
    | inr l ↦ rw (l, f) (found_taken env seen db r _ t refl)
  ]

  -- The work of a run that ended as ambiguous: the next number of the request is taken.
  ambiguous_taken :
      (env : Env) (res : MatchResult) (id : String) (db : Db) (r : ConciliationRequest) (w : Work)
      → find_by_id id db.requests ≡ some r
      → settle env MatchStatus.ambiguous res db r ≡ ok w
      → (x : ConciliationRequest) × (find_by_id id w.db.requests ≡ some x)
        × (has_attempt x.id (x.retry_count + 1) w.db.attempts ≡ true)
  unfolding settle settle_miss
  ambiguous_taken env res id db r w f h =
      let (p, m, h₁) = >>=-eq-ok (mark_processing env.now r) _ h in
      let (r', a, h₂) = >>=-eq-ok (mark_ambiguous p) _ h₁ in
      let (ats, sa, h₃) = >>=-eq-ok (save_attempt _ db.attempts) _ h₂ in
      let (rs, sr, h₄) = >>=-eq-ok (save_request r' db.requests) _ h₃ in
      let (i, pi, n) = ambiguous-same env.now r p r' m a in
      let (ri, _, _) = find_by_id-row id db.requests r f in
      let (x, xf, xi, xn) = saved-row id r' db.requests rs r f (i ∙ ri) sr in
      let t = saved-attempt _ db.attempts ats sa in
      (x, ground (arith, h₄, xf), ground (arith, h₄, t, xi, xn, n, pi, ri))

  committed_found :
      (env : Env) (seen : List BankTxRow) (id : String) (db : Db) (r : ConciliationRequest)
      (o : Result Outcome)
      → find_by_id id db.requests ≡ some r
      → (judge lower_nfd seen r).status ≡ MatchStatus.ambiguous
      → run_found lower_nfd env seen db (some r) ≡ o
      → is_empty (unit_of_work db o).published ≡ false
      → (x : ConciliationRequest) × (find_by_id id (unit_of_work db o).db.requests ≡ some x)
        × (has_attempt x.id (x.retry_count + 1) (unit_of_work db o).db.attempts ≡ true)
  unfolding run_found unit_of_work
  committed_found env seen id db r (err e) f j h p = cc
  committed_found env seen id db r (ok (returned_null db')) f j h p = cc
  committed_found env seen id db r (ok (returned w)) f j h p = elim (Bool-cases (is_terminal r)) [
    | inl q ↦ absurd (ground (arith, h, q))
    | inr q ↦ ambiguous_taken env (judge lower_nfd seen r) id db r w f (ground (arith, h, q, j))
  ]

  committed :
      (env : Env) (seen : List BankTxRow) (id : String) (db : Db) (r : ConciliationRequest)
      → find_by_id id db.requests ≡ some r
      → (judge lower_nfd seen r).status ≡ MatchStatus.ambiguous
      → is_empty (run_conciliation lower_nfd env seen id db).published ≡ false
      → let d = (run_conciliation lower_nfd env seen id db).db in
        (x : ConciliationRequest) × (find_by_id id d.requests ≡ some x)
        × (has_attempt x.id (x.retry_count + 1) d.attempts ≡ true)
  unfolding run_conciliation find_by_id_for_update
  committed env seen id db r f j = elim (Bool-cases (env.locked id)) [
    | inl l ↦ rw l (λ p. absurd (ground (arith, p, locked_none env seen db)))
    | inr l ↦ rw (l, f) (λ p. committed_found env seen id db r _ f j refl p)
  ]

  -- Once a run on a request has found it ambiguous and committed (it published its event), a run of the
  -- request on exactly the tables that it left does nothing: whatever the candidates, the clock and
  -- the ids, the tables stay as they are and no event is published. Nothing is said of a run after
  -- other use cases have changed the tables.
  pub ambiguous_is_stuck :
      (env env' : Env) (seen seen' : List BankTxRow) (id : String) (db : Db)
      (r : ConciliationRequest)
      → find_by_id id db.requests ≡ some r
      → (judge lower_nfd seen r).status ≡ MatchStatus.ambiguous
      → is_empty (run_conciliation lower_nfd env seen id db).published ≡ false
      → let x = run_conciliation lower_nfd env seen id db in
        let y = run_conciliation lower_nfd env' seen' id x.db in (y.db ≡ x.db) × (y.published ≡ [])
  ambiguous_is_stuck env env' seen seen' id db r f j p =
      let (x, xf, t) = committed env seen id db r f j p in
      run_taken env' seen' id (run_conciliation lower_nfd env seen id db).db x xf t
