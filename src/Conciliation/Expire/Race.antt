-- ===== src/Conciliation/Expire/Race.antt =====
-- The expiry with another transaction between `findById` and `save`.
use reconbanker.Common.{
  ◌≡◌, ap, ◌∙◌, none, ok, true, false, List, [], ◌∷◌, some, String, arith, ◌=s◌, =s_iff, any,
}
use reconbanker.Conciliation.Request.{ConciliationRequest, is_terminal, mark_expired}
use reconbanker.Events.{conciliation_expired}
use reconbanker.Conciliation.Tables.{Db, RequestRow, find_by_id, save_request}
use reconbanker.Conciliation.Tables.Laws.{
  matched_at, save_request-matched_at, save_request-ok, find_by_id-row,
}
use reconbanker.Conciliation.Moves.{IsConsistent}
use reconbanker.Conciliation.Expire.{Calls, expire_found, expire_one}
use reconbanker.Conciliation.Expire.Steps.{found-open, notify_first-IsSaved}

any_of_matched :
    (id : String) (rows : List RequestRow)
    → matched_at id rows ≡ true
    → any (λ row. row.id =s id) rows ≡ true
any_of_matched id [] h = cc
any_of_matched id (x ∷ rows) h = ground (arith, any_of_matched id rows)

saved-open :
    (id : String) (rows : List RequestRow) (r : ConciliationRequest)
    → r.id ≡ id
    → is_terminal r ≡ false
    → matched_at id rows ≡ true
    → (rows' : List RequestRow) × (save_request (mark_expired r) rows ≡ ok rows')
      × (matched_at id rows' ≡ false)
unfolding mark_expired
saved-open id rows r i t m =
    let a : any (λ row. row.id =s r.id) rows ≡ true = rw i (any_of_matched id rows m) in
    let (rows', s) = save_request-ok (mark_expired r) rows (ground (arith, a)) in
    (
      rows',
      s,
      ground
          (arith, s, t, =s_iff r.id id, save_request-matched_at id (mark_expired r) rows rows' s),
    )

race_found :
    (calls : Calls) (account id : String) (rows : List RequestRow) (r : ConciliationRequest)
    → calls.save_throws r.id ≡ none
    → r.id ≡ id
    → r.domain_events ≡ []
    → is_terminal r ≡ false
    → matched_at id rows ≡ true
    → matched_at id (expire_found calls account (some r) rows).rows ≡ false
race_found calls account id rows r works i d t m =
    let (rows', s, lost) = saved-open id rows r i t m in
    let after =
      notify_first-IsSaved (calls.notifies account) (calls.enqueue_throws r.id)
        (calls.publish_throws r.id) r.id (conciliation_expired r.id r.account_id ∷ []) rows' in
    rw (found-open calls account r rows d t, works, s) (ap (matched_at id) after.stored ∙ lost)

-- If `findById` saw the request open and a match was committed before the save, the save turns the
-- matched request into an expired one and leaves its match row: the tables, consistent before, are
-- not so after, whatever the calls after the save throw.
pub expire_race :
    (calls : Calls) (read : List RequestRow) (id account : String) (db : Db)
    (r : ConciliationRequest)
    → calls.find_throws id ≡ none
    → calls.save_throws id ≡ none
    → IsConsistent db
    → find_by_id id read ≡ some r
    → is_terminal r ≡ false
    → matched_at id db.requests ≡ true
    → ¬ IsConsistent
        (record db { requests = (expire_one calls read (id, account) db.requests).rows })
unfolding expire_one
expire_race calls read id account db r reads works c f t m bad =
    let (i, d, _) = find_by_id-row id read r f in
    let lost = race_found calls account id db.requests r (ap calls.save_throws i ∙ works) i d t m in
    ground (arith, c.agree id, bad.agree id, lost, f, reads)
