-- ===== src/Conciliation/Poll/Loop.antt =====
-- What a poll that comes to its end has done, and what every poll leaves alone.
use reconbanker.Common.{
  ℕ, ◌≡◌, refl, sym, ◌∙◌, inl, inr, Bool, true, false, not, ◌&&◌, List, [], ◌∷◌, map, Option, none,
  some, String, arith, ◌=s◌, =s_refl, any, any-append, count, ok, err, Result, Error, Bool-cases,
}
use reconbanker.Conciliation.Request.{ConciliationRequest, create}
use reconbanker.Conciliation.Request.Lifecycle.{is_matched_status}
use reconbanker.Conciliation.Tables.{
  Db, RequestRow, to_row, create_if_absent, find_active_external_ids, cancel_missing, is_missing,
  same_order,
}
use reconbanker.Conciliation.Tables.Laws.{
  matched_at, create_if_absent-matched_at, cancel_missing-matched_at,
}
use reconbanker.Conciliation.Moves.{Moves, keeps}
use reconbanker.Conciliation.Poll.{
  PendingOrder, Polled, Step, skipped, created, threw, order_props, insert_step, create_step,
  after_step, poll_order, poll_loop, cancel_after, poll_fetched,
}

-- The table has a request of the account for the order.
abbrev pub has_key : String → List RequestRow → PendingOrder → Bool
has_key account rows o =
    any (λ r. (r.account_id =s account) && (r.external_id =s o.external_id)) rows

create-props :
    (now : ℕ) (account : String) (o : PendingOrder) (r : ConciliationRequest)
    → create now o.id (order_props account o) ≡ ok r
    → (r.account_id ≡ account)
      × (r.external_id ≡ o.external_id)
      × (is_matched_status r.status ≡ false)
unfolding create
create-props now account o r h = ground arith

active-has_key :
    (account : String) (o : PendingOrder) (rows : List RequestRow)
    → any (λ e. e =s o.external_id) (find_active_external_ids account rows) ≡ true
    → has_key account rows o ≡ true
unfolding find_active_external_ids
active-has_key account o [] h = cc
active-has_key account o (x ∷ rows) h = ground (arith, active-has_key account o rows)

create_if_absent-has_key :
    (r : ConciliationRequest) (rows rows' : List RequestRow) (b : Bool)
    → create_if_absent r rows ≡ ok (rows', b)
    → any (same_order r) rows' ≡ true
unfolding create_if_absent to_row
create_if_absent-has_key r rows rows' b h = ground (
  arith,
  any-append (same_order r) rows (to_row r ∷ []),
  =s_refl r.account_id,
  =s_refl r.external_id,
)

create_if_absent-grows :
    (p : RequestRow → Bool) (r : ConciliationRequest) (rows rows' : List RequestRow) (b : Bool)
    → create_if_absent r rows ≡ ok (rows', b)
    → any p rows ≡ true
    → any p rows' ≡ true
unfolding create_if_absent to_row
create_if_absent-grows p r rows rows' b h a = ground (arith, any-append p rows (to_row r ∷ []))

-- What the step of one order does to the table: it keeps its matches and its rows, and unless it
-- throws, a row of the order stands.
record IsStep (account : String) (o : PendingOrder) (rows : List RequestRow)
    (x : List RequestRow × Step) : Type 0 where
  same : (j : String) → matched_at j x.0 ≡ matched_at j rows
  grows : (p : RequestRow → Bool) → any p rows ≡ true → any p x.0 ≡ true
  stands :
      (id : String) (q : Polled)
      → (after_step x.1 id x.0 q).failure ≡ none
      → has_key account x.0 o ≡ true

insert_step-IsStep :
    (throws : Option Error) (now : ℕ) (account : String) (o : PendingOrder) (rows : List RequestRow)
    (r : ConciliationRequest) (x : Result (List RequestRow × Bool))
    → create now o.id (order_props account o) ≡ ok r
    → create_if_absent r rows ≡ x
    → IsStep account o rows (insert_step throws x rows)
insert_step-IsStep throws now account o rows r (err e) c h = record {
  same = λ j. refl;
  grows = λ p a. a;
  stands = λ id q f. cc;
}
insert_step-IsStep throws now account o rows r (ok (rows', b)) c h =
    let (a, e, s) = create-props now account o r c in
    record {
      same = λ j. create_if_absent-matched_at j r rows rows' b s h;
      grows = λ p. create_if_absent-grows p r rows rows' b h;
      stands = λ id q f. rw (sym a, sym e) (create_if_absent-has_key r rows rows' b h);
    }

create_step-IsStep :
    (throws : Option Error) (now : ℕ) (account : String) (o : PendingOrder) (rows : List RequestRow)
    (c : Result ConciliationRequest)
    → create now o.id (order_props account o) ≡ c
    → IsStep account o rows (create_step throws c rows)
create_step-IsStep throws now account o rows (err e) h = record {
  same = λ j. refl;
  grows = λ p a. a;
  stands = λ id q f. cc;
}
create_step-IsStep throws now account o rows (ok r) h =
    insert_step-IsStep throws now account o rows r (create_if_absent r rows) h refl

-- The active ids are those of an earlier table, whose rows all still stand.
poll_order-IsStep :
    (enqueue : String → Option Error) (now : ℕ) (account : String) (existing : List String)
    (o : PendingOrder) (rows : List RequestRow)
    → (any (λ e. e =s o.external_id) existing ≡ true → has_key account rows o ≡ true)
    → IsStep account o rows (poll_order enqueue now account existing o rows)
unfolding poll_order
poll_order-IsStep enqueue now account existing o rows k =
    elim (Bool-cases (any (λ e. e =s o.external_id) existing)) [
      | inl e ↦ rw e (record { same = λ j. refl; grows = λ p a. a; stands = λ id q f. k e })
      | inr e ↦ rw e (create_step-IsStep (enqueue o.id) now account o rows _ refl)
    ]

-- The same of a list of orders.
record IsLoop (account : String) (os : List PendingOrder) (rows : List RequestRow) (x : Polled)
    : Type 0 where
  same : (j : String) → matched_at j x.rows ≡ matched_at j rows
  grows : (p : RequestRow → Bool) → any p rows ≡ true → any p x.rows ≡ true
  stands : x.failure ≡ none → any (λ o. not (has_key account x.rows o)) os ≡ false

after_step-IsLoop :
    (account : String) (o : PendingOrder) (os : List PendingOrder) (rows rows' : List RequestRow)
    (s : Step) (q : Polled)
    → IsStep account o rows (rows', s)
    → IsLoop account os rows' q
    → IsLoop account (o ∷ os) rows (after_step s o.id rows' q)
after_step-IsLoop account o os rows rows' (threw e) q a b = record {
  same = a.same;
  grows = a.grows;
  stands = λ f. cc;
}
after_step-IsLoop account o os rows rows' skipped q a b = record {
  same = λ j. b.same j ∙ a.same j;
  grows = λ p h. b.grows p (a.grows p h);
  stands = λ f. ground (arith, b.grows _ (a.stands o.id q f), b.stands f);
}
after_step-IsLoop account o os rows rows' (created true) q a b = record {
  same = λ j. b.same j ∙ a.same j;
  grows = λ p h. b.grows p (a.grows p h);
  stands = λ f. ground (arith, b.grows _ (a.stands o.id q f), b.stands f);
}
after_step-IsLoop account o os rows rows' (created false) q a b = record {
  same = λ j. b.same j ∙ a.same j;
  grows = λ p h. b.grows p (a.grows p h);
  stands = λ f. ground (arith, b.grows _ (a.stands o.id q f), b.stands f);
}

poll_loop-IsLoop :
    (enqueue : String → Option Error) (now : ℕ) (account : String) (existing : List String)
    (os : List PendingOrder) (rows : List RequestRow)
    → ((o : PendingOrder)
        → any (λ e. e =s o.external_id) existing ≡ true
        → has_key account rows o ≡ true)
    → IsLoop account os rows (poll_loop enqueue now account existing os rows)
unfolding poll_loop
poll_loop-IsLoop enqueue now account existing [] rows k = record {
  same = λ j. refl;
  grows = λ p a. a;
  stands = λ f. refl;
}
poll_loop-IsLoop enqueue now account existing (o ∷ os) rows k =
    let (rows', s) = poll_order enqueue now account existing o rows in
    let a = poll_order-IsStep enqueue now account existing o rows (k o) in
    after_step-IsLoop account o os rows rows' s _ a
      (poll_loop-IsLoop enqueue now account existing os rows' (λ o' e. a.grows _ (k o' e)))

cancel-count :
    (account : String) (present : List String) (rows : List RequestRow)
    → count (is_missing account present) (cancel_missing account present rows).0 ≡ 0
unfolding cancel_missing
cancel-count account present [] = refl
cancel-count account present (x ∷ rows) = ground (arith, cancel-count account present rows)

cancel-has_key :
    (account a : String) (o : PendingOrder) (present : List String) (rows : List RequestRow)
    → has_key a (cancel_missing account present rows).0 o ≡ has_key a rows o
unfolding cancel_missing
cancel-has_key account a o present [] = refl
cancel-has_key account a o present (x ∷ rows) =
    ground (arith, cancel-has_key account a o present rows)

cancel-stands :
    (account : String) (os : List PendingOrder) (present : List String) (rows : List RequestRow)
    → any (λ o. not (has_key account rows o)) os ≡ false
    → any (λ o. not (has_key account (cancel_missing account present rows).0 o)) os ≡ false
cancel-stands account [] present rows h = refl
cancel-stands account (o ∷ os) present rows h =
    ground
      (arith, cancel-has_key account account o present rows, cancel-stands account os present rows)

abbrev pub external_ids : List PendingOrder → List String
external_ids os = map (λ o. o.external_id) os

-- A poll that ends with no error has a request of the account for every order of the source, and no
-- request that could be cancelled and is not among the orders.
pub poll_fetched_lem :
    (enqueue : String → Option Error) (now : ℕ) (account : String) (os : List PendingOrder)
    (rows : List RequestRow)
    → let x = poll_fetched enqueue now account os rows in
      x.failure ≡ none
      → (any (λ o. not (has_key account x.rows o)) os ≡ false)
        × (count (is_missing account (external_ids os)) x.rows ≡ 0)
unfolding poll_fetched
poll_fetched_lem enqueue now account os rows = go p.failure refl
  where
    p : Polled
    p = poll_loop enqueue now account (find_active_external_ids account rows) os rows

    l : IsLoop account os rows p
    l = poll_loop-IsLoop enqueue now account _ os rows (λ o e. active-has_key account o rows e)

    go :
        (e : Option Error)
        → p.failure ≡ e
        → (cancel_after account os p e).failure ≡ none
        → (any (λ o. not (has_key account (cancel_after account os p e).rows o)) os ≡ false)
          × (count (is_missing account (external_ids os)) (cancel_after account os p e).rows ≡ 0)
    go none h f = (cancel-stands account os _ p.rows (l.stands h), cancel-count account _ p.rows)
    go (some e) h f = absurd (ground (arith, h, f))

-- No poll, whether it ends with an error or not, changes which requests are matched, or the matches.
pub poll_fetched-Moves :
    (enqueue : String → Option Error) (now : ℕ) (account : String) (os : List PendingOrder)
    (db : Db)
    → Moves db (record db { requests = (poll_fetched enqueue now account os db.requests).rows }) []
unfolding poll_fetched
poll_fetched-Moves enqueue now account os db = go p.failure
  where
    p : Polled
    p = poll_loop enqueue now account (find_active_external_ids account db.requests) os db.requests

    l : IsLoop account os db.requests p
    l =
        poll_loop-IsLoop enqueue now account _ os db.requests
          (λ o e. active-has_key account o db.requests e)

    go :
        (e : Option Error)
        → Moves db (record db { requests = (cancel_after account os p e).rows }) []
    go none = keeps (λ j. cancel_missing-matched_at j account _ p.rows ∙ l.same j) refl refl
    go (some e) = keeps l.same refl refl
