-- ===== src/Conciliation/Poll.antt =====
-- contexts/conciliation/application/PollPendingOrdersUseCase.ts. The orders of the source are given
-- with the ids that crypto.randomUUID() has for them. Nothing here runs in a unit of work: what was
-- inserted before an error stays.
pub mod Loop
pub mod Poison
use reconbanker.Common.{
  ℕ, Bool, true, false, List, [], ◌∷◌, map, Option, none, some, String, Num, ◌=s◌, if◌then◌else◌,
  any, Result, ok, err, Error, not_found_error,
}
use reconbanker.Conciliation.Candidate.{Text}
use reconbanker.Conciliation.Request.{ConciliationRequest, CreateProps, create}
use reconbanker.Conciliation.Tables.{
  Db, RequestRow, create_if_absent, find_active_external_ids, cancel_missing,
}

pub record PendingOrder : Type 0 where
  pub id : String
  pub external_id : String
  pub amount : Num
  pub currency : String
  pub sender_name : Text

abbrev pub order_props : String → PendingOrder → CreateProps
order_props account o = record {
  account_id = account;
  external_id = o.external_id;
  expected_amount = o.amount;
  currency = o.currency;
  sender_name = some o.sender_name;
  idempotency_key = none;
  last_checked_at = none;
}

-- The table after (part of) the loop, the requests enqueued for a run, and the error that ended it.
pub record Polled : Type 0 where
  pub rows : List RequestRow
  pub enqueued : List String
  pub failure : Option Error

abbrev pub enqueue_if : Bool → String → Polled → Polled
enqueue_if true id p = record p { enqueued = id ∷ p.enqueued }
enqueue_if false id p = p

abbrev pub stopped : List RequestRow → Error → Polled
stopped rows e = record { rows = rows; enqueued = []; failure = some e }

-- One order of the loop: the table, and what happened to the order.
pub data Step : Type 0 where
  skipped : Step
  created : Bool → Step
  threw : Error → Step

-- `if (created) await enqueueRun(request.id)`, which may throw.
abbrev pub enqueue_step : Option Error → Bool → Step
enqueue_step throws false = created false
enqueue_step none true = created true
enqueue_step (some e) true = threw e

abbrev pub insert_step :
    Option Error → Result (List RequestRow × Bool) → List RequestRow → List RequestRow × Step
insert_step throws (ok (rows', b)) rows = (rows', enqueue_step throws b)
insert_step throws (err e) rows = (rows, threw e)

abbrev pub create_step :
    Option Error → Result ConciliationRequest → List RequestRow → List RequestRow × Step
create_step throws (ok r) rows = insert_step throws (create_if_absent r rows) rows
create_step throws (err e) rows = (rows, threw e)

-- `enqueue` is what enqueueRun throws for a request.
unfoldable pub poll_order :
    (String → Option Error)
    → ℕ
    → String
    → List String
    → PendingOrder
    → List RequestRow
    → List RequestRow × Step
unfolding create create_if_absent
poll_order enqueue now account existing o rows =
    if any (λ e. e =s o.external_id) existing
    then (rows, skipped)
    else create_step (enqueue o.id) (create now o.id (order_props account o)) rows

-- `continue`, the enqueuing of a new request, or the error that leaves the loop.
abbrev pub after_step : Step → String → List RequestRow → Polled → Polled
after_step skipped id rows rest = rest
after_step (created b) id rows rest = enqueue_if b id rest
after_step (threw e) id rows rest = stopped rows e

unfoldable pub poll_loop :
    (String → Option Error)
    → ℕ
    → String
    → List String
    → List PendingOrder
    → List RequestRow
    → Polled
unfolding poll_order
poll_loop enqueue now account existing [] rows = record {
  rows = rows;
  enqueued = [];
  failure = none;
}
poll_loop enqueue now account existing (o ∷ os) rows =
    let (rows', step) = poll_order enqueue now account existing o rows in
    let rest = poll_loop enqueue now account existing os rows' in after_step step o.id rows' rest

-- `cancelMissing` runs only if the loop came to its end.
abbrev pub cancel_after : String → List PendingOrder → Polled → Option Error → Polled
cancel_after account orders p none = record p {
  rows = (cancel_missing account (map (λ o. o.external_id) orders) p.rows).0;
}
cancel_after account orders p (some e) = p

unfoldable pub poll_fetched :
    (String → Option Error) → ℕ → String → List PendingOrder → List RequestRow → Polled
unfolding poll_loop find_active_external_ids cancel_missing
poll_fetched enqueue now account orders rows =
    let p = poll_loop enqueue now account (find_active_external_ids account rows) orders rows in
    cancel_after account orders p p.failure

-- What the readers return: the endpoint of the account's config, the account's user and the user's
-- mode, the orders of the source, or the error that it throws, and what enqueueRun throws for a request.
pub record PollInput : Type 0 where
  pub endpoint : Option (Option String)
  pub user_id : Option String
  pub mode : Option String
  pub orders : Result (List PendingOrder)
  pub enqueue_throws : String → Option Error

abbrev pub is_present : Option String → Bool
is_present none = false
is_present (some s) = if s =s "" then false else true

abbrev pub is_reconcile : Option String → Bool
is_reconcile none = false
is_reconcile (some m) = m =s "reconcile"

abbrev untouched : List RequestRow → Option Error → Polled
untouched rows e = record { rows = rows; enqueued = []; failure = e }

unfoldable pub poll_source :
    (String → Option Error) → ℕ → String → Result (List PendingOrder) → List RequestRow → Polled
unfolding poll_fetched
poll_source enqueue now account (ok orders) rows = poll_fetched enqueue now account orders rows
poll_source enqueue now account (err e) rows = untouched rows (some e)

unfoldable pub poll_with :
    ℕ → String → PollInput → Option (Option String) → Option String → List RequestRow → Polled
unfolding poll_source
poll_with now account input none user rows = untouched rows (some (not_found_error "config"))
poll_with now account input (some endpoint) none rows =
    untouched rows (some (not_found_error "account"))
poll_with now account input (some endpoint) (some user) rows =
    if is_reconcile input.mode
    then (if is_present endpoint
        then poll_source input.enqueue_throws now account input.orders rows
        else untouched rows none)
    else untouched rows none

-- PollPendingOrdersUseCase.execute
unfoldable pub poll_pending_orders : ℕ → String → PollInput → List RequestRow → Polled
unfolding poll_with
poll_pending_orders now account input rows =
    poll_with now account input input.endpoint input.user_id rows
