-- ===== src/Conciliation/Poll/Poison.antt =====
-- One order that ConciliationRequest.create refuses ends the whole poll.
use reconbanker.Common.{
  ℕ, ◌≡◌, ap, true, false, List, [], ◌∷◌, ◌++◌, Option, none, some, String, arith, ◌=s◌, any, err,
  Error,
}
use reconbanker.Conciliation.Request.{create}
use reconbanker.Conciliation.Tables.{RequestRow, find_active_external_ids}
use reconbanker.Conciliation.Poll.{
  PendingOrder, Polled, Step, skipped, created, threw, order_props, enqueue_if, after_step,
  poll_order, poll_loop, poll_fetched,
}

pub after_step-failure :
    (s : Step) (id : String) (rows : List RequestRow) (p : Polled)
    → (after_step s id rows p).failure ≡ none
    → p.failure ≡ none
after_step-failure skipped id rows p h = h
after_step-failure (created true) id rows p h = h
after_step-failure (created false) id rows p h = h
after_step-failure (threw e) id rows p h = cc

after_step-fails :
    (s : Step) (id : String) (rows : List RequestRow) (p q : Polled) (e : Error)
    → (after_step s id rows q).failure ≡ none
    → p ≡ record q { failure = some e }
    → after_step s id rows p ≡ record (after_step s id rows q) { failure = some e }
after_step-fails skipped id rows p q e n h = h
after_step-fails (created true) id rows p q e n h = ap (enqueue_if true id) h
after_step-fails (created false) id rows p q e n h = h
after_step-fails (threw g) id rows p q e n h = cc

refused :
    (enqueue : String → Option Error) (now : ℕ) (account : String) (existing : List String)
    (o : PendingOrder) (rows : List RequestRow) (e : Error)
    → any (λ x. x =s o.external_id) existing ≡ false
    → create now o.id (order_props account o) ≡ err e
    → poll_order enqueue now account existing o rows ≡ (rows, threw e)
unfolding poll_order
refused enqueue now account existing o rows e n c = ground (arith, n, c)

loop_poison :
    (enqueue : String → Option Error) (now : ℕ) (account : String) (existing : List String)
    (before after : List PendingOrder) (o : PendingOrder) (rows : List RequestRow) (e : Error)
    → any (λ x. x =s o.external_id) existing ≡ false
    → create now o.id (order_props account o) ≡ err e
    → (poll_loop enqueue now account existing before rows).failure ≡ none
    → poll_loop enqueue now account existing (before ++ (o ∷ after)) rows
      ≡ record (poll_loop enqueue now account existing before rows) { failure = some e }
unfolding poll_loop
loop_poison enqueue now account existing [] after o rows e n c f =
    rw (refused enqueue now account existing o rows e n c)
loop_poison enqueue now account existing (b ∷ before) after o rows e n c f =
    let (rows', s) = poll_order enqueue now account existing b rows in
    let p = poll_loop enqueue now account existing before rows' in
    after_step-fails s b.id rows' _ p e f (
      loop_poison enqueue now account existing before after o rows' e n c
        (after_step-failure s b.id rows' p f))

-- An order that is not active yet and that `create` refuses ends the poll with its error, if the
-- orders before it went through. The result is that of the orders before it alone, with no request
-- cancelled: none of the orders after it is looked at.
pub poll_fetched-poison :
    (enqueue : String → Option Error) (now : ℕ) (account : String)
    (before after : List PendingOrder) (o : PendingOrder) (rows : List RequestRow) (e : Error)
    → let existing = find_active_external_ids account rows in
      any (λ x. x =s o.external_id) existing ≡ false
      → create now o.id (order_props account o) ≡ err e
      → (poll_loop enqueue now account existing before rows).failure ≡ none
      → poll_fetched enqueue now account (before ++ (o ∷ after)) rows
        ≡ record (poll_loop enqueue now account existing before rows) { failure = some e }
unfolding poll_fetched
poll_fetched-poison enqueue now account before after o rows e n c f =
    rw (loop_poison enqueue now account _ before after o rows e n c f)
