-- ===== src/Conciliation/Expire.antt =====
-- contexts/conciliation/application/ExpireStaleRequestsUseCase.ts. It runs in no unit of work and
-- takes no lock: `read` is the table as `findById` saw it, and another transaction may commit before
-- the request is saved.
pub mod Effects
pub mod Race
pub mod Steps
use reconbanker.Common.{
  ℕ, ◌-◌, ◌*◌, Bool, true, false, List, [], ◌∷◌, ◌++◌, Option, none, some, String, if◌then◌else◌,
  is_empty, Result, ok, err, Error,
}
use reconbanker.Events.{DomainEvent}
use reconbanker.Conciliation.Request.{ConciliationRequest, mark_expired}
use reconbanker.Conciliation.Tables.{Db, RequestRow, find_by_id, find_stale, save_request}

abbrev pub five_days_ms : ℕ
five_days_ms = 5 * 24 * 60 * 60 * 1000

abbrev pub stale_limit : ℕ
stale_limit = 500

-- The table, the webhook jobs enqueued, the events published, and the error that ended the loop.
pub record Expired : Type 0 where
  pub rows : List RequestRow
  pub webhooks : List String
  pub published : List DomainEvent
  pub failure : Option Error

abbrev pub unchanged : List RequestRow → Expired
unchanged rows = record { rows = rows; webhooks = []; published = []; failure = none }

abbrev pub failed_with : List RequestRow → Error → Expired
failed_with rows e = record (unchanged rows) { failure = some e }

-- What the calls of the ports throw, by the request's id, and what shouldNotifyOnExpired gives for an
-- account.
pub record Calls : Type 0 where
  pub list_throws : Option Error
  pub find_throws : String → Option Error
  pub save_throws : String → Option Error
  pub notifies : String → Result Bool
  pub enqueue_throws : String → Option Error
  pub publish_throws : String → Option Error

-- From `publishAll` on: the bus has the events even where one of its handlers throws.
abbrev pub publish_last : Option Error → List DomainEvent → List String → List RequestRow → Expired
publish_last e events webhooks rows = record {
  rows = rows;
  webhooks = webhooks;
  published = events;
  failure = e;
}

abbrev pub enqueue_first :
    Option Error → Option Error → String → List DomainEvent → List RequestRow → Expired
enqueue_first (some e) publish id events rows = failed_with rows e
enqueue_first none publish id events rows = publish_last publish events (id ∷ []) rows

abbrev pub notify_first :
    Result Bool
    → Option Error
    → Option Error
    → String
    → List DomainEvent
    → List RequestRow
    → Expired
notify_first (err e) enqueue publish id events rows = failed_with rows e
notify_first (ok false) enqueue publish id events rows = publish_last publish events [] rows
notify_first (ok true) enqueue publish id events rows = enqueue_first enqueue publish id events rows

abbrev pub saved :
    Calls
    → String
    → String
    → List DomainEvent
    → List RequestRow
    → Result (List RequestRow)
    → Expired
saved calls id account events rows (ok rows') =
    notify_first (calls.notifies account) (calls.enqueue_throws id) (calls.publish_throws id) id
      events rows'
saved calls id account events rows (err e) = failed_with rows e

abbrev pub save_unless :
    Option Error → ConciliationRequest → List RequestRow → Result (List RequestRow)
save_unless (some e) r rows = err e
save_unless none r rows = save_request r rows

-- The body of the loop from what `findById` returned on.
unfoldable pub expire_found :
    Calls → String → Option ConciliationRequest → List RequestRow → Expired
unfolding mark_expired save_request
expire_found calls account none rows = unchanged rows
expire_found calls account (some request) rows =
    let r = mark_expired request in
    if is_empty r.domain_events
    then unchanged rows
    else saved calls request.id account r.domain_events rows
        (save_unless (calls.save_throws request.id) r rows)

abbrev pub expire_read :
    Option Error → Calls → String → Option ConciliationRequest → List RequestRow → Expired
expire_read (some e) calls account o rows = failed_with rows e
expire_read none calls account o rows = expire_found calls account o rows

-- One stale reference.
unfoldable pub expire_one : Calls → List RequestRow → String × String → List RequestRow → Expired
unfolding expire_found find_by_id
expire_one calls read (id, account) rows =
    expire_read (calls.find_throws id) calls account (find_by_id id read) rows

-- What the rest of the loop adds, unless an error has ended it.
abbrev pub and_then : Expired → Expired → Expired
and_then a b = record {
  rows = b.rows;
  webhooks = a.webhooks ++ b.webhooks;
  published = a.published ++ b.published;
  failure = b.failure;
}

abbrev pub is_failed : Option Error → Bool
is_failed none = false
is_failed (some e) = true

-- The loop with nothing between its statements.
unfoldable pub expire_loop : Calls → List (String × String) → List RequestRow → Expired
unfolding expire_one
expire_loop calls [] rows = unchanged rows
expire_loop calls (ref ∷ refs) rows =
    let a = expire_one calls rows ref rows in
    let b = expire_loop calls refs a.rows in if is_failed a.failure then a else and_then a b

abbrev pub expire_listed : Option Error → Calls → List (String × String) → List RequestRow → Expired
expire_listed (some e) calls refs rows = failed_with rows e
expire_listed none calls refs rows = expire_loop calls refs rows

-- ExpireStaleRequestsUseCase.execute
unfoldable pub expire_stale_requests : ℕ → Calls → List RequestRow → Expired
unfolding expire_loop find_stale
expire_stale_requests now calls rows =
    expire_listed calls.list_throws calls (find_stale (now - five_days_ms) stale_limit rows) rows
