-- ===== src/Conciliation/Request/Lifecycle.antt =====
-- The life of one request under any sequence of calls, its events published at any time.
use reconbanker.Common.{
  ℕ, suc, ◌+◌, ◌≡◌, refl, ◌∙◌, Bool, true, false, List, [], ◌∷◌, ◌++◌, String, arith, if◌then◌else◌,
  count, count-append, count-snoc, ◌||◌, ap, ok, err, ◌=s◌,
}
use reconbanker.Events.{
  DomainEvent, conciliation_matched, conciliation_failed, conciliation_expired,
  conciliation_cancelled,
}
use reconbanker.Conciliation.Request.{
  ConciliationRequest, ConciliationStatus, matched, is_terminal, is_terminal_status, create,
  CreateProps, Call, processes, matches, not_founds, ambiguates, fails, expires, cancels, clears,
  call,
}

-- A request with the events that were published before: the bus is given the collected events, and
-- then they are cleared.
pub record Life : Type 0 where
  pub request : ConciliationRequest
  pub published : List DomainEvent

-- A call that throws leaves the request as it was.
pub step : Life → Call → Life
step l clears = elim (call clears l.request) [
  | ok r ↦ record { request = r; published = l.published ++ l.request.domain_events }
  | err e ↦ l
]
step l c = elim (call c l.request) [ ok r ↦ record l { request = r } | err e ↦ l ]

pub run : Life → List Call → Life
run l [] = l
run l (c ∷ cs) = run (step l c) cs

abbrev pub is_closing : DomainEvent → Bool
is_closing (conciliation_matched _ _ _) = true
is_closing (conciliation_expired _ _) = true
is_closing (conciliation_cancelled _ _) = true
is_closing _ = false

abbrev pub is_matched_event : DomainEvent → Bool
is_matched_event (conciliation_matched _ _ _) = true
is_matched_event _ = false

abbrev pub is_retry_event : DomainEvent → Bool
is_retry_event (conciliation_failed _ _ reason) = reason =s "not_found" || reason =s "system_error"
is_retry_event _ = false

-- All the events so far, published or not, that pass a test.
abbrev pub events : (DomainEvent → Bool) → Life → ℕ
events p l = count p l.published + count p l.request.domain_events

abbrev pub is_matched_status : ConciliationStatus → Bool
is_matched_status matched = true
is_matched_status _ = false

abbrev one_if : Bool → ℕ
one_if true = 1
one_if false = 0

pub record IsSound (l : Life) : Type 0 where
  pub closed_once : events is_closing l ≡ one_if (is_terminal l.request)
  pub matched_once : events is_matched_event l ≡ one_if (is_matched_status l.request.status)
  pub retries_counted : events is_retry_event l ≡ l.request.retry_count

-- Appending one event moves each count by its own test.
abbrev Counted : ConciliationRequest → DomainEvent → Type 0
Counted r e =
    (count is_closing (r.domain_events ++ (e ∷ [])) ≡ (
      if is_closing e
      then suc (count is_closing r.domain_events)
      else count is_closing r.domain_events))
    × (count is_matched_event (r.domain_events ++ (e ∷ [])) ≡ (
        if is_matched_event e
        then suc (count is_matched_event r.domain_events)
        else count is_matched_event r.domain_events))
    × (count is_retry_event (r.domain_events ++ (e ∷ [])) ≡ (
        if is_retry_event e
        then suc (count is_retry_event r.domain_events)
        else count is_retry_event r.domain_events))

counted : (r : ConciliationRequest) (e : DomainEvent) → Counted r e
counted r e = (
  count-snoc is_closing r.domain_events e,
  count-snoc is_matched_event r.domain_events e,
  count-snoc is_retry_event r.domain_events e,
)

step-IsSound : (l : Life) (c : Call) → IsSound l → IsSound (step l c)
unfolding step call
step-IsSound l clears h = ground (
  arith,
  count-append is_closing l.published l.request.domain_events,
  count-append is_matched_event l.published l.request.domain_events,
  count-append is_retry_event l.published l.request.domain_events,
)
step-IsSound l (processes now) h = ground arith
step-IsSound l (matches tx) h =
    ground (arith, counted l.request (conciliation_matched l.request.id l.request.account_id tx))
step-IsSound l not_founds h =
    ground
      (arith, counted l.request (conciliation_failed l.request.id l.request.account_id "not_found"))
step-IsSound l ambiguates h =
    ground
      (arith, counted l.request (conciliation_failed l.request.id l.request.account_id "ambiguous"))
step-IsSound l fails h = ground (
  arith,
  counted l.request (conciliation_failed l.request.id l.request.account_id "system_error"),
)
step-IsSound l expires h =
    ground (arith, counted l.request (conciliation_expired l.request.id l.request.account_id))
step-IsSound l cancels h =
    ground (arith, counted l.request (conciliation_cancelled l.request.id l.request.account_id))

run-IsSound : (l : Life) (cs : List Call) → IsSound l → IsSound (run l cs)
unfolding run
run-IsSound l [] h = h
run-IsSound l (c ∷ cs) h = run-IsSound (step l c) cs (step-IsSound l c h)

abbrev pub born : ConciliationRequest → Life
born r = record { request = r; published = [] }

created-IsSound :
    (now : ℕ) (id : String) (props : CreateProps) (r : ConciliationRequest)
    → create now id props ≡ ok r
    → IsSound (born r)
unfolding create
created-IsSound now id props r h = ground arith

-- A request that `create` made has, after any calls, raised one closing event (matched, expired or
-- cancelled) if its status is terminal and none otherwise, one matched event if its status is
-- matched and none otherwise, and as many retriable failures as its retry count says.
pub create-run-IsSound :
    (now : ℕ) (id : String) (props : CreateProps) (r : ConciliationRequest) (cs : List Call)
    → create now id props ≡ ok r
    → IsSound (run (born r) cs)
create-run-IsSound now id props r cs h = run-IsSound (born r) cs (created-IsSound now id props r h)

-- What a terminal request keeps under every call.
pub record Frozen (a b : ConciliationRequest) : Type 0 where
  pub same_status : b.status ≡ a.status
  pub same_retries : b.retry_count ≡ a.retry_count
  pub same_check : b.last_checked_at ≡ a.last_checked_at

step-Frozen :
    (l : Life) (c : Call) → is_terminal l.request ≡ true → Frozen l.request (step l c).request
unfolding step call
step-Frozen l clears h = ground arith
step-Frozen l c h = ground arith

step-events :
    (l : Life) (c : Call) (p : DomainEvent → Bool)
    → is_terminal l.request ≡ true
    → events p (step l c) ≡ events p l
unfolding step call
step-events l clears p h = ground (arith, count-append p l.published l.request.domain_events)
step-events l c p h = ground arith

-- Once its status is terminal, no sequence of calls changes a request's status, retry count or time
-- of check, and no call raises an event of any kind.
pub run-Frozen :
    (l : Life) (cs : List Call) (p : DomainEvent → Bool)
    → is_terminal l.request ≡ true
    → Frozen l.request (run l cs).request × (events p (run l cs) ≡ events p l)
unfolding run
run-Frozen l [] p h = (record { same_status = refl; same_retries = refl; same_check = refl }, refl)
run-Frozen l (c ∷ cs) p h =
    let f = step-Frozen l c h in
    let rest = run-Frozen (step l c) cs p (ap is_terminal_status f.same_status ∙ h) in
    (
      record {
        same_status = rest.0.same_status ∙ f.same_status;
        same_retries = rest.0.same_retries ∙ f.same_retries;
        same_check = rest.0.same_check ∙ f.same_check;
      },
      rest.1 ∙ step-events l c p h,
    )
