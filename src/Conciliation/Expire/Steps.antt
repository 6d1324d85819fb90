-- ===== src/Conciliation/Expire/Steps.antt =====
-- One stale reference: contexts/conciliation/application/ExpireStaleRequestsUseCase.ts, the body of
-- the loop.
use reconbanker.Common.{
  ◌≡◌, refl, sym, subst, ◌∙◌, inl, inr, ap, ◌⊎◌, not, ◌||◌, true, false, Result, ok, err, Error,
  Bool, List, [], ◌∷◌, Option, none, some, String, arith, ◌=s◌, =s_iff, if◌then◌else◌, count,
  Bool-cases,
}
use reconbanker.Conciliation.Request.{
  ConciliationRequest, ConciliationStatus, expired, is_terminal, is_terminal_status, mark_expired,
}
use reconbanker.Events.{DomainEvent, conciliation_expired}
use reconbanker.Conciliation.Request.Lifecycle.{is_matched_event}
use reconbanker.Conciliation.Tables.{RequestRow, find_by_id, save_request}
use reconbanker.Conciliation.Tables.Laws.{
  matched_at, status_at, save_request-status_at, save_request-ok, find_by_id-any, find_by_id-none,
  find_by_id-row, keep_matched_at, not_matched_of_open,
}
use reconbanker.Conciliation.Expire.{
  Expired, is_failed, expire_found, expire_one, Calls, unchanged, failed_with, notify_first, saved,
  save_unless, expire_read,
}

-- markExpired, on the status.
abbrev pub expire_status : Option ConciliationStatus → Option ConciliationStatus
expire_status none = none
expire_status (some s) = if is_terminal_status s then some s else some expired

-- A Boolean answer that threw.
abbrev pub has_thrown : Result Bool → Bool
has_thrown (err e) = true
has_thrown (ok b) = false

abbrev pub may_throw_late : Result Bool → Option Error → Option Error → Bool
may_throw_late n e p = has_thrown n || (is_failed e || is_failed p)

-- After the save: the rows are those saved, and an error is one of the later calls'.
pub record IsSaved (late : Bool) (events : List DomainEvent) (rows : List RequestRow) (x : Expired)
    : Type 0 where
  pub stored : x.rows ≡ rows
  quiet : count is_matched_event events ≡ 0 → count is_matched_event x.published ≡ 0
  blame : (not (is_failed x.failure) || late) ≡ true

not_or : (a : Bool) → (not a || a) ≡ true
not_or true = refl
not_or false = refl

pub notify_first-IsSaved :
    (n : Result Bool) (e p : Option Error) (id : String) (events : List DomainEvent)
    (rows : List RequestRow)
    → IsSaved (may_throw_late n e p) events rows (notify_first n e p id events rows)
notify_first-IsSaved (err t) e p id events rows = record {
  stored = refl;
  quiet = λ h. refl;
  blame = refl;
}
notify_first-IsSaved (ok false) (some t) p id events rows = record {
  stored = refl;
  quiet = λ h. h;
  blame = ground arith;
}
notify_first-IsSaved (ok false) none p id events rows = record {
  stored = refl;
  quiet = λ h. h;
  blame = not_or (is_failed p);
}
notify_first-IsSaved (ok true) (some t) p id events rows = record {
  stored = refl;
  quiet = λ h. refl;
  blame = refl;
}
notify_first-IsSaved (ok true) none p id events rows = record {
  stored = refl;
  quiet = λ h. h;
  blame = not_or (is_failed p);
}

-- No request's match changes, and no event of a match is published.
pub record IsQuiet (rows : List RequestRow) (x : Expired) : Type 0 where
  pub same : (j : String) → matched_at j x.rows ≡ matched_at j rows
  pub silent : count is_matched_event x.published ≡ 0

-- The reference's request, and no other, is expired unless it was terminal.
abbrev pub IsExpired : String → List RequestRow → List RequestRow → Type 0
IsExpired id rows rows' =
    (j : String)
    → status_at j rows' ≡ (if id =s j then expire_status (status_at j rows) else status_at j rows)

-- What one reference does: its request is expired, or an error leaves the rows as they are.
pub record IsStep (late early : Bool) (id : String) (rows : List RequestRow) (x : Expired)
    : Type 0 where
  pub reached : IsExpired id rows x.rows ⊎ ((is_failed x.failure ≡ true) × (x.rows ≡ rows))
  pub quietly : IsQuiet rows x
  pub blame : (not (is_failed x.failure) || (early || late)) ≡ true

or_late : (f early late : Bool) → (not f || late) ≡ true → (not f || (early || late)) ≡ true
or_late f early late h = ground arith

untouched-IsExpired :
    (id : String) (rows : List RequestRow) (o : Option ConciliationRequest)
    → find_by_id id rows ≡ none
    → IsExpired id rows rows
untouched-IsExpired id rows o f j = ground (arith, find_by_id-none id rows f, =s_iff id j)

terminal-IsExpired :
    (id : String) (rows : List RequestRow) (r : ConciliationRequest)
    → find_by_id id rows ≡ some r
    → is_terminal r ≡ true
    → IsExpired id rows rows
terminal-IsExpired id rows r f t j =
    let (a, st) = find_by_id-any id rows r f in ground (arith, st, t, =s_iff id j)

found-terminal :
    (calls : Calls) (account : String) (r : ConciliationRequest) (rows : List RequestRow)
    → r.domain_events ≡ []
    → is_terminal r ≡ true
    → expire_found calls account (some r) rows ≡ unchanged rows
unfolding expire_found mark_expired
found-terminal calls account r rows d t = rw (t, d) refl

pub found-open :
    (calls : Calls) (account : String) (r : ConciliationRequest) (rows : List RequestRow)
    → r.domain_events ≡ []
    → is_terminal r ≡ false
    → expire_found calls account (some r) rows
      ≡ saved calls r.id account
          (conciliation_expired r.id r.account_id ∷ [])
          rows
          (save_unless (calls.save_throws r.id) (mark_expired r) rows)
unfolding expire_found mark_expired
found-open calls account r rows d t = rw (t, d) refl

open-IsExpired :
    (id : String) (rows rows' : List RequestRow) (r : ConciliationRequest)
    → find_by_id id rows ≡ some r
    → is_terminal r ≡ false
    → save_request (mark_expired r) rows ≡ ok rows'
    → IsExpired id rows rows'
unfolding mark_expired
open-IsExpired id rows rows' r f t s j =
    let (i, d, m) = find_by_id-row id rows r f in
    let (a, st) = find_by_id-any id rows r f in
    ground (
      arith,
      s,
      save_request-status_at j (mark_expired r) rows rows' (ground (arith, a)) s,
      =s_iff id j,
    )

open-matched_at :
    (id : String) (rows rows' : List RequestRow) (r : ConciliationRequest)
    → find_by_id id rows ≡ some r
    → is_terminal r ≡ false
    → save_request (mark_expired r) rows ≡ ok rows'
    → (j : String) → matched_at j rows' ≡ matched_at j rows
unfolding mark_expired
open-matched_at id rows rows' r f t s j =
    let (i, d, m) = find_by_id-row id rows r f in
    ground (arith, s, t, keep_matched_at j (mark_expired r) rows rows', i, m, not_matched_of_open r)

same-IsQuiet : (rows : List RequestRow) (x : Expired) → x ≡ unchanged rows → IsQuiet rows x
same-IsQuiet rows x e = record {
  same = λ j. ap (λ y. matched_at j y.rows) e;
  silent = ap (λ y. count is_matched_event y.published) e;
}

failed-IsStep :
    (late : Bool) (id : String) (rows : List RequestRow) (e : Error)
    → IsStep late true id rows (failed_with rows e)
failed-IsStep late id rows e = record {
  reached = inr (refl, refl);
  quietly = record { same = λ j. refl; silent = refl };
  blame = refl;
}

abbrev pub late : Calls → String → String → Bool
late calls id account =
    may_throw_late (calls.notifies account) (calls.enqueue_throws id) (calls.publish_throws id)

saved-IsStep :
    (calls : Calls) (id account : String) (rows : List RequestRow) (r : ConciliationRequest)
    (throws : Option Error)
    → find_by_id id rows ≡ some r
    → is_terminal r ≡ false
    → IsStep (late calls id account) (is_failed throws) id rows (
        saved calls id account
          (conciliation_expired r.id r.account_id ∷ [])
          rows
          (save_unless throws (mark_expired r) rows))
unfolding mark_expired
saved-IsStep calls id account rows r (some e) f t = failed-IsStep (late calls id account) id rows e
saved-IsStep calls id account rows r none f t =
    let (i, d, m) = find_by_id-row id rows r f in
    let (a, st) = find_by_id-any id rows r f in
    let (rows', s) = save_request-ok (mark_expired r) rows (ground (arith, a)) in
    let events = conciliation_expired r.id r.account_id ∷ [] in
    let after =
      notify_first-IsSaved (calls.notifies account) (calls.enqueue_throws id)
        (calls.publish_throws id) id events rows' in
    rw s (record {
      reached = inl (λ j. ap (status_at j) after.stored ∙ open-IsExpired id rows rows' r f t s j);
      quietly = record {
        same = λ j. ap (matched_at j) after.stored ∙ open-matched_at id rows rows' r f t s j;
        silent = after.quiet refl;
      };
      blame = after.blame;
    })

unchanged-IsStep :
    (late early : Bool) (id : String) (rows : List RequestRow) (x : Expired)
    → x ≡ unchanged rows
    → IsExpired id rows rows
    → IsStep late early id rows x
unchanged-IsStep late early id rows x e q =
    subst (IsStep late early id rows) (sym e)
      (record { reached = inl q; quietly = same-IsQuiet rows (unchanged rows) refl; blame = refl })

found-IsStep :
    (calls : Calls) (id account : String) (rows : List RequestRow) (o : Option ConciliationRequest)
    → find_by_id id rows ≡ o
    → IsStep
        (late calls id account)
        (is_failed (calls.save_throws id))
        id
        rows
        (expire_found calls account o rows)
unfolding expire_found
found-IsStep calls id account rows none f =
    unchanged-IsStep _ _ id rows (unchanged rows) refl (untouched-IsExpired id rows none f)
found-IsStep calls id account rows (some r) f =
    let (i, d, m) = find_by_id-row id rows r f in
    elim (Bool-cases (is_terminal r)) [
      | inl t ↦
          unchanged-IsStep _ _ id rows (expire_found calls account (some r) rows)
            (found-terminal calls account r rows d t) (terminal-IsExpired id rows r f t)
      | inr t ↦
          subst
            (λ k.
              IsStep (late calls k account) (is_failed (calls.save_throws k)) k rows
                (expire_found calls account (some r) rows))
            i
            (subst (IsStep (late calls r.id account) (is_failed (calls.save_throws r.id)) r.id rows)
              (sym (found-open calls account r rows d t))
              (saved-IsStep calls r.id account rows r (calls.save_throws r.id)
                (ap (λ k. find_by_id k rows) i ∙ f) t))
    ]

read-IsStep :
    (calls : Calls) (id account : String) (rows : List RequestRow) (throws : Option Error)
    → IsStep
        (late calls id account)
        (is_failed throws || is_failed (calls.save_throws id))
        id
        rows
        (expire_read throws calls account (find_by_id id rows) rows)
read-IsStep calls id account rows (some e) = failed-IsStep (late calls id account) id rows e
read-IsStep calls id account rows none =
    found-IsStep calls id account rows (find_by_id id rows) refl

pub one-IsStep :
    (calls : Calls) (id account : String) (rows : List RequestRow)
    → IsStep
        (late calls id account)
        (is_failed (calls.find_throws id) || is_failed (calls.save_throws id))
        id
        rows
        (expire_one calls rows (id, account) rows)
unfolding expire_one
one-IsStep calls id account rows = read-IsStep calls id account rows (calls.find_throws id)
