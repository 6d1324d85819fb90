-- ===== src/Banking/Tests.antt =====
-- A monitor session that is started twice and whose writes fail, and a trail of three events.
use reconbanker.Common.{
  ℕ, ◌≤◌, ◌≡◌, refl, ◌⊎◌, true, false, not, List, [], ◌∷◌, ◌++◌, map, Option, none, some, length,
  is_empty, any, count,
}
use reconbanker.Common.{String, ◌+◌, cents, pos, ok, Error, other}
use reconbanker.Events.{DomainEvent}
use reconbanker.Banking.Ingest.{
  ScrapedTransaction, BankTransaction, create_transaction, has_external_id, save_transaction,
  ingest,
}
use reconbanker.Banking.Ingest.Retry.{ingest_lem, ingest-lost_event}
use reconbanker.Banking.Notify.{MovementRow, Call, is_unconfirmed, notify_all}
use reconbanker.Banking.Notify.Once.{notify_all-once}
use reconbanker.Banking.Session.{
  Handle, empty, awaiting_mark, awaiting_done, started, marked, mark_threw, stopped, written,
  write_threw, Event, ensures, settles, step, steps, is_running, handle_end,
}
use reconbanker.Banking.Session.Exclusive.{has_browser, steps_lem}
use reconbanker.Banking.Session.Lost.{lost, is_parking, mark_threw_is_final, write_threw-parks}
use reconbanker.Banking.Trail.{
  Entry, text, scalar, nested, drain, events, clamp_entry, serialized_size, max_entry_chars,
}
use reconbanker.Banking.Trail as trail
use reconbanker.Banking.Trail.Window.{trail_of, drain-events}
use reconbanker.Banking.Trail.Clamp.{is_small, clamp_entry_lem}

abbrev handle : Handle
handle = record { user_id = some "u1"; assisted_persistent = true; reports_authentication = true }

abbrev two_starts : List Event
two_starts = ensures ∷ ensures ∷ settles 0 (started handle) ∷ ensures ∷ settles 0 (marked none) ∷ []

steps_lem_example :
    let s = (steps two_starts empty).0 in
    (length s.tasks ≤ 1) × (count has_browser s.tasks ≤ 1) × (is_running s ≡ not (is_empty s.tasks))
steps_lem_example = steps_lem two_starts

abbrev later : List Event
later = ensures ∷ settles 0 (stopped "logged_out") ∷ ensures ∷ []

mark_threw_is_final_example :
    let (s, _) =
      step
        (settles 0 (mark_threw "db down"))
        (record { live = some handle; starting = true; tasks = awaiting_mark handle ∷ [] }) in
    (s ≡ lost handle) × (steps later s ≡ (s, [])) × (is_running s ≡ true)
mark_threw_is_final_example = mark_threw_is_final handle "db down" later

write_threw-parks_example :
    let (s, effects) =
      steps
        (settles 0 (stopped "max_runtime")
          ∷ settles 0 (write_threw "db down")
          ∷ settles 0 written
          ∷ [])
        (record { live = some handle; starting = false; tasks = awaiting_done handle ∷ [] }) in
    (s ≡ empty)
    × (effects ≡ handle_end handle "max_runtime" false ++ handle_end handle "db down" true)
    × (any is_parking (handle_end handle "max_runtime" false) ≡ false)
    × (any is_parking (handle_end handle "db down" true) ≡ true)
write_threw-parks_example = write_threw-parks handle "max_runtime" "db down" refl refl

-- A length for each entry: a thousand for each field.
abbrev thousand_each : Entry → Option ℕ
thousand_each [] = some 2
thousand_each (f ∷ e) = some 3000

abbrev clicked : Entry
clicked = ("event", text (99 ∷ [])) ∷ ("page", nested "{}") ∷ []

drain-events_example :
    drain (events thousand_each (clicked ∷ [] ∷ clicked ∷ []) trail.empty)
    ≡ (trail_of (map (clamp_entry thousand_each) (clicked ∷ [] ∷ clicked ∷ [])), trail.empty)
drain-events_example = drain-events thousand_each (clicked ∷ [] ∷ clicked ∷ [])

clamp_entry_lem_example :
    (serialized_size thousand_each clicked ≤ max_entry_chars
      → clamp_entry thousand_each clicked ≡ clicked)
    × ((serialized_size thousand_each (clamp_entry thousand_each clicked) ≤ max_entry_chars)
        ⊎ ((length (clamp_entry thousand_each clicked) ≡ 3)
            × (any (λ f. not (is_small f.1)) (clamp_entry thousand_each clicked) ≡ false)))
clamp_entry_lem_example = clamp_entry_lem thousand_each clicked

abbrev movement : String → ScrapedTransaction
movement id = record {
  id = id;
  external_id = id;
  reference_hash = "h";
  amount = cents (pos 1000);
  currency = "UYU";
  sender_name = none;
  received_at = 0;
  raw = "{}";
}

abbrev working : DomainEvent → Option Error
working e = none

abbrev failing : DomainEvent → Option Error
failing e = some (other "queue down")

abbrev batch : List ScrapedTransaction
batch = movement "e1" ∷ movement "e2" ∷ movement "e1" ∷ []

goes_through : (ingest working "a1" "s1" batch []).failure ≡ none
unfolding ingest
goes_through = refl

ingest_lem_example :
    let x = ingest working "a1" "s1" batch [] in
    (length x.rows ≡ length {A = BankTransaction} [] + x.saved)
    × (length x.published ≡ x.saved)
    × (ingest failing "a1" "s1" batch x.rows
        ≡ record { rows = x.rows; saved = 0; published = []; failure = none })
ingest_lem_example = ingest_lem working failing "a1" "s1" batch [] goes_through

abbrev first_row : BankTransaction
first_row = (create_transaction "a1" "s1" (movement "e1")).0

unknown : has_external_id "a1" "e1" [] ≡ false
unfolding has_external_id
unknown = refl

saved :
    save_transaction (create_transaction "a1" "s1" (movement "e1")).0 [] ≡ ok (first_row ∷ [], true)
unfolding save_transaction
saved = refl

ingest-lost_event_example :
    let x = ingest failing "a1" "s1" (movement "e1" ∷ []) [] in
    (x.rows ≡ first_row ∷ [])
    × (x.failure ≡ some (other "queue down"))
    × (ingest working "a1" "s1" (movement "e1" ∷ []) x.rows
        ≡ ingest working "a1" "s1" [] (first_row ∷ []))
ingest-lost_event_example =
    ingest-lost_event failing working "a1" "s1" (movement "e1") [] [] (first_row ∷ [])
      (other "queue down") unknown saved refl

abbrev notified_row : MovementRow
notified_row = record {
  id = "t1";
  account_id = "a1";
  sender_name = some "Ana";
  amount = "10";
  currency = "UYU";
  received_at = "x";
  is_notified = false;
}

abbrev call_with : Option Error → Call
call_with throws = record {
  config = some (record {
    webhook_url = some "https://shop.example/hook";
    silent_ingestion = false;
    auth_type = "bearer";
    auth_token = none;
    webhook_auth_type = none;
    webhook_auth_token = none;
    extra_fields = [];
  });
  account_user = some "u1";
  mode = some "passthrough";
  send = record {
    arrives = true;
    send_throws = none;
    log_throws = throws;
    error_log_throws = none;
  };
}

abbrev calls : List Call
calls = call_with (some (other "timeout")) ∷ call_with none ∷ call_with none ∷ []

notify_all-once_example :
    count (λ x. x.has_arrived) (notify_all calls "t1" (notified_row ∷ []))
    ≤ 1 + count is_unconfirmed (notify_all calls "t1" (notified_row ∷ []))
notify_all-once_example = notify_all-once calls "t1" (notified_row ∷ [])

-- The log of the first arrival throws, so the claim is released and the second call arrives too.
deliveries :
    map (λ x. x.has_arrived) (notify_all calls "t1" (notified_row ∷ [])) ≡ true ∷ true ∷ false ∷ []
unfolding notify_all
deliveries = refl
