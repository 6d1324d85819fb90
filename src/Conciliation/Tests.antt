-- ===== src/Conciliation/Tests.antt =====
-- One account with one or two pending orders and the bank transactions that they wait for.
use reconbanker.Common.{
  ℕ, ◌+◌, ◌-◌, ◌≤◌, ◌≡◌, refl, Bool, true, false, not, List, [], ◌∷◌, none, some, String, arith,
  ◌=s◌, any, count, filter, cents, pos, is_empty, ok, err, validation_error,
}
use reconbanker.Conciliation.Candidate.{Text, CandidateTransaction, RequestData}
use reconbanker.Conciliation.Engine.{MatchStatus, evaluate}
use reconbanker.Conciliation.Engine.Outcome.{Decides, is_eligible, evaluate-Decides}
use reconbanker.Conciliation.Request.{
  ConciliationRequest, ConciliationStatus, pending, matched, CreateProps, create, Call, processes,
  matches, expires, clears, is_terminal,
}
use reconbanker.Conciliation.Request.Lifecycle.{
  Life, IsSound, Frozen, born, run, events, is_matched_event, create-run-IsSound, run-Frozen,
}
use reconbanker.Conciliation.Tables.{
  Db, RequestRow, BankTxRow, to_aggregate, find_by_id, find_stale, is_missing,
  find_active_external_ids,
}
use reconbanker.Conciliation.Moves.{Moves, IsConsistent}
use reconbanker.Conciliation.Run.{Env, run_conciliation, judge}
use reconbanker.Conciliation.Run.Effects.{run_conciliation-Moves}
use reconbanker.Conciliation.Run.Stuck.{ambiguous_is_stuck}
use reconbanker.Conciliation.Incoming.{process_incoming}
use reconbanker.Conciliation.Incoming.Effects.{process_incoming-Moves}
use reconbanker.Conciliation.Poll.{PendingOrder, PollInput, order_props, poll_loop, poll_fetched}
use reconbanker.Conciliation.Poll.Loop.{has_key, external_ids, poll_fetched_lem}
use reconbanker.Conciliation.Poll.Poison.{poll_fetched-poison}
use reconbanker.Conciliation.Expire.{
  Calls, expire_one, expire_stale_requests, five_days_ms, stale_limit,
}
use reconbanker.Conciliation.Expire.Effects.{Reaches, expire_stale_requests_lem}
use reconbanker.Conciliation.Expire.Race.{expire_race}
use reconbanker.Conciliation.System.{
  Action, runs, receives, polls, expires, exec_all, is_match_of, exec_all-IsConsistent,
  exec_all-match_once,
}

-- ASCII text is lower case and decomposed already.
abbrev ascii : Text → Text
ascii t = t

abbrev ana : Text
ana = 97 ∷ 110 ∷ 97 ∷ []

abbrev row : ConciliationStatus → RequestRow
row status = record {
  id = "r1";
  account_id = "a1";
  external_id = "o1";
  expected_amount = cents (pos 1000);
  currency = "UYU";
  sender_name = some ana;
  status = status;
  idempotency_key = none;
  retry_count = 0;
  last_checked_at = none;
  created_at = 0;
}

abbrev candidate : String → CandidateTransaction
candidate id = record {
  id = id;
  amount = cents (pos 1000);
  currency = "UYU";
  sender_name = some ana;
  received_at = 10;
}

abbrev tx : String → BankTxRow
tx id = record { account_id = "a1"; transaction = candidate id; excluded = false }

abbrev one_pending : Db
one_pending = record {
  requests = row pending ∷ [];
  attempts = [];
  matches = [];
  bank_txs = tx "t1" ∷ [];
}

abbrev two_candidates : Db
two_candidates = record one_pending { bank_txs = tx "t1" ∷ tx "t2" ∷ [] }

abbrev free : String → Bool
free id = false

abbrev env : Env
env = record { now = 20; attempt_id = "x1"; match_id = "m1"; locked = free }

abbrev next_env : Env
next_env = record { now = 30; attempt_id = "x2"; match_id = "m2"; locked = free }

one_pending-IsConsistent : IsConsistent one_pending
one_pending-IsConsistent = record {
  agree = λ j. ground arith;
  request_once = λ j. omega arith;
  tx_once = λ t. omega arith;
}

abbrev notify_all : Calls
notify_all = record {
  list_throws = none;
  find_throws = λ id. none;
  save_throws = λ id. none;
  notifies = λ account. ok true;
  enqueue_throws = λ id. none;
  publish_throws = λ id. none;
}

abbrev order : String → ℕ → PendingOrder
order id amount = record {
  id = id;
  external_id = id;
  amount = cents (pos amount);
  currency = "UYU";
  sender_name = ana;
}

abbrev poll_of : List PendingOrder → PollInput
poll_of os = record {
  endpoint = some (some "https://shop.example/orders");
  user_id = some "u1";
  mode = some "reconcile";
  orders = ok os;
  enqueue_throws = λ id. none;
}

abbrev history : List Action
history =
    polls 15 "a1" (poll_of (order "o1" 1000 ∷ order "o2" 500 ∷ []))
    ∷ runs env (tx "t1" ∷ []) "r1"
    ∷ receives next_env "t1"
    ∷ expires 40 notify_all
    ∷ []

exec_all-match_once_example :
    let (db', es) = exec_all ascii history one_pending in
    (count (is_match_of "r1") es + count (λ m. m.request_id =s "r1") one_pending.matches
      ≡ count (λ m. m.request_id =s "r1") db'.matches)
    × (count (is_match_of "r1") es + count (λ m. m.request_id =s "r1") one_pending.matches ≤ 1)
exec_all-match_once_example =
    exec_all-match_once ascii history one_pending "r1" one_pending-IsConsistent

exec_all-IsConsistent_example : IsConsistent (exec_all ascii history one_pending).0
exec_all-IsConsistent_example =
    exec_all-IsConsistent ascii history one_pending one_pending-IsConsistent

abbrev request : RequestData
request = record {
  expected_amount = cents (pos 1000);
  currency = "UYU";
  sender_name = some ana;
  created_at = 0;
}

evaluate-Decides_example :
    Decides
      (filter (is_eligible ascii request) (candidate "t1" ∷ candidate "t2" ∷ []))
      (evaluate ascii request (candidate "t1" ∷ candidate "t2" ∷ []))
evaluate-Decides_example =
    evaluate-Decides ascii request (candidate "t1" ∷ candidate "t2" ∷ []) ((refl, tt), (tt, tt))

run_conciliation-Moves_example :
    let x = run_conciliation ascii env (tx "t1" ∷ []) "r1" one_pending in
    Moves one_pending x.db x.published
run_conciliation-Moves_example = run_conciliation-Moves ascii env (tx "t1" ∷ []) "r1" one_pending

process_incoming-Moves_example :
    let x = process_incoming ascii env "t1" one_pending in Moves one_pending x.db x.published
process_incoming-Moves_example = process_incoming-Moves ascii env "t1" one_pending

abbrev order_props_example : CreateProps
order_props_example = order_props "a1" (order "o1" 1000)

abbrev request_1 : ConciliationRequest
request_1 = to_aggregate (row pending)

created : create 0 "r1" order_props_example ≡ ok request_1
unfolding create to_aggregate
created = refl

abbrev calls : List Call
calls = processes 20 ∷ matches "t1" ∷ clears ∷ expires ∷ []

create-run-IsSound_example : IsSound (run (born request_1) calls)
create-run-IsSound_example = create-run-IsSound 0 "r1" order_props_example request_1 calls created

abbrev closed : Life
closed = born (to_aggregate (row matched))

closed-is_terminal : is_terminal closed.request ≡ true
unfolding to_aggregate
closed-is_terminal = refl

run-Frozen_example :
    Frozen closed.request (run closed calls).request
    × (events is_matched_event (run closed calls) ≡ events is_matched_event closed)
run-Frozen_example = run-Frozen closed calls is_matched_event closed-is_terminal

abbrev two_orders : List PendingOrder
two_orders = order "o2" 500 ∷ order "o3" 700 ∷ []

polled : (poll_fetched (λ id. none) 15 "a1" two_orders (row pending ∷ [])).failure ≡ none
unfolding poll_fetched
polled = refl

poll_fetched_lem_example :
    let x = poll_fetched (λ id. none) 15 "a1" two_orders (row pending ∷ []) in
    (any (λ o. not (has_key "a1" x.rows o)) two_orders ≡ false)
    × (count (is_missing "a1" (external_ids two_orders)) x.rows ≡ 0)
poll_fetched_lem_example =
    poll_fetched_lem (λ id. none) 15 "a1" two_orders (row pending ∷ []) polled

expire_stale_requests_lem_example :
    Reaches notify_all
      (find_stale (500000000 - five_days_ms) stale_limit (row pending ∷ []))
      (row pending ∷ [])
      (expire_stale_requests 500000000 notify_all (row pending ∷ []))
expire_stale_requests_lem_example =
    expire_stale_requests_lem 500000000 notify_all (row pending ∷ []) refl

judged : (judge ascii two_candidates.bank_txs request_1).status ≡ MatchStatus.ambiguous
unfolding judge to_aggregate
judged = refl

found : find_by_id "r1" two_candidates.requests ≡ some request_1
unfolding find_by_id to_aggregate
found = refl

committed :
    is_empty (run_conciliation ascii env two_candidates.bank_txs "r1" two_candidates).published
    ≡ false
unfolding run_conciliation
committed = refl

-- The second run sees only one candidate, and could have matched it.
ambiguous_is_stuck_example :
    let x = run_conciliation ascii env two_candidates.bank_txs "r1" two_candidates in
    let y = run_conciliation ascii next_env one_pending.bank_txs "r1" x.db in
    (y.db ≡ x.db) × (y.published ≡ [])
ambiguous_is_stuck_example =
    ambiguous_is_stuck ascii env next_env two_candidates.bank_txs one_pending.bank_txs "r1"
      two_candidates request_1 found judged committed

free_order :
    create 15 "o9" (order_props "a1" (order "o9" 0)) ≡ err (validation_error "expectedAmount")
unfolding create
free_order = refl

not_active : any (λ x. x =s "o9") (find_active_external_ids "a1" (row pending ∷ [])) ≡ false
unfolding find_active_external_ids
not_active = refl

first_passes :
    (poll_loop
      (λ id. none)
      15
      "a1"
      (find_active_external_ids "a1" (row pending ∷ []))
      (order "o2" 500 ∷ [])
      (row pending ∷ [])).failure
    ≡ none
unfolding poll_loop find_active_external_ids
first_passes = refl

poll_fetched-poison_example :
    poll_fetched
      (λ id. none)
      15
      "a1"
      (order "o2" 500 ∷ order "o9" 0 ∷ order "o3" 700 ∷ [])
      (row pending ∷ [])
    ≡ record (poll_loop
        (λ id. none)
        15
        "a1"
        (find_active_external_ids "a1" (row pending ∷ []))
        (order "o2" 500 ∷ [])
        (row pending ∷ [])) { failure = some (validation_error "expectedAmount") }
poll_fetched-poison_example =
    poll_fetched-poison (λ id. none) 15 "a1" (order "o2" 500 ∷ []) (order "o3" 700 ∷ [])
      (order "o9" 0) (row pending ∷ []) (validation_error "expectedAmount") not_active free_order
      first_passes

abbrev one_matched : Db
one_matched = record one_pending {
  requests = row matched ∷ [];
  matches =
      record {
        id = "m1";
        account_id = "a1";
        request_id = "r1";
        bank_transaction_id = "t1";
        is_notified = false;
      }
      ∷ [];
}

one_matched-IsConsistent : IsConsistent one_matched
one_matched-IsConsistent = record {
  agree = λ j. ground arith;
  request_once = λ j. ground arith;
  tx_once = λ t. ground arith;
}

still_open : is_terminal request_1 ≡ false
unfolding to_aggregate
still_open = refl

expire_race_example : ¬ IsConsistent (record one_matched {
  requests = (expire_one notify_all (row pending ∷ []) ("r1", "a1") one_matched.requests).rows;
})
expire_race_example =
    expire_race notify_all (row pending ∷ []) "r1" "a1" one_matched request_1 refl refl
      one_matched-IsConsistent found still_open refl
