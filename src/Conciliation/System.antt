-- ===== src/Conciliation/System.antt =====
-- The use cases of contexts/conciliation as the workers call them, one after another, on the tables
-- they share. A run may have read older candidates and finds some rows locked.
use reconbanker.Common.{
  ℕ, ◌+◌, ◌≤◌, ◌≡◌, refl, sym, subst, Bool, true, false, List, [], ◌∷◌, ◌++◌, Option, none, some,
  String, arith, ◌=s◌, if◌then◌else◌, count, count-append, count-snoc, Result, Error, ok, err,
}
use reconbanker.Events.{
  DomainEvent, transaction_ingested, conciliation_matched, conciliation_failed,
  conciliation_expired, conciliation_cancelled, script_promoted,
}
use reconbanker.Conciliation.Candidate.{Text}
use reconbanker.Conciliation.Request.Lifecycle.{is_matched_event}
use reconbanker.Conciliation.Tables.{Db, BankTxRow}
use reconbanker.Conciliation.Moves.{Moves, keeps, wins, stay, IsConsistent, Moves-IsConsistent}
use reconbanker.Conciliation.Run.{Env, run_conciliation}
use reconbanker.Conciliation.Run.Effects.{run_conciliation-Moves}
use reconbanker.Conciliation.Incoming.{process_incoming, on_transaction_ingested}
use reconbanker.Conciliation.Incoming.Effects.{process_incoming-Moves}
use reconbanker.Conciliation.Poll.{
  PollInput, PendingOrder, Polled, is_present, is_reconcile, poll_with, poll_source,
  poll_pending_orders,
}
use reconbanker.Conciliation.Poll.Loop.{poll_fetched-Moves}
use reconbanker.Conciliation.Expire.{Calls, expire_stale_requests}
use reconbanker.Conciliation.Expire.Effects.{expire_stale_requests-Moves}

pub data Action : Type 0 where
  runs : Env → List BankTxRow → String → Action
  receives : Env → String → Action
  ingests : String → String → Action
  polls : ℕ → String → PollInput → Action
  expires : ℕ → Calls → Action

branch-Moves :
    (db : Db) (b : Bool) (x y : Polled)
    → Moves db (record db { requests = x.rows }) []
    → Moves db (record db { requests = y.rows }) []
    → Moves db (record db { requests = (if b then x else y).rows }) []
branch-Moves db true x y m n = m
branch-Moves db false x y m n = n

poll_source-Moves :
    (enqueue : String → Option Error) (now : ℕ) (account : String)
    (orders : Result (List PendingOrder)) (db : Db)
    → Moves db
        (record db { requests = (poll_source enqueue now account orders db.requests).rows })
        []
unfolding poll_source
poll_source-Moves enqueue now account (ok os) db = poll_fetched-Moves enqueue now account os db
poll_source-Moves enqueue now account (err e) db = stay

poll-Moves :
    (now : ℕ) (account : String) (input : PollInput) (endpoint : Option (Option String))
    (user : Option String) (db : Db)
    → Moves db
        (record db { requests = (poll_with now account input endpoint user db.requests).rows })
        []
unfolding poll_with
poll-Moves now account input none user db = stay
poll-Moves now account input (some endpoint) none db = stay
poll-Moves now account input (some endpoint) (some user) db =
    branch-Moves db (is_reconcile input.mode) _ _
      (branch-Moves db (is_present endpoint) _ _
        (poll_source-Moves input.enqueue_throws now account input.orders db) stay)
      stay

module _ (lower_nfd : Text → Text) where
  -- The tables after one use case, and the events that it published.
  unfoldable pub exec : Action → Db → Db × List DomainEvent
  unfolding run_conciliation process_incoming on_transaction_ingested poll_pending_orders
      expire_stale_requests
  exec (runs env seen id) db =
      let x = run_conciliation lower_nfd env seen id db in (x.db, x.published)
  exec (receives env tx) db = let x = process_incoming lower_nfd env tx db in (x.db, x.published)
  exec (ingests tx account) db = ((on_transaction_ingested tx account db).0, [])
  exec (polls now account input) db =
      (record db { requests = (poll_pending_orders now account input db.requests).rows }, [])
  exec (expires now calls) db =
      let x = expire_stale_requests now calls db.requests in
      (record db { requests = x.rows }, x.published)

  unfoldable pub exec_all : List Action → Db → Db × List DomainEvent
  unfolding exec
  exec_all [] db = (db, [])
  exec_all (a ∷ acts) db =
      let (db', es) = exec a db in let (db'', es') = exec_all acts db' in (db'', es ++ es')

  ingested-Moves :
      (tx account : String) (db : Db) → Moves db (on_transaction_ingested tx account db).0 []
  unfolding on_transaction_ingested
  ingested-Moves tx account db = keeps (λ j. ground arith) (ground arith) refl

  -- Each use case makes one move of the tables.
  pub exec-Moves : (a : Action) (db : Db) → let (db', es) = exec a db in Moves db db' es
  unfolding exec poll_pending_orders
  exec-Moves (runs env seen id) db = run_conciliation-Moves lower_nfd env seen id db
  exec-Moves (receives env tx) db = process_incoming-Moves lower_nfd env tx db
  exec-Moves (ingests tx account) db = ingested-Moves tx account db
  exec-Moves (polls now account input) db =
      poll-Moves now account input input.endpoint input.user_id db
  exec-Moves (expires now calls) db = expire_stale_requests-Moves now calls db

  -- Over any history of use cases, one after another, consistent tables stay consistent.
  pub exec_all-IsConsistent :
      (acts : List Action) (db : Db) → IsConsistent db → IsConsistent (exec_all acts db).0
  unfolding exec_all
  exec_all-IsConsistent [] db c = c
  exec_all-IsConsistent (a ∷ acts) db c =
      exec_all-IsConsistent acts (exec a db).0 (Moves-IsConsistent (exec-Moves a db) c)

-- The event says that the request with this id was matched.
abbrev pub is_match_of : String → DomainEvent → Bool
is_match_of j (conciliation_matched id account tx) = id =s j
is_match_of j _ = false

is_match_of-is_matched_event :
    (j : String) (e : DomainEvent) → is_matched_event e ≡ false → is_match_of j e ≡ false
is_match_of-is_matched_event j (conciliation_matched id account tx) h = cc
is_match_of-is_matched_event j (transaction_ingested _ _ _ _ _) h = refl
is_match_of-is_matched_event j (conciliation_failed _ _ _) h = refl
is_match_of-is_matched_event j (conciliation_expired _ _) h = refl
is_match_of-is_matched_event j (conciliation_cancelled _ _) h = refl
is_match_of-is_matched_event j (script_promoted _ _ _ _) h = refl

quiet :
    (j : String) (es : List DomainEvent)
    → count is_matched_event es ≡ 0
    → count (is_match_of j) es ≡ 0
quiet j [] h = refl
quiet j (e ∷ es) h = ground (arith, quiet j es, is_match_of-is_matched_event j e)

Moves-counts :
    (j : String) {db db' : Db} {es : List DomainEvent}
    → Moves db db' es
    → count (is_match_of j) es + count (λ m. m.request_id =s j) db.matches
      ≡ count (λ m. m.request_id =s j) db'.matches
Moves-counts j {db} {db'} {es} (keeps a m e) = ground (arith, quiet j es e, m)
Moves-counts j {db} (wins m a e r t p) =
    ground (arith, p, e, count-snoc (λ x. x.request_id =s j) db.matches m)

module _ (lower_nfd : Text → Text) where
  counts_all :
      (acts : List Action) (db : Db) (j : String)
      → let (db', es) = exec_all lower_nfd acts db in
        count (is_match_of j) es + count (λ m. m.request_id =s j) db.matches
        ≡ count (λ m. m.request_id =s j) db'.matches
  unfolding exec_all
  counts_all [] db j = omega arith
  counts_all (a ∷ acts) db j =
      let (db', es) = exec lower_nfd a db in
      ground (
        arith,
        Moves-counts j (exec-Moves lower_nfd a db),
        counts_all acts db' j,
        count-append (is_match_of j) es (exec_all lower_nfd acts db').1,
      )

  -- Over any history from consistent tables, the events that a request is matched are as many as the
  -- match rows that the request has gained, and with the rows it had before they are at most one.
  pub exec_all-match_once :
      (acts : List Action) (db : Db) (j : String)
      → IsConsistent db
      → let (db', es) = exec_all lower_nfd acts db in
        (count (is_match_of j) es + count (λ m. m.request_id =s j) db.matches
          ≡ count (λ m. m.request_id =s j) db'.matches)
        × (count (is_match_of j) es + count (λ m. m.request_id =s j) db.matches ≤ 1)
  exec_all-match_once acts db j c = (
    counts_all acts db j,
    subst (λ n. n ≤ 1) (sym (counts_all acts db j))
        ((exec_all-IsConsistent lower_nfd acts db c).request_once j),
  )
