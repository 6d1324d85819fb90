-- ===== src/Conciliation/Expire/Effects.antt =====
-- The whole expiry, with nothing between its statements.
use reconbanker.Common.{
  ℕ, ◌-◌, ◌≡◌, refl, sym, subst, ◌++◌, ◌∙◌, inl, inr, ap, not, ◌||◌, true, false, Error, is_empty,
  Bool, List, [], ◌∷◌, Option, none, some, String, arith, ◌=s◌, if◌then◌else◌, any, count-append,
  Bool-cases,
}
use reconbanker.Conciliation.Request.{ConciliationStatus}
use reconbanker.Conciliation.Request.Lifecycle.{is_matched_event}
use reconbanker.Conciliation.Tables.{Db, RequestRow, find_stale}
use reconbanker.Conciliation.Tables.Laws.{status_at}
use reconbanker.Conciliation.Moves.{Moves, keeps}
use reconbanker.Conciliation.Expire.{
  Expired, is_failed, expire_one, expire_loop, expire_stale_requests, five_days_ms, Calls,
  expire_listed, and_then, stale_limit,
}
use reconbanker.Conciliation.Expire.Steps.{
  expire_status, may_throw_late, late, IsQuiet, IsExpired, IsStep, one-IsStep,
}

-- Whether a call for a reference throws.
abbrev pub may_throw : Calls → String × String → Bool
may_throw calls (id, account) =
    is_failed (calls.find_throws id)
    || (is_failed (calls.save_throws id)
        || may_throw_late (calls.notifies account) (calls.enqueue_throws id)
            (calls.publish_throws id))

abbrev pub is_listed : String → List (String × String) → Bool
is_listed j refs = any (λ ref. ref.0 =s j) refs

expire_twice : (o : Option ConciliationStatus) → expire_status (expire_status o) ≡ expire_status o
expire_twice none = refl
expire_twice (some s) = ground arith

-- How far the loop came: the references before an error, or all of them.
pub record Reaches (calls : Calls) (refs : List (String × String)) (rows : List RequestRow)
    (x : Expired) : Type 0 where
  pub done : List (String × String)
  pub left : List (String × String)
  pub split : done ++ left ≡ refs
  pub all_done : (is_failed x.failure || is_empty left) ≡ true
  pub blame : (not (is_failed x.failure) || any (may_throw calls) refs) ≡ true
  pub statuses :
      (j : String)
      → status_at j x.rows
        ≡ (if is_listed j done then expire_status (status_at j rows) else status_at j rows)

record IsLoop (calls : Calls) (refs : List (String × String)) (rows : List RequestRow) (x : Expired)
    : Type 0 where
  reaches : Reaches calls refs rows x
  quietly : IsQuiet rows x

assoc_or : (a b c : Bool) → ((a || b) || c) ≡ (a || (b || c))
assoc_or true b c = refl
assoc_or false b c = refl

blame-cons :
    (f early late more : Bool)
    → (not f || (early || late)) ≡ true
    → (not f || ((early || late) || more)) ≡ true
blame-cons f early late more h = ground arith

-- An error in the step of the first reference ends the loop.
first-IsLoop :
    (calls : Calls) (id account : String) (refs : List (String × String)) (rows : List RequestRow)
    (x : Expired)
    → is_failed x.failure ≡ true
    → IsStep
        (late calls id account)
        (is_failed (calls.find_throws id) || is_failed (calls.save_throws id))
        id
        rows
        x
    → IsLoop calls ((id, account) ∷ refs) rows x
first-IsLoop calls id account refs rows x f w = record {
  reaches = elim w.reached [
    | inl all ↦ record {
      done = (id, account) ∷ [];
      left = refs;
      split = refl;
      all_done = rw f refl;
      blame = ground (arith, w.blame, f);
      statuses = λ j. ground (arith, all j);
    }
    | inr (_, e) ↦ record {
      done = [];
      left = (id, account) ∷ refs;
      split = refl;
      all_done = rw f refl;
      blame = ground (arith, w.blame, f);
      statuses = λ j. ap (status_at j) e;
    }
  ];
  quietly = w.quietly;
}

rest-IsLoop :
    (calls : Calls) (id account : String) (refs : List (String × String)) (rows : List RequestRow)
    (x y : Expired)
    → is_failed x.failure ≡ false
    → IsStep
        (late calls id account)
        (is_failed (calls.find_throws id) || is_failed (calls.save_throws id))
        id
        rows
        x
    → IsLoop calls refs x.rows y
    → IsLoop calls ((id, account) ∷ refs) rows (and_then x y)
rest-IsLoop calls id account refs rows x y f w l =
    let full : IsExpired id rows x.rows = elim w.reached [
      | inl all ↦ all
      | inr (b, _) ↦ absurd (ground (arith, b, f))
    ] in
    record {
      reaches = record {
        done = (id, account) ∷ l.reaches.done;
        left = l.reaches.left;
        split = ap (λ r. (id, account) ∷ r) l.reaches.split;
        all_done = l.reaches.all_done;
        blame = ground (arith, l.reaches.blame);
        statuses =
            λ j. ground (arith, full j, l.reaches.statuses j, expire_twice (status_at j rows));
      };
      quietly = record {
        same = λ j. l.quietly.same j ∙ w.quietly.same j;
        silent =
            count-append is_matched_event x.published _
            ∙ ground (arith, w.quietly.silent, l.quietly.silent);
      };
    }

expire_loop-IsLoop :
    (calls : Calls) (refs : List (String × String)) (rows : List RequestRow)
    → IsLoop calls refs rows (expire_loop calls refs rows)
unfolding expire_loop
expire_loop-IsLoop calls [] rows = record {
  reaches = record {
    done = [];
    left = [];
    split = refl;
    all_done = refl;
    blame = refl;
    statuses = λ j. refl;
  };
  quietly = record { same = λ j. refl; silent = refl };
}
expire_loop-IsLoop calls ((id, account) ∷ refs) rows =
    let a = expire_one calls rows (id, account) rows in
    let w = one-IsStep calls id account rows in
    elim (Bool-cases (is_failed a.failure)) [
      | inl f ↦ rw f (first-IsLoop calls id account refs rows a f w)
      | inr f ↦
          rw f
            (rest-IsLoop calls id account refs rows a _ f w (expire_loop-IsLoop calls refs a.rows))
    ]

-- Where the query of the stale requests returns: the expiry takes the listed references in order. It
-- turns the request of each one that it reaches into `expired`, unless that is terminal, and changes
-- the status of no other request. It ends in an error only if a call for a listed reference throws,
-- and without an error it has reached all of them.
pub expire_stale_requests_lem :
    (now : ℕ) (calls : Calls) (rows : List RequestRow)
    → calls.list_throws ≡ none
    → Reaches calls
        (find_stale (now - five_days_ms) stale_limit rows)
        rows
        (expire_stale_requests now calls rows)
unfolding expire_stale_requests
expire_stale_requests_lem now calls rows h =
    let refs = find_stale (now - five_days_ms) stale_limit rows in
    let l = expire_loop-IsLoop calls refs rows in
    subst (λ o. Reaches calls refs rows (expire_listed o calls refs rows)) (sym h) l.reaches

listed-IsQuiet :
    (throws : Option Error) (calls : Calls) (refs : List (String × String)) (rows : List RequestRow)
    → IsQuiet rows (expire_listed throws calls refs rows)
listed-IsQuiet (some e) calls refs rows = record { same = λ j. refl; silent = refl }
listed-IsQuiet none calls refs rows = (expire_loop-IsLoop calls refs rows).quietly

pub expire_stale_requests-Moves :
    (now : ℕ) (calls : Calls) (db : Db)
    → let x = expire_stale_requests now calls db.requests in
      Moves db (record db { requests = x.rows }) x.published
unfolding expire_stale_requests
expire_stale_requests-Moves now calls db =
    let q = listed-IsQuiet calls.list_throws calls _ db.requests in keeps q.same refl q.silent
