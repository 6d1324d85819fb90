-- ===== src/Banking/Monitor/Records.antt =====
-- contexts/script-engine/infrastructure/runMonitor.ts: the steps that one round records.
use reconbanker.Common.{
  ℕ, ◌+◌, ◌≤◌, ◌≢◌, ◌≡◌, ◌&&◌, refl, Bool, true, false, not, List, [], ◌∷◌, Option, none, some,
  String, Bool-cases, inl, inr, filter, is_empty, ◌=s◌, length, length-append, arith, if◌then◌else◌,
}
use reconbanker.Banking.Monitor.{
  Movement, Timed, answered, timed_out, threw, running, Settings, Round, State, Next, finish, again,
  Note, noted, failed, succeeded, poll, keep_alive, elem, keep, hand_over, on_stop, Awaited,
  settled, rejected, never, is_settling, take_batch, poll_once, roll_day, check_session,
  monitor_round, is_over,
}

-- How many transitions of the poll the state has not recorded yet.
abbrev pub unrecorded : State → ℕ
unrecorded s = (if s.first_success then 0 else 1) + (if s.first_failure then 0 else 1)

-- A round whose promises settle ends the monitor or goes on, and any round records transitions only.
abbrev pub Records : Bool → State → Next → Type 0
Records q s (finish e bs ns) = (q ≡ true → e ≢ running) × (length ns ≤ unrecorded s + 1)
Records q s (again s' bs ns) = length ns + unrecorded s' ≤ unrecorded s

pub length-noted : (o : Settings) (ns : List Note) → length (noted o ns) ≤ length ns
length-noted o ns = ground arith

keep-Records :
    (q : Bool) (o : Settings) (hangs : Option String) (s s' : State) (ns : List Note)
    → length ns + unrecorded s' ≤ unrecorded s
    → Records q s (keep o hangs s' ns)
unfolding keep
keep-Records q o none s s' ns h = h
keep-Records q o (some m) s s' ns h = elim (Bool-cases o.has_keep_alive) [
  | inl j ↦
      let hung = failed keep_alive (some "watchdog_timeout") m ∷ [] in
      rw j ((λ _ e. cc), omega (arith, length-append ns (noted o hung), length-noted o hung))
  | inr j ↦ rw j h
]

hand_over-Records :
    (q : Bool) (handed : Awaited (Unit {0})) (b : List Movement) (s s' : State) (ns : List Note)
    → (q ≡ true → is_settling handed ≡ true)
    → length ns + unrecorded s' ≤ unrecorded s
    → Records q s (hand_over handed b s' ns)
unfolding hand_over
hand_over-Records q (settled u) b s s' ns k h = h
hand_over-Records q (rejected m) b s s' ns k h = ((λ _ e. cc), omega arith)
hand_over-Records q never b s s' ns k h =
    ((λ on e. let late : false ≡ true = k on in cc), omega arith)

-- The note of a transition, made unless it was recorded before.
length-transition :
    (o : Settings) (before : Bool) (n : Note)
    → length (if before then [] else noted o (n ∷ [])) ≤ (if before then 0 else 1)
length-transition o true n = omega arith
length-transition o false n = length-noted o (n ∷ [])

take_batch-Records :
    (q : Bool) (o : Settings) (r : Round) (b : List Movement) (s : State)
    → (q ≡ true → is_settling r.handed ≡ true)
    → Records q s (take_batch o r b s)
unfolding take_batch
take_batch-Records q o r b s k =
    elim (Bool-cases (is_empty (filter (λ t. not (elem t.external_id s.seen)) b))) [
      | inl e ↦ rw e (keep-Records q o r.keep_alive_hangs s _ _ paid)
      | inr e ↦ rw e (hand_over-Records q r.handed _ s _ _ k paid)
    ]
  where
    paid :
        length (if s.first_success then [] else noted o (succeeded poll ∷ []))
          + ((if true then 0 else 1) + (if s.first_failure then 0 else 1))
        ≤ (if s.first_success then 0 else 1) + (if s.first_failure then 0 else 1)
    paid = omega (arith, length-transition o s.first_success (succeeded poll))

poll_once-Records :
    (q : Bool) (o : Settings) (r : Round) (p : Timed (List Movement)) (s : State)
    → (q ≡ true → is_settling r.handed ≡ true)
    → Records q s (poll_once o r p s)
unfolding poll_once
poll_once-Records q o r (answered b) s k = take_batch-Records q o r b s k
poll_once-Records q o r (timed_out m) s k =
    ((λ _ e. cc), omega (arith, length-noted o (failed poll (some "watchdog_timeout") m ∷ [])))
poll_once-Records q o r (threw m) s k =
    keep-Records q o r.keep_alive_hangs s _ _
      (omega (arith, length-transition o s.first_failure (failed poll none m)))

check_session-Records :
    (q : Bool) (o : Settings) (r : Round) (c : Timed Bool) (s : State)
    → (q ≡ true → is_settling r.handed ≡ true)
    → Records q s (check_session o r c s)
unfolding check_session
check_session-Records q o r (answered true) s k = poll_once-Records q o r r.polled s k
check_session-Records q o r (answered false) s k =
    let lost = failed poll (some "logged_out") "session was no longer authenticated" ∷ [] in
    ((λ _ e. cc), omega (arith, length-noted o lost))
check_session-Records q o r (timed_out m) s k =
    ((λ _ e. cc), omega (arith, length-noted o (failed poll (some "watchdog_timeout") m ∷ [])))
check_session-Records q o r (threw m) s k = ((λ _ e. cc), omega arith)

roll_day-Records :
    (q : Bool) (day : String) (s : State) (n : Next) → Records q (roll_day day s) n → Records q s n
unfolding roll_day
roll_day-Records q day s n h = elim (Bool-cases (day =s s.current_day)) [
  | inl j ↦ rw j at h
  | inr j ↦ rw j at h
]

on_stop-Records :
    (q : Bool) (s : State) (a : Awaited Bool) (n : Next)
    → (q ≡ true → is_settling a ≡ true)
    → Records q s n
    → Records q s (on_stop a n)
on_stop-Records q s (settled true) n k h = ((λ _ e. cc), omega arith)
on_stop-Records q s (settled false) n k h = h
on_stop-Records q s (rejected m) n k h = ((λ _ e. cc), omega arith)
on_stop-Records q s never n k h = ((λ on e. let late : false ≡ true = k on in cc), omega arith)

-- shouldStop and onTransactions settle in the round.
abbrev pub is_live : Round → Bool
is_live r = is_settling r.stop && is_settling r.handed

pub and-true : (p q : Bool) → (p && q) ≡ true → (p ≡ true) × (q ≡ true)
and-true true q h = (refl, h)
and-true false q h = cc

pub monitor_round-Records :
    (o : Settings) (deadline : Option ℕ) (r : Round) (s : State)
    → Records (is_live r) s (monitor_round o deadline r s)
unfolding monitor_round
monitor_round-Records o deadline r s =
    on_stop-Records (is_live r) s r.stop _
      (λ on. (and-true (is_settling r.stop) (is_settling r.handed) on).0)
      (elim (Bool-cases (is_over deadline r.now)) [
        | inl j ↦ rw j ((λ _ e. cc), omega arith)
        | inr j ↦ rw j (
            roll_day-Records (is_live r) r.day s _ (
              check_session-Records (is_live r) o r r.check _
                (λ on. (and-true (is_settling r.stop) (is_settling r.handed) on).1)))
      ])
