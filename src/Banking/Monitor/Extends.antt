-- ===== src/Banking/Monitor/Extends.antt =====
-- contexts/script-engine/infrastructure/runMonitor.ts: what one round hands over and remembers.
use reconbanker.Common.{
  ℕ, ◌≡◌, refl, ap, Bool, true, false, not, List, [], ◌∷◌, ◌++◌, Option, none, some, String, ◌=s◌,
  =s_iff, any-append, All, filter, Bool-cases, inl, inr, is_empty, arith,
}
use reconbanker.Banking.Monitor.{
  Movement, Timed, answered, timed_out, threw, Settings, Round, State, Next, finish, again, Note,
  elem, ids, keep, hand_over, on_stop, Awaited, settled, rejected, never, take_batch, poll_once,
  roll_day, check_session, monitor_round, is_over,
}

-- No batch has a movement that was seen before it.
abbrev pub AllNew : List String → List (List Movement) → Type 0
AllNew seen [] = Unit
AllNew seen (b ∷ bs) = All (λ t. elem t.external_id seen ≡ false) b × AllNew (ids b ++ seen) bs

-- What was seen once the batches are handed over.
abbrev pub seen_after : List String → List (List Movement) → List String
seen_after seen [] = seen
seen_after seen (b ∷ bs) = seen_after (ids b ++ seen) bs

-- The movements that a poll answered with are all among the seen.
abbrev pub Handed : List String → Timed (List Movement) → Type 0
Handed seen (answered b) = (x : String) → elem x (ids b) ≡ true → elem x seen ≡ true
Handed seen _ = Unit

pub AllNew-append :
    (seen : List String) (bs cs : List (List Movement))
    → AllNew seen bs
    → AllNew (seen_after seen bs) cs
    → AllNew seen (bs ++ cs)
AllNew-append seen [] cs h k = k
AllNew-append seen (b ∷ bs) cs h k = (h.0, AllNew-append (ids b ++ seen) bs cs h.1 k)

pub seen_after-append :
    (seen : List String) (bs cs : List (List Movement))
    → seen_after seen (bs ++ cs) ≡ seen_after (seen_after seen bs) cs
seen_after-append seen [] cs = refl
seen_after-append seen (b ∷ bs) cs = seen_after-append (ids b ++ seen) bs cs

-- What was seen stays seen.
seen_after_mono :
    (x : String) (seen : List String) (bs : List (List Movement))
    → elem x seen ≡ true
    → elem x (seen_after seen bs) ≡ true
seen_after_mono x seen [] h = h
seen_after_mono x seen (b ∷ bs) h =
    seen_after_mono x (ids b ++ seen) bs (ground (arith, any-append (λ y. y =s x) (ids b) seen))

pub Handed-seen_after :
    (p : Timed (List Movement)) (seen : List String) (bs : List (List Movement))
    → Handed seen p
    → Handed (seen_after seen bs) p
Handed-seen_after (answered b) seen bs h = λ x e. seen_after_mono x seen bs (h x e)
Handed-seen_after (timed_out m) seen bs h = tt
Handed-seen_after (threw m) seen bs h = tt

abbrev fresh_in : List String → List Movement → List Movement
fresh_in seen b = filter (λ t. not (elem t.external_id seen)) b

fresh-new :
    (seen : List String) (b : List Movement)
    → All (λ t. elem t.external_id seen ≡ false) (fresh_in seen b)
fresh-new seen [] = tt
fresh-new seen (t ∷ b) = ground (arith, fresh-new seen b)

fresh-covers :
    (x : String) (seen : List String) (b : List Movement)
    → elem x (ids b) ≡ true
    → elem x (ids (fresh_in seen b) ++ seen) ≡ true
fresh-covers x seen [] h = cc
fresh-covers x seen (t ∷ b) h = elim (Bool-cases (elem t.external_id seen)) [
  | inl old ↦ rw old (
      ground (
        arith,
        =s_iff t.external_id x,
        fresh-covers x seen b,
        λ (q : t.external_id ≡ x). ap (λ y. elem y seen) q,
        any-append (λ y. y =s x) (ids (fresh_in seen b)) seen,
      ))
  | inr new ↦ rw new (ground (arith, fresh-covers x seen b))
]

-- What a step makes of the state `s` when the poll of the round answers `p`.
abbrev pub Extends : Timed (List Movement) → State → Next → Type 0
Extends p s (finish e bs ns) = AllNew s.seen bs
Extends p s (again s' bs ns) =
    AllNew s.seen bs
    × (s'.seen ≡ seen_after s.seen bs)
    × (s'.current_day ≡ s.current_day)
    × Handed s'.seen p

keep-Extends :
    (o : Settings) (p : Timed (List Movement)) (hangs : Option String) (s s' : State)
    (ns : List Note)
    → s'.seen ≡ s.seen
    → s'.current_day ≡ s.current_day
    → Handed s.seen p
    → Extends p s (keep o hangs s' ns)
unfolding keep
keep-Extends o p none s s' ns e d h = (tt, e, d, rw e h)
keep-Extends o p (some m) s s' ns e d h = elim (Bool-cases o.has_keep_alive) [
  | inl q ↦ rw q tt
  | inr q ↦ rw q (tt, e, d, rw e h)
]

hand_over-Extends :
    (handed : Awaited (Unit {0})) (b : List Movement) (s s' : State) (ns : List Note)
    → s'.seen ≡ ids (fresh_in s.seen b) ++ s.seen
    → s'.current_day ≡ s.current_day
    → Extends (answered b) s (hand_over handed (fresh_in s.seen b) s' ns)
unfolding hand_over
hand_over-Extends (settled u) b s s' ns e d =
    ((fresh-new s.seen b, tt), e, d, rw e (λ x q. fresh-covers x s.seen b q))
hand_over-Extends (rejected m) b s s' ns e d = (fresh-new s.seen b, tt)
hand_over-Extends never b s s' ns e d = (fresh-new s.seen b, tt)

seen_of_none :
    (fs : List Movement) (x : String) (seen : List String)
    → is_empty fs ≡ true
    → elem x (ids fs ++ seen) ≡ true
    → elem x seen ≡ true
seen_of_none [] x seen e h = h
seen_of_none (t ∷ fs) x seen e h = cc

take_batch-Extends :
    (o : Settings) (r : Round) (b : List Movement) (s : State)
    → Extends (answered b) s (take_batch o r b s)
unfolding take_batch
take_batch-Extends o r b s = elim (Bool-cases (is_empty (fresh_in s.seen b))) [
  | inl e ↦ rw e (
      keep-Extends o (answered b) r.keep_alive_hangs s _ _ refl refl
        (λ x q. seen_of_none (fresh_in s.seen b) x s.seen e (fresh-covers x s.seen b q)))
  | inr e ↦ rw e (hand_over-Extends r.handed b s _ _ refl refl)
]

poll_once-Extends :
    (o : Settings) (r : Round) (p : Timed (List Movement)) (s : State)
    → Extends p s (poll_once o r p s)
unfolding poll_once
poll_once-Extends o r (answered b) s = take_batch-Extends o r b s
poll_once-Extends o r (timed_out m) s = tt
poll_once-Extends o r (threw m) s = keep-Extends o (threw m) r.keep_alive_hangs s _ _ refl refl tt

check_session-Extends :
    (o : Settings) (r : Round) (c : Timed Bool) (s : State)
    → Extends r.polled s (check_session o r c s)
unfolding check_session
check_session-Extends o r (answered true) s = poll_once-Extends o r r.polled s
check_session-Extends o r (answered false) s = tt
check_session-Extends o r (timed_out m) s = tt
check_session-Extends o r (threw m) s = tt

on_stop-Extends :
    (p : Timed (List Movement)) (s : State) (a : Awaited Bool) (n : Next)
    → Extends p s n
    → Extends p s (on_stop a n)
on_stop-Extends p s (settled true) n h = tt
on_stop-Extends p s (settled false) n h = h
on_stop-Extends p s (rejected m) n h = tt
on_stop-Extends p s never n h = tt

-- On a day that has begun, a round hands over what is new and no more.
pub monitor_round-Extends :
    (o : Settings) (deadline : Option ℕ) (r : Round) (s : State)
    → (r.day =s s.current_day) ≡ true
    → Extends r.polled s (monitor_round o deadline r s)
unfolding monitor_round roll_day
monitor_round-Extends o deadline r s day =
    on_stop-Extends r.polled s r.stop _ (elim (Bool-cases (is_over deadline r.now)) [
      | inl q ↦ rw (q) tt
      | inr q ↦ rw (q, day) (check_session-Extends o r r.check s)
    ])
