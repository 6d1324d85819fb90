-- ===== src/Banking/Session/Exclusive.antt =====
-- However the calls and the promises interleave, an account has at most one session.
use reconbanker.Common.{
  zero, suc, ◌≤◌, ◌≡◌, refl, ap, ◌∙◌, Bool, true, false, not, List, [], ◌∷◌, Option, none, some,
  arith, length, is_empty, count,
}
use reconbanker.Banking.Session.{
  Handle, Task, awaiting_start, recording_failure, awaiting_mark, awaiting_done, ending,
  ending_crash, abandoned, Signal, started, start_threw, marked, mark_threw, stopped, crashed,
  written, write_threw, Slot, empty, is_running, ensure_running, resume, Event, ensures, settles,
  step, steps,
}

-- What the maps hold while a task is in flight.
abbrev HeldBy : Option Handle → Bool → Task → Type 0
HeldBy l b awaiting_start = (l ≡ none) × (b ≡ true)
HeldBy l b recording_failure = (l ≡ none) × (b ≡ true)
HeldBy l b (awaiting_mark h) = (l ≡ some h) × (b ≡ true)
HeldBy l b (awaiting_done h) = (l ≡ some h) × (b ≡ false)
HeldBy l b (ending h) = (l ≡ some h) × (b ≡ false)
HeldBy l b (ending_crash h) = (l ≡ some h) × (b ≡ false)
HeldBy l b (abandoned h) = (l ≡ some h) × (b ≡ false)

-- A slot whose maps hold nothing has no task, and any other has exactly one.
pub data IsExclusive : Slot → Type 0 where
  idle : {s : Slot} → s.live ≡ none → s.starting ≡ false → s.tasks ≡ [] → IsExclusive s
  busy : {s : Slot} (t : Task) → HeldBy s.live s.starting t → s.tasks ≡ t ∷ [] → IsExclusive s

resume-IsExclusive :
    (t : Task) (g : Signal) (s : Slot)
    → HeldBy s.live s.starting t
    → s.tasks ≡ []
    → IsExclusive (resume t g s).0
unfolding resume
resume-IsExclusive awaiting_start (started h) s (l, b) e =
    busy (awaiting_mark h) (refl, b) (ap (λ ts. awaiting_mark h ∷ ts) e)
resume-IsExclusive awaiting_start (start_threw r) s q e =
    busy recording_failure q (ap (λ ts. recording_failure ∷ ts) e)
resume-IsExclusive recording_failure written s (l, b) e = idle l refl e
resume-IsExclusive recording_failure (write_threw r) s (l, b) e = idle l refl e
resume-IsExclusive (awaiting_mark h) (marked p) s (l, b) e =
    busy (awaiting_done h) (l, refl) (ap (λ ts. awaiting_done h ∷ ts) e)
resume-IsExclusive (awaiting_mark h) (mark_threw r) s (l, b) e =
    busy (abandoned h) (l, refl) (ap (λ ts. abandoned h ∷ ts) e)
resume-IsExclusive (awaiting_done h) (stopped r) s q e =
    busy (ending h) q (ap (λ ts. ending h ∷ ts) e)
resume-IsExclusive (awaiting_done h) (crashed r) s q e =
    busy (ending_crash h) q (ap (λ ts. ending_crash h ∷ ts) e)
resume-IsExclusive (ending h) written s (l, b) e = idle refl b e
resume-IsExclusive (ending h) (write_threw r) s q e =
    busy (ending_crash h) q (ap (λ ts. ending_crash h ∷ ts) e)
resume-IsExclusive (ending_crash h) written s (l, b) e = idle refl b e
resume-IsExclusive (ending_crash h) (write_threw r) s (l, b) e = idle refl b e
resume-IsExclusive t g s q e = busy t q (ap (λ ts. t ∷ ts) e)

not_running : (s : Slot) → s.live ≡ none → s.starting ≡ false → is_running s ≡ false
unfolding is_running
not_running s l b = ground (arith, l, b)

running-busy : (s : Slot) (t : Task) → HeldBy s.live s.starting t → is_running s ≡ true
unfolding is_running
running-busy s awaiting_start (l, b) = ground (arith, l, b)
running-busy s recording_failure (l, b) = ground (arith, l, b)
running-busy s t (l, b) = ground (arith, l, b)

ensure-IsExclusive : (s : Slot) → IsExclusive s → IsExclusive (ensure_running s)
unfolding ensure_running
ensure-IsExclusive s (idle l b e) =
    rw (not_running s l b) (busy awaiting_start (l, refl) (ap (λ ts. awaiting_start ∷ ts) e))
ensure-IsExclusive s (busy t h e) = rw (running-busy s t h) (busy t h e)

step-IsExclusive : (ev : Event) (s : Slot) → IsExclusive s → IsExclusive (step ev s).0
unfolding step
step-IsExclusive ensures s x = ensure-IsExclusive s x
step-IsExclusive (settles n g) s (idle l b e) = rw e (idle l b refl)
step-IsExclusive (settles zero g) s (busy t h e) =
    rw e (resume-IsExclusive t g (record s { tasks = [] }) h refl)
step-IsExclusive (settles (suc n) g) s (busy t h e) = rw e (busy t h refl)

pub steps-IsExclusive : (es : List Event) (s : Slot) → IsExclusive s → IsExclusive (steps es s).0
unfolding steps
steps-IsExclusive [] s x = x
steps-IsExclusive (e ∷ es) s x = steps-IsExclusive es (step e s).0 (step-IsExclusive e s x)

-- The task may have a browser open.
abbrev pub has_browser : Task → Bool
has_browser recording_failure = false
has_browser t = true

busy-is_running : (s : Slot) → IsExclusive s → is_running s ≡ not (is_empty s.tasks)
unfolding is_running
busy-is_running s (idle l b e) = ground (arith, l, b, e)
busy-is_running s (busy t h e) = running-busy s t h ∙ ground (arith, e)

-- From an empty slot, after any sequence of calls and settled promises, at most one task is in
-- flight, so at most one browser is open, and `isRunning` says exactly whether there is one.
pub steps_lem :
    (es : List Event)
    → let s = (steps es empty).0 in
      (length s.tasks ≤ 1)
      × (count has_browser s.tasks ≤ 1)
      × (is_running s ≡ not (is_empty s.tasks))
steps_lem es =
    let x = steps-IsExclusive es empty (idle refl refl refl) in
    (one _ x, browser _ x, busy-is_running _ x)
  where
    one : (s : Slot) → IsExclusive s → length s.tasks ≤ 1
    one s (idle l b e) = ground (arith, e)
    one s (busy t h e) = ground (arith, e)

    browser : (s : Slot) → IsExclusive s → count has_browser s.tasks ≤ 1
    browser s (idle l b e) = ground (arith, e)
    browser s (busy t h e) = ground (arith, e)
