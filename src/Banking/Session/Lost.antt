-- ===== src/Banking/Session/Lost.antt =====
-- What follows when a write to the session table fails.
use reconbanker.Common.{
  zero, suc, ◌≡◌, refl, Bool, true, false, ◌&&◌, ◌||◌, List, [], ◌∷◌, ◌++◌, Option, none, some,
  String, arith, any, any-append, append-nil, Bool-cases, inl, inr, ap, ◌∙◌,
}
use reconbanker.Banking.Session.{
  Handle, awaiting_mark, awaiting_done, abandoned, mark_threw, stopped, written, write_threw, Slot,
  empty, is_running, Effect, mark_needs_attention, ensure_running, resume, Event, ensures, settles,
  step, steps, handle_end, is_attention_reason, for_user, emit_stopped,
}

-- The slot after a session has started and its markRunning has thrown.
abbrev pub lost : Handle → Slot
lost h = record { live = some h; starting = false; tasks = abandoned h ∷ [] }

step-lost : (h : Handle) (e : Event) → step e (lost h) ≡ (lost h, [])
unfolding step ensure_running is_running resume
step-lost h ensures = refl
step-lost h (settles zero g) = refl
step-lost h (settles (suc n) g) = refl

-- If markRunning throws once a session has started, no later call and no settled promise, the end of
-- the session included, changes the slot: the account counts as running, no session is started for
-- it any more, and nothing is written or notified.
pub mark_threw_is_final :
    (h : Handle) (e : String) (es : List Event)
    → let (s, _) =
        step
          (settles 0 (mark_threw e))
          (record { live = some h; starting = true; tasks = awaiting_mark h ∷ [] }) in
      (s ≡ lost h) × (steps es s ≡ (s, [])) × (is_running s ≡ true)
unfolding step steps resume is_running
mark_threw_is_final h e es = (refl, stay es, refl)
  where
    stay : (es : List Event) → steps es (lost h) ≡ (lost h, [])
    stay [] = refl
    stay (x ∷ es) = rw (step-lost h x, stay es)

-- The call marks the account as needing attention.
abbrev pub is_parking : Effect → Bool
is_parking (mark_needs_attention r) = true
is_parking _ = false

parks_for :
    (u : Option String) (f : String → Effect)
    → ((x : String) → is_parking (f x) ≡ false)
    → any is_parking (for_user u (λ x. f x ∷ [])) ≡ false
parks_for none f q = refl
parks_for (some u) f q = ground (arith, q u)

handle_end-parks :
    (h : Handle) (reason : String) (c : Bool)
    → any is_parking (handle_end h reason c)
      ≡ (h.assisted_persistent && (c || is_attention_reason reason))
unfolding handle_end
handle_end-parks h reason c =
    elim (Bool-cases (h.assisted_persistent && (c || is_attention_reason reason))) [
      | inl e ↦ rw e (any-append is_parking (for_user h.user_id _) _ ∙ ground arith)
      | inr e ↦ rw e (
          any-append is_parking (for_user h.user_id _) _
          ∙ ground (arith, parks_for h.user_id (λ u. emit_stopped u reason) (λ u. refl)))
    ]

-- For an assisted session that stops for a reason that needs nobody's attention: if the write of the
-- stop throws, the same stop is handled again as a crash, and the account is marked as needing
-- attention, with the error of the write for its reason.
pub write_threw-parks :
    (h : Handle) (reason e : String)
    → h.assisted_persistent ≡ true
    → is_attention_reason reason ≡ false
    → let (s, effects) =
        steps
          (settles 0 (stopped reason) ∷ settles 0 (write_threw e) ∷ settles 0 written ∷ [])
          (record { live = some h; starting = false; tasks = awaiting_done h ∷ [] }) in
      (s ≡ empty)
      × (effects ≡ handle_end h reason false ++ handle_end h e true)
      × (any is_parking (handle_end h reason false) ≡ false)
      × (any is_parking (handle_end h e true) ≡ true)
unfolding steps step resume handle_end
write_threw-parks h reason e a r = (
  refl,
  ap (λ xs. handle_end h reason false ++ xs) (append-nil (handle_end h e true)),
  handle_end-parks h reason false ∙ ground (arith, a, r),
  handle_end-parks h e true ∙ ground (arith, a),
)
