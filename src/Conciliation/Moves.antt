-- ===== src/Conciliation/Moves.antt =====
-- What one use case may do to the matches: nothing, or one match of a request that had none with a
-- transaction that had none. The use cases are shown to make such moves, and the invariants of the
-- tables follow from the moves alone.
use reconbanker.Common.{
  ◌≤◌, ◌≡◌, refl, subst, sym, ap, ◌∙◌, inl, inr, Bool, true, false, List, [], ◌∷◌, ◌++◌, String,
  arith, ◌=s◌, =s_iff, if◌then◌else◌, any, count, count-snoc, Bool-cases,
}
use reconbanker.Events.{DomainEvent, conciliation_matched}
use reconbanker.Conciliation.Request.Lifecycle.{is_matched_event}
use reconbanker.Conciliation.Tables.{Db, MatchRow}
use reconbanker.Conciliation.Tables.Laws.{matched_at, has_match, is_claimed}

abbrev pub match_event : MatchRow → DomainEvent
match_event m = conciliation_matched m.request_id m.account_id m.bank_transaction_id

pub data Moves (db db' : Db) (published : List DomainEvent) : Type 0 where
  keeps :
      ((j : String) → matched_at j db'.requests ≡ matched_at j db.requests)
      → db'.matches ≡ db.matches
      → count is_matched_event published ≡ 0
      → Moves db db' published
  wins :
      (m : MatchRow)
      → ((j : String)
          → matched_at j db'.requests
            ≡ (if m.request_id =s j then true else matched_at j db.requests))
      → db'.matches ≡ db.matches ++ (m ∷ [])
      → has_match m.request_id db.matches ≡ false
      → is_claimed m.bank_transaction_id db.matches ≡ false
      → published ≡ match_event m ∷ []
      → Moves db db' published

pub stay : {db : Db} → Moves db db []
stay = keeps (λ j. refl) refl refl

-- The invariant of the tables: a request says `matched` exactly when it has a match row; no request
-- and no transaction has two.
pub record IsConsistent (db : Db) : Type 0 where
  pub agree : (j : String) → matched_at j db.requests ≡ has_match j db.matches
  pub request_once : (j : String) → count (λ m. m.request_id =s j) db.matches ≤ 1
  pub tx_once : (t : String) → count (λ m. m.bank_transaction_id =s t) db.matches ≤ 1

count_absent : (p : MatchRow → Bool) (rows : List MatchRow) → any p rows ≡ false → count p rows ≡ 0
count_absent p [] h = refl
count_absent p (x ∷ rows) h = ground (arith, count_absent p rows)

once_snoc :
    (key : MatchRow → String) (k : String) (m : MatchRow) (rows : List MatchRow)
    → any (λ x. key x =s key m) rows ≡ false
    → count (λ x. key x =s k) rows ≤ 1
    → count (λ x. key x =s k) (rows ++ (m ∷ [])) ≤ 1
once_snoc key k m rows h once = elim (Bool-cases (key m =s k)) [
  | inl e ↦ ground (
    arith,
    count-snoc (λ x. key x =s k) rows m,
    count_absent (λ x. key x =s k) rows
        (subst (λ z. any (λ x. key x =s z) rows ≡ false) ((=s_iff (key m) k).0 e) h),
  )
  | inr e ↦ ground (arith, count-snoc (λ x. key x =s k) rows m)
]

has_match-snoc :
    (j : String) (m : MatchRow) (rows : List MatchRow)
    → has_match j (rows ++ (m ∷ [])) ≡ (if m.request_id =s j then true else has_match j rows)
has_match-snoc j m [] = ground arith
has_match-snoc j m (x ∷ rows) = ground (arith, has_match-snoc j m rows)

pub Moves-IsConsistent :
    {db db' : Db} {es : List DomainEvent} → Moves db db' es → IsConsistent db → IsConsistent db'
Moves-IsConsistent (keeps a m e) c = record {
  agree = λ j. a j ∙ c.agree j ∙ ap (has_match j) (sym m);
  request_once =
      λ j. subst (λ ms. count (λ x. x.request_id =s j) ms ≤ 1) (sym m) (c.request_once j);
  tx_once = λ t. subst (λ ms. count (λ x. x.bank_transaction_id =s t) ms ≤ 1) (sym m) (c.tx_once t);
}
Moves-IsConsistent {db} (wins m a e r t p) c = record {
  agree = λ j.
      a j
      ∙ ap (λ b. if m.request_id =s j then true else b) (c.agree j)
      ∙ sym (has_match-snoc j m db.matches)
      ∙ ap (has_match j) (sym e);
  request_once = λ j.
      subst (λ ms. count (λ x. x.request_id =s j) ms ≤ 1) (sym e)
        (once_snoc (λ x. x.request_id) j m db.matches r (c.request_once j));
  tx_once = λ k.
      subst (λ ms. count (λ x. x.bank_transaction_id =s k) ms ≤ 1) (sym e)
        (once_snoc (λ x. x.bank_transaction_id) k m db.matches t (c.tx_once k));
}
