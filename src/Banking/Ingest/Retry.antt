-- ===== src/Banking/Ingest/Retry.antt =====
-- Ingesting a batch again.
use reconbanker.Common.{
  suc, ◌+◌, ◌≡◌, refl, ap, ◌∙◌, Bool, true, false, not, ◌&&◌, List, [], ◌∷◌, Option, none, some,
  String, arith, ◌=s◌, =s_refl, if◌then◌else◌, any, any-append, length, length-append, Result, ok,
  err, Error,
}
use reconbanker.Events.{DomainEvent}
use reconbanker.Banking.Ingest.{
  ScrapedTransaction, BankTransaction, Ingested, Taken, known, inserted, threw, create_transaction,
  has_external_id, save_transaction, publish_one, take_saved, event_of, ingest_one, after_one,
  ingest,
}

-- Every transaction of the batch has a row.
abbrev pub all_known : String → List ScrapedTransaction → List BankTransaction → Bool
all_known account ts rows = not (any (λ t. not (has_external_id account t.external_id rows)) ts)

save-has :
    (account script : String) (t : ScrapedTransaction) (rows rows' : List BankTransaction)
    (b : Bool)
    → save_transaction (create_transaction account script t).0 rows ≡ ok (rows', b)
    → (has_external_id account t.external_id rows' ≡ true)
      × (length rows' ≡ (if b then suc (length rows) else length rows))
unfolding save_transaction create_transaction has_external_id
save-has account script t rows rows' b h = ground (
  arith,
  any-append (λ r. (r.account_id =s account) && (r.external_id =s t.external_id)) rows
      ((create_transaction account script t).0 ∷ []),
  length-append rows ((create_transaction account script t).0 ∷ []),
  =s_refl account,
  =s_refl t.external_id,
)

save-grows :
    (account external script : String) (t : ScrapedTransaction) (rows rows' : List BankTransaction)
    (b : Bool)
    → save_transaction (create_transaction account script t).0 rows ≡ ok (rows', b)
    → has_external_id account external rows ≡ true
    → has_external_id account external rows' ≡ true
unfolding save_transaction create_transaction has_external_id
save-grows account external script t rows rows' b h a = ground (
  arith,
  any-append (λ r. (r.account_id =s account) && (r.external_id =s external)) rows
      ((create_transaction account script t).0 ∷ []),
)

-- What one transaction does: it keeps the rows, and unless it throws the transaction has a row and
-- the table has grown by one exactly if it was inserted.
record IsTaken (account : String) (t : ScrapedTransaction) (rows : List BankTransaction)
    (x : List BankTransaction × Taken) : Type 0 where
  grows :
      (e : String) → has_external_id account e rows ≡ true → has_external_id account e x.0 ≡ true
  stands :
      (q : Ingested)
      → (after_one x.1 x.0 q).failure ≡ none
      → has_external_id account t.external_id x.0 ≡ true
  counts :
      (q : Ingested)
      → (after_one x.1 x.0 q).failure ≡ none
      → (length x.0 + q.saved ≡ length rows + (after_one x.1 x.0 q).saved)
        × (length q.published + (after_one x.1 x.0 q).saved
            ≡ q.saved + length (after_one x.1 x.0 q).published)
        × (q.failure ≡ none)

known-IsTaken :
    (account : String) (t : ScrapedTransaction) (rows : List BankTransaction)
    → has_external_id account t.external_id rows ≡ true
    → IsTaken account t rows (rows, known)
known-IsTaken account t rows h = record {
  grows = λ e a. a;
  stands = λ q f. h;
  counts = λ q f. (refl, omega arith, f);
}

threw-IsTaken :
    (account : String) (t : ScrapedTransaction) (rows rows' : List BankTransaction)
    (es : List DomainEvent) (e : Error)
    → ((x : String)
        → has_external_id account x rows ≡ true
        → has_external_id account x rows' ≡ true)
    → IsTaken account t rows (rows', threw es e)
threw-IsTaken account t rows rows' es e g = record {
  grows = g;
  stands = λ q f. cc;
  counts = λ q f. cc;
}

either :
    (account : String) (t : ScrapedTransaction) (rows : List BankTransaction) (b : Bool)
    (x y : List BankTransaction × Taken)
    → (b ≡ true → IsTaken account t rows x)
    → IsTaken account t rows y
    → IsTaken account t rows (if b then x else y)
either account t rows true x y p q = p refl
either account t rows false x y p q = q

if_false : {A : Type 0} (b : Bool) (x y : A) → b ≡ false → (if b then x else y) ≡ y
if_false true x y h = cc
if_false false x y h = refl

module _ (publish : DomainEvent → Option Error) (account script : String) where
  saved-IsTaken :
      (t : ScrapedTransaction) (rows : List BankTransaction)
      (s : Result (List BankTransaction × Bool))
      → save_transaction (create_transaction account script t).0 rows ≡ s
      → IsTaken account t rows (take_saved publish s (event_of account t) rows)
  saved-IsTaken t rows (err e) h = threw-IsTaken account t rows rows [] e (λ x a. a)
  saved-IsTaken t rows (ok (rows', false)) h =
      let (a, l) = save-has account script t rows rows' false h in
      record {
        grows = λ e. save-grows account e script t rows rows' false h;
        stands = λ q f. a;
        counts = λ q f. (ground (arith, l), omega arith, f);
      }
  saved-IsTaken t rows (ok (rows', true)) h = go (publish (event_of account t))
    where
      go :
          (o : Option Error)
          → IsTaken account t rows (rows', publish_one publish o (event_of account t))
      go (some e) =
          threw-IsTaken account t rows rows' (event_of account t ∷ []) e
            (λ x. save-grows account x script t rows rows' true h)
      go none =
          let (a, l) = save-has account script t rows rows' true h in
          record {
            grows = λ e. save-grows account e script t rows rows' true h;
            stands = λ q f. a;
            counts = λ q f. (ground (arith, l), ground arith, f);
          }

  one-IsTaken :
      (t : ScrapedTransaction) (rows : List BankTransaction)
      → IsTaken account t rows (ingest_one publish account script t rows)
  unfolding ingest_one
  one-IsTaken t rows =
      either account t rows (has_external_id account t.external_id rows) _ _
        (λ e. known-IsTaken account t rows e) (saved-IsTaken t rows _ refl)

  -- What a batch that goes through has done.
  record IsIngested (ts : List ScrapedTransaction) (rows : List BankTransaction) (x : Ingested)
      : Type 0 where
    grows :
        (e : String)
        → has_external_id account e rows ≡ true
        → has_external_id account e x.rows ≡ true
    stands : x.failure ≡ none → all_known account ts x.rows ≡ true
    counts :
        x.failure ≡ none → (length x.rows ≡ length rows + x.saved) × (length x.published ≡ x.saved)

  ingest-IsIngested :
      (ts : List ScrapedTransaction) (rows : List BankTransaction)
      → IsIngested ts rows (ingest publish account script ts rows)
  unfolding ingest
  ingest-IsIngested [] rows = record {
    grows = λ e a. a;
    stands = λ f. refl;
    counts = λ f. (omega arith, refl);
  }
  ingest-IsIngested (t ∷ ts) rows =
      let (rows', taken) = ingest_one publish account script t rows in
      let a = one-IsTaken t rows in
      let q = ingest publish account script ts rows' in
      let b = ingest-IsIngested ts rows' in after taken rows' q a b
    where
      after :
          (taken : Taken) (rows' : List BankTransaction) (q : Ingested)
          → IsTaken account t rows (rows', taken)
          → IsIngested ts rows' q
          → IsIngested (t ∷ ts) rows (after_one taken rows' q)
      after (threw es e) rows' q a b = record {
        grows = a.grows;
        stands = λ f. cc;
        counts = λ f. cc;
      }
      after known rows' q a b = record {
        grows = λ e h. b.grows e (a.grows e h);
        stands = λ f. ground (arith, b.stands f, b.grows t.external_id (a.stands q f));
        counts = λ f. ground (arith, a.counts q f, b.counts f);
      }
      after (inserted e) rows' q a b = record {
        grows = λ e h. b.grows e (a.grows e h);
        stands = λ f. ground (arith, b.stands f, b.grows t.external_id (a.stands q f));
        counts = λ f. ground (arith, a.counts q f, b.counts f);
      }

  known_one :
      (t : ScrapedTransaction) (rows : List BankTransaction)
      → has_external_id account t.external_id rows ≡ true
      → ingest_one publish account script t rows ≡ (rows, known)
  unfolding ingest_one
  known_one t rows h = rw h refl

  threw_one :
      (t : ScrapedTransaction) (rows rows' : List BankTransaction) (e : Error)
      → has_external_id account t.external_id rows ≡ false
      → save_transaction (create_transaction account script t).0 rows ≡ ok (rows', true)
      → publish (event_of account t) ≡ some e
      → ingest_one publish account script t rows ≡ (rows', threw (event_of account t ∷ []) e)
  unfolding ingest_one
  threw_one t rows rows' e n s p =
      if_false _ _ _ n
      ∙ ap (λ r. take_saved publish r (event_of account t) rows) s
      ∙ ap (λ o. (rows', publish_one publish o (event_of account t))) p

  ingest-known :
      (ts : List ScrapedTransaction) (rows : List BankTransaction)
      → all_known account ts rows ≡ true
      → ingest publish account script ts rows
        ≡ record { rows = rows; saved = 0; published = []; failure = none }
  unfolding ingest
  ingest-known [] rows h = refl
  ingest-known (t ∷ ts) rows h =
      rw (known_one t rows (ground (arith, h))) (ingest-known ts rows (ground (arith, h)))

-- A batch that goes through publishes one event for each row that it adds and counts them all; and
-- ingesting it again, whatever the bus does then, adds no row and publishes nothing.
pub ingest_lem :
    (publish again : DomainEvent → Option Error) (account script : String)
    (ts : List ScrapedTransaction) (rows : List BankTransaction)
    → let x = ingest publish account script ts rows in
      x.failure ≡ none
      → (length x.rows ≡ length rows + x.saved)
        × (length x.published ≡ x.saved)
        × (ingest again account script ts x.rows
            ≡ record { rows = x.rows; saved = 0; published = []; failure = none })
ingest_lem publish again account script ts rows f =
    let b = ingest-IsIngested publish account script ts rows in
    let (l, p) = b.counts f in (l, p, ingest-known again account script ts _ (b.stands f))

-- If publishing the event of a new transaction throws, its row stands, and ingesting the batch again
-- does what ingesting the rest of it does: the event is not published again.
pub ingest-lost_event :
    (publish again : DomainEvent → Option Error) (account script : String) (t : ScrapedTransaction)
    (ts : List ScrapedTransaction) (rows rows' : List BankTransaction) (e : Error)
    → has_external_id account t.external_id rows ≡ false
    → save_transaction (create_transaction account script t).0 rows ≡ ok (rows', true)
    → publish (event_of account t) ≡ some e
    → let x = ingest publish account script (t ∷ ts) rows in
      (x.rows ≡ rows')
      × (x.failure ≡ some e)
      × (ingest again account script (t ∷ ts) x.rows ≡ ingest again account script ts rows')
unfolding ingest
ingest-lost_event publish again account script t ts rows rows' e n s p =
    let (k, _) = save-has account script t rows rows' true s in
    rw
      (
        threw_one publish account script t rows rows' e n s p,
        known_one again account script t rows' k,
      )
      (refl, refl, refl)
