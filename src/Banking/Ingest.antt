-- ===== src/Banking/Ingest.antt =====
-- contexts/banking: application/IngestTransactionsUseCase.ts, domain/BankTransaction.ts and the
-- insert of infrastructure/BankTransactionRepository.ts. Nothing runs in a unit of work. The event
-- bus is a parameter: the error that publishing an event throws, if any.
pub mod Retry
use reconbanker.Common.{
  ℕ, suc, ◌+◌, Bool, true, false, ◌&&◌, List, [], ◌∷◌, ◌++◌, Option, none, some, String, Num, ◌=s◌,
  if◌then◌else◌, any, Result, ok, err, Error, unique_violation,
}
use reconbanker.Events.{DomainEvent, transaction_ingested}

-- ScrapedTransaction, with the id that crypto.randomUUID() has for it; `raw` is its JSON text.
pub record ScrapedTransaction : Type 0 where
  pub id : String
  pub external_id : String
  pub reference_hash : String
  pub amount : Num
  pub currency : String
  pub sender_name : Option String
  pub received_at : ℕ
  pub raw : String

-- The aggregate's props and id, and the row of it. The time of ingestion is now() of the database.
pub record BankTransaction : Type 0 where
  pub id : String
  pub account_id : String
  pub external_id : String
  pub reference_hash : String
  pub amount : Num
  pub currency : String
  pub sender_name : Option String
  pub received_at : ℕ
  pub script_id : String
  pub raw_payload : String

-- BankTransaction.create, and the event that it adds.
unfoldable pub create_transaction :
    String → String → ScrapedTransaction → BankTransaction × List DomainEvent
create_transaction account script t = (
  record {
    id = t.id;
    account_id = account;
    external_id = t.external_id;
    reference_hash = t.reference_hash;
    amount = t.amount;
    currency = t.currency;
    sender_name = t.sender_name;
    received_at = t.received_at;
    script_id = script;
    raw_payload = t.raw;
  },
  transaction_ingested t.id account t.amount t.currency t.received_at ∷ [],
)

-- findByExternalId finds a row.
unfoldable pub has_external_id : String → String → List BankTransaction → Bool
has_external_id account external rows =
    any (λ r. (r.account_id =s account) && (r.external_id =s external)) rows

-- ON CONFLICT (account_id, external_id) DO NOTHING: the flag tells whether the row was inserted.
unfoldable pub save_transaction :
    BankTransaction → List BankTransaction → Result (List BankTransaction × Bool)
unfolding has_external_id
save_transaction t rows =
    if has_external_id t.account_id t.external_id rows
    then ok (rows, false)
    else if any (λ r. r.id =s t.id) rows
    then err (unique_violation "bank_transactions_pkey")
    else ok (rows ++ (t ∷ []), true)

-- The table after the loop, how many were saved, the events handed to the bus, and the error that
-- ended the loop.
pub record Ingested : Type 0 where
  pub rows : List BankTransaction
  pub saved : ℕ
  pub published : List DomainEvent
  pub failure : Option Error

-- What happened to one transaction.
pub data Taken : Type 0 where
  known : Taken
  inserted : DomainEvent → Taken
  threw : List DomainEvent → Error → Taken

-- The event that the aggregate of a transaction has collected.
abbrev pub event_of : String → ScrapedTransaction → DomainEvent
event_of account t = transaction_ingested t.id account t.amount t.currency t.received_at

-- `continue`, the count of one more, or the error that leaves the loop.
abbrev pub after_one : Taken → List BankTransaction → Ingested → Ingested
after_one known rows rest = rest
after_one (inserted e) rows rest = record rest {
  saved = suc rest.saved;
  published = e ∷ rest.published;
}
after_one (threw es error) rows rest = record {
  rows = rows;
  saved = 0;
  published = es;
  failure = some error;
}

module _ (publish : DomainEvent → Option Error) where
  abbrev pub publish_one : Option Error → DomainEvent → Taken
  publish_one none e = inserted e
  publish_one (some error) e = threw (e ∷ []) error

  abbrev pub take_saved :
      Result (List BankTransaction × Bool)
      → DomainEvent
      → List BankTransaction
      → List BankTransaction × Taken
  take_saved (err error) e rows = (rows, threw [] error)
  take_saved (ok (rows', false)) e rows = (rows', known)
  take_saved (ok (rows', true)) e rows = (rows', publish_one (publish e) e)

  -- The body of the loop.
  unfoldable pub ingest_one :
      String → String → ScrapedTransaction → List BankTransaction → List BankTransaction × Taken
  unfolding has_external_id create_transaction save_transaction
  ingest_one account script t rows =
      if has_external_id account t.external_id rows
      then (rows, known)
      else take_saved (save_transaction (create_transaction account script t).0 rows)
          (event_of account t) rows

  -- IngestTransactionsUseCase.execute. If it throws it returns no count: `saved` is then not read.
  unfoldable pub ingest :
      String → String → List ScrapedTransaction → List BankTransaction → Ingested
  unfolding ingest_one
  ingest account script [] rows = record { rows = rows; saved = 0; published = []; failure = none }
  ingest account script (t ∷ ts) rows =
      let (rows', taken) = ingest_one account script t rows in
      after_one taken rows' (ingest account script ts rows')
