-- ===== src/Store/Defs.antt =====
-- The tables, the state, actions, and the statements on one table.
use trekr_go.Prelude.{Option, none, some, ℕ, Bool, List, String, ◌≡◌, length, select}
use trekr_go.Models.{
  User, RvListing, Booking, Chat, Message, ActiveStorageBlob, ActiveStorageAttachment,
  ListingEmbedding, AiRequest, user_model, listing_model, booking_model, chat_model, message_model,
  blob_model, attachment_model, embedding_model, ai_request_model,
}
use trekr_go.Sql.{DbError, record_not_found, failed, Result, ok, err, Table, IsTable}

-- The rows of each table; of knowledge_chunks only the column `region`.
pub record Tables : Type 0 where
  pub users : List User
  pub listings : List RvListing
  pub bookings : List Booking
  pub chats : List Chat
  pub messages : List Message
  pub blobs : List ActiveStorageBlob
  pub attachments : List ActiveStorageAttachment
  pub embeddings : List ListingEmbedding
  pub ai_requests : List AiRequest
  pub knowledge_chunks : List String

-- The database engine: its calls on each table, the start and the end of a transaction, and the
-- clock that stamps rows, which the program also reads as `time.Now`.
pub record Engine (W : Type 0) : Type 0 where
  pub clock : W → ℕ
  pub begin : W → Result (Unit {0}) × W
  pub commit : W → Result (Unit {0}) × W
  pub users : Table W User
  pub listings : Table W RvListing
  pub bookings : Table W Booking
  pub chats : Table W Chat
  pub messages : Table W Message
  pub blobs : Table W ActiveStorageBlob
  pub attachments : Table W ActiveStorageAttachment
  pub embeddings : Table W ListingEmbedding
  pub ai_requests : Table W AiRequest
  pub count_chunks : (String → Bool) → W → List String → Result ℕ × W

-- Each table behaves as documented.
pub record IsEngine {W : Type 0} (E : Engine W) : Type 0 where
  pub users : IsTable user_model E.clock E.users
  pub listings : IsTable listing_model E.clock E.listings
  pub bookings : IsTable booking_model E.clock E.bookings
  pub chats : IsTable chat_model E.clock E.chats
  pub messages : IsTable message_model E.clock E.messages
  pub blobs : IsTable blob_model E.clock E.blobs
  pub attachments : IsTable attachment_model E.clock E.attachments
  pub embeddings : IsTable embedding_model E.clock E.embeddings
  pub ai_requests : IsTable ai_request_model E.clock E.ai_requests
  pub count_chunks :
      (p : String → Bool) (w : W) (t : List String) (n : ℕ)
      → (E.count_chunks p w t).0 ≡ ok n
      → n ≡ length (select p t)

-- The state of the process: the session, the tables, the files under the storage root with their
-- contents, and the listing ids that were put on the job queue.
pub record State (W : Type 0) : Type 0 where
  pub world : W
  pub tables : Tables
  pub disk : List (List (List ℕ) × List ℕ)
  pub jobs : List ℕ

abbrev pub Action : Type 0 → Type 0 → Type 0
Action W A = State W → Result A × State W

module _ {W : Type 0} where
  abbrev pub pure : {A : Type 0} → A → Action W A
  pure a s = (ok a, s)

  abbrev pub fail : {A : Type 0} → DbError → Action W A
  fail e s = (err e, s)

  abbrev pub continue : {A B : Type 0} → Result A × State W → (A → Action W B) → Result B × State W
  continue (ok a, s) f = f a s
  continue (err e, s) f = (err e, s)

  infixl 5 ◌>>=◌ ◌>>◌
  abbrev pub ◌>>=◌ : {A B : Type 0} → Action W A → (A → Action W B) → Action W B
  ◌>>=◌ m f s = continue (m s) f

  abbrev pub ◌>>◌ : {A B : Type 0} → Action W A → Action W B → Action W B
  m >> n = m >>= λ _. n

  -- A call of the engine that only reads.
  abbrev pub reading : {A : Type 0} → Result A × W → State W → Result A × State W
  reading (r, w) s = (r, record s { world = w })

  -- A call of the engine that returns the new rows of a table: `put` stores them.
  abbrev pub writing :
      {A T : Type 0} → Result (A × T) × W → (T → Tables → Tables) → State W → Result A × State W
  writing (ok (a, t), w) put s = (ok a, record s { world = w; tables = put t s.tables })
  writing (err e, w) put s = (err e, record s { world = w })

  abbrev pub storing :
      {T : Type 0} → Result T × W → (T → Tables → Tables) → State W → Result (Unit {0}) × State W
  storing (ok t, w) put s = (ok tt, record s { world = w; tables = put t s.tables })
  storing (err e, w) put s = (err e, record s { world = w })

  -- A row that may be missing: `errors.Is(err, gorm.ErrRecordNotFound)` is told apart.
  abbrev pub or_missing : {A : Type 0} → Result A × State W → Result (Option A) × State W
  or_missing (ok a, s) = (ok (some a), s)
  or_missing (err record_not_found, s) = (ok none, s)
  or_missing (err (failed message), s) = (err (failed message), s)

-- A table of the engine with its place among the tables.
pub record Handle (W Row : Type 0) : Type 0 where
  pub table : Table W Row
  pub rows : Tables → List Row
  pub with_rows : List Row → Tables → Tables

module _ {W Row : Type 0} (h : Handle W Row) where
  abbrev pub find : (Row → Bool) → Action W (List Row)
  find p s = reading (h.table.find p s.world (h.rows s.tables)) s

  abbrev pub count : (Row → Bool) → Action W ℕ
  count p s = reading (h.table.count p s.world (h.rows s.tables)) s

  abbrev pub first : (Row → Bool) → Action W Row
  first p s = reading (h.table.first p s.world (h.rows s.tables)) s

  abbrev pub first_or_none : (Row → Bool) → Action W (Option Row)
  first_or_none p s = or_missing (first p s)

  abbrev pub create : Row → Action W Row
  create r s = writing (h.table.create r s.world (h.rows s.tables)) h.with_rows s

  abbrev pub update : (Row → Bool) → (Row → Row) → Action W (Unit {0})
  update p f s = storing (h.table.update p f s.world (h.rows s.tables)) h.with_rows s

  abbrev pub save : Row → Action W Row
  save r s = writing (h.table.save r s.world (h.rows s.tables)) h.with_rows s

  abbrev pub delete : (Row → Bool) → Action W (Unit {0})
  delete p s = storing (h.table.delete p s.world (h.rows s.tables)) h.with_rows s

-- The `nil` error with a value, or with the validation messages of a 422 response.
pub data Outcome (A : Type 0) : Type 0 where
  accepted : A → Outcome A
  invalid : List String → Outcome A

module _ {W : Type 0} (E : Engine W) where
  -- `time.Now().UTC()`
  abbrev pub now : Action W ℕ
  now s = (ok (E.clock s.world), s)

  -- the tables as they were, after a rollback
  abbrev pub rolled_back : Tables → State W → State W
  rolled_back before s = record s { tables = before }

  abbrev pub committed :
      {A : Type 0} → Tables → A → Result (Unit {0}) × W → State W → Result (Outcome A) × State W
  committed before a (ok _, w) s = (ok (accepted a), record s { world = w })
  committed before a (err e, w) s = (err e, rolled_back before (record s { world = w }))

  abbrev pub finished :
      {A : Type 0} → Tables → Result (Outcome A) × State W → Result (Outcome A) × State W
  finished before (ok (accepted a), s) = committed before a (E.commit s.world) s
  finished before (ok (invalid errs), s) = (ok (invalid errs), rolled_back before s)
  finished before (err e, s) = (err e, rolled_back before s)

  abbrev begun : {A : Type 0} → Result (Unit {0}) × W → Action W (Outcome A) → Action W (Outcome A)
  begun (ok _, w) body s = finished s.tables (body (record s { world = w }))
  begun (err e, w) body s = (err e, record s { world = w })

  -- `DB.Transaction(body)`: an error of the body, the sentinel error that carries validation
  -- messages included, or a commit that fails, takes back what the body wrote to the tables. The
  -- disk and the job queue are no part of a transaction.
  unfoldable pub transaction : {A : Type 0} → Action W (Outcome A) → Action W (Outcome A)
  transaction body s = begun (E.begin s.world) body s

  abbrev pub bookings : Handle W Booking
  bookings = record {
    table = E.bookings;
    rows = λ t. t.bookings;
    with_rows = λ x t. record t { bookings = x };
  }

  abbrev pub listings : Handle W RvListing
  listings = record {
    table = E.listings;
    rows = λ t. t.listings;
    with_rows = λ x t. record t { listings = x };
  }

  abbrev pub users : Handle W User
  users = record { table = E.users; rows = λ t. t.users; with_rows = λ x t. record t { users = x } }

  abbrev pub chats : Handle W Chat
  chats = record { table = E.chats; rows = λ t. t.chats; with_rows = λ x t. record t { chats = x } }

  abbrev pub messages : Handle W Message
  messages = record {
    table = E.messages;
    rows = λ t. t.messages;
    with_rows = λ x t. record t { messages = x };
  }

  abbrev pub blobs : Handle W ActiveStorageBlob
  blobs = record { table = E.blobs; rows = λ t. t.blobs; with_rows = λ x t. record t { blobs = x } }

  abbrev pub attachments : Handle W ActiveStorageAttachment
  attachments = record {
    table = E.attachments;
    rows = λ t. t.attachments;
    with_rows = λ x t. record t { attachments = x };
  }

  abbrev pub embeddings : Handle W ListingEmbedding
  embeddings = record {
    table = E.embeddings;
    rows = λ t. t.embeddings;
    with_rows = λ x t. record t { embeddings = x };
  }

  abbrev pub ai_requests : Handle W AiRequest
  ai_requests = record {
    table = E.ai_requests;
    rows = λ t. t.ai_requests;
    with_rows = λ x t. record t { ai_requests = x };
  }

  abbrev pub count_chunks : (String → Bool) → Action W ℕ
  count_chunks p s = reading (E.count_chunks p s.world s.tables.knowledge_chunks) s
