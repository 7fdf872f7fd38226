-- ===== src/Store/Memory.antt =====
-- The engine in memory, on which the examples run: no call fails, and the session is the clock.
use trekr_go.Prelude.{ℕ, [], length, select}
use trekr_go.Models.{
  user_model, listing_model, booking_model, chat_model, message_model, blob_model, attachment_model,
  embedding_model, ai_request_model,
}
use trekr_go.Sql.{ok}
use trekr_go.Sql.Memory.{memory, memory-IsTable}
use trekr_go.Store.Defs.{Engine, IsEngine, Tables, State}

abbrev pub memory_engine : Engine ℕ
memory_engine = record {
  clock = λ w. w;
  begin = λ w. (ok tt, w);
  commit = λ w. (ok tt, w);
  users = memory user_model;
  listings = memory listing_model;
  bookings = memory booking_model;
  chats = memory chat_model;
  messages = memory message_model;
  blobs = memory blob_model;
  attachments = memory attachment_model;
  embeddings = memory embedding_model;
  ai_requests = memory ai_request_model;
  count_chunks = λ p w t. (ok (length (select p t)), w);
}

pub memory_engine-IsEngine : IsEngine memory_engine
memory_engine-IsEngine = record {
  users = memory-IsTable user_model;
  listings = memory-IsTable listing_model;
  bookings = memory-IsTable booking_model;
  chats = memory-IsTable chat_model;
  messages = memory-IsTable message_model;
  blobs = memory-IsTable blob_model;
  attachments = memory-IsTable attachment_model;
  embeddings = memory-IsTable embedding_model;
  ai_requests = memory-IsTable ai_request_model;
  count_chunks = λ p w t n h. cc;
}

abbrev pub empty_tables : Tables
empty_tables = record {
  users = [];
  listings = [];
  bookings = [];
  chats = [];
  messages = [];
  blobs = [];
  attachments = [];
  embeddings = [];
  ai_requests = [];
  knowledge_chunks = [];
}

-- The state at a time, with the given tables and nothing on disk or in the queue.
abbrev pub state_at : ℕ → Tables → State ℕ
state_at t tables = record { world = t; tables = tables; disk = []; jobs = [] }
