-- ===== src/Models/Rows.antt =====
-- internal/models: the structs, field by field.
use trekr_go.Prelude.{ℕ, String, Bool, Option, List}

-- A Go `int` that may be negative: `negsuc n` is -(n + 1).
pub data ℤ : Type 0 where
  pos : ℕ → ℤ
  negsuc : ℕ → ℤ

pub record User : Type 0 where
  pub id : ℕ
  pub email : String
  pub encrypted_password : String
  pub reset_password_token : Option String
  pub reset_password_sent_at : Option ℕ
  pub remember_created_at : Option ℕ
  pub name : String
  pub created_at : ℕ
  pub updated_at : ℕ

pub record RvListing : Type 0 where
  pub id : ℕ
  pub title : String
  pub description : String
  pub price_per_day : Option String
  pub owner_id : ℕ
  pub max_guests : ℤ
  pub pet_friendly : Bool
  pub latitude : Option ℕ
  pub longitude : Option ℕ
  pub rv_type : ℕ
  pub town : String
  pub state : String
  pub postcode : String
  pub region : Option String
  pub created_at : ℕ
  pub updated_at : ℕ

pub record Booking : Type 0 where
  pub id : ℕ
  pub start_date : ℕ
  pub end_date : ℕ
  pub status : String
  pub hirer_id : ℕ
  pub rv_listing_id : ℕ
  pub created_at : ℕ
  pub updated_at : ℕ

pub record Chat : Type 0 where
  pub id : ℕ
  pub hirer_id : ℕ
  pub owner_id : ℕ
  pub rv_listing_id : Option ℕ
  pub booking_id : Option ℕ
  pub created_at : ℕ
  pub updated_at : ℕ
  pub last_message_at : Option ℕ
  pub last_message_content : Option String
  pub hirer_last_read_at : Option ℕ
  pub owner_last_read_at : Option ℕ

pub record Message : Type 0 where
  pub id : ℕ
  pub content : String
  pub user_id : ℕ
  pub chat_id : ℕ
  pub read_at : Option ℕ
  pub created_at : ℕ
  pub updated_at : ℕ

pub record ActiveStorageBlob : Type 0 where
  pub id : ℕ
  pub key : List ℕ
  pub filename : String
  pub content_type : String
  pub metadata : Option String
  pub service_name : String
  pub byte_size : ℕ
  pub checksum : Option String
  pub created_at : ℕ

pub record ActiveStorageAttachment : Type 0 where
  pub id : ℕ
  pub name : String
  pub record_type : String
  pub record_id : ℕ
  pub blob_id : ℕ
  pub created_at : ℕ

pub record ListingEmbedding : Type 0 where
  pub id : ℕ
  pub rv_listing_id : ℕ
  pub embedding : List ℕ
  pub document : Option String
  pub model : Option String
  pub content_hash : Option String
  pub created_at : ℕ
  pub updated_at : ℕ

pub record AiRequest : Type 0 where
  pub id : ℕ
  pub feature : String
  pub model : String
  pub prompt_version : Option String
  pub input_tokens : Option ℕ
  pub output_tokens : Option ℕ
  pub latency_ms : Option ℕ
  pub estimated_cost_usd : Option ℕ
  pub success : Bool
  pub error_message : Option String
  pub request_payload : Option String
  pub response_payload : Option String
  pub user_id : Option ℕ
  pub created_at : ℕ
  pub updated_at : ℕ
