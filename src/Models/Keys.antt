-- ===== src/Models/Keys.antt =====
-- What gorm's conventions make of the structs: the field `ID` is the primary key, `CreatedAt` is
-- filled in by an insertion and `UpdatedAt` by an insertion and by an update.
use trekr_go.Prelude.{refl}
use trekr_go.Sql.{Model}
use trekr_go.Models.Rows.{
  User, RvListing, Booking, Chat, Message, ActiveStorageBlob, ActiveStorageAttachment,
  ListingEmbedding, AiRequest,
}

abbrev pub user_model : Model User
user_model = record {
  key = λ r. r.id;
  stamp = λ i now r. record r { id = i; created_at = now; updated_at = now };
  touch = λ now r. record r { updated_at = now };
  key-stamp = λ i now r. refl;
}

abbrev pub listing_model : Model RvListing
listing_model = record {
  key = λ r. r.id;
  stamp = λ i now r. record r { id = i; created_at = now; updated_at = now };
  touch = λ now r. record r { updated_at = now };
  key-stamp = λ i now r. refl;
}

abbrev pub booking_model : Model Booking
booking_model = record {
  key = λ r. r.id;
  stamp = λ i now r. record r { id = i; created_at = now; updated_at = now };
  touch = λ now r. record r { updated_at = now };
  key-stamp = λ i now r. refl;
}

abbrev pub chat_model : Model Chat
chat_model = record {
  key = λ r. r.id;
  stamp = λ i now r. record r { id = i; created_at = now; updated_at = now };
  touch = λ now r. record r { updated_at = now };
  key-stamp = λ i now r. refl;
}

abbrev pub message_model : Model Message
message_model = record {
  key = λ r. r.id;
  stamp = λ i now r. record r { id = i; created_at = now; updated_at = now };
  touch = λ now r. record r { updated_at = now };
  key-stamp = λ i now r. refl;
}

abbrev pub blob_model : Model ActiveStorageBlob
blob_model = record {
  key = λ r. r.id;
  stamp = λ i now r. record r { id = i; created_at = now };
  touch = λ now r. r;
  key-stamp = λ i now r. refl;
}

abbrev pub attachment_model : Model ActiveStorageAttachment
attachment_model = record {
  key = λ r. r.id;
  stamp = λ i now r. record r { id = i; created_at = now };
  touch = λ now r. r;
  key-stamp = λ i now r. refl;
}

abbrev pub embedding_model : Model ListingEmbedding
embedding_model = record {
  key = λ r. r.id;
  stamp = λ i now r. record r { id = i; created_at = now; updated_at = now };
  touch = λ now r. record r { updated_at = now };
  key-stamp = λ i now r. refl;
}

abbrev pub ai_request_model : Model AiRequest
ai_request_model = record {
  key = λ r. r.id;
  stamp = λ i now r. record r { id = i; created_at = now; updated_at = now };
  touch = λ now r. record r { updated_at = now };
  key-stamp = λ i now r. refl;
}
