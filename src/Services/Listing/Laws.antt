-- ===== src/Services/Listing/Laws.antt =====
-- What the methods of the listing service do to the tables.
use trekr_go.Prelude.{
  ℕ, false, not, Option, List, [], ◌∷◌, ◌≡◌, refl, ap, ◌∙◌, ◌==◌, nat_instance, Bytes, select,
  arith,
}
use trekr_go.Models.{
  ActiveStorageBlob, RvListing, Chat, Message, Booking, ListingEmbedding, listing_model, chat_model,
  message_model, booking_model, embedding_model, User, ActiveStorageAttachment,
}
use trekr_go.Storage.{Host}
use trekr_go.Sql.{ok}
use trekr_go.Store.{
  Tables, Engine, IsEngine, State, find, first_or_none, delete, blobs, attachments, listings, chats,
  messages, bookings, embeddings, accepted,
}
use trekr_go.Store.Laws.{
  is_accepted, >>=-eq-ok, delete-eq-ok, transaction-eq-accepted, transaction_atomic, Keeps,
  >>=-Keeps,
}
use trekr_go.Services.Listing.Images.{
  purge_images, is_image_of, purge_attachment, purge_all, purge_blob,
}
use trekr_go.Services.Listing.Service.{
  Config, is_about, in_chat_about, refresh_embedding, delete_messages_about, destroy_rows,
  destroy_listing,
}

-- The tables that images are no part of.
pub record Others : Type 0 where
  pub users : List User
  pub listings : List RvListing
  pub bookings : List Booking
  pub chats : List Chat
  pub messages : List Message
  pub embeddings : List ListingEmbedding

abbrev pub others : Tables → Others
others t = record {
  users = t.users;
  listings = t.listings;
  bookings = t.bookings;
  chats = t.chats;
  messages = t.messages;
  embeddings = t.embeddings;
}

module _ (i : ℕ) where
  abbrev no_listings : Others → Others
  no_listings t = record t { listings = select (λ r. not (r.id == i)) t.listings }

  abbrev no_embeddings : Others → Others
  no_embeddings t = record t { embeddings = select (λ r. not (r.rv_listing_id == i)) t.embeddings }

  abbrev no_bookings : Others → Others
  no_bookings t = record t { bookings = select (λ r. not (r.rv_listing_id == i)) t.bookings }

  abbrev no_chats : Others → Others
  no_chats t = record t { chats = select (λ r. not (is_about i r.rv_listing_id)) t.chats }

  abbrev no_messages : Others → Others
  no_messages t = record t { messages = select (λ m. not (in_chat_about i t.chats m)) t.messages }

  -- What is left when the rows of a listing are gone.
  abbrev pub without : Others → Others
  without t = no_listings (no_embeddings (no_bookings (no_chats (no_messages t))))

module _ {W : Type 0} (E : Engine W) (H : Host W) (root : Bytes) where
  others-purge_blob : (blob : Option ActiveStorageBlob) → Keeps others (purge_blob E H root blob)
  unfolding purge_blob
  others-purge_blob blob s = ground arith

  pub others-purge_attachment :
      (att : ActiveStorageAttachment) → Keeps others (purge_attachment E H root att)
  unfolding purge_attachment
  others-purge_attachment att =
      >>=-Keeps others (delete (attachments E) (λ a. a.id == att.id)) _ (λ s. ground arith)
        (λ _.
          >>=-Keeps others (first_or_none (blobs E) (λ b. b.id == att.blob_id)) _
            (λ s. ground arith) others-purge_blob)

  others-purge_all : (atts : List ActiveStorageAttachment) → Keeps others (purge_all E H root atts)
  unfolding purge_all
  others-purge_all [] = λ s. refl
  others-purge_all (att ∷ atts) =
      >>=-Keeps others (purge_attachment E H root att) _ (others-purge_attachment att)
        (λ _. others-purge_all atts)

  others-purge_images : (i : ℕ) → Keeps others (purge_images E H root i)
  unfolding purge_images
  others-purge_images i =
      >>=-Keeps others (find (attachments E) (is_image_of i)) _ (λ s. ground arith) others-purge_all

module _ {W : Type 0} (E : Engine W) (H : Host W) (c : Config) where
  pub tables-refresh_embedding :
      (i : ℕ) (s : State W) → (refresh_embedding E H c i s).1.tables ≡ s.tables
  unfolding refresh_embedding
  tables-refresh_embedding i s = ground arith

  module _ (laws : IsEngine E) (i : ℕ) where
    delete_messages_about-eq-ok :
        (s : State W) (u : Unit {0})
        → (delete_messages_about E H c i s).0 ≡ ok u
        → (delete_messages_about E H c i s).1.tables ≡ record s.tables {
          messages = select (λ m. not (in_chat_about i s.tables.chats m)) s.tables.messages;
        }
    unfolding delete_messages_about
    delete_messages_about-eq-ok s u h =
        delete-eq-ok message_model E.clock (messages E) laws.messages _ s u h

    destroy_rows-eq-accepted :
        (s : State W)
        → (destroy_rows E H c i s).0 ≡ ok (accepted tt)
        → others (destroy_rows E H c i s).1.tables ≡ without i (others s.tables)
    unfolding destroy_rows
    destroy_rows-eq-accepted s h₀ =
        let (_, _, l₀) = >>=-eq-ok (purge_images E H c.storage_root i) _ s h₀ in
        let s₁ = (purge_images E H c.storage_root i s).1 in
        let h₁ = rw l₀ at h₀ in
        let (_, d₁, l₁) = >>=-eq-ok (delete_messages_about E H c i) _ s₁ h₁ in
        let s₂ = (delete_messages_about E H c i s₁).1 in
        let h₂ = rw l₁ at h₁ in
        let (_, d₂, l₂) = >>=-eq-ok (delete (chats E) (λ r. is_about i r.rv_listing_id)) _ s₂ h₂ in
        let s₃ = (delete (chats E) (λ r. is_about i r.rv_listing_id) s₂).1 in
        let h₃ = rw l₂ at h₂ in
        let (_, d₃, l₃) = >>=-eq-ok (delete (bookings E) (λ r. r.rv_listing_id == i)) _ s₃ h₃ in
        let s₄ = (delete (bookings E) (λ r. r.rv_listing_id == i) s₃).1 in
        let h₄ = rw l₃ at h₃ in
        let (_, d₄, l₄) = >>=-eq-ok (delete (embeddings E) (λ r. r.rv_listing_id == i)) _ s₄ h₄ in
        let s₅ = (delete (embeddings E) (λ r. r.rv_listing_id == i) s₄).1 in
        let h₅ = rw l₄ at h₄ in
        let (_, d₅, l₅) = >>=-eq-ok (delete (listings E) (λ r. r.id == i)) _ s₅ h₅ in
        ap (λ r. others r.1.tables) (l₀ ∙ l₁ ∙ l₂ ∙ l₃ ∙ l₄ ∙ l₅)
        ∙ ap others (delete-eq-ok listing_model E.clock (listings E) laws.listings _ s₅ tt d₅)
        ∙ ap (λ t. no_listings i (others t))
            (delete-eq-ok embedding_model E.clock (embeddings E) laws.embeddings _ s₄ tt d₄)
        ∙ ap (λ t. no_listings i (no_embeddings i (others t)))
            (delete-eq-ok booking_model E.clock (bookings E) laws.bookings _ s₃ tt d₃)
        ∙ ap (λ t. no_listings i (no_embeddings i (no_bookings i (others t))))
            (delete-eq-ok chat_model E.clock (chats E) laws.chats _ s₂ tt d₂)
        ∙ ap (λ t. no_listings i (no_embeddings i (no_bookings i (no_chats i (others t)))))
            (delete_messages_about-eq-ok s₁ tt d₁)
        ∙ ap (without i) (others-purge_images E H c.storage_root i s)

  -- `Destroy` deletes all or nothing.
  pub destroy_listing_atomic :
      (l : RvListing) (s : State W)
      → is_accepted (destroy_listing E H c l s).0 ≡ false
      → (destroy_listing E H c l s).1.tables ≡ s.tables
  unfolding destroy_listing
  destroy_listing_atomic l s h = transaction_atomic E _ s h

  -- A listing is destroyed with the messages of the chats about it, these chats, its bookings and
  -- its embedding; the other rows of these tables, and the users, are kept.
  pub others-destroy_listing :
      IsEngine E
      → (l : RvListing) (s : State W) → (destroy_listing E H c l s).0 ≡ ok (accepted tt)
      → others (destroy_listing E H c l s).1.tables ≡ without l.id (others s.tables)
  unfolding destroy_listing
  others-destroy_listing laws l s h =
      let (ran, kept) = transaction-eq-accepted E (destroy_rows E H c l.id) s tt h in
      ap others kept ∙ destroy_rows-eq-accepted laws l.id _ ran
