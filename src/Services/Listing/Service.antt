-- ===== src/Services/Listing/Service.antt =====
-- services/listing_service.go: create, update and destroy, and the image endpoints' methods.
use trekr_go.Prelude.{
  ℕ, String, Bool, true, false, ◌&&◌, Option, none, some, List, [], ◌∷◌, ◌++◌, ◌==◌, nat_instance,
  string_instance, Bytes, any, if◌then◌else◌,
}
use trekr_go.Models.{RvListing, Chat, Message, ActiveStorageAttachment, pos}
use trekr_go.Region.{Manifest, resolve}
use trekr_go.Storage.{Host}
use trekr_go.Sql.{Result, ok}
use trekr_go.Store.{
  Engine, State, Action, pure, ◌>>=◌, ◌>>◌, first_or_none, create, save, delete, listings, chats,
  messages, bookings, embeddings, attachments, Outcome, accepted, invalid, transaction,
}
use trekr_go.Services.Listing.{
  ListingParams, UploadedImage, created_listing, create_errors, updated_listing, update_errors,
  error_if,
}
use trekr_go.Services.Listing.Images.{attach_images, purge_images, purge_attachment, is_image_of}

-- The fields of `ListingService` beside the database: the storage root, the regions, and whether
-- there is a queue.
pub record Config : Type 0 where
  pub storage_root : Bytes
  pub regions : Manifest
  pub has_queue : Bool

abbrev pub no_images : List UploadedImage → Bool
no_images [] = true
no_images (img ∷ images) = false

-- `&models.RvListing{OwnerID: ownerID, MaxGuests: 1}`
abbrev pub fresh_listing : ℕ → RvListing
fresh_listing owner_id = record {
  id = 0;
  title = "";
  description = "";
  price_per_day = none;
  owner_id = owner_id;
  max_guests = pos 1;
  pet_friendly = false;
  latitude = none;
  longitude = none;
  rv_type = 0;
  town = "";
  state = "";
  postcode = "";
  region = none;
  created_at = 0;
  updated_at = 0;
}

abbrev non_empty : String → Option String
non_empty slug = if slug == "" then none else some slug

-- `assignRegion`
unfoldable pub assign_region : Manifest → RvListing → RvListing
assign_region m l = record l { region = non_empty (resolve m l.town l.state l.postcode) }

-- `chat_id IN (SELECT id FROM chats WHERE rv_listing_id = ?)`
abbrev pub is_about : ℕ → Option ℕ → Bool
is_about listing_id none = false
is_about listing_id (some i) = i == listing_id

abbrev pub in_chat_about : ℕ → List Chat → Message → Bool
in_chat_about listing_id chats m =
    any chats (λ c. is_about listing_id c.rv_listing_id && c.id == m.chat_id)

module _ {W : Type 0} (E : Engine W) (H : Host W) (c : Config) where
  abbrev enqueued : ℕ → Bool × W → State W → Result (Unit {0}) × State W
  enqueued listing_id (true, w) s =
      (ok tt, record s { world = w; jobs = s.jobs ++ listing_id ∷ [] })
  enqueued listing_id (false, w) s = (ok tt, record s { world = w })

  -- `refreshEmbedding`: an error of the queue is logged and dropped.
  unfoldable pub refresh_embedding : ℕ → Action W (Unit {0})
  refresh_embedding listing_id s =
      if c.has_queue then enqueued listing_id (H.enqueue listing_id s.world) s else (ok tt, s)

  -- The transaction of `Create`.
  unfoldable pub insert_listing : RvListing → List UploadedImage → Action W (Outcome RvListing)
  insert_listing listing images = do
    created ← create (listings E) listing
    attach_images E H c.storage_root created.id images
    pure (accepted created)

  abbrev pub refresh_created : Outcome RvListing → Action W (Outcome RvListing)
  refresh_created (accepted l) = do refresh_embedding l.id; pure (accepted l)
  refresh_created (invalid errs) = pure (invalid errs)

  abbrev pub create_valid :
      List String → RvListing → List UploadedImage → Action W (Outcome RvListing)
  create_valid [] listing images = do
    out ← transaction E (insert_listing (assign_region c.regions listing) images)
    refresh_created out
  create_valid (e ∷ errs) listing images = pure (invalid (e ∷ errs))

  -- `ListingService.Create`
  unfoldable pub create_listing :
      ℕ → ListingParams → List UploadedImage → Action W (Outcome RvListing)
  create_listing owner_id p images =
      create_valid
        (create_errors p ++ error_if (no_images images) "Images must have at least one photo")
        (created_listing (fresh_listing owner_id) p) images

  abbrev pub update_valid : List String → RvListing → Action W (Outcome RvListing)
  update_valid [] listing = do
    saved ← save (listings E) (assign_region c.regions listing)
    refresh_embedding saved.id
    pure (accepted saved)
  update_valid (e ∷ errs) listing = pure (invalid (e ∷ errs))

  -- `ListingService.Update`
  unfoldable pub update_listing : RvListing → ListingParams → Action W (Outcome RvListing)
  update_listing listing p =
      update_valid (update_errors (updated_listing listing p) p) (updated_listing listing p)

  -- The first cascade: the messages of the chats about the listing.
  unfoldable pub delete_messages_about : ℕ → Action W (Unit {0})
  delete_messages_about listing_id s =
      delete (messages E) (in_chat_about listing_id s.tables.chats) s

  -- The transaction of `Destroy`.
  unfoldable pub destroy_rows : ℕ → Action W (Outcome (Unit {0}))
  destroy_rows listing_id = do
    purge_images E H c.storage_root listing_id
    delete_messages_about listing_id
    delete (chats E) (λ r. is_about listing_id r.rv_listing_id)
    delete (bookings E) (λ r. r.rv_listing_id == listing_id)
    delete (embeddings E) (λ r. r.rv_listing_id == listing_id)
    delete (listings E) (λ r. r.id == listing_id)
    pure (accepted tt)

  -- `ListingService.Destroy`
  unfoldable pub destroy_listing : RvListing → Action W (Outcome (Unit {0}))
  destroy_listing listing = transaction E (destroy_rows listing.id)

  abbrev pub accept : Action W (Unit {0}) → Action W (Outcome (Unit {0}))
  accept m = do m; pure (accepted tt)

  -- `ListingService.AttachImages`
  unfoldable pub attach_to_listing : ℕ → List UploadedImage → Action W (Outcome (Unit {0}))
  attach_to_listing listing_id images =
      transaction E (accept (attach_images E H c.storage_root listing_id images))

  abbrev pub delete_found : Option ActiveStorageAttachment → Action W Bool
  delete_found none = pure false
  delete_found (some att) = do
    _ ← transaction E (accept (purge_attachment E H c.storage_root att))
    pure true

  -- `ListingService.DeleteImage`: whether the attachment was found.
  unfoldable pub delete_image : ℕ → ℕ → Action W Bool
  delete_image listing_id attachment_id = do
    att ← first_or_none (attachments E) (λ a. a.id == attachment_id && is_image_of listing_id a)
    delete_found att
