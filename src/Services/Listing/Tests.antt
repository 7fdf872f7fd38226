-- ===== src/Services/Listing/Tests.antt =====
-- Runs of the listing service, and its theorems at concrete inputs.
use trekr_go.Prelude.{
  length, false, All, ℕ, true, none, some, [], ◌∷◌, ◌≡◌, ◌<◌, refl, arith, nat_instance,
  string_instance, list_instance, codes, replace, ◌==◌,
}
use trekr_go.Models.{
  ActiveStorageAttachment, RvListing, Chat, Message, rv_type_value, listing_model,
}
use trekr_go.Region.{Manifest, resolve}
use trekr_go.Storage.{has_dots, disk_path, base36_digit, generate_key, write_blob}
use trekr_go.Storage.Memory.{memory_host}
use trekr_go.Sql.{ok, IsFresh}
use trekr_go.Store.{State, accepted, transaction}
use trekr_go.Store.Memory.{memory_engine, memory_engine-IsEngine, empty_tables, state_at}
use trekr_go.Services.Listing.{
  ListingParams, UploadedImage, created_listing, create_errors, updated_listing, update_errors,
}
use trekr_go.Services.Listing.Images.{
  is_image_of, new_key, store_bytes, new_blob, new_attachment, attach_image, attach_images,
  purge_blob, purge_attachment, purge_all, purge_images,
}
use trekr_go.Services.Listing.Service.{
  Config, assign_region, fresh_listing, refresh_embedding, insert_listing, create_listing,
  update_listing, delete_messages_about, destroy_rows, destroy_listing,
}
use trekr_go.Services.Listing.Laws.{others, others-destroy_listing}
use trekr_go.Services.Listing.Created.{create_listing-IsListed, create_listing_atomic}
use trekr_go.Services.Listing.Fields.{IsFilled, IsUpdated}
use trekr_go.Services.Listing.Attached.{images_of}
use trekr_go.Services.Listing.Purged.{destroy_listing_no_images}
use trekr_go.Services.Listing.Updated.{update_listing-eq-accepted, update_listing_atomic}

abbrev victoria : Manifest
victoria = record {
  regions =
      record {
        slug = "great-ocean-road";
        name = "Great Ocean Road";
        state = "VIC";
        towns = "Lorne" ∷ [];
        doc = "";
      }
      ∷ [];
}

abbrev settings : Config
settings = record { storage_root = codes "storage"; regions = victoria; has_queue = true }

abbrev no_params : ListingParams
no_params = record {
  title = none;
  description = none;
  rv_type = none;
  town = none;
  state = none;
  postcode = none;
  price_per_day = none;
  max_guests = none;
  pet_friendly = none;
  latitude = none;
  longitude = none;
}

abbrev van_params : ListingParams
van_params = record no_params {
  title = some "Van";
  description = some "A van";
  rv_type = some "motorhome";
  town = some "Lorne";
  state = some "VIC";
  postcode = some "3232";
  price_per_day = some "120.00";
}

abbrev photo : UploadedImage
photo = record { filename = "a.jpg"; content_type = "image/jpeg"; bytes = 1 ∷ 2 ∷ [] }

abbrev before : State ℕ
before = state_at 5 empty_tables

abbrev van : RvListing
van =
    listing_model.stamp 1 5 (assign_region victoria (created_listing (fresh_listing 4) van_params))

steps : Unit {0}
unfolding create_listing update_listing destroy_listing destroy_rows delete_messages_about
    insert_listing refresh_embedding attach_images attach_image new_key store_bytes new_blob
    new_attachment purge_images purge_all purge_attachment purge_blob transaction created_listing
    create_errors updated_listing update_errors assign_region resolve write_blob generate_key
    disk_path has_dots base36_digit rv_type_value
steps = tt

create_run :
    (create_listing memory_engine memory_host settings 4 van_params (photo ∷ []) before).0
    ≡ ok (accepted van)
unfolding steps
create_run = refl

create_listing-IsListed_example :
    let after =
      (create_listing memory_engine memory_host settings 4 van_params
        (photo ∷ [])
        before).1.tables in
    IsFilled victoria 4 van_params van
    × (0 < 1)
    × IsFresh listing_model 1 []
    × (after.listings ≡ van ∷ [])
    × (length (images_of 1 after) ≡ 1)
create_listing-IsListed_example =
    create_listing-IsListed memory_engine memory_host settings 4 van_params (photo ∷ []) before
      memory_engine-IsEngine van create_run

create_listing_atomic_example :
    (create_listing memory_engine memory_host settings 4 no_params (photo ∷ []) before).1.tables
    ≡ empty_tables
unfolding steps
create_listing_atomic_example =
    create_listing_atomic memory_engine memory_host settings 4 no_params (photo ∷ []) before refl

-- The van with an empty town, and with another price.
abbrev stored : State ℕ
stored = state_at 9 (record empty_tables { listings = van ∷ [] })

abbrev new_price : ListingParams
new_price = record no_params { price_per_day = some "99.00" }

update_run :
    (update_listing memory_engine memory_host settings van new_price stored).0
    ≡ ok (accepted (record van { price_per_day = some "99.00"; updated_at = 9 }))
unfolding steps
update_run = refl

update_listing-eq-accepted_example :
    let l : RvListing = record van { price_per_day = some "99.00"; updated_at = 9 } in
    IsUpdated victoria van new_price 9 l
    × ((update_listing memory_engine memory_host settings van new_price stored).1.tables
        ≡ record empty_tables { listings = replace (λ x. x.id == van.id) (λ _. l) (van ∷ []) })
unfolding created_listing assign_region
update_listing-eq-accepted_example =
    update_listing-eq-accepted memory_engine memory_host settings van new_price stored
      memory_engine-IsEngine (record van { price_per_day = some "99.00"; updated_at = 9 })
      (λ e. omega arith) refl update_run

update_listing_atomic_example :
    (update_listing memory_engine memory_host settings van
      (record no_params { town = some "" })
      stored).1.tables
    ≡ record empty_tables { listings = van ∷ [] }
unfolding steps
update_listing_atomic_example =
    update_listing_atomic memory_engine memory_host settings van
      (record no_params { town = some "" }) stored refl

abbrev chat_of : ℕ → ℕ → Chat
chat_of i listing_id = record {
  id = i;
  hirer_id = 8;
  owner_id = 4;
  rv_listing_id = some listing_id;
  booking_id = none;
  created_at = 5;
  updated_at = 5;
  last_message_at = none;
  last_message_content = none;
  hirer_last_read_at = none;
  owner_last_read_at = none;
}

abbrev message_in : ℕ → ℕ → Message
message_in i chat_id = record {
  id = i;
  content = "hi";
  user_id = 8;
  chat_id = chat_id;
  read_at = none;
  created_at = 5;
  updated_at = 5;
}

abbrev with_chats : State ℕ
with_chats = state_at 9 (record empty_tables {
  listings = van ∷ [];
  chats = chat_of 1 1 ∷ chat_of 2 3 ∷ [];
  messages = message_in 1 1 ∷ message_in 2 2 ∷ [];
})

others-destroy_listing_example :
    others (destroy_listing memory_engine memory_host settings van with_chats).1.tables
    ≡ others (record empty_tables { chats = chat_of 2 3 ∷ []; messages = message_in 2 2 ∷ [] })
unfolding steps
others-destroy_listing_example =
    others-destroy_listing memory_engine memory_host settings memory_engine-IsEngine van with_chats
      refl

abbrev image_of : ℕ → ℕ → ActiveStorageAttachment
image_of i listing_id = record {
  id = i;
  name = "images";
  record_type = "RvListing";
  record_id = listing_id;
  blob_id = i;
  created_at = 5;
}

abbrev with_images : State ℕ
with_images =
    state_at 9
      (record empty_tables { listings = van ∷ []; attachments = image_of 1 1 ∷ image_of 2 3 ∷ [] })

-- The image of the other listing is kept.
images_left :
    (destroy_listing memory_engine memory_host settings van with_images).1.tables.attachments
    ≡ image_of 2 3 ∷ []
unfolding steps
images_left = refl

destroy_listing_no_images_example :
    All
      (λ x. is_image_of 1 x ≡ false)
      (destroy_listing memory_engine memory_host settings van with_images).1.tables.attachments
unfolding steps
destroy_listing_no_images_example =
    destroy_listing_no_images memory_engine memory_host settings memory_engine-IsEngine van
      with_images refl
