-- ===== src/Services/Listing/Images.antt =====
-- services/listing_service.go: attaching and purging images. A blob and its attachment are rows;
-- the bytes are a file.
use trekr_go.Prelude.{
  ℕ, Bool, true, false, ◌&&◌, Option, none, some, List, [], ◌∷◌, ◌==◌, nat_instance,
  string_instance, Bytes, length,
}
use trekr_go.Models.{ActiveStorageBlob, ActiveStorageAttachment}
use trekr_go.Storage.{Host, Disk, generate_key, write_blob, disk_path, FilePath}
use trekr_go.Sql.{Result, ok, err, failed}
use trekr_go.Store.{
  Engine, State, Action, pure, ◌>>=◌, ◌>>◌, find, first_or_none, create, delete, blobs, attachments,
}
use trekr_go.Services.Listing.{UploadedImage}

unfoldable pub new_attachment : ℕ → ActiveStorageBlob → ActiveStorageAttachment
new_attachment listing_id blob = record {
  id = 0;
  name = "images";
  record_type = "RvListing";
  record_id = listing_id;
  blob_id = blob.id;
  created_at = 0;
}

-- The image attachments of a listing.
abbrev pub is_image_of : ℕ → ActiveStorageAttachment → Bool
is_image_of listing_id a =
    a.record_type == "RvListing" && (a.record_id == listing_id && a.name == "images")

unfoldable pub new_blob : {W : Type 0} → Host W → Bytes → UploadedImage → ActiveStorageBlob
new_blob H key img = record {
  id = 0;
  key = key;
  filename = img.filename;
  content_type = img.content_type;
  metadata = some "{\"identified\":true}";
  service_name = "local";
  byte_size = length img.bytes;
  checksum = some (H.md5_base64 img.bytes);
  created_at = 0;
}

module _ {W : Type 0} (E : Engine W) (H : Host W) (storage_root : Bytes) where
  abbrev keyed : Option Bytes × W → State W → Result Bytes × State W
  keyed (some key, w) s = (ok key, record s { world = w })
  keyed (none, w) s = (err (failed "rand"), record s { world = w })

  -- `storage.GenerateKey`
  unfoldable pub new_key : Action W Bytes
  new_key s = keyed (generate_key H s.world) s

  abbrev stored : Bool × Disk × W → State W → Result (Unit {0}) × State W
  stored (true, disk, w) s = (ok tt, record s { world = w; disk = disk })
  stored (false, disk, w) s = (err (failed "write"), record s { world = w; disk = disk })

  -- `storage.WriteBlob`
  unfoldable pub store_bytes : Bytes → Bytes → Action W (Unit {0})
  store_bytes key bytes s = stored (write_blob H storage_root key bytes s.world s.disk) s

  -- One round of the loop of `attachImages`.
  unfoldable pub attach_image : ℕ → UploadedImage → Action W (Unit {0})
  attach_image listing_id img = do
    key ← new_key
    store_bytes key img.bytes
    blob ← create (blobs E) (new_blob H key img)
    _ ← create (attachments E) (new_attachment listing_id blob)
    pure tt

  unfoldable pub attach_images : ℕ → List UploadedImage → Action W (Unit {0})
  attach_images listing_id [] = pure tt
  attach_images listing_id (img ∷ images) = do
    attach_image listing_id img
    attach_images listing_id images

  abbrev removed : Disk × W → State W → Result (Unit {0}) × State W
  removed (disk, w) s = (ok tt, record s { world = w; disk = disk })

  -- The removal of the file, whose failure is ignored.
  abbrev remove_file : Option FilePath → Action W (Unit {0})
  remove_file none s = (ok tt, s)
  remove_file (some path) s = removed (H.remove path s.world s.disk) s

  unfoldable pub purge_blob : Option ActiveStorageBlob → Action W (Unit {0})
  purge_blob none = pure tt
  purge_blob (some blob) = do
    delete (blobs E) (λ b. b.id == blob.id)
    remove_file (disk_path storage_root blob.key)

  -- `purgeAttachment`
  unfoldable pub purge_attachment : ActiveStorageAttachment → Action W (Unit {0})
  purge_attachment att = do
    delete (attachments E) (λ a. a.id == att.id)
    blob ← first_or_none (blobs E) (λ b. b.id == att.blob_id)
    purge_blob blob

  unfoldable pub purge_all : List ActiveStorageAttachment → Action W (Unit {0})
  purge_all [] = pure tt
  purge_all (att ∷ atts) = do purge_attachment att; purge_all atts

  -- `purgeImages`
  unfoldable pub purge_images : ℕ → Action W (Unit {0})
  purge_images listing_id = do atts ← find (attachments E) (is_image_of listing_id); purge_all atts
