-- ===== src/Json/Images.antt =====
-- httpapi/listing_serializer.go: prices and images as they are rendered.
use Prim.Native.String
use Prim.Native.String.{char_at}
use Prim.Native.Char.{code}
use trekr_go.Prelude.{
  ℕ, String, Bool, true, false, ◌&&◌, not, Option, none, some, List, [], ◌∷◌, ◌++◌, ◌==◌,
  nat_instance, string_instance, any, leb, order_by, Bytes, codes, if◌then◌else◌,
}
use trekr_go.Models.{ActiveStorageAttachment, ActiveStorageBlob}
use trekr_go.Storage.Verifier.{Crypto}
use trekr_go.Storage.Signed.{KeyCodec, generate_signed_id}
use trekr_go.Sql.{failed}
use trekr_go.Store.{Engine, Action, pure, fail, ◌>>=◌, find, attachments, blobs}

pub record ImageJson : Type 0 where
  pub id : ℕ
  pub url : Bytes

-- The row of the joined query.
pub record ImageRow : Type 0 where
  pub record_id : ℕ
  pub attachment_id : ℕ
  pub blob_id : ℕ
  pub filename : String

abbrev is_dot : String → Bool
is_dot String.[] = false
is_dot (String.◌∷◌ c s) = code c == b'.' && s == ""

-- `strings.TrimRight(s, "0")`
abbrev trim_zeros : String → String
trim_zeros String.[] = ""
trim_zeros (String.◌∷◌ c s) =
    let rest = trim_zeros s in if code c == b'0' && rest == "" then "" else String.◌∷◌ c rest

abbrev ends_in_dot : String → Bool
ends_in_dot String.[] = false
ends_in_dot (String.◌∷◌ c s) =
    let rest = ends_in_dot s in if is_dot (String.◌∷◌ c s) then true else rest

abbrev decimal_text : String → String
decimal_text s =
    if not (any (codes s) (λ c. c == b'.'))
    then String.◌++◌ s ".0"
    else if ends_in_dot (trim_zeros s)
    then String.◌++◌ (trim_zeros s) "0"
    else trim_zeros s

-- `formatDecimal`
unfoldable pub format_decimal : Option String → Option String
format_decimal none = none
format_decimal (some raw) = some (decimal_text raw)

-- The rows of attachments that the query reads, of these listings.
abbrev is_image_of_any : List ℕ → ActiveStorageAttachment → Bool
is_image_of_any ids a =
    a.record_type == "RvListing" && (a.name == "images" && any ids (λ i. a.record_id == i))

abbrev joined : List ActiveStorageBlob → ActiveStorageAttachment → List ImageRow → List ImageRow
joined [] a rest = rest
joined (b ∷ bs) a rest =
    let more = joined bs a rest in
    if b.id == a.blob_id
    then (record {
      record_id = a.record_id;
      attachment_id = a.id;
      blob_id = b.id;
      filename = b.filename;
    })
      ∷ more
    else more

abbrev join_blobs : List ActiveStorageAttachment → List ActiveStorageBlob → List ImageRow
join_blobs [] bs = []
join_blobs (a ∷ as_) bs = joined bs a (join_blobs as_ bs)

module _ (C : Crypto) (K : KeyCodec) (base : Bytes) where
  abbrev image_url : Bytes → String → Bytes
  image_url signed_id filename =
      codes "/rails/active_storage/blobs/redirect/"
      ++ signed_id
      ++ b'/' ∷ K.path_escape (codes filename)

  abbrev add_image :
      ImageRow → Option Bytes → Option (List (ℕ × ImageJson)) → Option (List (ℕ × ImageJson))
  add_image row none rest = none
  add_image row (some signed_id) none = none
  add_image row (some signed_id) (some rest) = some (
      (row.record_id, record { id = row.attachment_id; url = image_url signed_id row.filename })
      ∷ rest)

  -- The loop over the rows: the images with the id of their listing, or none if a signing fails.
  unfoldable pub sign_rows : List ImageRow → Option (List (ℕ × ImageJson))
  sign_rows [] = some []
  sign_rows (row ∷ rows) = add_image row (generate_signed_id C base row.blob_id) (sign_rows rows)

  module _ {W : Type 0} (E : Engine W) where
    abbrev signed_or_fail : Option (List (ℕ × ImageJson)) → Action W (List (ℕ × ImageJson))
    signed_or_fail none = fail (failed "the secret of the verifier cannot be derived")
    signed_or_fail (some images) = pure images

    abbrev load_some : List ℕ → Action W (List (ℕ × ImageJson))
    load_some ids = do
      found ← find (attachments E) (is_image_of_any ids)
      bs ← find (blobs E) (λ b. any found (λ a. b.id == a.blob_id))
      signed_or_fail (sign_rows (join_blobs (order_by (λ a b. leb a.id b.id) found) bs))

    -- `loadImages`: the images in the order of their attachments, each with the id of its listing.
    unfoldable pub load_images : List ℕ → Action W (List (ℕ × ImageJson))
    load_images [] = pure []
    load_images (i ∷ ids) = load_some (i ∷ ids)
