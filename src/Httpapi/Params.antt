-- ===== src/Httpapi/Params.antt =====
-- httpapi/listing_params.go: the parameters and the images of a request, from JSON or from a
-- multipart form. The JSON decoder and the reader of forms are no code of the repository: a request
-- holds what they give.
mod Tests
use trekr_go.Prelude.{
  ℕ, String, Bool, true, false, Option, none, some, List, [], ◌∷◌, ◌==◌, string_instance, Bytes,
  codes, if◌then◌else◌,
}
use trekr_go.GoText.{has_prefix, trim_space, parse_int, parse_bool}
use trekr_go.Models.{ℤ}
use trekr_go.Services.Listing.{ListingParams, UploadedImage}

-- A `multipart.FileHeader`: the header Content-Type, empty if there is none, and the bytes, none if
-- the file cannot be opened or read.
pub record FileHeader : Type 0 where
  pub filename : String
  pub content_type : String
  pub bytes : Option Bytes

-- A `multipart.Form`: its fields and its files by name.
pub record Form : Type 0 where
  pub value : List (String × List String)
  pub file : List (String × List FileHeader)

-- `jsonBodyListing`; a number keeps its text for the price, and its bit pattern for a coordinate.
pub record JsonBodyListing : Type 0 where
  pub title : Option String
  pub description : Option String
  pub rv_type : Option String
  pub town : Option String
  pub state : Option String
  pub postcode : Option String
  pub price_per_day : Option String
  pub max_guests : Option ℤ
  pub pet_friendly : Option Bool
  pub latitude : Option ℕ
  pub longitude : Option ℕ

-- The header Content-Type, and what the two readers make of the body, none for an error.
pub record Incoming : Type 0 where
  pub content_type : Bytes
  pub form : Option Form
  pub json : Option JsonBodyListing

abbrev pub listing_file_keys : List String
listing_file_keys = "listing[images][]" ∷ "listing[images]" ∷ "images[]" ∷ "images" ∷ []

abbrev pub image_file_keys : List String
image_file_keys = "images[]" ∷ "images" ∷ []

-- `isMultipart`
unfoldable pub is_multipart : Incoming → Bool
is_multipart r = has_prefix (codes "multipart/form-data") r.content_type

-- `jsonListingParams`
abbrev params_of : JsonBodyListing → ListingParams
params_of l = record {
  title = l.title;
  description = l.description;
  rv_type = l.rv_type;
  town = l.town;
  state = l.state;
  postcode = l.postcode;
  price_per_day = l.price_per_day;
  max_guests = l.max_guests;
  pet_friendly = l.pet_friendly;
  latitude = l.latitude;
  longitude = l.longitude;
}

unfoldable pub json_listing_params : Incoming → Option ListingParams
json_listing_params r = decoded r.json
  where
    decoded : Option JsonBodyListing → Option ListingParams
    decoded none = none
    decoded (some l) = some (params_of l)

-- The entry of a map with this key.
abbrev pub entry : {A : Type 0} → String → List (String × A) → Option A
entry key [] = none
entry key ((k, a) ∷ m) = if k == key then some a else entry key m

abbrev first_of : Option (List String) → Option String
first_of none = none
first_of (some []) = none
first_of (some (v ∷ vs)) = some v

-- `formVal`
unfoldable pub form_val : Form → String → Option String
form_val form key = first_of (entry key form.value)

-- A field that cannot be read as a number or a truth value is dropped.
abbrev reading : {A : Type 0} → (String → Option A) → Option String → Option A
reading f none = none
reading f (some v) = f v

-- `strconv.Atoi` without the space around
abbrev read_int : String → Option ℤ
read_int v = parse_int (codes (trim_space v))

module _ (parse_float : String → Option ℕ) where
  -- `multipartListingParams`; `parse_float` is `strconv.ParseFloat(v, 64)`, as a bit pattern.
  unfoldable pub multipart_listing_params : Form → ListingParams
  multipart_listing_params form = record {
    title = form_val form "listing[title]";
    description = form_val form "listing[description]";
    rv_type = form_val form "listing[rv_type]";
    town = form_val form "listing[town]";
    state = form_val form "listing[state]";
    postcode = form_val form "listing[postcode]";
    price_per_day = form_val form "listing[price_per_day]";
    max_guests = reading read_int (form_val form "listing[max_guests]");
    pet_friendly = reading parse_bool (form_val form "listing[pet_friendly]");
    latitude = reading parse_float (form_val form "listing[latitude]");
    longitude = reading parse_float (form_val form "listing[longitude]");
  }

-- The files under the first of the keys that is there.
abbrev headers_of : List String → List (String × List FileHeader) → List FileHeader
headers_of [] files = []
headers_of (key ∷ keys) files = or_next (entry key files) (headers_of keys files)
  where
    or_next : Option (List FileHeader) → List FileHeader → List FileHeader
    or_next (some found) rest = found
    or_next none rest = rest

abbrev image_of : FileHeader → Bytes → UploadedImage
image_of h bytes = record {
  filename = h.filename;
  content_type = if h.content_type == "" then "application/octet-stream" else h.content_type;
  bytes = bytes;
}

abbrev added : FileHeader → Option Bytes → Option (List UploadedImage) → Option (List UploadedImage)
added h none rest = none
added h (some bytes) none = none
added h (some bytes) (some rest) = some (image_of h bytes ∷ rest)

abbrev read_files : List FileHeader → Option (List UploadedImage)
read_files [] = some []
read_files (h ∷ hs) = added h h.bytes (read_files hs)

-- `collectFiles`
unfoldable pub collect_files : Form → List String → Option (List UploadedImage)
collect_files form keys = read_files (headers_of keys form.file)

abbrev with_images :
    ListingParams → Option (List UploadedImage) → Option (ListingParams × List UploadedImage)
with_images params none = none
with_images params (some images) = some (params, images)

abbrev without_images : Option ListingParams → Option (ListingParams × List UploadedImage)
without_images none = none
without_images (some params) = some (params, [])

abbrev from_form : (String → Option ℕ) → Option Form → Option (ListingParams × List UploadedImage)
from_form parse_float none = none
from_form parse_float (some form) =
    with_images (multipart_listing_params parse_float form) (collect_files form listing_file_keys)

-- `parseListingRequest`
unfoldable pub parse_listing_request :
    (String → Option ℕ) → Incoming → Option (ListingParams × List UploadedImage)
parse_listing_request parse_float r =
    if is_multipart r then from_form parse_float r.form else without_images (json_listing_params r)

abbrev images_from : Option Form → Option (List UploadedImage)
images_from none = none
images_from (some form) = collect_files form image_file_keys

-- `parseImageUpload`
unfoldable pub parse_image_upload : Incoming → Option (List UploadedImage)
parse_image_upload r = if is_multipart r then images_from r.form else some []
