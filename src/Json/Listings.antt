-- ===== src/Json/Listings.antt =====
-- httpapi/listing_serializer.go: the listings as they are rendered.
use trekr_go.Prelude.{
  ℕ, String, Bool, Option, none, some, List, [], ◌∷◌, ◌==◌, nat_instance, map, Bytes, if◌then◌else◌,
}
use trekr_go.Models.{User, RvListing, ℤ, rv_type_name}
use trekr_go.Storage.Verifier.{Crypto}
use trekr_go.Storage.Signed.{KeyCodec}
use trekr_go.Store.{Engine, Action, pure, ◌>>=◌}
use trekr_go.Json.{OwnerJson}
use trekr_go.Json.Images.{ImageJson, format_decimal, load_images}

pub record ListingJson : Type 0 where
  pub id : ℕ
  pub title : String
  pub description : String
  pub rv_type : String
  pub town : String
  pub state : String
  pub postcode : String
  pub price_per_day : Option String
  pub owner_id : ℕ
  pub max_guests : ℤ
  pub pet_friendly : Bool
  pub latitude : Option ℕ
  pub longitude : Option ℕ
  pub owner : OwnerJson
  pub images : List ImageJson

-- `scoredListingJSON`; a score is held as the bit pattern of its `float64`.
pub record ScoredListingJson : Type 0 where
  pub listing : ListingJson
  pub score : ℕ

abbrev name_of : Option User → String
name_of none = ""
name_of (some u) = u.name

-- The images of a listing.
abbrev pub images_of : ℕ → List (ℕ × ImageJson) → List ImageJson
images_of id [] = []
images_of id ((i, image) ∷ rest) =
    let more = images_of id rest in if i == id then image ∷ more else more

-- One listing, with its owner
unfoldable pub listing_json : List (ℕ × ImageJson) → RvListing × Option User → ListingJson
listing_json images (l, owner) = record {
  id = l.id;
  title = l.title;
  description = l.description;
  rv_type = rv_type_name l.rv_type;
  town = l.town;
  state = l.state;
  postcode = l.postcode;
  price_per_day = format_decimal l.price_per_day;
  owner_id = l.owner_id;
  max_guests = l.max_guests;
  pet_friendly = l.pet_friendly;
  latitude = l.latitude;
  longitude = l.longitude;
  owner = record { id = l.owner_id; name = name_of owner };
  images = images_of l.id images;
}

module _ (C : Crypto) (K : KeyCodec) (base : Bytes) {W : Type 0} (E : Engine W) where
  -- `serializeListings`, of listings with the owners that are preloaded
  unfoldable pub serialize_listings : List (RvListing × Option User) → Action W (List ListingJson)
  serialize_listings ls = do
    images ← load_images C K base E (map (λ l. l.0.id) ls)
    pure (map (listing_json images) ls)
