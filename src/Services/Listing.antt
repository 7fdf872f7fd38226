-- ===== src/Services/Listing.antt =====
-- services/listing_service.go: the parameters of a listing and their validation.
pub mod Images
pub mod Service
pub mod Laws
pub mod Fields
pub mod Attached
pub mod Purged
pub mod Created
pub mod Updated
pub mod Outside
mod Tests
use trekr_go.Prelude.{
  ℕ, String, Bool, true, false, ◌&&◌, Option, none, some, List, [], ◌∷◌, ◌++◌, ◌==◌,
  string_instance, Bytes, if◌then◌else◌,
}
use trekr_go.Models.{RvListing, ℤ, pos, rv_type_value}

pub record UploadedImage : Type 0 where
  pub filename : String
  pub content_type : String
  pub bytes : Bytes

pub record ListingParams : Type 0 where
  pub title : Option String
  pub description : Option String
  pub rv_type : Option String
  pub town : Option String
  pub state : Option String
  pub postcode : Option String
  pub price_per_day : Option String
  pub max_guests : Option ℤ
  pub pet_friendly : Option Bool
  pub latitude : Option ℕ
  pub longitude : Option ℕ

abbrev pub blank : Option String → Bool
blank none = true
blank (some s) = s == ""

abbrev pub deref : Option String → String
deref none = ""
deref (some s) = s

abbrev pub error_if : Bool → String → List String
error_if test message = if test then message ∷ [] else []

-- A parameter that is given replaces the old value.
abbrev pub or_else : {A : Type 0} → Option A → A → A
or_else none old = old
or_else (some new) old = new

abbrev pub or_old : {A : Type 0} → Option A → Option A → Option A
or_old none old = old
or_old (some new) old = some new

-- An enum name that is no member.
abbrev pub is_unknown : Option ℕ → Bool
is_unknown none = true
is_unknown (some v) = false

-- On create an empty `rv_type` counts as absent.
abbrev pub named_type : Option String → Option String
named_type none = none
named_type (some s) = if s == "" then none else some s

abbrev pub bad_type : Option String → Bool
bad_type none = false
bad_type (some s) = is_unknown (rv_type_value s)

abbrev pub type_value : Option String → ℕ → ℕ
type_value none old = old
type_value (some s) old = or_else (rv_type_value s) old

-- The fields that `applyCreate` sets.
unfoldable pub created_listing : RvListing → ListingParams → RvListing
created_listing l p = record l {
  title = deref p.title;
  description = deref p.description;
  rv_type = type_value (named_type p.rv_type) l.rv_type;
  town = deref p.town;
  state = deref p.state;
  postcode = deref p.postcode;
  price_per_day = p.price_per_day;
  max_guests = or_else p.max_guests l.max_guests;
  pet_friendly = or_else p.pet_friendly l.pet_friendly;
  latitude = p.latitude;
  longitude = p.longitude;
}

-- The messages of `applyCreate`, in order.
unfoldable pub create_errors : ListingParams → List String
create_errors p =
    error_if (blank p.title) "Title can't be blank"
    ++ (error_if (blank p.description) "Description can't be blank"
        ++ (error_if (bad_type (named_type p.rv_type)) "Rv type is not included in the list"
            ++ (error_if (blank p.town) "Town can't be blank"
                ++ (error_if (blank p.state) "State can't be blank"
                    ++ (error_if (blank p.postcode) "Postcode can't be blank"
                        ++ error_if (blank p.price_per_day) "Price per day can't be blank")))))

-- The fields that `applyUpdate` sets.
unfoldable pub updated_listing : RvListing → ListingParams → RvListing
updated_listing l p = record l {
  title = or_else p.title l.title;
  description = or_else p.description l.description;
  rv_type = type_value p.rv_type l.rv_type;
  town = or_else p.town l.town;
  state = or_else p.state l.state;
  postcode = or_else p.postcode l.postcode;
  price_per_day = or_old p.price_per_day l.price_per_day;
  max_guests = or_else p.max_guests l.max_guests;
  pet_friendly = or_else p.pet_friendly l.pet_friendly;
  latitude = or_old p.latitude l.latitude;
  longitude = or_old p.longitude l.longitude;
}

-- The messages of `applyUpdate`, in order: the enum's is the parameter's, the others are the
-- listing's after the change.
unfoldable pub update_errors : RvListing → ListingParams → List String
update_errors l p =
    error_if (bad_type p.rv_type) "Rv type is not included in the list"
    ++ (error_if (l.title == "") "Title can't be blank"
        ++ (error_if (l.description == "") "Description can't be blank"
            ++ (error_if (l.town == "") "Town can't be blank"
                ++ (error_if (l.state == "") "State can't be blank"
                    ++ (error_if (l.postcode == "") "Postcode can't be blank"
                        ++ error_if (blank l.price_per_day) "Price per day can't be blank")))))
