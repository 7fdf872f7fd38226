-- ===== src/Services/Listing/Fields.antt =====
-- services/listing_service.go, applyCreate, applyUpdate and assignRegion: what an accepted row has in
-- each column.
use trekr_go.Prelude.{
  ℕ, String, Bool, true, false, Option, none, some, [], ◌≡◌, refl, ap, ◌⊎◌, inl, inr, Bool-cases,
  ◌==◌, string_instance, append-eq-nil,
}
use trekr_go.Models.{RvListing, listing_model, pos, rv_type_value}
use trekr_go.Region.{Manifest, resolve}
use trekr_go.Services.Listing.{
  ListingParams, created_listing, create_errors, updated_listing, update_errors, error_if, blank,
  deref, or_else, or_old, is_unknown, bad_type, named_type, type_value,
}
use trekr_go.Services.Listing.Service.{fresh_listing, assign_region}

-- A text that is given and is not empty.
abbrev pub IsText : Option String → String → Type 0
IsText o new = (o ≡ some new) × ((new == "") ≡ false)

-- What is given, or else what was there.
abbrev pub IsGiven : {A : Type 0} → Option A → A → A → Type 0
IsGiven o new old = (o ≡ some new) ⊎ ((o ≡ none) × (new ≡ old))

-- The same of a column that can be null.
abbrev pub IsGivenOrOld : {A : Type 0} → Option A → Option A → Option A → Type 0
IsGivenOrOld {A = A} o new old =
    ((a : A) × (o ≡ some a) × (new ≡ some a)) ⊎ ((o ≡ none) × (new ≡ old))

-- The slug of the row's place, or null where there is none.
abbrev pub IsRegionOf : Manifest → RvListing → Type 0
IsRegionOf m l =
    ((resolve m l.town l.state l.postcode ≡ "") × (l.region ≡ none))
    ⊎ (((resolve m l.town l.state l.postcode == "") ≡ false)
        × (l.region ≡ some (resolve m l.town l.state l.postcode)))

-- The row that an owner creates with these parameters.
pub record IsFilled (m : Manifest) (owner_id : ℕ) (p : ListingParams) (l : RvListing) : Type 0 where
  pub title : IsText p.title l.title
  pub description : IsText p.description l.description
  pub town : IsText p.town l.town
  pub state : IsText p.state l.state
  pub postcode : IsText p.postcode l.postcode
  pub price : (x : String) × IsText p.price_per_day x × (l.price_per_day ≡ some x)
  pub rv_type :
      ((p.rv_type ≡ none) × (l.rv_type ≡ 0))
      ⊎ (((p.rv_type ≡ some "") × (l.rv_type ≡ 0))
          ⊎ ((s : String) × (p.rv_type ≡ some s) × (rv_type_value s ≡ some l.rv_type)))
  pub guests : IsGiven p.max_guests l.max_guests (pos 1)
  pub pets : IsGiven p.pet_friendly l.pet_friendly false
  pub latitude : l.latitude ≡ p.latitude
  pub longitude : l.longitude ≡ p.longitude
  pub owner : l.owner_id ≡ owner_id
  pub stamped : l.created_at ≡ l.updated_at
  pub region : IsRegionOf m l

-- The row of a listing that is updated with these parameters at this time.
pub record IsUpdated (m : Manifest) (old : RvListing) (p : ListingParams) (now : ℕ) (l : RvListing)
    : Type 0 where
  pub title : IsGiven p.title l.title old.title × ((l.title == "") ≡ false)
  pub description :
      IsGiven p.description l.description old.description × ((l.description == "") ≡ false)
  pub town : IsGiven p.town l.town old.town × ((l.town == "") ≡ false)
  pub state : IsGiven p.state l.state old.state × ((l.state == "") ≡ false)
  pub postcode : IsGiven p.postcode l.postcode old.postcode × ((l.postcode == "") ≡ false)
  pub price :
      IsGivenOrOld p.price_per_day l.price_per_day old.price_per_day
      × ((x : String) × IsText l.price_per_day x)
  pub rv_type :
      ((p.rv_type ≡ none) × (l.rv_type ≡ old.rv_type))
      ⊎ ((s : String) × (p.rv_type ≡ some s) × (rv_type_value s ≡ some l.rv_type))
  pub guests : IsGiven p.max_guests l.max_guests old.max_guests
  pub pets : IsGiven p.pet_friendly l.pet_friendly old.pet_friendly
  pub latitude : IsGivenOrOld p.latitude l.latitude old.latitude
  pub longitude : IsGivenOrOld p.longitude l.longitude old.longitude
  pub id : l.id ≡ old.id
  pub owner : l.owner_id ≡ old.owner_id
  pub created : l.created_at ≡ old.created_at
  pub updated : l.updated_at ≡ now
  pub region : IsRegionOf m l

error_if-eq-nil : (t : Bool) (m : String) → error_if t m ≡ [] → t ≡ false
error_if-eq-nil true m h = cc
error_if-eq-nil false m h = refl

deref-IsText : (o : Option String) → blank o ≡ false → IsText o (deref o)
deref-IsText none h = cc
deref-IsText (some s) h = (refl, h)

price_given : (o : Option String) → blank o ≡ false → (x : String) × IsText o x × (o ≡ some x)
price_given none h = cc
price_given (some s) h = (s, (refl, h), refl)

or_else-IsGiven : {A : Type 0} (o : Option A) (old : A) → IsGiven o (or_else o old) old
or_else-IsGiven none old = inr (refl, refl)
or_else-IsGiven (some a) old = inl refl

or_old-IsGivenOrOld : {A : Type 0} (o old : Option A) → IsGivenOrOld o (or_old o old) old
or_old-IsGivenOrOld none old = inr (refl, refl)
or_old-IsGivenOrOld (some a) old = inl (a, refl, refl)

known_value : (x : Option ℕ) (old : ℕ) → is_unknown x ≡ false → x ≡ some (or_else x old)
known_value none old h = cc
known_value (some v) old h = refl

type_given :
    (o : Option String) (old : ℕ)
    → bad_type o ≡ false
    → ((o ≡ none) × (type_value o old ≡ old))
      ⊎ ((s : String) × (o ≡ some s) × (rv_type_value s ≡ some (type_value o old)))
type_given none old h = inl (refl, refl)
type_given (some s) old h = inr (s, refl, known_value (rv_type_value s) old h)

named_given :
    (o : Option String)
    → bad_type (named_type o) ≡ false
    → ((o ≡ none) × (type_value (named_type o) 0 ≡ 0))
      ⊎ (((o ≡ some "") × (type_value (named_type o) 0 ≡ 0))
          ⊎ ((s : String) × (o ≡ some s) × (rv_type_value s ≡ some (type_value (named_type o) 0))))
named_given none h = inl (refl, refl)
named_given (some s) h = elim (Bool-cases (s == "")) [
  | inl empty ↦ rw empty (inr (inl (ap some ((string_instance.tells_same_iff s "").0 empty), refl)))
  | inr given ↦ rw given (inr (inr (s, refl, known_value (rv_type_value s) 0 (rw given at h))))
]

placed_region : (m : Manifest) (l : RvListing) → IsRegionOf m (assign_region m l)
unfolding assign_region
placed_region m l = elim (Bool-cases (resolve m l.town l.state l.postcode == "")) [
  | inl nowhere ↦ rw nowhere (
      inl
        ((string_instance.tells_same_iff (resolve m l.town l.state l.postcode) "").0 nowhere, refl))
  | inr somewhere ↦ rw somewhere (inr (refl, refl))
]

pub created_listing-IsFilled :
    (m : Manifest) (owner_id id now : ℕ) (p : ListingParams)
    → create_errors p ≡ []
    → IsFilled m owner_id p
        (listing_model.stamp id now (assign_region m (created_listing (fresh_listing owner_id) p)))
unfolding create_errors created_listing assign_region
created_listing-IsFilled m owner_id id now p h =
    let (title, h₁) = append-eq-nil _ _ h in
    let (description, h₂) = append-eq-nil _ _ h₁ in
    let (rv_type, h₃) = append-eq-nil _ _ h₂ in
    let (town, h₄) = append-eq-nil _ _ h₃ in
    let (state, h₅) = append-eq-nil _ _ h₄ in
    let (postcode, price) = append-eq-nil _ _ h₅ in
    record {
      title = deref-IsText p.title (error_if-eq-nil _ _ title);
      description = deref-IsText p.description (error_if-eq-nil _ _ description);
      town = deref-IsText p.town (error_if-eq-nil _ _ town);
      state = deref-IsText p.state (error_if-eq-nil _ _ state);
      postcode = deref-IsText p.postcode (error_if-eq-nil _ _ postcode);
      price = price_given p.price_per_day (error_if-eq-nil _ _ price);
      rv_type = named_given p.rv_type (error_if-eq-nil _ _ rv_type);
      guests = or_else-IsGiven p.max_guests (pos 1);
      pets = or_else-IsGiven p.pet_friendly false;
      latitude = refl;
      longitude = refl;
      owner = refl;
      stamped = refl;
      region = placed_region m (created_listing (fresh_listing owner_id) p);
    }

pub updated_listing-IsUpdated :
    (m : Manifest) (old : RvListing) (p : ListingParams) (now : ℕ)
    → update_errors (updated_listing old p) p ≡ []
    → IsUpdated m old p now (listing_model.touch now (assign_region m (updated_listing old p)))
unfolding update_errors updated_listing assign_region
updated_listing-IsUpdated m old p now h =
    let (rv_type, h₁) = append-eq-nil _ _ h in
    let (title, h₂) = append-eq-nil _ _ h₁ in
    let (description, h₃) = append-eq-nil _ _ h₂ in
    let (town, h₄) = append-eq-nil _ _ h₃ in
    let (state, h₅) = append-eq-nil _ _ h₄ in
    let (postcode, price) = append-eq-nil _ _ h₅ in
    let (x, given, _) =
      price_given (or_old p.price_per_day old.price_per_day) (error_if-eq-nil _ _ price) in
    record {
      title = (or_else-IsGiven p.title old.title, error_if-eq-nil _ _ title);
      description =
          (or_else-IsGiven p.description old.description, error_if-eq-nil _ _ description);
      town = (or_else-IsGiven p.town old.town, error_if-eq-nil _ _ town);
      state = (or_else-IsGiven p.state old.state, error_if-eq-nil _ _ state);
      postcode = (or_else-IsGiven p.postcode old.postcode, error_if-eq-nil _ _ postcode);
      price = (or_old-IsGivenOrOld p.price_per_day old.price_per_day, (x, given));
      rv_type = type_given p.rv_type old.rv_type (error_if-eq-nil _ _ rv_type);
      guests = or_else-IsGiven p.max_guests old.max_guests;
      pets = or_else-IsGiven p.pet_friendly old.pet_friendly;
      latitude = or_old-IsGivenOrOld p.latitude old.latitude;
      longitude = or_old-IsGivenOrOld p.longitude old.longitude;
      id = refl;
      owner = refl;
      created = refl;
      updated = refl;
      region = placed_region m (updated_listing old p);
    }
