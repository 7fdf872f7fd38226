-- ===== src/Httpapi/Listings.antt =====
-- httpapi/listings_write.go and httpapi/images.go
pub mod Laws
use trekr_go.Prelude.{
  ℕ, String, Bool, true, false, not, Option, none, some, List, [], ◌∷◌, ◌==◌, nat_instance,
  if◌then◌else◌,
}
use trekr_go.Models.{User, RvListing, ℤ, pos, negsuc}
use trekr_go.Storage.{Host}
use trekr_go.Sql.{Result, ok, err}
use trekr_go.Store.{
  Engine, State, Action, pure, find, first, first_or_none, listings, Outcome, accepted, invalid,
}
use trekr_go.Services.Listing.{ListingParams, UploadedImage}
use trekr_go.Services.Listing.Service.{
  Config, create_listing, update_listing, destroy_listing, attach_to_listing, delete_image,
}
use trekr_go.Httpapi.{
  no_body, error_body, plain_text, listing_body, listings_body, Reply, reply, Handler, Checked, go,
  stop, Check, Request, parse_id, has_id, answer, unauthorized, or_500, run, checking, with_user,
  with_body, or_422,
}

abbrev pub missing : Reply
missing = reply 404 (error_body "Not Found")

-- The listing with the id, if the user owns it.
abbrev pub owned :
    {W : Type 0} → User → Result (Option RvListing) × State W → Checked RvListing × State W
owned user (ok none, s) = (stop missing, s)
owned user (err e, s) = (stop (reply 500 (plain_text "could not load listing")), s)
owned user (ok (some l), s) =
    if not (l.owner_id == user.id)
    then (stop (reply 403 (error_body "Not authorized")), s)
    else (go l, s)

module _ {W : Type 0} (E : Engine W) where
  abbrev pub find_for : User → Option ℤ → Check W RvListing
  find_for user none s = (stop missing, s)
  find_for user (some id) s = owned user (first_or_none (listings E) (λ l. has_id id l.id) s)

  -- `findOwnedListing`
  unfoldable pub find_owned_listing : Option User → String → Check W RvListing
  find_owned_listing user param =
      with_user user (λ u. find_for u (parse_id param)) (λ s. (stop unauthorized, s))

  -- `renderListing`
  unfoldable pub render_listing : ℕ → ℕ → Handler W
  render_listing status id =
      run (first (listings E) (λ l. l.id == id)) "could not load listing"
        (λ l. answer (reply status (listing_body l)))

  -- `listingsMine`
  unfoldable pub listings_mine : Request (Unit {0}) → Handler W
  listings_mine r =
      with_user r.user
        (λ user.
          run (find (listings E) (λ l. l.owner_id == user.id)) "could not load listings"
            (λ ls. answer (reply 200 (listings_body ls))))
        (answer unauthorized)

module _ {W : Type 0} (E : Engine W) (H : Host W) (c : Config) where
  -- `listingsCreate`; the body is what `parseListingRequest` reads
  unfoldable pub listings_create : Request (ListingParams × List UploadedImage) → Handler W
  listings_create r =
      with_user r.user
        (λ user. with_body r.body (λ b.
          run (create_listing E H c user.id b.0 b.1) "could not create listing"
            (or_422 (λ l. render_listing E 201 l.id))))
        (answer unauthorized)

  -- `listingsUpdate`
  unfoldable pub listings_update : Request (ListingParams × List UploadedImage) → Handler W
  listings_update r = checking (find_owned_listing E r.user r.id) (λ listing. with_body r.body (λ b.
      run (update_listing E H c listing b.0) "could not update listing"
        (or_422 (λ l. render_listing E 200 l.id))))

  -- `listingsDestroy`
  unfoldable pub listings_destroy : Request (Unit {0}) → Handler W
  listings_destroy r = checking (find_owned_listing E r.user r.id) (λ listing.
      run (destroy_listing E H c listing) "could not delete listing"
        (λ _. answer (reply 204 no_body)))

  -- `imagesCreate`; the body is what `parseImageUpload` reads
  unfoldable pub images_create : Request (List UploadedImage) → Handler W
  images_create r = checking (find_owned_listing E r.user r.id) (λ listing.
      with_body r.body (λ images.
        run (attach_to_listing E H c listing.id images) "could not attach images"
          (λ _. render_listing E 201 listing.id)))

  -- An attachment id below zero is the id of no row.
  abbrev delete_by_id : ℕ → ℤ → Action W Bool
  delete_by_id listing_id (pos i) = delete_image E H c listing_id i
  delete_by_id listing_id (negsuc i) = pure false

  abbrev pub delete_from : RvListing → Option ℤ → Handler W
  delete_from listing none = answer missing
  delete_from listing (some id) =
      run (delete_by_id listing.id id) "could not delete image"
        (λ found. if found then answer (reply 204 no_body) else answer missing)

  -- `imagesDestroy`
  unfoldable pub images_destroy : Request (Unit {0}) → Handler W
  images_destroy r =
      checking (find_owned_listing E r.user r.id)
        (λ listing. delete_from listing (parse_id r.other_id))
