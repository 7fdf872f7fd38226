-- ===== src/Services/Listing/Created.antt =====
-- What `Create` and `Update` of the listing service store.
use trekr_go.Prelude.{
  ℕ, String, false, List, [], ◌∷◌, ◌++◌, ◌≡◌, refl, sym, ap, subst, ◌∙◌, nat_instance, arith,
  length, ◌+◌, ◌<◌, append-eq-nil,
}
use trekr_go.Models.{RvListing, listing_model}
use trekr_go.Storage.{Host}
use trekr_go.Sql.{Result, ok, err, IsFresh}
use trekr_go.Store.{
  Tables, Engine, IsEngine, State, continue, create, listings, Outcome, accepted, invalid,
  transaction,
}
use trekr_go.Store.Laws.{
  is_accepted, >>=-eq-ok, create-eq-ok, transaction-eq-accepted, transaction_atomic,
}
use trekr_go.Services.Listing.{
  ListingParams, UploadedImage, created_listing, create_errors, error_if,
}
use trekr_go.Services.Listing.Fields.{IsFilled, created_listing-IsFilled}
use trekr_go.Services.Listing.Images.{attach_images}
use trekr_go.Services.Listing.Service.{
  Config, no_images, fresh_listing, assign_region, refresh_embedding, insert_listing, create_valid,
  create_listing, refresh_created,
}
use trekr_go.Services.Listing.Attached.{images_of, attach_images-eq-ok, listings-attach_images}

-- What `Create` leaves when it accepts `l`, a listing under a new key: the row, and an attachment
-- for each image.
record IsListed (before after : Tables) (listing l : RvListing) (images : List UploadedImage)
    : Type 0 where
  pub stamped : (time : ℕ) × (l ≡ listing_model.stamp l.id time listing)
  pub fresh : IsFresh listing_model l.id before.listings
  pub rows : after.listings ≡ before.listings ++ l ∷ []
  pub attached : length (images_of l.id after) ≡ length (images_of l.id before) + length images

module _ {W : Type 0} (E : Engine W) (H : Host W) (c : Config) where
  refresh_created-eq-accepted :
      (out : Outcome RvListing) (l : RvListing) (s : State W)
      → (refresh_created E H c out s).0 ≡ ok (accepted l)
      → (out ≡ accepted l) × ((refresh_created E H c out s).1.tables ≡ s.tables)
  unfolding refresh_embedding
  refresh_created-eq-accepted (accepted l') l s h = ground arith
  refresh_created-eq-accepted (invalid errs) l s h = cc

  insert_listing-eq-accepted :
      IsEngine E
      → (listing l : RvListing) (images : List UploadedImage) (s : State W)
      → (insert_listing E H c listing images s).0 ≡ ok (accepted l)
      → IsListed s.tables (insert_listing E H c listing images s).1.tables listing l images
  unfolding insert_listing
  insert_listing-eq-accepted laws listing l images s h₀ =
      let (l', d₀, l₀) = >>=-eq-ok (create (listings E) listing) _ s h₀ in
      let s₁ = (create (listings E) listing s).1 in
      let h₁ = rw l₀ at h₀ in
      let (u, d₁, l₁) = >>=-eq-ok (attach_images E H c.storage_root l'.id images) _ s₁ h₁ in
      let same : l' ≡ l = cc in
      let (rows, stamped, fresh) =
        create-eq-ok listing_model E.clock (listings E) laws.listings listing s l' d₀ in
      let more = attach_images-eq-ok E H laws c.storage_root l'.id images s₁ u d₁ in
      let kept = listings-attach_images E H laws c.storage_root l'.id images s₁ in
      let left = ap (λ r. r.1.tables) (l₀ ∙ l₁) in
      rw (← same) record {
        stamped = (E.clock s.world, stamped);
        fresh = fresh;
        rows = ap (λ t. t.listings) left ∙ kept ∙ ap (λ t. t.listings) rows;
        attached =
            ap (λ t. length (images_of l'.id t)) left
            ∙ more
            ∙ ap (λ t. length (images_of l'.id t) + length images) rows;
      }

  create_valid-eq-accepted :
      IsEngine E
      → (errs : List String) (listing l : RvListing) (images : List UploadedImage) (s : State W)
      → (create_valid E H c errs listing images s).0 ≡ ok (accepted l)
      → (errs ≡ [])
        × IsListed s.tables
            (create_valid E H c errs listing images s).1.tables
            (assign_region c.regions listing)
            l
            images
  create_valid-eq-accepted laws [] listing l images s h =
      let placed = assign_region c.regions listing in
      let body = insert_listing E H c placed images in
      let (out, ran, left) = >>=-eq-ok (transaction E body) _ s h in
      let s₁ = (transaction E body s).1 in
      let (done, kept) = refresh_created-eq-accepted out l s₁ (rw left at h) in
      let (inner, wrote) = transaction-eq-accepted E body s l (rw done at ran) in
      let s₀ : State W = record s { world = (E.begin s.world).1 } in
      let listed = insert_listing-eq-accepted laws placed l images s₀ inner in
      (
        refl,
        subst (λ t. IsListed s.tables t placed l images)
            (sym (ap (λ r. r.1.tables) left ∙ kept ∙ wrote)) listed,
      )
  create_valid-eq-accepted laws (e ∷ errs) listing l images s h = cc

  refresh_created-atomic :
      (r : Result (Outcome RvListing) × State W) (t : Tables)
      → (is_accepted r.0 ≡ false → r.1.tables ≡ t)
      → is_accepted (continue r (refresh_created E H c)).0 ≡ false
      → (continue r (refresh_created E H c)).1.tables ≡ t
  unfolding refresh_embedding
  refresh_created-atomic (ok (accepted l), s) t kept h = ground arith
  refresh_created-atomic (ok (invalid errs), s) t kept h = kept refl
  refresh_created-atomic (err e, s) t kept h = kept refl

  create_valid-atomic :
      (errs : List String) (listing : RvListing) (images : List UploadedImage) (s : State W)
      → is_accepted (create_valid E H c errs listing images s).0 ≡ false
      → (create_valid E H c errs listing images s).1.tables ≡ s.tables
  create_valid-atomic [] listing images s h =
      let body = insert_listing E H c (assign_region c.regions listing) images in
      refresh_created-atomic (transaction E body s) s.tables (transaction_atomic E body s) h
  create_valid-atomic (e ∷ errs) listing images s h = refl

  module _ (owner_id : ℕ) (p : ListingParams) (images : List UploadedImage) (s : State W) where
    -- An accepted listing has at least one image. Its row has the title, description, town, state,
    -- postcode and price of the parameters, none of them absent or empty, the value of a type that
    -- the enum has, the defaults for what is not given, the owner, and the region that its place
    -- resolves to, or none. It is added under a new key, and has one attachment more for each image.
    pub create_listing-IsListed :
        IsEngine E
        → (l : RvListing) → (create_listing E H c owner_id p images s).0 ≡ ok (accepted l)
        → let after = (create_listing E H c owner_id p images s).1.tables in
          IsFilled c.regions owner_id p l
          × (0 < length images)
          × IsFresh listing_model l.id s.tables.listings
          × (after.listings ≡ s.tables.listings ++ l ∷ [])
          × (length (images_of l.id after) ≡ length (images_of l.id s.tables) + length images)
    unfolding create_listing
    create_listing-IsListed laws l h =
        let photo = error_if (no_images images) "Images must have at least one photo" in
        let (clear, listed) =
          create_valid-eq-accepted laws (create_errors p ++ photo)
            (created_listing (fresh_listing owner_id) p) l images s h in
        let (none_found, some_photo) = append-eq-nil (create_errors p) photo clear in
        (
          subst (IsFilled c.regions owner_id p) (sym listed.stamped.1)
              (created_listing-IsFilled c.regions owner_id l.id listed.stamped.0 p none_found),
          ground (arith, some_photo),
          listed.fresh,
          listed.rows,
          listed.attached,
        )

    -- A listing that is not accepted leaves every table as it was.
    pub create_listing_atomic :
        is_accepted (create_listing E H c owner_id p images s).0 ≡ false
        → (create_listing E H c owner_id p images s).1.tables ≡ s.tables
    unfolding create_listing
    create_listing_atomic h =
        let photo = error_if (no_images images) "Images must have at least one photo" in
        create_valid-atomic (create_errors p ++ photo) (created_listing (fresh_listing owner_id) p)
          images s h
