-- ===== src/Services/Listing/Updated.antt =====
-- What `Update` of the listing service stores.
use trekr_go.Prelude.{
  subst, String, true, false, List, [], ◌∷◌, ◌≡◌, refl, sym, ap, ◌∙◌, ◌==◌, nat_instance, arith,
  any, replace,
}
use trekr_go.Models.{RvListing, listing_model}
use trekr_go.Storage.{Host}
use trekr_go.Sql.{ok}
use trekr_go.Store.{Tables, Engine, IsEngine, State, save, listings, accepted}
use trekr_go.Store.Laws.{is_accepted, >>=-eq-ok, save-eq-ok}
use trekr_go.Services.Listing.{ListingParams, updated_listing, update_errors}
use trekr_go.Services.Listing.Service.{
  Config, assign_region, refresh_embedding, update_valid, update_listing,
}
use trekr_go.Services.Listing.Fields.{IsUpdated, updated_listing-IsUpdated}
use trekr_go.Services.Listing.Laws.{tables-refresh_embedding}

module _ {W : Type 0} (E : Engine W) (H : Host W) (c : Config) where
  update_valid-eq-accepted :
      IsEngine E
      → (errs : List String) (listing l : RvListing) (s : State W) → (listing.id ≡ 0 → ⊥)
      → any s.tables.listings (λ x. x.id == listing.id) ≡ true
      → (update_valid E H c errs listing s).0 ≡ ok (accepted l)
      → (errs ≡ [])
        × (l ≡ listing_model.touch (E.clock s.world) (assign_region c.regions listing))
        × ((update_valid E H c errs listing s).1.tables ≡ record s.tables {
          listings = replace (λ x. x.id == listing.id) (λ _. l) s.tables.listings;
        })
  unfolding assign_region
  update_valid-eq-accepted laws [] listing l s set there h =
      let placed = assign_region c.regions listing in
      let (l', d₀, l₀) = >>=-eq-ok (save (listings E) placed) _ s h in
      let s₁ = (save (listings E) placed s).1 in
      let (u, d₁, l₁) = >>=-eq-ok (refresh_embedding E H c l'.id) _ s₁ (rw l₀ at h) in
      let (touched, rows) =
        save-eq-ok listing_model E.clock (listings E) laws.listings placed s l' set there d₀ in
      let same : l' ≡ l = cc in
      let row : listing_model.touch (E.clock s.world) placed ≡ l = sym touched ∙ same in
      (
        refl,
        sym row,
        ap (λ r. r.1.tables) (l₀ ∙ l₁)
            ∙ tables-refresh_embedding E H c l'.id s₁
            ∙ rows
            ∙ ap {A = RvListing} {B = Tables}
                (λ r. record s.tables {
                  listings = replace (λ x. x.id == listing.id) (λ _. r) s.tables.listings;
                })
                row,
      )
  update_valid-eq-accepted laws (e ∷ errs) listing l s set there h = cc

  update_valid-atomic :
      (errs : List String) (listing : RvListing) (s : State W)
      → is_accepted (update_valid E H c errs listing s).0 ≡ false
      → (update_valid E H c errs listing s).1.tables ≡ s.tables
  unfolding assign_region refresh_embedding
  update_valid-atomic [] listing s h = ground arith
  update_valid-atomic (e ∷ errs) listing s h = refl

  module _ (listing : RvListing) (p : ListingParams) (s : State W) where
    -- When an update of a listing of the table is accepted, each column of the new row is what was
    -- given for it, or else the old one: its texts and price are not empty, a given type is one of
    -- the enum, and its region is the one that its new place resolves to, or none. The row replaces
    -- the old one, and nothing else changes.
    pub update_listing-eq-accepted :
        IsEngine E
        → (l : RvListing) → (listing.id ≡ 0 → ⊥)
        → any s.tables.listings (λ x. x.id == listing.id) ≡ true
        → (update_listing E H c listing p s).0 ≡ ok (accepted l)
        → IsUpdated c.regions listing p (E.clock s.world) l
          × ((update_listing E H c listing p s).1.tables ≡ record s.tables {
            listings = replace (λ x. x.id == listing.id) (λ _. l) s.tables.listings;
          })
    unfolding update_listing updated_listing
    update_listing-eq-accepted laws l set there h =
        let (clear, row, left) =
          update_valid-eq-accepted laws (update_errors (updated_listing listing p) p)
            (updated_listing listing p) l s set there h in
        (
          subst (IsUpdated c.regions listing p (E.clock s.world)) (sym row)
              (updated_listing-IsUpdated c.regions listing p (E.clock s.world) clear),
          left,
        )

    -- An update that is not accepted leaves every table as it was.
    pub update_listing_atomic :
        is_accepted (update_listing E H c listing p s).0 ≡ false
        → (update_listing E H c listing p s).1.tables ≡ s.tables
    unfolding update_listing
    update_listing_atomic h =
        update_valid-atomic (update_errors (updated_listing listing p) p)
          (updated_listing listing p) s h
