-- ===== src/Httpapi/Listings/Laws.antt =====
-- httpapi/listings_write.go and httpapi/images.go: who may change a listing.
use mathlib.Core.List.{Memᴰ}
use trekr_go.Prelude.{
  ℕ, Bool, false, All, All-of_mem, subst, sym, ap, ◌∙◌, ◌==◌, if◌then◌else◌, String, true, Option,
  none, some, List, ◌≡◌, refl, inl, inr, ◌⊎◌, nat_instance, arith,
}
use trekr_go.Models.{Chat, User, RvListing, ℤ, pos, negsuc}
use trekr_go.Storage.{Host}
use trekr_go.Sql.{Result, ok, err}
use trekr_go.Store.{
  Tables, Outcome, accepted, invalid, Engine, IsEngine, State, first, first_or_none, listings,
}
use trekr_go.Services.Listing.{ListingParams, UploadedImage}
use trekr_go.Services.Listing.Service.{
  Config, update_listing, destroy_listing, attach_to_listing, delete_image,
}
use trekr_go.Services.Listing.Laws.{Others, others}
use trekr_go.Services.Listing.Outside.{
  elsewhere, elsewhere-destroy_listing, besides, besides-update_listing, besides-attach_to_listing,
  others-delete_image,
}
use trekr_go.Httpapi.Bookings.Laws.{first_or_none-eq-ok}
use trekr_go.Httpapi.{
  no_body, reply, run, or_422, with_body, answer, Reply, Handler, Checked, go, stop, Request,
  parse_id, has_id, proceed, checking,
}
use trekr_go.Httpapi.Chats.Laws.{is_refusal, or_500-kept}
use trekr_go.Httpapi.Listings.{
  missing, render_listing, delete_from, owned, find_for, find_owned_listing, listings_update,
  listings_destroy, images_create, images_destroy,
}

-- A view of the tables without the rows of a listing; the chats say which messages are of it.
abbrev pub View : Type 0 → Type 0
View X = ℕ → List Chat → Tables → X

abbrev pub rows_elsewhere : View Others
rows_elsewhere i cs t = elsewhere i cs (others t)

-- The request is for a listing of the table that its user owns, and the view of what is not of that
-- listing is as it was.
pub record IsOwner {X : Type 0} (view : View X) (user : Option User) (param : String)
    (before after : Tables) : Type 0 where
  pub listing : RvListing
  pub owner : User
  pub signed_in : user ≡ some owner
  pub id : ℤ
  pub parsed : parse_id param ≡ some id
  pub requested : has_id id listing.id ≡ true
  pub listed : Memᴰ listing before.listings
  pub owns : listing.owner_id ≡ owner.id
  pub within : view listing.id before.chats after ≡ view listing.id before.chats before

-- The request is refused and changes nothing, or its user owns the listing that it names.
abbrev pub IsOwnerOnly :
    {W X : Type 0} → View X → Option User → String → State W → Reply × State W → Type 0
IsOwnerOnly view user param s r =
    ((is_refusal r.0 ≡ true) × (r.1.tables ≡ s.tables))
    ⊎ IsOwner view user param s.tables r.1.tables

owned-eq-go :
    {W : Type 0} (user : User) (r : Result (Option RvListing) × State W) (l : RvListing)
    → (owned user r).0 ≡ go l
    → (r.0 ≡ ok (some l)) × (l.owner_id ≡ user.id)
owned-eq-go user (ok none, s) l h = cc
owned-eq-go user (err e, s) l h = cc
owned-eq-go user (ok (some l'), s) l h = ground arith

module _ {W : Type 0} (E : Engine W) (laws : IsEngine E) where
  find_for-cases :
      (u : User) (id : Option ℤ) (s : State W)
      → ((find_for E u id s).1.tables ≡ s.tables)
        × ((y : Reply) → (find_for E u id s).0 ≡ stop y → is_refusal y ≡ true)
        × ((l : RvListing)
            → (find_for E u id s).0 ≡ go l
            → (n : ℤ) × (id ≡ some n)
              × (has_id n l.id ≡ true)
              × Memᴰ l s.tables.listings
              × (l.owner_id ≡ u.id))
  find_for-cases u none s = (refl, λ y h. ground arith, λ l h. cc)
  find_for-cases u (some id) s = (
    ground arith,
    λ y h. ground arith,
    λ l h.
        let (made, owns) = owned-eq-go u (first_or_none (listings E) (λ l. has_id id l.id) s) l h in
        let there = first_or_none-eq-ok (first (listings E) (λ l. has_id id l.id) s) l made in
        let row =
          laws.listings.first_some (λ l. has_id id l.id) s.world s.tables.listings l there in
        (id, refl, row.passes, row.listed, owns),
  )

  guarded :
      {X : Type 0} (view : View X) (user : Option User) (param : String) (f : RvListing → Handler W)
      (s : State W)
      → ((l : RvListing) (t : State W)
          → Memᴰ l t.tables.listings
          → t.tables ≡ s.tables
          → view l.id t.tables.chats (f l t).1.tables ≡ view l.id t.tables.chats t.tables)
      → IsOwnerOnly view user param s (checking (find_owned_listing E user param) f s)
  unfolding find_owned_listing
  guarded view none param f s within = inl (refl, refl)
  guarded view (some u) param f s within =
      let (kept, refused, listed) = find_for-cases u (parse_id param) s in
      cases (find_for E u (parse_id param) s) kept refused listed
    where
      cases :
          (x : Checked RvListing × State W)
          → x.1.tables ≡ s.tables
          → ((y : Reply) → x.0 ≡ stop y → is_refusal y ≡ true)
          → ((l : RvListing)
              → x.0 ≡ go l
              → (n : ℤ) × (parse_id param ≡ some n)
                × (has_id n l.id ≡ true)
                × Memᴰ l s.tables.listings
                × (l.owner_id ≡ u.id))
          → IsOwnerOnly view (some u) param s (proceed x f)
      cases (stop y, s') kept refused listed = inl (refused y refl, kept)
      cases (go l, s') kept refused listed =
          let (id, parsed, requested, there, owns) = listed l refl in
          let here = subst (λ t. Memᴰ l t.listings) (sym kept) there in
          inr (record {
            listing = l;
            owner = u;
            signed_in = refl;
            id = id;
            parsed = parsed;
            requested = requested;
            listed = there;
            owns = owns;
            within =
                subst (λ t. view l.id t.chats (f l s').1.tables ≡ view l.id t.chats t) kept
                  (within l s' here kept);
          })

  tables-render_listing :
      (status id : ℕ) (s : State W) → (render_listing E status id s).1.tables ≡ s.tables
  unfolding render_listing
  tables-render_listing status id s =
      or_500-kept (λ t. t) (first (listings E) (λ l. l.id == id) s) _ _ (λ l t. refl)

  module _ (H : Host W) (c : Config) where
    update_within :
        (body : Option (ListingParams × List UploadedImage)) (l : RvListing) (t : State W)
        → (l.id ≡ 0 → ⊥)
        → Memᴰ l t.tables.listings
        → besides l.id t.tables.chats
            (with_body body
              (λ b.
                run
                  (update_listing E H c l b.0)
                  "could not update listing"
                  (or_422 (λ l. render_listing E 200 l.id)))
              t).1.tables
          ≡ besides l.id t.tables.chats t.tables
    update_within none l t set there = refl
    update_within (some b) l t set there =
        or_500-kept (besides l.id t.tables.chats) (update_listing E H c l b.0 t) _ _
          (λ o t'. ap (besides l.id t.tables.chats) (rendered o t'))
        ∙ besides-update_listing E laws H c l b.0 t set there
      where
        rendered :
            (o : Outcome RvListing) (t' : State W)
            → (or_422 (λ l. render_listing E 200 l.id) o t').1.tables ≡ t'.tables
        rendered (accepted l') t' = tables-render_listing 200 l'.id t'
        rendered (invalid es) t' = refl

    upload_within :
        (body : Option (List UploadedImage)) (l : RvListing) (cs : List Chat) (t : State W)
        → besides l.id cs
            (with_body body
              (λ images.
                run
                  (attach_to_listing E H c l.id images)
                  "could not attach images"
                  (λ _. render_listing E 201 l.id))
              t).1.tables
          ≡ besides l.id cs t.tables
    upload_within none l cs t = refl
    upload_within (some images) l cs t =
        or_500-kept (besides l.id cs) (attach_to_listing E H c l.id images t) _ _
          (λ _ t'. ap (besides l.id cs) (tables-render_listing 201 l.id t'))
        ∙ besides-attach_to_listing E laws H c l.id cs images t

    delete_within :
        (l : RvListing) (id : Option ℤ) (t : State W)
        → others (delete_from E H c l id t).1.tables ≡ others t.tables
    delete_within l none t = refl
    delete_within l (some (negsuc i)) t = refl
    delete_within l (some (pos i)) t =
        or_500-kept others (delete_image E H c l.id i t) _ _ answered
        ∙ others-delete_image E laws H c l.id i t
      where
        answered :
            (found : Bool) (t' : State W)
            → others ((if found then answer (reply 204 no_body) else answer missing) t').1.tables
              ≡ others t'.tables
        answered true t' = refl
        answered false t' = refl

    -- A request to update or destroy a listing, or to add or remove its images, is refused and
    -- changes nothing, unless it names a listing of the table that its user owns; then it keeps the
    -- users and the rows of all other listings, with their bookings, chats, messages and embeddings,
    -- and an update or an upload keeps every attachment that is no image of the listing as well. No
    -- listing has the key 0, which a save would take for a new row.
    pub listings-IsOwnerOnly :
        (update : Request (ListingParams × List UploadedImage))
        (upload : Request (List UploadedImage)) (r : Request (Unit {0})) (s : State W)
        → All (λ l. l.id ≡ 0 → ⊥) s.tables.listings
        → IsOwnerOnly besides update.user update.id s (listings_update E H c update s)
          × IsOwnerOnly besides upload.user upload.id s (images_create E H c upload s)
          × IsOwnerOnly rows_elsewhere r.user r.id s (listings_destroy E H c r s)
          × IsOwnerOnly rows_elsewhere r.user r.id s (images_destroy E H c r s)
    unfolding listings_update images_create listings_destroy images_destroy
    listings-IsOwnerOnly update upload r s keyed = (
      guarded besides update.user update.id _ s (λ l t there same.
          update_within update.body l t
            (All-of_mem (λ l. l.id ≡ 0 → ⊥) s.tables.listings keyed
              (subst (λ x. Memᴰ l x.listings) same there))
            there),
      guarded besides upload.user upload.id _ s
          (λ l t there same. upload_within upload.body l t.tables.chats t),
      guarded rows_elsewhere r.user r.id _ s (λ l t there same.
          or_500-kept (rows_elsewhere l.id t.tables.chats) (destroy_listing E H c l t) _ _
            (λ _ t'. refl)
          ∙ elsewhere-destroy_listing E laws H c l t),
      guarded rows_elsewhere r.user r.id _ s (λ l t there same.
          ap (elsewhere l.id t.tables.chats) (delete_within l (parse_id r.other_id) t)),
    )
