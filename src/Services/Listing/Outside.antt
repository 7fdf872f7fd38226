-- ===== src/Services/Listing/Outside.antt =====
-- What the methods of the listing service leave of the other listings.
use mathlib.Core.List.{Memᴰ}
use trekr_go.Prelude.{
  ℕ, true, not, Option, none, some, List, [], ◌∷◌, ◌≡◌, refl, ap, ◌∙◌, inl, inr, ◌==◌, ◌&&◌,
  nat_instance, arith, select, replace, select-replace_out, select-snoc_out, select-select_same,
  any_mem,
}
use trekr_go.Models.{RvListing, Chat, ActiveStorageAttachment, ActiveStorageBlob, attachment_model}
use trekr_go.Storage.{Host}
use trekr_go.Store.{
  Tables, Engine, IsEngine, State, transaction, first_or_none, create, blobs, attachments,
}
use trekr_go.Store.Laws.{Keeps, >>=-Keeps, transaction-Keeps, create-cases, accepted-cases}
use trekr_go.Services.Listing.{ListingParams, UploadedImage}
use trekr_go.Services.Listing.Images.{
  new_key, store_bytes, new_blob, new_attachment, attach_image, attach_images, purge_attachment,
  is_image_of,
}
use trekr_go.Services.Listing.Service.{
  Config, is_about, in_chat_about, update_listing, destroy_listing, attach_to_listing, delete_image,
  accept, delete_found,
}
use trekr_go.Services.Listing.Laws.{
  Others, others, without, others-purge_attachment, others-destroy_listing, destroy_listing_atomic,
}
use trekr_go.Services.Listing.Attached.{stamped-is_image}
use trekr_go.Services.Listing.Updated.{update_listing-eq-accepted, update_listing_atomic}

-- The users, and the rows of listings, bookings, chats, messages and embeddings but for those of a
-- listing; a message is of a listing when it is in one of these chats about it.
abbrev pub elsewhere : ℕ → List Chat → Others → Others
elsewhere i cs t = record t {
  listings = select (λ l. not (l.id == i)) t.listings;
  bookings = select (λ b. not (b.rv_listing_id == i)) t.bookings;
  chats = select (λ c. not (is_about i c.rv_listing_id)) t.chats;
  messages = select (λ m. not (in_chat_about i cs m)) t.messages;
  embeddings = select (λ r. not (r.rv_listing_id == i)) t.embeddings;
}

-- The same, and the attachments that are no images of the listing.
abbrev pub besides : ℕ → List Chat → Tables → Others × List ActiveStorageAttachment
besides i cs t = (elsewhere i cs (others t), select (λ a. not (is_image_of i a)) t.attachments)

elsewhere-without : (i : ℕ) (o : Others) → elsewhere i o.chats (without i o) ≡ elsewhere i o.chats o
elsewhere-without i o =
    rw
      (
        select-select_same (λ l. not (l.id == i)) o.listings,
        select-select_same (λ b. not (b.rv_listing_id == i)) o.bookings,
        select-select_same (λ c. not (is_about i c.rv_listing_id)) o.chats,
        select-select_same (λ m. not (in_chat_about i o.chats m)) o.messages,
        select-select_same (λ r. not (r.rv_listing_id == i)) o.embeddings,
      )
      refl

module _ {W : Type 0} (E : Engine W) (laws : IsEngine E) (H : Host W) (c : Config) where
  -- Destroying a listing keeps the rows of all others.
  pub elsewhere-destroy_listing :
      (l : RvListing) (s : State W)
      → elsewhere l.id s.tables.chats (others (destroy_listing E H c l s).1.tables)
        ≡ elsewhere l.id s.tables.chats (others s.tables)
  elsewhere-destroy_listing l s = elim (accepted-cases (destroy_listing E H c l s).0) [
    | inl refused ↦
        ap (λ t. elsewhere l.id s.tables.chats (others t))
          (destroy_listing_atomic E H c l s refused)
    | inr (u, done) ↦
        ap (elsewhere l.id s.tables.chats) (others-destroy_listing E H c laws l s done)
        ∙ elsewhere-without l.id (others s.tables)
  ]

  elsewhere_replaced :
      (i : ℕ) (cs : List Chat) (t : Tables) (l : RvListing)
      → l.id ≡ i
      → elsewhere i cs
          (others (record t { listings = replace (λ x. x.id == i) (λ _. l) t.listings }))
        ≡ elsewhere i cs (others t)
  elsewhere_replaced i cs t l same =
      let e : (l.id == i) ≡ true = (nat_instance.tells_same_iff l.id i).1 same in
      rw
        (select-replace_out (λ x. not (x.id == i)) (λ x. x.id == i) (λ _. l) t.listings
          (λ x hit. (rw hit refl, rw e refl)))
        refl

  -- So does updating a listing of the table, which keeps the attachments too.
  pub besides-update_listing :
      (l : RvListing) (p : ListingParams) (s : State W)
      → (l.id ≡ 0 → ⊥)
      → Memᴰ l s.tables.listings
      → besides l.id s.tables.chats (update_listing E H c l p s).1.tables
        ≡ besides l.id s.tables.chats s.tables
  besides-update_listing l p s set there = elim (accepted-cases (update_listing E H c l p s).0) [
    | inl refused ↦ ap (besides l.id s.tables.chats) (update_listing_atomic E H c l p s refused)
    | inr (new, done) ↦
        let listed =
          any_mem (λ x. x.id == l.id) s.tables.listings l there
            ((nat_instance.tells_same_iff l.id l.id).1 refl) in
        let (row, left) = update_listing-eq-accepted E H c l p s laws new set listed done in
        ap (besides l.id s.tables.chats) left
        ∙ ap (λ o. (o, select (λ a. not (is_image_of l.id a)) s.tables.attachments))
            (elsewhere_replaced l.id s.tables.chats s.tables new row.id)
  ]

  attachments-attach_row :
      (i : ℕ) (blob : ActiveStorageBlob)
      → Keeps
          (λ t. select (λ a. not (is_image_of i a)) t.attachments)
          (create (attachments E) (new_attachment i blob))
  attachments-attach_row i blob s =
      elim (create-cases attachment_model E.clock (attachments E) laws.attachments
        (new_attachment i blob) s) [
          | inl kept ↦ ap (λ t. select (λ a. not (is_image_of i a)) t.attachments) kept
          | inr (a, left, stamped) ↦
              let image : is_image_of i a ≡ true =
                ap (is_image_of i) stamped ∙ stamped-is_image i a.id (E.clock s.world) blob in
              ap (λ t. select (λ a. not (is_image_of i a)) t.attachments) left
              ∙ select-snoc_out (λ a. not (is_image_of i a)) s.tables.attachments a (rw image refl)
        ]

  attachments-attach_image :
      (i : ℕ) (img : UploadedImage)
      → Keeps
          (λ t. select (λ a. not (is_image_of i a)) t.attachments)
          (attach_image E H c.storage_root i img)
  unfolding attach_image new_key store_bytes
  attachments-attach_image i img =
      let view = λ (t : Tables). select (λ a. not (is_image_of i a)) t.attachments in
      >>=-Keeps view (new_key E H c.storage_root) _
        (λ s.
          let kept : (new_key E H c.storage_root s).1.tables ≡ s.tables = ground arith in
          ap view kept)
        (λ key.
          >>=-Keeps view (store_bytes E H c.storage_root key img.bytes) _
            (λ s.
              let kept : (store_bytes E H c.storage_root key img.bytes s).1.tables ≡ s.tables =
                ground arith in
              ap view kept)
            (λ _.
              >>=-Keeps view (create (blobs E) (new_blob H key img)) _
                (λ s.
                  let kept : (create (blobs E) (new_blob H key img) s).1.tables.attachments
                      ≡ s.tables.attachments =
                    ground arith in
                  ap (select (λ a. not (is_image_of i a))) kept)
                (λ blob.
                  >>=-Keeps view (create (attachments E) (new_attachment i blob)) _
                    (attachments-attach_row i blob) (λ _ s. refl))))

  attachments-attach_images :
      (i : ℕ) (imgs : List UploadedImage)
      → Keeps
          (λ t. select (λ a. not (is_image_of i a)) t.attachments)
          (attach_images E H c.storage_root i imgs)
  unfolding attach_images
  attachments-attach_images i [] = λ s. refl
  attachments-attach_images i (img ∷ imgs) =
      >>=-Keeps _ (attach_image E H c.storage_root i img) _ (attachments-attach_image i img)
        (λ _. attachments-attach_images i imgs)

  others-attach_image :
      (i : ℕ) (img : UploadedImage) → Keeps others (attach_image E H c.storage_root i img)
  unfolding attach_image new_key store_bytes
  others-attach_image i img =
      >>=-Keeps others (new_key E H c.storage_root) _ (λ s. ground arith)
        (λ key.
          >>=-Keeps others (store_bytes E H c.storage_root key img.bytes) _ (λ s. ground arith)
            (λ _.
              >>=-Keeps others (create (blobs E) (new_blob H key img)) _ (λ s. ground arith)
                (λ blob s. ground arith)))

  others-attach_images :
      (i : ℕ) (imgs : List UploadedImage) → Keeps others (attach_images E H c.storage_root i imgs)
  unfolding attach_images
  others-attach_images i [] = λ s. refl
  others-attach_images i (img ∷ imgs) =
      >>=-Keeps others (attach_image E H c.storage_root i img) _ (others-attach_image i img)
        (λ _. others-attach_images i imgs)

  -- Images are none of these rows, and are attached to the one listing.
  pub besides-attach_to_listing :
      (i : ℕ) (cs : List Chat) (imgs : List UploadedImage)
      → Keeps (besides i cs) (attach_to_listing E H c i imgs)
  unfolding attach_to_listing
  besides-attach_to_listing i cs imgs = transaction-Keeps E (besides i cs) _ (
      >>=-Keeps (besides i cs) (attach_images E H c.storage_root i imgs) _
        (λ s. rw (others-attach_images i imgs s, attachments-attach_images i imgs s) refl)
        (λ _ s. refl))

  others-delete_found :
      (found : Option ActiveStorageAttachment) → Keeps others (delete_found E H c found)
  others-delete_found none = λ s. refl
  others-delete_found (some att) =
      >>=-Keeps others (transaction E (accept E H c (purge_attachment E H c.storage_root att))) _
        (transaction-Keeps E others _ (
          >>=-Keeps others (purge_attachment E H c.storage_root att) _
            (others-purge_attachment E H c.storage_root att) (λ _ s. refl)))
        (λ _ s. refl)

  pub others-delete_image : (i j : ℕ) → Keeps others (delete_image E H c i j)
  unfolding delete_image
  others-delete_image i j =
      >>=-Keeps others (first_or_none (attachments E) (λ a. a.id == j && is_image_of i a)) _
        (λ s. ground arith) others-delete_found
