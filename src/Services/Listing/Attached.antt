-- ===== src/Services/Listing/Attached.antt =====
-- Images: which attachments there are after a listing is created or destroyed, or an image is
-- attached or deleted.
use trekr_go.Prelude.{
  ℕ, true, List, [], ◌∷◌, ◌≡◌, refl, ap, ◌∙◌, nat_instance, Bytes, select, arith, length, ◌+◌,
  length-select-snoc,
}
use trekr_go.Models.{ActiveStorageAttachment, ActiveStorageBlob, attachment_model}
use trekr_go.Storage.{Host}
use trekr_go.Sql.{ok}
use trekr_go.Store.{Tables, Engine, IsEngine, State, create, blobs, attachments}
use trekr_go.Store.Laws.{>>=-eq-ok, create-eq-ok, Keeps, >>=-Keeps}
use trekr_go.Services.Listing.{UploadedImage}
use trekr_go.Services.Listing.Images.{
  new_key, store_bytes, new_blob, new_attachment, attach_image, attach_images, is_image_of,
}

-- The images of a listing.
abbrev pub images_of : ℕ → Tables → List ActiveStorageAttachment
images_of i t = select (is_image_of i) t.attachments

pub stamped-is_image :
    (i j time : ℕ) (blob : ActiveStorageBlob)
    → is_image_of i (attachment_model.stamp j time (new_attachment i blob)) ≡ true
unfolding new_attachment
stamped-is_image i j time blob = ground arith

module _ {W : Type 0} (E : Engine W) (H : Host W) (laws : IsEngine E) (root : Bytes) where
  module _ (i : ℕ) (img : UploadedImage) where
    attach_image-eq-ok :
        (s : State W) (u : Unit {0})
        → (attach_image E H root i img s).0 ≡ ok u
        → length (images_of i (attach_image E H root i img s).1.tables)
          ≡ length (images_of i s.tables) + 1
    unfolding attach_image new_key store_bytes
    attach_image-eq-ok s u h₀ =
        let (key, _, l₀) = >>=-eq-ok (new_key E H root) _ s h₀ in
        let s₁ = (new_key E H root s).1 in
        let h₁ = rw l₀ at h₀ in
        let (_, _, l₁) = >>=-eq-ok (store_bytes E H root key img.bytes) _ s₁ h₁ in
        let s₂ = (store_bytes E H root key img.bytes s₁).1 in
        let h₂ = rw l₁ at h₁ in
        let (blob, d₂, l₂) = >>=-eq-ok (create (blobs E) (new_blob H key img)) _ s₂ h₂ in
        let s₃ = (create (blobs E) (new_blob H key img) s₂).1 in
        let h₃ = rw l₂ at h₂ in
        let (att, d₃, l₃) = >>=-eq-ok (create (attachments E) (new_attachment i blob)) _ s₃ h₃ in
        let s₄ = (create (attachments E) (new_attachment i blob) s₃).1 in
        let (rows, stamped, _) =
          create-eq-ok attachment_model E.clock (attachments E) laws.attachments _ s₃ att d₃ in
        let image : is_image_of i att ≡ true =
          ap (is_image_of i) stamped ∙ stamped-is_image i att.id (E.clock s₃.world) blob in
        let k₁ : s₁.tables ≡ s.tables = ground arith in
        let k₂ : s₂.tables ≡ s₁.tables = ground arith in
        let k₃ : s₃.tables.attachments ≡ s₂.tables.attachments = ground arith in
        ap (λ r. length (images_of i r.1.tables)) (l₀ ∙ l₁ ∙ l₂ ∙ l₃)
        ∙ ap (λ t. length (images_of i t)) rows
        ∙ length-select-snoc (is_image_of i) s₃.tables.attachments att image
        ∙ ap (λ t. length (select (is_image_of i) t) + 1) (k₃ ∙ ap (λ t. t.attachments) (k₂ ∙ k₁))

  -- Each uploaded image is one more attachment of the listing.
  pub attach_images-eq-ok :
      (i : ℕ) (imgs : List UploadedImage) (s : State W) (u : Unit {0})
      → (attach_images E H root i imgs s).0 ≡ ok u
      → length (images_of i (attach_images E H root i imgs s).1.tables)
        ≡ length (images_of i s.tables) + length imgs
  unfolding attach_images
  attach_images-eq-ok i [] s u h = omega arith
  attach_images-eq-ok i (img ∷ imgs) s u h =
      let (u', made, left) = >>=-eq-ok (attach_image E H root i img) _ s h in
      let s₁ = (attach_image E H root i img s).1 in
      let one = attach_image-eq-ok i img s u' made in
      let rest = attach_images-eq-ok i imgs s₁ u (rw left at h) in
      ap (λ r. length (images_of i r.1.tables)) left ∙ omega arith

  -- The listings are no part of it.
  listings-attach_image :
      (i : ℕ) (img : UploadedImage) → Keeps (λ t. t.listings) (attach_image E H root i img)
  unfolding attach_image new_key store_bytes
  listings-attach_image i img =
      >>=-Keeps (λ t. t.listings) (new_key E H root) _ (λ s. ground arith)
        (λ key.
          >>=-Keeps (λ t. t.listings) (store_bytes E H root key img.bytes) _ (λ s. ground arith)
            (λ _.
              >>=-Keeps (λ t. t.listings) (create (blobs E) (new_blob H key img)) _
                (λ s. ground arith) (λ blob s. ground arith)))

  pub listings-attach_images :
      (i : ℕ) (imgs : List UploadedImage) → Keeps (λ t. t.listings) (attach_images E H root i imgs)
  unfolding attach_images
  listings-attach_images i [] = λ s. refl
  listings-attach_images i (img ∷ imgs) =
      >>=-Keeps (λ t. t.listings) (attach_image E H root i img) _ (listings-attach_image i img)
        (λ _. listings-attach_images i imgs)
