-- ===== src/Services/Listing/Purged.antt =====
-- services/listing_service.go: no image of a listing is left when its images were purged.
use mathlib.Core.List.{Mem, Memᴰ, Perm}
use mathlib.Core.List.Perm
use mathlib.Core.Logic.{∥∥₁_elim}
use mathlib.Core.HLevel.{⊥_prop}
use trekr_go.Prelude.{
  ℕ, Bool, true, false, not, ◌&&◌, Option, List, [], ◌∷◌, ◌≡◌, refl, sym, ap, subst, ◌∙◌, inl, inr,
  ◌==◌, nat_instance, Bytes, select, arith, All, All-always, All-select, All-select_test, All-zip,
  All-from_mem, mem-select, Bool-cases,
}
use trekr_go.Services.Listing.Service.{
  Config, is_about, delete_messages_about, destroy_rows, destroy_listing,
}
use trekr_go.Models.{RvListing, ActiveStorageAttachment, ActiveStorageBlob, attachment_model}
use trekr_go.Storage.{Host}
use trekr_go.Sql.{ok}
use trekr_go.Store.{
  Tables, Engine, IsEngine, State, find, first_or_none, delete, blobs, attachments, pure, chats,
  bookings, embeddings, listings, Outcome, accepted,
}
use trekr_go.Store.Laws.{transaction-eq-accepted, >>=-eq-ok, delete-eq-ok, Keeps, >>=-Keeps}
use trekr_go.Services.Listing.Images.{
  is_image_of, purge_blob, purge_attachment, purge_all, purge_images,
}

-- The row is none of the listed ones.
abbrev none_of : List ActiveStorageAttachment → ActiveStorageAttachment → Bool
none_of [] x = true
none_of (a ∷ atts) x = not (x.id == a.id) && none_of atts x

none_of-mem :
    (x : ActiveStorageAttachment) (atts : List ActiveStorageAttachment)
    → Memᴰ x atts
    → none_of atts x ≡ true
    → ⊥
none_of-mem x [] m h = elim m [ ]
none_of-mem x (a ∷ atts) (Memᴰ.head e) h = let same : x.id ≡ a.id = ap (λ y. y.id) e in ground arith
none_of-mem x (a ∷ atts) (Memᴰ.tail m) h = none_of-mem x atts m (ground arith)

-- An image of the table is among those that the query found.
found_image :
    (i : ℕ) (atts : List ActiveStorageAttachment) (x : ActiveStorageAttachment)
    (t : List ActiveStorageAttachment)
    → Perm atts (select (is_image_of i) t)
    → Memᴰ x t
    → (is_image_of i x && none_of atts x) ≡ false
found_image i atts x t perm m = elim (Bool-cases (is_image_of i x && none_of atts x)) [
  | inr e ↦ e
  | inl e ↦
      let image : is_image_of i x ≡ true = ground arith in
      let alone : none_of atts x ≡ true = ground arith in
      let there : Mem x atts = (Perm.mem_iff perm).1 ∣ mem-select (is_image_of i) t image m ∣₁ in
      elim (∥∥₁_elim there ⊥_prop (λ d. none_of-mem x atts d alone)) [ ]
]

module _ {W : Type 0} (E : Engine W) (H : Host W) (laws : IsEngine E) (root : Bytes) where
  purge_attachment-eq-ok :
      (att : ActiveStorageAttachment) (s : State W) (u : Unit {0})
      → (purge_attachment E H root att s).0 ≡ ok u
      → (purge_attachment E H root att s).1.tables.attachments
        ≡ select (λ a. not (a.id == att.id)) s.tables.attachments
  unfolding purge_attachment purge_blob
  purge_attachment-eq-ok att s u h₀ =
      let drop = delete (attachments E) (λ a. a.id == att.id) in
      let look = first_or_none (blobs E) (λ b. b.id == att.blob_id) in
      let (_, d₀, l₀) = >>=-eq-ok drop _ s h₀ in
      let s₁ = (drop s).1 in
      let kept =
        >>=-Keeps (λ t. t.attachments) look (purge_blob E H root) (λ s. ground arith)
          (λ blob s. attachments-purge_blob blob s) s₁ in
      ap (λ r. r.1.tables.attachments) l₀
      ∙ kept
      ∙ ap (λ t. t.attachments)
          (delete-eq-ok attachment_model E.clock (attachments E) laws.attachments _ s tt d₀)
    where
      attachments-purge_blob :
          (blob : Option ActiveStorageBlob) → Keeps (λ t. t.attachments) (purge_blob E H root blob)
      attachments-purge_blob blob s = ground arith

  -- Purging keeps a property of the attachments, and leaves none of the listed rows.
  purge_all-All :
      (P : ActiveStorageAttachment → Type 0) (atts : List ActiveStorageAttachment) (s : State W)
      (u : Unit {0})
      → (purge_all E H root atts s).0 ≡ ok u
      → All P s.tables.attachments
      → All P (purge_all E H root atts s).1.tables.attachments
        × All (λ x. none_of atts x ≡ true) (purge_all E H root atts s).1.tables.attachments
  unfolding purge_all
  purge_all-All P [] s u h held = (held, All-always _ s.tables.attachments (λ _. refl))
  purge_all-All P (att ∷ atts) s u h held =
      let (u', made, left) = >>=-eq-ok (purge_attachment E H root att) _ s h in
      let s₁ = (purge_attachment E H root att s).1 in
      let rows = purge_attachment-eq-ok att s u' made in
      let still : All P s₁.tables.attachments =
        subst (All P) (sym rows) (All-select P _ s.tables.attachments held) in
      let gone : All (λ x. not (x.id == att.id) ≡ true) s₁.tables.attachments =
        subst (All (λ x. not (x.id == att.id) ≡ true)) (sym rows)
          (All-select_test _ s.tables.attachments) in
      let (kept, rest) = purge_all-All P atts s₁ u (rw left at h) still in
      let (first_gone, _) =
        purge_all-All (λ x. not (x.id == att.id) ≡ true) atts s₁ u (rw left at h) gone in
      let after = (purge_all E H root atts s₁).1.tables.attachments in
      subst (λ t. All P t × All (λ x. none_of (att ∷ atts) x ≡ true) t)
        (sym (ap (λ r. r.1.tables.attachments) left))
        (kept, All-zip _ _ _ after (λ x p q. ground arith) first_gone rest)

  -- A listing whose images were purged has none left.
  pub purge_images_empty :
      (i : ℕ) (s : State W) (u : Unit {0})
      → (purge_images E H root i s).0 ≡ ok u
      → All (λ x. is_image_of i x ≡ false) (purge_images E H root i s).1.tables.attachments
  unfolding purge_images
  purge_images_empty i s u h =
      let look = find (attachments E) (is_image_of i) in
      let (atts, found, left) = >>=-eq-ok look (purge_all E H root) s h in
      let kept : (look s).1.tables ≡ s.tables = ground arith in
      let listed : All (λ x. (is_image_of i x && none_of atts x) ≡ false) s.tables.attachments =
        All-from_mem _ s.tables.attachments (λ x m.
          found_image i atts x s.tables.attachments
            (laws.attachments.find_perm _ _ s.tables.attachments atts found) m) in
      let (still, gone) =
        purge_all-All (λ x. (is_image_of i x && none_of atts x) ≡ false) atts (look s).1 u
          (rw left at h)
          (subst (λ t. All (λ x. (is_image_of i x && none_of atts x) ≡ false) t.attachments)
            (sym kept) listed) in
      subst (All (λ x. is_image_of i x ≡ false)) (sym (ap (λ r. r.1.tables.attachments) left))
        (All-zip _ _ _ _ (λ x p q. ground arith) still gone)

module _ {W : Type 0} (E : Engine W) (H : Host W) (c : Config) (i : ℕ) where
  attachments-delete_messages_about : Keeps (λ t. t.attachments) (delete_messages_about E H c i)
  unfolding delete_messages_about
  attachments-delete_messages_about s = ground arith

  destroy_rows_empty :
      IsEngine E
      → (s : State W) (o : Outcome (Unit {0})) → (destroy_rows E H c i s).0 ≡ ok o
      → All (λ x. is_image_of i x ≡ false) (destroy_rows E H c i s).1.tables.attachments
  unfolding destroy_rows
  destroy_rows_empty laws s o h =
      let view : Tables → List ActiveStorageAttachment = λ t. t.attachments in
      let (u, purged, left) = >>=-eq-ok (purge_images E H c.storage_root i) _ s h in
      let s₁ = (purge_images E H c.storage_root i s).1 in
      let kept =
        >>=-Keeps view (delete_messages_about E H c i) _ attachments-delete_messages_about
          (λ _.
            >>=-Keeps view (delete (chats E) (λ r. is_about i r.rv_listing_id)) _
              (λ s. ground arith)
              (λ _.
                >>=-Keeps view (delete (bookings E) (λ r. r.rv_listing_id == i)) _
                  (λ s. ground arith)
                  (λ _.
                    >>=-Keeps view (delete (embeddings E) (λ r. r.rv_listing_id == i)) _
                      (λ s. ground arith)
                      (λ _.
                        >>=-Keeps view (delete (listings E) (λ r. r.id == i))
                          (λ _. pure (accepted tt)) (λ s. ground arith) (λ _ s. refl)))))
          s₁ in
      subst (All (λ x. is_image_of i x ≡ false))
        (sym (ap (λ r. r.1.tables.attachments) left ∙ kept))
        (purge_images_empty E H laws c.storage_root i s u purged)

module _ {W : Type 0} (E : Engine W) (H : Host W) (c : Config) where
  -- No image of a listing is left when it was destroyed.
  pub destroy_listing_no_images :
      IsEngine E
      → (l : RvListing) (s : State W) → (destroy_listing E H c l s).0 ≡ ok (accepted tt)
      → All (λ x. is_image_of l.id x ≡ false) (destroy_listing E H c l s).1.tables.attachments
  unfolding destroy_listing
  destroy_listing_no_images laws l s h =
      let (ran, kept) = transaction-eq-accepted E (destroy_rows E H c l.id) s tt h in
      subst (λ t. All (λ x. is_image_of l.id x ≡ false) t.attachments) (sym kept)
        (destroy_rows_empty E H c l.id laws _ (accepted tt) ran)
