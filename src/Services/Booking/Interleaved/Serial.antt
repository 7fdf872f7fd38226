-- ===== src/Services/Booking/Interleaved/Serial.antt =====
-- services/booking_service.go: the requests for listings that have a booking are serialized by the
-- lock, so no two bookings conflict, in whatever order their statements run.
use trekr_go.Prelude.{
  ℕ, Bool, true, false, List, [], ◌∷◌, ◌++◌, ◌≡◌, refl, sym, any, ◌==◌, nat_instance, Bool-cases,
  inl, inr, ◌⊎◌, arith, All-weaken, AllPairs-append,
}
use trekr_go.Models.{Booking}
use trekr_go.Services.Booking.{overlaps, new_booking}
use trekr_go.Services.Booking.Spec.{conflicts, NoConflicts, conflicts_of_overlaps}
use trekr_go.Services.Booking.Interleaved.{
  Attempt, Phase, idle, waiting, holding, clear, finished, held, System, set_phase, in_phase,
  disjoint, meets, row_for, Step, begin_lock, take_lock, find_free, find_overlap, abort,
  insert_commit, Steps, no_step, then_step, started,
}
use trekr_go.Services.Booking.Interleaved.Invariant.{
  anchor, has_row-anchor, any_append, any-rows_of, disjoint_shared, any_none, holds, is_clear, asks,
  held_asked, set_phase_all, IsSerial, IsSerial-in_phase,
}

any_snoc :
    {A : Type 0} (p : A → Bool) (xs : List A) (y : A)
    → any xs p ≡ false
    → p y ≡ false
    → any (xs ++ y ∷ []) p ≡ false
any_snoc p [] y h k = rw k refl
any_snoc p (x ∷ xs) y h k = ground (arith, any_snoc p xs y)

clear_holds : (p : Phase) → is_clear p ≡ true → holds p ≡ true
clear_holds idle h = cc
clear_holds (waiting ids) h = cc
clear_holds (holding ids) h = cc
clear_holds (clear ids) h = refl
clear_holds finished h = cc

meets_other :
    (a b : Attempt) (id now : ℕ)
    → (a.listing_id == b.listing_id) ≡ false
    → meets b (row_for a id now) ≡ false
unfolding overlaps new_booking
meets_other a b id now h = rw h refl

conflicts_row :
    (a : Attempt) (id now : ℕ) (b : Booking)
    → meets a b ≡ false
    → conflicts b (row_for a id now) ≡ false
unfolding new_booking
conflicts_row a id now b h = conflicts_of_overlaps b (row_for a id now) h

module _ (attempts : ℕ → Attempt) (key : ℕ → ℕ) where
  -- A request that gets its lock is alone with it on its listing.
  taken_alone :
      (s : System) (c d : ℕ) (ids : List ℕ)
      → IsSerial attempts key s
      → s.phases c ≡ waiting ids
      → disjoint ids (held (s.phases d)) ≡ true
      → (attempts d).listing_id ≡ (attempts c).listing_id
      → holds (s.phases d) ≡ true
      → ⊥
  taken_alone s c d ids inv here apart same h =
      let k = key (attempts c).listing_id in
      let wanted : any ids (λ j. j == k) ≡ true = rw here at (inv.asked c) in
      let asked : asks k (s.phases d) ≡ true = rw same at (inv.asked d) in
      disjoint_shared k ids (held (s.phases d)) wanted (held_asked k (s.phases d) h asked) apart

  lock_exclusive :
      (s : System) (c : ℕ) (ids : List ℕ)
      → IsSerial attempts key s
      → s.phases c ≡ waiting ids
      → ((d : ℕ) → (d == c) ≡ false → disjoint ids (held (s.phases d)) ≡ true)
      → (a b : ℕ) → (b == a) ≡ false
      → (attempts b).listing_id ≡ (attempts a).listing_id
      → ((a == c) ≡ true) ⊎ ((a == c) ≡ false)
      → ((b == c) ≡ true) ⊎ ((b == c) ≡ false)
      → holds (set_phase c (holding ids) s.phases a) ≡ true
      → holds (set_phase c (holding ids) s.phases b) ≡ true
      → ⊥
  lock_exclusive s c ids inv here apart a b other same (inl e) (inl e') ha hb = ground arith
  lock_exclusive s c ids inv here apart a b other same (inl e) (inr e') ha hb =
      let own : a ≡ c = (nat_instance.tells_same_iff a c).0 e in
      taken_alone s c b ids inv here (apart b e') (rw own at same) (rw e' at hb)
  lock_exclusive s c ids inv here apart a b other same (inr e) (inl e') ha hb =
      let own : b ≡ c = (nat_instance.tells_same_iff b c).0 e' in
      taken_alone s c a ids inv here (apart a e) (sym (rw own at same)) (rw e at ha)
  lock_exclusive s c ids inv here apart a b other same (inr e) (inr e') ha hb =
      inv.exclusive a b other same (rw e at ha) (rw e' at hb)

  IsSerial-take_lock :
      (s : System) (c : ℕ) (ids : List ℕ)
      → IsSerial attempts key s
      → s.phases c ≡ waiting ids
      → ((d : ℕ) → (d == c) ≡ false → disjoint ids (held (s.phases d)) ≡ true)
      → IsSerial attempts key (in_phase c (holding ids) s)
  IsSerial-take_lock s c ids inv here apart = record {
    free_of_conflicts = inv.free_of_conflicts;
    anchored = inv.anchored;
    asked = λ d.
        set_phase_all (λ d q. asks (key (attempts d).listing_id) q ≡ true) c (holding ids) s.phases
          d (rw here at (inv.asked c)) (inv.asked d);
    exclusive = λ a b other same ha hb.
        lock_exclusive s c ids inv here apart a b other same (Bool-cases (a == c))
          (Bool-cases (b == c)) ha hb;
    free = λ d.
        set_phase_all (λ d q. is_clear q ≡ true → any s.rows (meets (attempts d)) ≡ false) c
          (holding ids) s.phases d (λ h. cc) (inv.free d);
  }

  after_insert :
      (s : System) (c : ℕ) (ids : List ℕ) (id now : ℕ)
      → IsSerial attempts key s
      → s.phases c ≡ clear ids
      → (d : ℕ) → ((d == c) ≡ true) ⊎ ((d == c) ≡ false)
      → (((attempts c).listing_id == (attempts d).listing_id) ≡ true)
        ⊎ (((attempts c).listing_id == (attempts d).listing_id) ≡ false)
      → is_clear (set_phase c finished s.phases d) ≡ true
      → any (s.rows ++ row_for (attempts c) id now ∷ []) (meets (attempts d)) ≡ false
  after_insert s c ids id now inv here d (inl own) k h = let h' = rw own at h in cc
  after_insert s c ids id now inv here d (inr other) (inl same) h =
      let clear_d = rw other at h in
      absurd (
        inv.exclusive c d other (sym ((nat_instance.tells_same_iff _ _).0 same)) (rw here refl)
          (clear_holds (s.phases d) clear_d))
  after_insert s c ids id now inv here d (inr other) (inr apart) h =
      any_snoc (meets (attempts d)) s.rows _ (inv.free d (rw other at h))
        (meets_other (attempts c) (attempts d) id now apart)

  -- The row of a request whose dates are free conflicts with none, and meets no clear request.
  IsSerial-insert_commit :
      (s : System) (c : ℕ) (ids : List ℕ) (id now : ℕ)
      → IsSerial attempts key s
      → s.phases c ≡ clear ids
      → IsSerial attempts key (record {
        rows = s.rows ++ row_for (attempts c) id now ∷ [];
        phases = set_phase c finished s.phases;
      })
  IsSerial-insert_commit s c ids id now inv here = record {
    free_of_conflicts = AllPairs-append _ s.rows _ inv.free_of_conflicts (
        All-weaken _ _ s.rows (λ b h. conflicts_row (attempts c) id now b h)
          (any_none _ s.rows (inv.free c (rw here refl))));
    anchored = λ d. any_append _ s.rows _ (inv.anchored d);
    asked = λ d.
        set_phase_all (λ d q. asks (key (attempts d).listing_id) q ≡ true) c finished s.phases d
          refl (inv.asked d);
    exclusive = λ a b other same ha hb.
        inv.exclusive a b other same
          (set_phase_all (λ d q. holds q ≡ true → holds (s.phases d) ≡ true) c finished s.phases a
            (λ h. cc) (λ h. h) ha)
          (set_phase_all (λ d q. holds q ≡ true → holds (s.phases d) ≡ true) c finished s.phases b
            (λ h. cc) (λ h. h) hb);
    free = λ d h.
        after_insert s c ids id now inv here d (Bool-cases (d == c))
          (Bool-cases ((attempts c).listing_id == (attempts d).listing_id)) h;
  }

  IsSerial-Step :
      (s t : System) → IsSerial attempts key s → Step attempts s t → IsSerial attempts key t
  IsSerial-Step s t inv (begin_lock c here) =
      IsSerial-in_phase attempts key s c _ inv (any-rows_of _ _ s.rows (inv.anchored c)) (λ h. cc)
        (λ h. cc)
  IsSerial-Step s t inv (take_lock c ids here apart) = IsSerial-take_lock s c ids inv here apart
  IsSerial-Step s t inv (find_free c ids here none_found) =
      IsSerial-in_phase attempts key s c (clear ids) inv (rw here at (inv.asked c))
        (λ h. rw here refl) (λ h. none_found)
  IsSerial-Step s t inv (find_overlap c ids here found) =
      IsSerial-in_phase attempts key s c finished inv refl (λ h. cc) (λ h. cc)
  IsSerial-Step s t inv (abort c) =
      IsSerial-in_phase attempts key s c finished inv refl (λ h. cc) (λ h. cc)
  IsSerial-Step s t inv (insert_commit c ids id now here) =
      IsSerial-insert_commit s c ids id now inv here

  IsSerial-Steps :
      (s t : System) → IsSerial attempts key s → Steps attempts s t → IsSerial attempts key t
  IsSerial-Steps s t inv no_step = inv
  IsSerial-Steps s t inv (then_step {t = u} before step) =
      IsSerial-Step u t (IsSerial-Steps s u inv before) step

-- However many requests run at once for listings that have a booking, no two bookings conflict.
pub Steps-NoConflicts :
    (attempts : ℕ → Attempt) (rows : List Booking) (s : System)
    → ((c : ℕ) → any rows (λ b. b.rv_listing_id == (attempts c).listing_id) ≡ true)
    → NoConflicts rows
    → Steps attempts (started rows) s
    → NoConflicts s.rows
Steps-NoConflicts attempts rows s listed clean steps =
    let key = λ (l : ℕ). anchor l rows in
    let inv : IsSerial attempts key (started rows) = record {
      free_of_conflicts = clean;
      anchored = λ c. has_row-anchor (attempts c).listing_id rows (listed c);
      asked = λ c. refl;
      exclusive = λ a b other same ha hb. cc;
      free = λ c h. cc;
    } in
    (IsSerial-Steps attempts key (started rows) s inv steps).free_of_conflicts
