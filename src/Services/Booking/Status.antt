-- ===== src/Services/Booking/Status.antt =====
-- What `set_status` does to the table: which status changes keep it free of conflicts.
use mathlib.Core.List.{Memᴰ}
use trekr_go.Prelude.{
  ℕ, ◌≢◌, AllPairs-mem, mem-replace_hit, mem-replace_miss, String, Bool, true, false, List, ◌≡◌,
  inl, inr, sym, subst, ap, ◌∙◌, Bool-cases, any, ◌==◌, nat_instance, string_instance, All,
  AllPairs-replace, arith, replace, if◌then◌else◌,
}
use trekr_go.Models.{Booking, booking_model}
use trekr_go.Store.{Engine, IsEngine, State, bookings, update}
use trekr_go.Store.Laws.{ok-of_is_ok, update-eq-ok, >>=-eq-ok, is_ok}
use trekr_go.Services.Booking.{is_active, active_booking_statuses, set_status}
use trekr_go.Services.Booking.Spec.{share_a_day, conflicts, conflicts_comm, NoConflicts}

-- The status keeps its dates taken.
abbrev pub blocks : String → Bool
blocks status = any active_booking_statuses (λ s. status == s)

-- A change of the rows with key `i` to this status takes no dates: either the status does not
-- block, or those rows block already.
abbrev pub TakesNoDates : ℕ → String → List Booking → Type 0
TakesNoDates i status = All (λ b. b.id ≡ i → blocks status ≡ true → is_active b ≡ true)

-- The row after the update.
abbrev pub moved : ℕ → String → Booking → Booking
moved now status b = record b { status = status; updated_at = now }

conflicts-moved :
    (i now : ℕ) (status : String) (x y : Booking)
    → (x.id ≡ i → blocks status ≡ true → is_active x ≡ true)
    → conflicts x y ≡ false
    → conflicts (if x.id == i then moved now status x else x) y ≡ false
unfolding conflicts is_active
conflicts-moved i now status x y h r = ground arith

replace-NoConflicts :
    (i now : ℕ) (status : String) (t : List Booking)
    → TakesNoDates i status t
    → NoConflicts t
    → NoConflicts (replace (λ b. b.id == i) (moved now status) t)
replace-NoConflicts i now status t h =
    AllPairs-replace (λ b. b.id ≡ i → blocks status ≡ true → is_active b ≡ true)
      (λ a b. conflicts a b ≡ false) (λ b. b.id == i) (moved now status) t
      (λ x y px py r. keep x y px py r) h
  where
    keep :
        (x y : Booking)
        → (x.id ≡ i → blocks status ≡ true → is_active x ≡ true)
        → (y.id ≡ i → blocks status ≡ true → is_active y ≡ true)
        → conflicts x y ≡ false
        → conflicts
            (if x.id == i then moved now status x else x)
            (if y.id == i then moved now status y else y)
          ≡ false
    keep x y px py r =
        let g : Booking → Booking = λ b. if b.id == i then moved now status b else b in
        let left : conflicts (g x) y ≡ false = conflicts-moved i now status x y px r in
        conflicts_comm (g x) (g y)
        ∙ conflicts-moved i now status y (g x) py (conflicts_comm y (g x) ∙ left)

module _ {W : Type 0} (E : Engine W) (laws : IsEngine E) (booking : Booking) (status : String)
    (s : State W) where
  -- A status that is written is written to the rows with the booking's key, and to nothing else.
  tables-set_status :
      is_ok (set_status E booking status s).0 ≡ true
      → (set_status E booking status s).1.tables ≡ record s.tables {
        bookings =
            replace (λ b. b.id == booking.id) (moved (E.clock s.world) status) s.tables.bookings;
      }
  unfolding set_status
  tables-set_status h =
      let (b, done) = ok-of_is_ok (set_status E booking status s).0 h in
      let set = update (bookings E) (λ b. b.id == booking.id) (λ b. record b { status = status }) in
      let (u, written, left) = >>=-eq-ok set _ s done in
      ap (λ r. r.1.tables) left
      ∙ update-eq-ok booking_model E.clock (bookings E) laws.bookings _ _ s u written

  set_status_failed :
      is_ok (set_status E booking status s).0 ≡ false
      → (set_status E booking status s).1.tables ≡ s.tables
  unfolding set_status
  set_status_failed h = ground arith

  -- A status change that takes no dates keeps the table free of conflicts, if it is written or not.
  pub set_status-NoConflicts :
      TakesNoDates booking.id status s.tables.bookings
      → NoConflicts s.tables.bookings
      → NoConflicts (set_status E booking status s).1.tables.bookings
  set_status-NoConflicts t h = elim (Bool-cases (is_ok (set_status E booking status s).0)) [
    | inl done ↦
        subst (λ t. NoConflicts t.bookings) (sym (tables-set_status done))
          (replace-NoConflicts booking.id (E.clock s.world) status s.tables.bookings t h)
    | inr failed ↦ subst (λ t. NoConflicts t.bookings) (sym (set_status_failed failed)) h
  ]

  -- A blocking status that is written to a row whose dates another active row of the listing has
  -- makes the two conflict: the code does not look for an overlap here.
  pub set_status_double_booking :
      (b c : Booking)
      → Memᴰ b s.tables.bookings
      → Memᴰ c s.tables.bookings
      → b.id ≡ booking.id
      → c.id ≢ booking.id
      → blocks status ≡ true
      → is_active c ≡ true
      → b.rv_listing_id ≡ c.rv_listing_id
      → share_a_day b c ≡ true
      → is_ok (set_status E booking status s).0 ≡ true
      → ¬ NoConflicts (set_status E booking status s).1.tables.bookings
  unfolding conflicts is_active
  set_status_double_booking b c hb hc target other blocking active same_listing days done free =
      let f = moved (E.clock s.world) status in
      let p : Booking → Bool = λ b. b.id == booking.id in
      let t = s.tables.bookings in
      let free' : NoConflicts (replace p f t) =
        subst (λ t. NoConflicts t.bookings) (tables-set_status done) free in
      elim (AllPairs-mem (λ a b. conflicts a b ≡ false) (replace p f t)
        (λ x y r. conflicts_comm y x ∙ r) free' (mem-replace_hit p f t (ground arith) hb)
        (mem-replace_miss p f t (ground arith) hc)) [
          | inl same ↦ other (sym (ap (λ r. r.id) same) ∙ target)
          | inr clear ↦ ground arith
        ]
