-- ===== src/Httpapi/Bookings/Laws.antt =====
-- httpapi/bookings.go: who may change a booking.
use mathlib.Core.List.{Mem, Memᴰ}
use mathlib.Core.List.Perm
use trekr_go.Prelude.{
  ℕ, true, replace, String, Option, none, some, List, [], ◌∷◌, ◌≡◌, refl, sym, ap, subst, ◌∙◌, inl,
  inr, ◌⊎◌, ◌==◌, nat_instance, select, arith, Bool-cases,
}
use trekr_go.Models.{User, Booking, RvListing, ℤ, booking_model}
use trekr_go.Sql.{record_not_found, failed, Result, ok, err}
use trekr_go.Store.{
  Tables, first, or_missing, update, Engine, IsEngine, State, find, first_or_none, bookings,
  listings, ◌>>=◌,
}
use trekr_go.Services.Booking.{set_status}
use trekr_go.Store.Laws.{update-cases, >>=-eq-ok}
use trekr_go.Httpapi.{
  Reply, reply, booking_body, run, Checked, go, stop, Request, parse_id, has_id, proceed, checking,
  with_user, answer, unauthorized,
}
use trekr_go.Httpapi.Bookings.{
  loaded, head, with_listing, find_booking, load_booking, transition_by, transition_booking,
}

-- The request is for a booking of the table, its user owns the booking's listing, and the row of
-- that booking, and nothing else, has the status.
pub record IsTransition (status : String) (r : Request (Unit {0})) (before after : Tables)
    : Type 0 where
  pub booking : Booking
  pub listing : RvListing
  pub owner : User
  pub signed_in : r.user ≡ some owner
  pub id : ℤ
  pub parsed : parse_id r.id ≡ some id
  pub requested : has_id id booking.id ≡ true
  pub found : Memᴰ booking before.bookings
  pub listed : Mem listing (select (λ l. l.id == booking.rv_listing_id) before.listings)
  pub owns : listing.owner_id ≡ owner.id
  pub now : ℕ
  pub changed : after ≡ record before {
    bookings =
        replace
          (λ x. x.id == booking.id)
          (λ x. record x { status = status; updated_at = now })
          before.bookings;
  }

-- What loading the booking of a parameter has found.
abbrev IsLoaded : String → List Booking → List RvListing → Booking → RvListing → Type 0
IsLoaded param bs ls b l =
    (id : ℤ) × (parse_id param ≡ some id)
    × (has_id id b.id ≡ true)
    × Memᴰ b bs
    × Mem l (select (λ l. l.id == b.rv_listing_id) ls)

mem-of_head : {A : Type 0} (l : List A) (a : A) → head l ≡ some a → Mem a l
mem-of_head [] a h = cc
mem-of_head (b ∷ l) a h = let same : b ≡ a = cc in ∣ Memᴰ.head (sym same) ∣₁

pub first_or_none-eq-ok :
    {W A : Type 0} (x : Result A × State W) (a : A) → (or_missing x).0 ≡ ok (some a) → x.0 ≡ ok a
first_or_none-eq-ok (ok b, s) a h = cc
first_or_none-eq-ok (err record_not_found, s) a h = cc
first_or_none-eq-ok (err (failed m), s) a h = cc

pub loaded-eq-go :
    {W A : Type 0} (message : String) (r : Result (Option A) × State W) (a : A)
    → (loaded message r).0 ≡ go a
    → r.0 ≡ ok (some a)
loaded-eq-go message (ok (some a'), s) a h = ground arith
loaded-eq-go message (ok none, s) a h = cc
loaded-eq-go message (err e, s) a h = cc

module _ {W : Type 0} (E : Engine W) (laws : IsEngine E) where
  tables-load_booking :
      (param : String) (s : State W) → (load_booking E param s).1.tables ≡ s.tables
  unfolding load_booking
  tables-load_booking param s = ground arith

  with_listing-eq-ok :
      (found : Option Booking) (b : Booking) (l : RvListing) (s : State W)
      → (with_listing E found s).0 ≡ ok (some (b, some l))
      → (found ≡ some b) × Mem l (select (λ l. l.id == b.rv_listing_id) s.tables.listings)
  with_listing-eq-ok none b l s h = cc
  with_listing-eq-ok (some b') b l s h =
      let (ls, d₀, l₀) = >>=-eq-ok (find (listings E) (λ l. l.id == b'.rv_listing_id)) _ s h in
      let left : ok (some (b', head ls)) ≡ (with_listing E (some b') s).0 =
        sym (ap (λ r. r.0) l₀) in
      let pair = left ∙ h in
      let same : b' ≡ b = cc in
      let top : head ls ≡ some l = cc in
      (
        ap some same,
        rw (← same) (
            (Perm.mem_iff (laws.listings.find_perm _ s.world s.tables.listings ls d₀)).0
              (mem-of_head ls l top)),
      )

  find_booking-eq-go :
      (id : ℤ) (b : Booking) (l : RvListing) (s : State W)
      → (find_booking E (some id) s).0 ≡ go (b, some l)
      → (has_id id b.id ≡ true)
        × Memᴰ b s.tables.bookings
        × Mem l (select (λ l. l.id == b.rv_listing_id) s.tables.listings)
  find_booking-eq-go id b l s h =
      let look = first_or_none (bookings E) (λ b. has_id id b.id) in
      let made =
        loaded-eq-go "could not load booking" ((look >>= with_listing E) s) (b, some l) h in
      let (found, got, left) = >>=-eq-ok look (with_listing E) s made in
      let kept : (look s).1.tables ≡ s.tables = ground arith in
      let told = ap (λ r. r.0) (sym left) ∙ made in
      let (same, listed) = with_listing-eq-ok found b l (look s).1 told in
      let there : (first (bookings E) (λ b. has_id id b.id) s).0 ≡ ok b =
        first_or_none-eq-ok (first (bookings E) (λ b. has_id id b.id) s) b (got ∙ ap ok same) in
      let row = laws.bookings.first_some (λ b. has_id id b.id) s.world s.tables.bookings b there in
      (
        row.passes,
        row.listed,
        subst (λ t. Mem l (select (λ l. l.id == b.rv_listing_id) t.listings)) kept listed,
      )

  load_booking-eq-go :
      (param : String) (b : Booking) (l : RvListing) (s : State W)
      → (load_booking E param s).0 ≡ go (b, some l)
      → IsLoaded param s.tables.bookings s.tables.listings b l
  unfolding load_booking
  load_booking-eq-go param b l s h = in_table (parse_id param) refl h
    where
      in_table :
          (id : Option ℤ)
          → parse_id param ≡ id
          → (find_booking E id s).0 ≡ go (b, some l)
          → IsLoaded param s.tables.bookings s.tables.listings b l
      in_table none parsed h = cc
      in_table (some id) parsed h =
          let (requested, found, listed) = find_booking-eq-go id b l s h in
          (id, parsed, requested, found, listed)

  -- The update of the status is done, or fails and changes nothing.
  set_status-cases :
      (b : Booking) (status message : String) (k : Booking → Reply) (s : State W)
      → let x = run (set_status E b status) message (λ b'. answer (k b')) s in
        (x.1.tables ≡ s.tables)
        ⊎ ((now : ℕ) × (x.1.tables ≡ record s.tables {
          bookings =
              replace
                (λ x. x.id == b.id)
                (λ x. record x { status = status; updated_at = now })
                s.tables.bookings;
        }))
  unfolding set_status
  set_status-cases b status message k s =
      let set = update (bookings E) (λ x. x.id == b.id) (λ x. record x { status = status }) in
      let same : (run (set_status E b status) message (λ b'. answer (k b')) s).1.tables
          ≡ (set s).1.tables =
        ground arith in
      elim (update-cases booking_model E.clock (bookings E) laws.bookings (λ x. x.id == b.id)
        (λ x. record x { status = status }) s) [
          | inl kept ↦ inl (same ∙ kept)
          | inr left ↦ inr (E.clock s.world, same ∙ left)
        ]

  module _ (status message : String) (r : Request (Unit {0})) (s : State W) where
    abbrev IsTransitionOrSame : Tables → Type 0
    IsTransitionOrSame after = (after ≡ s.tables) ⊎ IsTransition status r s.tables after

    -- What the handler does with what the load of the booking gave.
    transition-cases :
        (x : Checked (Booking × Option RvListing) × State W) (u : User)
        → r.user ≡ some u
        → x.1.tables ≡ s.tables
        → ((b : Booking) (l : RvListing)
            → x.0 ≡ go (b, some l)
            → IsLoaded r.id s.tables.bookings s.tables.listings b l)
        → IsTransitionOrSame (proceed x (transition_by E u status message)).1.tables
    transition-cases (stop y, s') u signed kept loaded = inl kept
    transition-cases (go (b, none), s') u signed kept loaded = inl kept
    transition-cases (go (b, some l), s') u signed kept loaded =
        elim (Bool-cases (l.owner_id == u.id)) [
          | inl e ↦
              let (id, parsed, requested, found, listed) = loaded b l refl in
              rw e
                (elim (set_status-cases b status "could not update booking"
                  (λ b'. reply 200 (booking_body b')) s') [
                    | inl same ↦ inl (same ∙ kept)
                    | inr (now, left) ↦ inr (record {
                      booking = b;
                      listing = l;
                      owner = u;
                      signed_in = signed;
                      id = id;
                      parsed = parsed;
                      requested = requested;
                      found = found;
                      listed = listed;
                      owns = (nat_instance.tells_same_iff l.owner_id u.id).0 e;
                      now = now;
                      changed =
                          left
                          ∙ ap {A = Tables} {B = Tables}
                              (λ t. record t {
                                bookings =
                                    replace (λ x. x.id == b.id)
                                      (λ x. record x { status = status; updated_at = now })
                                      t.bookings;
                              })
                              kept;
                    })
                  ])
          | inr e ↦ inl (rw e kept)
        ]

    -- A confirmation or a rejection changes nothing, or the request is for a booking of the table by
    -- the owner of its listing, and then the row with the id of that booking gets the status and a
    -- new time of update, and nothing else changes.
    pub transition_booking-IsTransition :
        ((transition_booking E status message r s).1.tables ≡ s.tables)
        ⊎ IsTransition status r s.tables (transition_booking E status message r s).1.tables
    unfolding transition_booking
    transition_booking-IsTransition = by_user r.user refl
      where
        by_user :
            (user : Option User)
            → r.user ≡ user
            → IsTransitionOrSame
                (with_user user
                  (λ u. checking (load_booking E r.id) (transition_by E u status message))
                  (answer unauthorized)
                  s).1.tables
        by_user none signed = inl refl
        by_user (some u) signed =
            transition-cases (load_booking E r.id s) u signed (tables-load_booking r.id s)
              (λ b l h. load_booking-eq-go r.id b l s h)
