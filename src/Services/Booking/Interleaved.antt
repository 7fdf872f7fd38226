-- ===== src/Services/Booking/Interleaved.antt =====
-- services/booking_service.go, Create, as several requests run it at once: the statements of their
-- transactions in any order, on PostgreSQL at its default level, where a statement sees what was
-- committed before it began, and the query for an update waits until no other transaction holds a
-- row that it has found. A row is held until the transaction ends.
pub mod Invariant
pub mod Serial
pub mod First
mod Tests
use trekr_go.Prelude.{
  ℕ, Bool, true, false, ◌&&◌, not, none, some, List, [], ◌∷◌, ◌++◌, ◌≡◌, any, select, map, ◌==◌,
  nat_instance, if◌then◌else◌,
}
use trekr_go.Models.{Booking, booking_model}
use trekr_go.Services.Booking.{overlaps, new_booking}

-- What a request asks for, its dates already found valid.
pub record Attempt : Type 0 where
  pub hirer_id : ℕ
  pub listing_id : ℕ
  pub start : ℕ
  pub end : ℕ

-- Where the transaction of a request stands, with the keys of the rows that its lock is for.
pub data Phase : Type 0 where
  idle : Phase
  waiting : List ℕ → Phase
  holding : List ℕ → Phase
  clear : List ℕ → Phase
  finished : Phase

-- The keys of the rows that are held.
abbrev pub held : Phase → List ℕ
held idle = []
held (waiting ids) = []
held (holding ids) = ids
held (clear ids) = ids
held finished = []

-- The committed bookings, and the requests by number.
pub record System : Type 0 where
  pub rows : List Booking
  pub phases : ℕ → Phase

abbrev pub set_phase : ℕ → Phase → (ℕ → Phase) → ℕ → Phase
set_phase c p phases d = if d == c then p else phases d

abbrev pub in_phase : ℕ → Phase → System → System
in_phase c p s = record s { phases = set_phase c p s.phases }

-- The keys that the first query of the transaction finds.
unfoldable pub rows_of : ℕ → List Booking → List ℕ
rows_of listing_id rows = map (λ b. b.id) (select (λ b. b.rv_listing_id == listing_id) rows)

abbrev pub disjoint : List ℕ → List ℕ → Bool
disjoint [] ids = true
disjoint (i ∷ is) ids = not (any ids (λ j. j == i)) && disjoint is ids

-- The overlap query of a request.
abbrev pub meets : Attempt → Booking → Bool
meets a b = overlaps a.listing_id a.start a.end b

-- The row of a request, as it is inserted.
abbrev pub row_for : Attempt → ℕ → ℕ → Booking
row_for a id now =
    booking_model.stamp id now (new_booking a.hirer_id a.listing_id (some a.start) (some a.end))

module _ (attempts : ℕ → Attempt) where
  -- One statement of one request.
  pub data Step : System → System → Type 0 where
    begin_lock :
        {s : System} (c : ℕ)
        → s.phases c ≡ idle
        → Step s (in_phase c (waiting (rows_of (attempts c).listing_id s.rows)) s)
    take_lock :
        {s : System} (c : ℕ) (ids : List ℕ)
        → s.phases c ≡ waiting ids
        → ((d : ℕ) → (d == c) ≡ false → disjoint ids (held (s.phases d)) ≡ true)
        → Step s (in_phase c (holding ids) s)
    find_free :
        {s : System} (c : ℕ) (ids : List ℕ)
        → s.phases c ≡ holding ids
        → any s.rows (meets (attempts c)) ≡ false
        → Step s (in_phase c (clear ids) s)
    find_overlap :
        {s : System} (c : ℕ) (ids : List ℕ)
        → s.phases c ≡ holding ids
        → any s.rows (meets (attempts c)) ≡ true
        → Step s (in_phase c finished s)
    -- A transaction may fail at any point: it gives up its rows and inserts nothing.
    abort : {s : System} (c : ℕ) → Step s (in_phase c finished s)
    insert_commit :
        {s : System} (c : ℕ) (ids : List ℕ) (id now : ℕ)
        → s.phases c ≡ clear ids
        → Step s (record {
          rows = s.rows ++ row_for (attempts c) id now ∷ [];
          phases = set_phase c finished s.phases;
        })

  pub data Steps (s : System) : System → Type 0 where
    no_step : Steps s s
    then_step : {t u : System} → Steps s t → Step t u → Steps s u

abbrev pub started : List Booking → System
started rows = record { rows = rows; phases = λ c. idle }
