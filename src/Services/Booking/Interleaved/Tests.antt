-- ===== src/Services/Booking/Interleaved/Tests.antt =====
-- The theorems on interleaved requests at concrete inputs.
use trekr_go.Prelude.{ℕ, true, [], ◌∷◌, ◌++◌, ◌≡◌, refl, arith}
use trekr_go.Models.{Booking}
use trekr_go.Services.Booking.{overlaps, is_active, new_booking}
use trekr_go.Services.Booking.Spec.{conflicts, NoConflicts}
use trekr_go.Services.Booking.Interleaved.{
  Attempt, System, row_for, rows_of, Steps, begin_lock, take_lock, find_overlap, no_step, then_step,
  started, in_phase, finished, holding, waiting,
}
use trekr_go.Services.Booking.Interleaved.First.{first_bookings_conflict}
use trekr_go.Services.Booking.Interleaved.Serial.{Steps-NoConflicts}

-- Everyone wants listing 7 on the same days.
abbrev wish : ℕ → Attempt
wish c = record { hirer_id = c; listing_id = 7; start = 740194; end = 740198 }

first_bookings_conflict_example :
    (s : System) × Steps wish (started []) s
    × (s.rows ≡ ([] ++ row_for (wish 0) 1 5 ∷ []) ++ row_for (wish 1) 2 5 ∷ [])
    × (conflicts (row_for (wish 0) 1 5) (row_for (wish 1) 2 5) ≡ true)
first_bookings_conflict_example =
    first_bookings_conflict wish [] 1 2 5 refl (omega arith) (omega arith) refl

abbrev taken : Booking
taken = record {
  id = 1;
  start_date = 740194;
  end_date = 740198;
  status = "confirmed";
  hirer_id = 8;
  rv_listing_id = 7;
  created_at = 0;
  updated_at = 0;
}

steps : Unit {0}
unfolding overlaps is_active new_booking rows_of
steps = tt

-- A request for the days of a booking begins, takes the lock and finds the overlap.
abbrev refused : System
refused =
    in_phase 0 finished
      (in_phase 0 (holding (1 ∷ [])) (in_phase 0 (waiting (1 ∷ [])) (started (taken ∷ []))))

refused-Steps : Steps wish (started (taken ∷ [])) refused
unfolding steps
refused-Steps =
    then_step
      (then_step (then_step no_step (begin_lock 0 refl))
        (take_lock 0 (1 ∷ []) refl (λ d h. rw h refl)))
      (find_overlap 0 (1 ∷ []) refl refl)

Steps-NoConflicts_example : NoConflicts refused.rows
Steps-NoConflicts_example =
    Steps-NoConflicts wish (taken ∷ []) refused (λ c. refl) (tt, tt) refused-Steps
