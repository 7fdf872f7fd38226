-- ===== src/Httpapi.antt =====
-- httpapi: the handlers, after the middleware has found the user and the decoder has read the body.
pub mod Bookings
pub mod Chats
pub mod Listings
pub mod Accounts
pub mod Passwords
pub mod Search
pub mod Files
pub mod Params
pub mod Public
pub mod Middleware
mod Tests
use trekr_go.Prelude.{
  Bytes, ℕ, zero, suc, ◌+◌, ◌*◌, ◌-◌, String, Bool, true, false, ◌&&◌, Option, none, some, List, [],
  ◌∷◌, ◌==◌, nat_instance, leb, ltb, codes, if◌then◌else◌,
}
use trekr_go.GoText.{parse_int}
use trekr_go.Models.{User, Booking, RvListing, Chat, Message, ℤ, pos, negsuc}
use trekr_go.Sql.{Result, ok, err}
use trekr_go.Store.{Engine, State, Action, Outcome, accepted, invalid}
use trekr_go.Services.Chat.{Opened}
use trekr_go.Storage.Signed.{BlobKeyData}
use trekr_go.Json.{BookingParticipantsJson}
use trekr_go.Json.Listings.{ListingJson, ScoredListingJson}

-- The fields of a user that its JSON tags let through.
pub record UserView : Type 0 where
  pub id : ℕ
  pub email : String
  pub name : String

abbrev pub user_view : User → UserView
user_view u = record { id = u.id; email = u.email; name = u.name }

-- What a handler writes, as rows or as the values that the module Json renders of them;
-- `session_body` comes with the header Authorization.
pub data Body : Type 0 where
  no_body : Body
  fail_body error_body plain_text message_text : String → Body
  user_body : UserView → Body
  session_body : Bytes → UserView → Body
  validation_errors : List String → Body
  booking_body : Booking → Body
  booking_view : Booking → Option RvListing → Bool → Body
  opened_body : Opened → Body
  chat_lists : List Chat → List Chat → Body
  chat_body : Chat → List Message → Body
  message_body : Message → Body
  messages_body : List Message → Body
  listing_body : RvListing → Body
  listings_body : List RvListing → Body
  status_error : String → Body
  scored_view : List ScoredListingJson → Body
  redirect_body : Bytes → Body
  listings_view : List ListingJson → Body
  listing_view : ListingJson → Body
  bookings_view : List BookingParticipantsJson → Body
  file_body : BlobKeyData → Bytes → Body

-- The status code and the body, or a nil pointer that was followed.
pub data Reply : Type 0 where
  reply : ℕ → Body → Reply
  panicked : Reply

abbrev pub Handler : Type 0 → Type 0
Handler W = State W → Reply × State W

-- A helper of the handlers either goes on with a value, or has replied.
pub data Checked (A : Type 0) : Type 0 where
  go : A → Checked A
  stop : Reply → Checked A

abbrev pub Check : Type 0 → Type 0 → Type 0
Check W A = State W → Checked A × State W

-- A request: the user that the middleware found, the parameters of the URL, and the body as the
-- decoder reads it, or none if it cannot.
pub record Request (B : Type 0) : Type 0 where
  pub user : Option User
  pub id : String
  pub other_id : String
  pub body : Option B

-- `ParseInt(s, 10, 64)` of a parameter
unfoldable pub parse_id : String → Option ℤ
parse_id s = parse_int (codes s)

-- `WHERE id = ?`
abbrev pub has_id : ℤ → ℕ → Bool
has_id (pos n) i = i == n
has_id (negsuc n) i = false

abbrev pub unauthorized : Reply
unauthorized = reply 401 (fail_body "Unauthorized")

abbrev pub malformed : Reply
malformed = reply 400 (fail_body "Malformed request body")

-- `mw.CurrentUser`
abbrev pub with_user : {A : Type 0} → Option User → (User → A) → A → A
with_user none f missing = missing
with_user (some u) f missing = f u

module _ {W : Type 0} where
  abbrev pub answer : Reply → Handler W
  answer r s = (r, s)

  -- An error of the database is a 500 with a text.
  abbrev pub or_500 : {A : Type 0} → Result A × State W → String → (A → Handler W) → Reply × State W
  or_500 (ok a, s) message f = f a s
  or_500 (err e, s) message f = (reply 500 (plain_text message), s)

  abbrev pub run : {A : Type 0} → Action W A → String → (A → Handler W) → Handler W
  run m message f s = or_500 (m s) message f

  -- A handler that goes on when the helper did.
  abbrev pub proceed : {A : Type 0} → Checked A × State W → (A → Handler W) → Reply × State W
  proceed (go a, s) f = f a s
  proceed (stop r, s) f = (r, s)

  abbrev pub checking : {A : Type 0} → Check W A → (A → Handler W) → Handler W
  checking m f s = proceed (m s) f

  -- The body, or a 400.
  abbrev pub with_body : {B : Type 0} → Option B → (B → Handler W) → Handler W
  with_body none f = answer malformed
  with_body (some b) f = f b

  -- Validation messages are a 422.
  abbrev pub or_422 : {A : Type 0} → (A → Handler W) → Outcome A → Handler W
  or_422 f (accepted a) = f a
  or_422 f (invalid errs) = answer (reply 422 (validation_errors errs))
