-- ===== src/Lib.antt =====
-- trekr_go is the HTTP API of a marketplace for recreational vehicles: owners list vehicles with
-- photos, hirers book them and chat with the owners. The code is in internal/: models (the rows),
-- services (the rules), httpapi (the handlers), region (which region a town is in), storage (the
-- files of the photos), ai and jobs (the embeddings of listings for the search). A handler loads
-- rows, checks the user, calls one method of a service, and turns the result into a status code;
-- the services read and write the tables through gorm, and the listing service also writes files
-- and puts a listing on the job queue.
--
-- The modules and the code they model:
--
-- - Prelude: Boolean tests, lists measured by native numbers, insertion sort, texts.
-- - Models: the structs of internal/models, their keys and timestamps, and the enum rv_type.
-- - Sql, Store: the database. gorm and PostgreSQL are a parameter, Engine, a record of the calls
--   that the code makes; IsEngine states what is documented of a call that does not fail, and every
--   call may fail. Store has the state (the tables, the files, the queued listing ids and the
--   session of the engine), the sequence of statements, and transactions, which take back the
--   tables and neither files nor jobs. Sql.Memory and Store.Memory give an engine in memory with
--   all the laws.
-- - Dates: parseDate and today of internal/services/booking_service.go. A date is the number of its
--   day in the Gregorian calendar from the year 0.
-- - Services.Booking: internal/services/booking_service.go. create_booking is
--   BookingService.Create, create_locked the body of its transaction, overlaps the clauses of its
--   query.
-- - Services.Listing: internal/services/listing_service.go. The parent has the parameters and
--   applyCreate and applyUpdate, each as the fields that it sets and the messages that it returns;
--   Images the attaching and purging of images; Service the methods; Fields what each column of a
--   row is to hold; Outside the rows that are not of a listing.
-- - Services.Chat: internal/services/chat_service.go. Outside has the rows that are not of a chat.
-- - Region: internal/region/region.go, after the YAML decoder, a parameter.
-- - Storage.Verifier: internal/storage/verifier.go. A token is a list of bytes, the cryptography
--   and the encodings are a parameter, Crypto, and the time is an argument. The encoder of JSON
--   takes out insignificant space and replaces what is not UTF-8, as is documented.
-- - GoText: what is used of the packages strings, strconv and unicode.
-- - Auth: internal/auth and internal/httpapi/middleware/auth.go. The cryptography, uuid, jwt and
--   strings.ToLower are a parameter, Secrets. A header is a list of bytes.
-- - Httpapi.Accounts, Httpapi.Passwords: register.go, signin.go, signout.go and password_reset.go
--   of internal/httpapi.
-- - Services.Booking.Interleaved: BookingService.Create as several requests run it at once, a
--   relation between the states before and after one statement, with a step for a transaction that
--   fails. The row locks and the visibility of rows are those that PostgreSQL documents for its
--   default level.
-- - Services.Search, Httpapi.Search: internal/services/search_service.go and
--   internal/httpapi/search.go. The distance of vectors and the order of distances are a parameter,
--   Vectors.
-- - Storage.Signed, Httpapi.Files: the signed ids and keys of internal/storage/verifier.go, and
--   internal/httpapi/active_storage.go. The JSON of a key, the format of times, the quoting of file
--   names and the cleaning of a location by http.Redirect are a parameter, KeyCodec. The redirect
--   and the serving of a blob are modelled and run on examples.
-- - Httpapi.Params: internal/httpapi/listing_params.go. A request holds what the JSON decoder and
--   the reader of multipart forms give; the handlers of listings take what this module makes of it.
-- - Json: booking_serializer.go, chat_serializer.go and listing_serializer.go of internal/httpapi,
--   as records with the fields that are rendered; Dates.Format has the texts of dates and times.
-- - Httpapi.Public, Httpapi.Middleware: internal/httpapi/listings.go, bookingsIndex of bookings.go,
--   and internal/httpapi/middleware/malformed_json.go.
-- - Storage: internal/storage/disk.go and write.go. The operating system, the random source, MD5
--   and the queue are a parameter, Host.
-- - Httpapi: internal/httpapi/bookings.go, chats.go, listings_write.go and images.go in
--   Httpapi.Bookings, Httpapi.Chats and Httpapi.Listings. A request holds the user that the
--   middleware found, the parameters of the URL as text, and the decoded body or none; a handler
--   gives a reply and the new state. A nil pointer that is followed is the reply panicked.
-- - Embeddings: internal/models/embedding_document.go, internal/ai/embedder.go and
--   internal/jobs/embed_listing.go. The server, the JSON decoder and SHA-256 are a parameter,
--   Ollama.
--
-- A method that can fail is a function from the state to a result with the new state, and what was
-- written before an error stays written, unless a transaction takes it back. Validation messages
-- are an outcome of their own. Ids are natural numbers, since the database gives out positive ones;
-- a number in a URL may be negative or out of range and is then an error or the id of no row. The
-- loops of the code run over lists and are structural recursion; the only fuel is that of the
-- decimal digits of a number, one more than the number, which is enough since each step divides by
-- ten.
--
-- Not modelled: the text of JSON, the preloads of the chat handlers and of the handlers that change
-- a booking or a listing, which only serve the rendering, the router, the configuration and the
-- start-up. Concurrent requests are modelled for the creation of bookings; elsewhere a theorem
-- speaks of one call after another.
pub mod Prelude
pub mod Models
pub mod GoText
pub mod Sql
pub mod Store
pub mod Dates
pub mod Storage
pub mod Services
pub mod Json
pub mod Httpapi
pub mod Auth
pub mod Embeddings
pub mod Region
