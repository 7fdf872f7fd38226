-- ===== src/Httpapi/Files/Tests.antt =====
-- A link to a blob, from its signed id to its bytes.
use trekr_go.Prelude.{
  ℕ, true, none, some, [], ◌∷◌, ◌++◌, ◌≡◌, refl, nat_instance, string_instance, list_instance,
  Bytes, arith, codes,
}
use trekr_go.GoText.{itoa, put_digits, parse_int, read_digits, trim_codes}
use trekr_go.Models.{ActiveStorageBlob}
use trekr_go.Store.{State}
use trekr_go.Store.Memory.{memory_engine, empty_tables, state_at}
use trekr_go.Storage.{disk_path, has_dots}
use trekr_go.Storage.Verifier.{cut, generate, verify}
use trekr_go.Storage.Signed.{
  content_disposition, generate_signed_id, verify_signed_id, generate_blob_key, verify_blob_key,
  service_url_expiry,
}
use trekr_go.Httpapi.{reply, plain_text, redirect_body, file_body}
use trekr_go.Httpapi.Files.{split_storage_path, disk_prefix, key_content, blob_redirect, disk_show}
use trekr_go.Models.{pos}
use trekr_go.Storage.Signed.Laws.{
  verify_signed_id-generate_signed_id, verify_blob_key-generate_blob_key,
}
use trekr_go.Storage.Signed.Small.{the_key, small, codec, small-IsCrypto, codec-IsKeyCodec}

abbrev photo : ActiveStorageBlob
photo = record {
  id = 1;
  key = codes "abcd";
  filename = "v";
  content_type = "image/png";
  metadata = none;
  service_name = "local";
  byte_size = 2;
  checksum = none;
  created_at = 0;
}

abbrev before : State ℕ
before = record (state_at 0 (record empty_tables { blobs = photo ∷ [] })) {
  disk = (codes "root" ∷ codes "ab" ∷ codes "cd" ∷ codes "abcd" ∷ [], 7 ∷ 8 ∷ []) ∷ [];
}

-- A minute later.
abbrev later : State ℕ
later = record before { world = 60000000000 }

abbrev link : Bytes
link = 101 ∷ b'-' ∷ b'-' ∷ 3 ∷ 101 ∷ []

abbrev path : Bytes
path = 102 ∷ b'-' ∷ b'-' ∷ 3 ∷ 102 ∷ b'/' ∷ []

steps : Unit {0}
unfolding itoa put_digits parse_int read_digits trim_codes disk_path has_dots cut generate verify
    content_disposition generate_signed_id verify_signed_id generate_blob_key verify_blob_key
    split_storage_path blob_redirect disk_show
steps = tt

linked : generate_signed_id small (3 ∷ []) 1 ≡ some link
unfolding steps
linked = refl

redirected :
    (blob_redirect small codec memory_engine (3 ∷ []) (link ++ b'/' ∷ codes "v") before).0
    ≡ reply 302 (redirect_body (disk_prefix ++ path))
unfolding steps
redirected = refl

served :
    (disk_show small codec memory_engine (3 ∷ []) (codes "root") (λ path w. true) path later).0
    ≡ reply 200 (file_body (key_content small codec memory_engine (3 ∷ []) photo) (7 ∷ 8 ∷ []))
unfolding steps
served = refl

too_late :
    (disk_show small codec memory_engine
      (3 ∷ [])
      (codes "root")
      (λ path w. true)
      path
      (record before { world = 300000000001 })).0
    ≡ reply 404 (plain_text "404 page not found")
unfolding steps
too_late = refl

-- The two theorems on signed ids and keys.
verify_signed_id-generate_signed_id_example : verify_signed_id small (3 ∷ []) 77 link ≡ some (pos 1)
verify_signed_id-generate_signed_id_example =
    verify_signed_id-generate_signed_id small small-IsCrypto codec codec-IsKeyCodec (3 ∷ []) link 1
      77 (omega arith) linked

abbrev key_token : Bytes
key_token = 102 ∷ b'-' ∷ b'-' ∷ 3 ∷ 102 ∷ []

keyed : generate_blob_key small codec (3 ∷ []) 0 the_key service_url_expiry ≡ some key_token
unfolding steps
keyed = refl

verify_blob_key-generate_blob_key_example :
    verify_blob_key small codec (3 ∷ []) 60000000000 key_token ≡ some the_key
verify_blob_key-generate_blob_key_example =
    verify_blob_key-generate_blob_key small small-IsCrypto codec codec-IsKeyCodec (3 ∷ []) key_token
      the_key 0 service_url_expiry 60000000000 keyed (omega arith)
