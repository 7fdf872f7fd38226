-- ===== src/Httpapi/Files.antt =====
-- httpapi/active_storage.go: the redirect to a blob and the serving of its bytes.
mod Tests
use trekr_go.Prelude.{
  ℕ, Bool, true, false, Option, none, some, List, [], ◌∷◌, ◌++◌, ◌==◌, nat_instance, Bytes, codes,
  if◌then◌else◌,
}
use trekr_go.Models.{ActiveStorageBlob, ℤ}
use trekr_go.Sql.{Result, ok, err}
use trekr_go.Store.{Engine, State, first, blobs}
use trekr_go.Storage.{FilePath, content, disk_path}
use trekr_go.Storage.Verifier.{Crypto}
use trekr_go.Storage.Signed.{
  BlobKeyData, KeyCodec, verify_signed_id, generate_blob_key, verify_blob_key, content_disposition,
  service_url_expiry,
}
use trekr_go.Httpapi.{plain_text, redirect_body, file_body, Reply, reply, Handler, answer, has_id}

-- `strings.TrimPrefix(rest, "/")`
abbrev pub without_slash : Bytes → Bytes
without_slash [] = []
without_slash (c ∷ s) = if c == b'/' then s else c ∷ s

-- What is before and after the last slash.
abbrev pub split_last : Bytes → Option (Bytes × Bytes)
split_last [] = none
split_last (c ∷ s) = here c s (split_last s)
  where
    here : ℕ → Bytes → Option (Bytes × Bytes) → Option (Bytes × Bytes)
    here c s (some (a, b)) = some (c ∷ a, b)
    here c s none = if c == b'/' then some ([], s) else none

-- `splitStoragePath`
unfoldable pub split_storage_path : Bytes → Option (Bytes × Bytes)
split_storage_path rest = split_last (without_slash rest)

abbrev pub disk_prefix : Bytes
disk_prefix = codes "/rails/active_storage/disk/"

module _ {W : Type 0} where
  -- `http.NotFound`
  abbrev pub not_found : Handler W
  not_found = answer (reply 404 (plain_text "404 page not found"))

module _ {W : Type 0} (C : Crypto) (K : KeyCodec) (E : Engine W) (base : Bytes) where
  -- What the key of a blob holds.
  abbrev pub key_content : ActiveStorageBlob → BlobKeyData
  key_content blob = record {
    key = blob.key;
    disposition = content_disposition K (codes "inline") (codes blob.filename);
    content_type = blob.content_type;
    service_name = blob.service_name;
  }

  abbrev pub redirect_to : Bytes → Option Bytes → Handler W
  redirect_to filename none = answer (reply 500 (plain_text "could not sign blob url"))
  redirect_to filename (some key) = answer (
      reply 302
        (redirect_body (K.clean_location (disk_prefix ++ key ++ b'/' ∷ K.path_escape filename))))

  abbrev pub redirect_blob : Bytes → Result ActiveStorageBlob × State W → Reply × State W
  redirect_blob filename (ok blob, s) =
      redirect_to filename
        (generate_blob_key C K base (E.clock s.world) (key_content blob) service_url_expiry) s
  redirect_blob filename (err e, s) = not_found s

  abbrev pub redirect_id : Bytes → Option ℤ → Handler W
  redirect_id filename none s = not_found s
  redirect_id filename (some id) s =
      redirect_blob filename (first (blobs E) (λ b. has_id id b.id) s)

  abbrev pub redirect_path : Option (Bytes × Bytes) → Handler W
  redirect_path none s = not_found s
  redirect_path (some (signed_id, filename)) s =
      redirect_id filename (verify_signed_id C base (E.clock s.world) signed_id) s

  -- `blobRedirect`
  unfoldable pub blob_redirect : Bytes → Handler W
  blob_redirect rest = redirect_path (split_storage_path rest)

-- Opening the file at a path may fail; `opens` says when it does not, for a file that is there.
module _ {W : Type 0} (C : Crypto) (K : KeyCodec) (E : Engine W) (base root : Bytes)
    (opens : FilePath → W → Bool) where
  abbrev pub serve_bytes : BlobKeyData → Option Bytes → Handler W
  serve_bytes d none = not_found
  serve_bytes d (some bytes) = answer (reply 200 (file_body d bytes))

  abbrev pub serve_path : BlobKeyData → Option FilePath → Handler W
  serve_path d none s = not_found s
  serve_path d (some path) s =
      if opens path s.world then serve_bytes d (content path s.disk) s else not_found s

  abbrev pub serve_key : Option BlobKeyData → Handler W
  serve_key none = not_found
  serve_key (some d) = serve_path d (disk_path root d.key)

  abbrev pub serve_token : Option (Bytes × Bytes) → Handler W
  serve_token none s = not_found s
  serve_token (some (encoded_key, filename)) s =
      serve_key (verify_blob_key C K base (E.clock s.world) encoded_key) s

  -- `diskShow`
  unfoldable pub disk_show : Bytes → Handler W
  disk_show rest = serve_token (split_storage_path rest)
