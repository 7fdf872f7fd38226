-- ===== src/Storage/Tests.antt =====
-- Paths and keys at concrete inputs, with a machine on which every call succeeds.
use trekr_go.Prelude.{
  true, none, some, [], ◌∷◌, ◌≡◌, refl, length, All, Bytes, codes, nat_instance, list_instance,
}
use trekr_go.Storage.{FilePath, disk_path, has_dots, generate_key, base36_digit, key_length}
use trekr_go.Storage.Keys.{IsInside, is_base36, disk_path-IsInside, generate_key_accepted}
use trekr_go.Storage.Memory.{memory_host, memory_host-IsHost}

abbrev root : Bytes
root = codes "storage"

layout :
    disk_path root (codes "abcdef") ≡ some (root ∷ codes "ab" ∷ codes "cd" ∷ codes "abcdef" ∷ [])
unfolding disk_path has_dots
layout = refl

refused_keys :
    (disk_path root (codes "abc") ≡ none)
    × (disk_path root (codes "../../etc/passwd") ≡ none)
    × (disk_path root (codes "ab..cd") ≡ none)
unfolding disk_path has_dots
refused_keys = (refl, refl, refl)

disk_path-IsInside_example :
    (first : Bytes) × (second : Bytes) × ((root ∷ codes "ab" ∷ codes "cd" ∷ codes "abcdef" ∷ [])
      ≡ root ∷ first ∷ second ∷ codes "abcdef" ∷ [])
    × IsInside first
    × IsInside second
    × IsInside (codes "abcdef")
disk_path-IsInside_example = disk_path-IsInside root (codes "abcdef") _ layout

abbrev made_key : Bytes
made_key = codes "0000000000000000000000000000"

generate_key_accepted_example :
    (length made_key ≡ key_length)
    × All (λ c. is_base36 c ≡ true) made_key
    × ((path : FilePath) × (disk_path root made_key ≡ some path))
unfolding generate_key base36_digit
generate_key_accepted_example =
    generate_key_accepted memory_host memory_host-IsHost 0 made_key root refl
