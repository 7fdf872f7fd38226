-- ===== src/Storage.antt =====
-- internal/storage: the disk layout of blobs, their keys, and the write path. A Go string is the
-- list of its bytes. The operating system, the random source and MD5 are a parameter, `Host`.
pub mod Keys
pub mod Verifier
pub mod Signed
pub mod Memory
mod Tests
use trekr_go.Prelude.{
  ℕ, zero, suc, ◌%◌, String, Bool, true, false, ◌&&◌, ◌||◌, Option, none, some, List, [], ◌∷◌, ◌++◌,
  ◌≡◌, ltb, leb, ◌==◌, nat_instance, list_instance, any, Bytes, codes, length, if◌then◌else◌, map,
  All, ◌<◌,
}

-- A path below the storage root, as its components, the root first.
abbrev pub FilePath : Type 0
FilePath = List Bytes

abbrev pub Disk : Type 0
Disk = List (FilePath × Bytes)

abbrev pub content : FilePath → Disk → Option Bytes
content path [] = none
content path ((p, d) ∷ disk) = if p == path then some d else content path disk

-- `strings.Contains(s, "..")`
unfoldable pub has_dots : Bytes → Bool
has_dots [] = false
has_dots (c ∷ []) = false
has_dots (c ∷ d ∷ s) = c == b'.' && d == b'.' || has_dots (d ∷ s)

-- `DiskPath`: the components `root`, `key[0:2]`, `key[2:4]`, `key`. A key of fewer than four bytes
-- or with a separator or ".." is refused.
unfoldable pub disk_path : Bytes → Bytes → Option FilePath
disk_path root (a ∷ b ∷ c ∷ d ∷ rest) =
    let key = a ∷ b ∷ c ∷ d ∷ rest in
    if any key (λ x. x == b'/' || x == 92) || has_dots key
    then none
    else some (root ∷ (a ∷ b ∷ []) ∷ (c ∷ d ∷ []) ∷ key ∷ [])
disk_path root _ = none

-- What the program uses of the machine. Each call may fail; `IsHost` says what it does otherwise.
pub record Host (W : Type 0) : Type 0 where
  pub random : ℕ → W → Option Bytes × W
  pub make_dirs : FilePath → W → Bool × W
  pub write_file : FilePath → Bytes → W → Disk → Bool × Disk × W
  pub remove : FilePath → W → Disk → Disk × W
  pub md5_base64 : Bytes → String
  pub enqueue : ℕ → W → Bool × W

-- A random read fills the buffer with bytes; a file that was written is there, and no other file
-- has changed; a removal leaves at most its own file behind.
pub record IsHost {W : Type 0} (H : Host W) : Type 0 where
  pub random_length : (n : ℕ) (w : W) (b : Bytes) → (H.random n w).0 ≡ some b → length b ≡ n
  pub random_bytes : (n : ℕ) (w : W) (b : Bytes) → (H.random n w).0 ≡ some b → All (λ x. x < 256) b
  pub written :
      (path : FilePath) (b : Bytes) (w : W) (d : Disk)
      → (H.write_file path b w d).0 ≡ true
      → (q : FilePath)
      → content q (H.write_file path b w d).1 ≡ (if path == q then some b else content q d)

abbrev pub key_length : ℕ
key_length = 28

abbrev base36 : Bytes
base36 = codes "0123456789abcdefghijklmnopqrstuvwxyz"

nth : Bytes → ℕ → ℕ
nth [] i = 0
nth (c ∷ cs) zero = c
nth (c ∷ cs) (suc i) = nth cs i

-- `base36[int(b) % len(base36)]`
unfoldable pub base36_digit : ℕ → ℕ
unfolding nth
base36_digit b = nth base36 (b % length base36)

module _ {W : Type 0} (H : Host W) where
  abbrev encoded : Option Bytes × W → Option Bytes × W
  encoded (none, w) = (none, w)
  encoded (some b, w) = (some (map base36_digit b), w)

  -- `GenerateKey`
  unfoldable pub generate_key : W → Option Bytes × W
  generate_key w = encoded (H.random key_length w)

  -- `filepath.Dir`
  abbrev dir : FilePath → FilePath
  dir [] = []
  dir (c ∷ []) = []
  dir (c ∷ d ∷ path) = c ∷ dir (d ∷ path)

  -- `WriteBlob`: false stands for an error.
  abbrev write_at : FilePath → Bytes → Bool × W → Disk → Bool × Disk × W
  write_at path bytes (false, w) disk = (false, disk, w)
  write_at path bytes (true, w) disk = H.write_file path bytes w disk

  abbrev write_to : Option FilePath → Bytes → W → Disk → Bool × Disk × W
  write_to none bytes w disk = (false, disk, w)
  write_to (some path) bytes w disk = write_at path bytes (H.make_dirs (dir path) w) disk

  unfoldable pub write_blob : Bytes → Bytes → Bytes → W → Disk → Bool × Disk × W
  write_blob root key bytes w disk = write_to (disk_path root key) bytes w disk
