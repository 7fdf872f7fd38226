-- ===== src/Storage/Memory.antt =====
-- A machine on which every call succeeds, for the examples: random bytes are zeros.
use trekr_go.Prelude.{
  ℕ, zero, suc, ◌<◌, true, some, [], ◌∷◌, ◌≡◌, refl, ap, ◌==◌, nat_instance, list_instance, Bytes,
  length, All, arith, not, select,
}
use trekr_go.Storage.{Host, IsHost}

abbrev replicate : ℕ → ℕ → Bytes
replicate zero x = []
replicate (suc n) x = x ∷ replicate n x

length-replicate : (n x : ℕ) → length (replicate n x) ≡ n
length-replicate zero x = refl
length-replicate (suc n) x = ap suc (length-replicate n x)

All-replicate : (n x : ℕ) → x < 256 → All (λ y. y < 256) (replicate n x)
All-replicate zero x h = tt
All-replicate (suc n) x h = (h, All-replicate n x h)

abbrev pub memory_host : Host ℕ
memory_host = record {
  random = λ n w. (some (replicate n 0), w);
  make_dirs = λ path w. (true, w);
  write_file = λ path b w disk. (true, (path, b) ∷ disk, w);
  remove = λ path w disk. (select (λ e. not (e.0 == path)) disk, w);
  md5_base64 = λ b. "1B2M2Y8AsgTpgAmY7PhCfg==";
  enqueue = λ i w. (true, w);
}

pub memory_host-IsHost : IsHost memory_host
memory_host-IsHost = record {
  random_length = λ n w b h. let e : replicate n 0 ≡ b = cc in rw (← e) (length-replicate n 0);
  random_bytes =
      λ n w b h. let e : replicate n 0 ≡ b = cc in rw (← e) (All-replicate n 0 (omega arith));
  written = λ path b w d h q. refl;
}
