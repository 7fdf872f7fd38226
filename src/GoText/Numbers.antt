-- ===== src/GoText/Numbers.antt =====
-- A number that is formatted is read back.
use Prim.Native.Char.{code}
use Prim.Native.String.{char_at}
use trekr_go.Prelude.{
  ℕ, zero, suc, ◌+◌, ◌*◌, ◌-◌, ◌/◌, ◌%◌, ◌<◌, ◌≤◌, String, true, false, some, ◌∷◌, ◌≡◌, refl, ap,
  ◌∙◌, ◌==◌, nat_instance, leb, ltb, Bytes, codes, arith, Bool-cases, inl, inr, ◌⊎◌, passes_up_to,
  passes-passes_up_to,
}
use trekr_go.Models.{ℤ, pos, negsuc}
use trekr_go.GoText.{
  put_digits, itoa, read_digits, some_digits, in_range, negated, parse_int, max_int64,
}

digit_table : passes_up_to (λ d. code (char_at "0123456789" d) == 48 + d) 10 ≡ true
unfolding passes_up_to
digit_table = refl

pub code-digit : (n : ℕ) → code (char_at "0123456789" (n % 10)) ≡ 48 + n % 10
code-digit n =
    let told =
      passes-passes_up_to (λ d. code (char_at "0123456789" d) == 48 + d) 10 (n % 10) (omega arith)
        digit_table in
    ground arith

read_digits-digit :
    (k n : ℕ) (cs : Bytes)
    → read_digits k (code (char_at "0123456789" (n % 10)) ∷ cs) ≡ read_digits (k * 10 + n % 10) cs
unfolding read_digits
read_digits-digit k n cs =
    let low : leb 48 (48 + n % 10) ≡ true = ground arith in
    let high : leb (48 + n % 10) 57 ≡ true = ground arith in
    let value : k * 10 + (48 + n % 10 - 48) ≡ k * 10 + n % 10 = ground arith in
    rw (code-digit n) (rw (low, high, value) refl)

-- Reading the digits of `n` after nothing is having read `n`.
read_digits-put_digits :
    (fuel n : ℕ) (acc : String)
    → n < fuel
    → read_digits 0 (codes (put_digits fuel n acc)) ≡ read_digits n (codes acc)
unfolding put_digits
read_digits-put_digits zero n acc h = absurd (omega arith)
read_digits-put_digits (suc fuel) n acc h = elim (Bool-cases (ltb n 10)) [
  | inl small ↦
      let value : 0 * 10 + n % 10 ≡ n = ground arith in
      rw small (read_digits-digit 0 n (codes acc) ∙ ap (λ k. read_digits k (codes acc)) value)
  | inr large ↦
      let value : n / 10 * 10 + n % 10 ≡ n = omega arith in
      rw large (
        read_digits-put_digits fuel (n / 10) (String.◌∷◌ (char_at "0123456789" (n % 10)) acc)
          (ground arith)
        ∙ read_digits-digit (n / 10) n (codes acc)
        ∙ ap (λ k. read_digits k (codes acc)) value)
]

-- The text of a number starts with a digit.
record StartsWithDigit (s : Bytes) : Type 0 where
  head : ℕ
  tail : Bytes
  starts : s ≡ head ∷ tail
  digit : (48 ≤ head) × (head ≤ 57)

put_digits-StartsWithDigit :
    (fuel n : ℕ) (acc : String)
    → StartsWithDigit (codes acc) ⊎ (0 < fuel)
    → StartsWithDigit (codes (put_digits fuel n acc))
unfolding put_digits
put_digits-StartsWithDigit zero n acc (inl h) = h
put_digits-StartsWithDigit zero n acc (inr h) = absurd (omega arith)
put_digits-StartsWithDigit (suc fuel) n acc h =
    let more : StartsWithDigit (codes (String.◌∷◌ (char_at "0123456789" (n % 10)) acc)) = record {
      head = code (char_at "0123456789" (n % 10));
      tail = codes acc;
      starts = refl;
      digit = omega (arith, code-digit n);
    } in
    elim (Bool-cases (ltb n 10)) [
      | inl small ↦ rw small more
      | inr large ↦ rw large (
          put_digits-StartsWithDigit fuel (n / 10) (String.◌∷◌ (char_at "0123456789" (n % 10)) acc)
            (inl more))
    ]

parse_int-digit :
    (s : Bytes) (n : ℕ)
    → StartsWithDigit s
    → read_digits 0 s ≡ some n
    → (parse_int s ≡ in_range (some n)) × (some_digits s ≡ some n)
unfolding parse_int
parse_int-digit s n d h =
    let e = d.starts in
    let (low, high) = d.digit in
    let plus : (d.head == b'+') ≡ false = ground arith in
    let minus : (d.head == b'-') ≡ false = ground arith in
    rw e (rw (plus, minus) (ap in_range (rw e at h), rw e at h))

put_digits-read : (n : ℕ) → read_digits 0 (codes (put_digits (suc n) n "")) ≡ some n
unfolding read_digits
put_digits-read n = read_digits-put_digits (suc n) n "" (omega arith)

parse_int-minus : (s : Bytes) → parse_int (b'-' ∷ s) ≡ negated (some_digits s)
unfolding parse_int
parse_int-minus s = refl

negated-suc : (n : ℕ) → n ≤ max_int64 → negated (some (suc n)) ≡ some (negsuc n)
negated-suc n h = let fits : leb n max_int64 ≡ true = ground arith in rw fits refl

-- A number of 64 bits: at most the largest, at least its negation less one.
abbrev pub IsInt64 : ℤ → Type 0
IsInt64 (pos n) = n ≤ max_int64
IsInt64 (negsuc n) = n ≤ max_int64

-- Every 64-bit integer that is formatted is read back.
pub parse_int-itoa : (n : ℤ) → IsInt64 n → parse_int (codes (itoa n)) ≡ some n
unfolding itoa
parse_int-itoa (pos n) h =
    let (whole, _) =
      parse_int-digit (codes (put_digits (suc n) n "")) n
        (put_digits-StartsWithDigit (suc n) n "" (inr (omega arith))) (put_digits-read n) in
    whole ∙ ground arith
parse_int-itoa (negsuc n) h =
    let (_, unsigned) =
      parse_int-digit (codes (put_digits (suc (suc n)) (suc n) "")) (suc n)
        (put_digits-StartsWithDigit (suc (suc n)) (suc n) "" (inr (omega arith)))
        (put_digits-read (suc n)) in
    parse_int-minus (codes (put_digits (suc (suc n)) (suc n) ""))
    ∙ ap negated unsigned
    ∙ negated-suc n h
