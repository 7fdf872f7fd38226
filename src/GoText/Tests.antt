-- ===== src/GoText/Tests.antt =====
-- Numbers read and written, and their theorem at a concrete input.
use trekr_go.Prelude.{none, ◌≡◌, refl, codes}
use trekr_go.Models.{negsuc}
use trekr_go.GoText.{itoa, put_digits, parse_int, read_digits, trim_space, byte_length}

steps : Unit {0}
unfolding itoa put_digits parse_int read_digits trim_space byte_length
steps = tt

negative : itoa (negsuc 41) ≡ "-42"
unfolding steps
negative = refl

too_large : parse_int (codes "9223372036854775808") ≡ none
unfolding steps
too_large = refl

trimmed : trim_space " a b\t" ≡ "a b"
unfolding steps
trimmed = refl

two_bytes : byte_length "é" ≡ 2
unfolding steps
two_bytes = refl
