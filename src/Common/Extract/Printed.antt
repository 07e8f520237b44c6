-- ===== src/Common/Extract/Printed.antt =====
-- What the stream reads of printed numbers.
use Prim.Native.Nat.{ℕ, ◌≤◌}
use mathlib.Core.Path.{◌≡◌, refl}
use mathlib.Core.Logic.{◌≢◌}
use mathlib.Core.Option.{some}
use mathlib.Core.List.{[], ◌∷◌, ◌++◌}
use native.Mathlib.Omega.{arith}
use ros2_modular_edge_offloa.Common.Lists.{Bytes, All}
use ros2_modular_edge_offloa.Common.Int.{pos}
use ros2_modular_edge_offloa.Common.Decimal.{
  to_string, IsDigit, to_string-All, to_string-ne-nil, stoi-to_string, is_space, is_digit,
}
use ros2_modular_edge_offloa.Common.Decimal.Prefix.{stoi-to_string_then}
use ros2_modular_edge_offloa.Common.Extract.{extract_int, skip_spaces, skip_digits, skip_sign}

skip_front : (s t : Bytes) → All IsDigit s → s ≢ [] → skip_sign (skip_spaces (s ++ t)) ≡ s ++ t
unfolding skip_sign skip_spaces is_space
skip_front [] t h ne = absurd (ne refl)
skip_front (d ∷ s) t (hd, hs) ne = ground arith

skip_digits-All : (s : Bytes) → All IsDigit s → skip_digits s ≡ []
unfolding skip_digits is_digit
skip_digits-All [] h = refl
skip_digits-All (d ∷ s) (hd, hs) = ground (arith, skip_digits-All s hs)

skip_digits_then :
    (s : Bytes) (c : ℕ) (t : Bytes) → All IsDigit s → ¬ IsDigit c → skip_digits (s ++ c ∷ t) ≡ c ∷ t
unfolding skip_digits is_digit
skip_digits_then [] c t h hc = ground arith
skip_digits_then (d ∷ s) c t (hd, hs) hc = ground (arith, skip_digits_then s c t hs hc)

pub extract_int-to_string_then :
    (n c : ℕ) (rest : Bytes)
    → n ≤ 2147483647
    → ¬ IsDigit c
    → extract_int (to_string n ++ c ∷ rest) ≡ some (pos n, c ∷ rest)
unfolding extract_int
extract_int-to_string_then n c rest b h =
    rw (stoi-to_string_then n c rest b h, extract_int)
      (rw
        (
          skip_front (to_string n) (c ∷ rest) (to_string-All n) (to_string-ne-nil n),
          skip_digits_then (to_string n) c rest (to_string-All n) h,
        )
        refl)

skip_front-All : (s : Bytes) → All IsDigit s → skip_sign (skip_spaces s) ≡ s
unfolding skip_sign skip_spaces is_space
skip_front-All [] h = refl
skip_front-All (d ∷ s) (hd, hs) = ground arith

pub extract_int-to_string : (n : ℕ) → n ≤ 2147483647 → extract_int (to_string n) ≡ some (pos n, [])
unfolding extract_int
extract_int-to_string n b =
    rw (stoi-to_string n b, extract_int)
      (rw
        (
          skip_front-All (to_string n) (to_string-All n),
          skip_digits-All (to_string n) (to_string-All n),
        )
        refl)
