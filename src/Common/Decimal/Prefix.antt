-- ===== src/Common/Decimal/Prefix.antt =====
-- A printed number with something behind it.
use Prim.Native.Nat.{ℕ, zero, suc, ◌+◌, ◌/◌, ◌%◌, ◌≤◌}
use mathlib.Core.Path.{◌≡◌, refl}
use mathlib.Core.Logic.{◌≢◌, inl, inr}
use mathlib.Core.Option.{some}
use mathlib.Core.List.{[], ◌∷◌, ◌++◌}
use native.Mathlib.Omega.{arith}
use ros2_modular_edge_offloa.Common.Tests.{◌==◌, Bool-cases}
use ros2_modular_edge_offloa.Common.Lists.{Bytes, All}
use ros2_modular_edge_offloa.Common.Int.{pos}
use ros2_modular_edge_offloa.Common.Decimal.{
  digits, to_string, scan, stoi, IsDigit, scan-digits, to_string-All, to_string-ne-nil, is_digit,
}

digits-append : (f n : ℕ) (out rest : Bytes) → digits f n out ++ rest ≡ digits f n (out ++ rest)
unfolding digits
digits-append zero n out rest = refl
digits-append (suc f) n out rest = elim (Bool-cases (n / 10 == 0)) [
  | inl e ↦ rw e refl
  | inr e ↦ rw e (digits-append f (n / 10) ((b'0' + n % 10) ∷ out) rest)
]

scan-to_string_then : (n c : ℕ) (rest : Bytes) → ¬ IsDigit c → scan 0 (to_string n ++ c ∷ rest) ≡ n
unfolding to_string scan is_digit
scan-to_string_then n c rest h =
    rw (digits-append (suc n) n [] (c ∷ rest), scan-digits (suc n) n (c ∷ rest) (omega arith))
      (ground arith)

stoi_front :
    (s t : Bytes)
    → All IsDigit s
    → s ≢ []
    → scan 0 (s ++ t) ≤ 2147483647
    → stoi (s ++ t) ≡ some (pos (scan 0 (s ++ t)))
unfolding stoi
stoi_front [] t h ne b = absurd (ne refl)
stoi_front (d ∷ s) t (hd, hs) ne b = ground arith

pub stoi-to_string_then :
    (n c : ℕ) (rest : Bytes)
    → n ≤ 2147483647
    → ¬ IsDigit c
    → stoi (to_string n ++ c ∷ rest) ≡ some (pos n)
stoi-to_string_then n c rest b h =
    rw
      (
        stoi_front (to_string n) (c ∷ rest) (to_string-All n) (to_string-ne-nil n)
            (rw (scan-to_string_then n c rest h) b),
        scan-to_string_then n c rest h,
      )
      refl
