-- ===== src/Common/Decimal.antt =====
-- Decimal text: `std::to_string` and `operator<<` on integers, and `std::stoi`.
pub mod Prefix
use Prim.Native.Nat.{ℕ, zero, suc, ◌+◌, ◌-◌, ◌*◌, ◌/◌, ◌%◌, ◌<◌, ◌≤◌}
use mathlib.Core.Path.{◌≡◌, refl, ◌∙◌}
use mathlib.Core.Logic.{◌≢◌, inl, inr}
use mathlib.Core.Bool.{Bool, true, false, ◌&&◌, ◌||◌}
use mathlib.Core.Option.{Option, none, some}
use mathlib.Core.List.{[], ◌∷◌}
use native.Mathlib.Omega.{arith}
use ros2_modular_edge_offloa.Common.Tests.{leb, ◌==◌, if◌then◌else◌, Bool-cases}
use ros2_modular_edge_offloa.Common.Lists.{Bytes, All, Lacks}
use ros2_modular_edge_offloa.Common.Int.{ℤ, pos, negsuc}

digits : ℕ → ℕ → Bytes → Bytes
digits zero n acc = acc
digits (suc f) n acc =
    let acc' = (b'0' + n % 10) ∷ acc in
    let rest = digits f (n / 10) acc' in if n / 10 == 0 then acc' else rest

-- An unsigned number; `suc n` rounds are enough, since each divides by ten.
unfoldable pub to_string : ℕ → Bytes
unfolding digits
to_string n = digits (suc n) n []

-- A signed one.
unfoldable pub int_to_string : ℤ → Bytes
unfolding to_string
int_to_string (pos n) = to_string n
int_to_string (negsuc n) = b'-' ∷ to_string (suc n)

unfoldable pub is_space : ℕ → Bool
is_space c = c == 32 || (leb 9 c && leb c 13)

unfoldable pub is_digit : ℕ → Bool
is_digit c = leb b'0' c && leb c b'9'

-- The value of the digits at the front; what follows them is ignored.
scan : ℕ → Bytes → ℕ
unfolding is_digit
scan n [] = n
scan n (c ∷ s) = if is_digit c then scan (n * 10 + (c - b'0')) s else n

starts_digit : Bytes → Bool
unfolding is_digit
starts_digit [] = false
starts_digit (c ∷ s) = is_digit c

-- `std::invalid_argument` and `std::out_of_range` are both `none`.
magnitude : Bool → Bytes → Option ℤ
unfolding scan starts_digit
magnitude negative s =
    let n = scan 0 s in
    if starts_digit s
    then (if negative
        then (if n == 0
            then some (pos 0)
            else if leb n 2147483648
            then some (negsuc (n - 1))
            else none)
        else (if leb n 2147483647 then some (pos n) else none))
    else none

signed : Bytes → Option ℤ
unfolding magnitude
signed [] = none
signed (c ∷ s) =
    if c == b'-'
    then magnitude true s
    else if c == b'+'
    then magnitude false s
    else magnitude false (c ∷ s)

-- `std::stoi`: white space, an optional sign, digits, and anything behind them.
unfoldable pub stoi : Bytes → Option ℤ
unfolding signed is_space
stoi [] = none
stoi (c ∷ s) = if is_space c then stoi s else signed (c ∷ s)

scan-digits : (f n : ℕ) (out : Bytes) → n < f → scan 0 (digits f n out) ≡ scan n out
unfolding digits scan
scan-digits zero n out h = absurd (omega arith)
scan-digits (suc f) n out h = elim (Bool-cases (n / 10 == 0)) [
  | inl e ↦ rw e (ground arith)
  | inr e ↦ rw e (scan-digits f (n / 10) _ (ground arith) ∙ ground arith)
]

abbrev pub IsDigit : ℕ → Type 0
IsDigit c = (b'0' ≤ c) × (c ≤ b'9')

digits-All : (f n : ℕ) (out : Bytes) → All IsDigit out → All IsDigit (digits f n out)
unfolding digits
digits-All zero n out h = h
digits-All (suc f) n out h = elim (Bool-cases (n / 10 == 0)) [
  | inl e ↦ rw e ((omega arith, omega arith), h)
  | inr e ↦ rw e (digits-All f (n / 10) _ ((omega arith, omega arith), h))
]

digits-ne-nil : (f n : ℕ) (out : Bytes) → out ≢ [] → digits f n out ≢ []
unfolding digits
digits-ne-nil zero n out h = h
digits-ne-nil (suc f) n out h = elim (Bool-cases (n / 10 == 0)) [
  | inl e ↦ rw e (λ p. cc)
  | inr e ↦ rw e (digits-ne-nil f (n / 10) _ (λ p. cc))
]

pub to_string-All : (n : ℕ) → All IsDigit (to_string n)
unfolding to_string
to_string-All n = digits-All (suc n) n [] tt

pub to_string-ne-nil : (n : ℕ) → to_string n ≢ []
unfolding to_string digits
to_string-ne-nil n = elim (Bool-cases (n / 10 == 0)) [
  | inl e ↦ rw e (λ p. cc)
  | inr e ↦ rw e (digits-ne-nil n (n / 10) _ (λ p. cc))
]

digit-Lacks : (b : ℕ) (s : Bytes) → ¬ IsDigit b → All IsDigit s → Lacks b s
digit-Lacks b [] h _ = tt
digit-Lacks b (c ∷ s) h (hc, hs) = ((λ p. h (omega arith)), digit-Lacks b s h hs)

-- No separator of the protocols is a digit.
pub to_string-Lacks : (b n : ℕ) → ¬ IsDigit b → Lacks b (to_string n)
to_string-Lacks b n h = digit-Lacks b (to_string n) h (to_string-All n)

scan-to_string : (n : ℕ) → scan 0 (to_string n) ≡ n
unfolding to_string scan
scan-to_string n = scan-digits (suc n) n [] (omega arith)

stoi_digits :
    (s : Bytes) → All IsDigit s → s ≢ [] → scan 0 s ≤ 2147483647 → stoi s ≡ some (pos (scan 0 s))
unfolding stoi
stoi_digits [] h ne b = absurd (ne refl)
stoi_digits (c ∷ s) (hc, hs) ne b = ground arith

-- Every number that an `int` holds is read back from its print.
pub stoi-to_string : (n : ℕ) → n ≤ 2147483647 → stoi (to_string n) ≡ some (pos n)
stoi-to_string n h =
    rw (stoi_digits (to_string n) (to_string-All n) (to_string-ne-nil n) (rw (scan-to_string n) h))
      (rw (scan-to_string n) refl)

-- The numbers of a 32-bit `int`.
abbrev pub IsInt : ℤ → Type 0
IsInt (pos n) = n ≤ 2147483647
IsInt (negsuc n) = n ≤ 2147483647

stoi_minus : (s : Bytes) → stoi (b'-' ∷ s) ≡ magnitude true s
unfolding stoi
stoi_minus s = ground arith

magnitude_negative :
    (s : Bytes) (n : ℕ)
    → All IsDigit s
    → s ≢ []
    → scan 0 s ≡ suc n
    → n ≤ 2147483647
    → magnitude true s ≡ some (negsuc n)
unfolding magnitude
magnitude_negative [] n h ne e b = absurd (ne refl)
magnitude_negative (c ∷ s) n (hc, hs) ne e b =
    let e' : suc n - 1 ≡ n = omega arith in rw e (ground (arith, e'))

-- So is every signed one.
pub stoi-int_to_string : (z : ℤ) → IsInt z → stoi (int_to_string z) ≡ some z
unfolding int_to_string
stoi-int_to_string (pos n) h = stoi-to_string n h
stoi-int_to_string (negsuc n) h =
    stoi_minus (to_string (suc n))
    ∙ magnitude_negative (to_string (suc n)) n (to_string-All (suc n)) (to_string-ne-nil (suc n))
        (scan-to_string (suc n)) h

pub int_to_string-Lacks : (b : ℕ) (z : ℤ) → ¬ IsDigit b → b ≢ b'-' → Lacks b (int_to_string z)
unfolding int_to_string
int_to_string-Lacks b (pos n) h m = to_string-Lacks b n h
int_to_string-Lacks b (negsuc n) h m = (λ e. m (cc), to_string-Lacks b (suc n) h)
