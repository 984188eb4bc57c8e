-- ===== src/Prelude/Decimal.antt =====
-- Numbers in decimal: Go's `%d` and strconv.ParseInt(s, 10, 64).
use Prim.Native.Nat.{ℕ, zero, suc, ◌+◌, ◌-◌, ◌*◌, ◌/◌, ◌%◌, ◌<◌}
use mathlib.Core.Path.{◌≡◌, refl, ◌∙◌, ap}
use mathlib.Core.Logic.{inl, inr, ◌≢◌}
use mathlib.Core.Bool.{Bool, true, false, ◌&&◌}
use mathlib.Core.Option.{Option, none, some}
use mathlib.Core.List.{[], ◌∷◌, ◌++◌}
use native.Mathlib.Omega.{arith}
use spike_broker.Prelude.Tests.{ltb, leb, ◌==◌, if◌then◌else◌, Bool-cases}
use spike_broker.Prelude.Texts.{Text}

-- An `int64`, or a time.Duration in nanoseconds. `negsuc n` is -(n + 1).
pub data ℤ : Type 0 where
  pos : ℕ → ℤ
  negsuc : ℕ → ℤ

digits_fuel : ℕ → ℕ → Text
digits_fuel zero n = []
digits_fuel (suc f) n =
    let rest = digits_fuel f (n / 10) in
    if ltb n 10 then (48 + n) ∷ [] else rest ++ ((48 + n % 10) ∷ [])

-- `%d` of a number that is not negative.
unfoldable pub digits : ℕ → Text
unfolding digits_fuel
digits n = digits_fuel (suc n) n

abbrev pub is_digit : ℕ → Bool
is_digit c = leb 48 c && leb c 57

unfoldable pub parse_digits : ℕ → Text → Option ℕ
parse_digits acc [] = some acc
parse_digits acc (c ∷ s) = if is_digit c then parse_digits (acc * 10 + (c - 48)) s else none

-- Digits, at least one, that stand for a number below the bound.
unfoldable pub parse_below : ℕ → Text → Option ℕ
parse_below bound [] = none
parse_below bound (c ∷ s) = elim (parse_digits 0 (c ∷ s)) [
  | none ↦ none
  | some n ↦ if ltb n bound then some n else none
]

abbrev negated : ℕ → ℤ
negated zero = pos 0
negated (suc n) = negsuc n

abbrev map_option : (ℕ → ℤ) → Option ℕ → Option ℤ
map_option f none = none
map_option f (some n) = some (f n)

abbrev pub int64_bound : ℕ
int64_bound = 9223372036854775808

unfoldable pub parse_int : Text → Option ℤ
parse_int [] = none
parse_int (c ∷ s) =
    if c == b'-'
    then map_option negated (parse_below (int64_bound + 1) s)
    else if c == b'+'
    then map_option pos (parse_below int64_bound s)
    else map_option pos (parse_below int64_bound (c ∷ s))

parse_digits-append :
    (acc m d : ℕ) (s : Text)
    → parse_digits acc s ≡ some m
    → d < 10
    → parse_digits acc (s ++ ((48 + d) ∷ [])) ≡ some (m * 10 + d)
unfolding parse_digits
parse_digits-append acc m d [] h k = ground arith
parse_digits-append acc m d (c ∷ s) h k =
    ground (arith, parse_digits-append (acc * 10 + (c - 48)) m d s)

parse-digits_fuel : (f n : ℕ) → n < f → parse_digits 0 (digits_fuel f n) ≡ some n
unfolding digits_fuel
parse-digits_fuel zero n h = elim h [ ]
parse-digits_fuel (suc f) n h = elim (Bool-cases (ltb n 10)) [
  | inl small ↦ rw small (unfold parse_digits in ground arith)
  | inr large ↦ rw large (
      parse_digits-append 0 (n / 10) (n % 10) (digits_fuel f (n / 10))
        (parse-digits_fuel f (n / 10) (ground (arith, large))) (omega arith)
      ∙ ap some (omega arith))
]

-- The text of digits alone.
abbrev pub IsDecimal : Text → Type 0
IsDecimal [] = Unit
IsDecimal (c ∷ s) = (is_digit c ≡ true) × IsDecimal s

IsDecimal-append : (s : Text) (d : ℕ) → IsDecimal s → d < 10 → IsDecimal (s ++ ((48 + d) ∷ []))
IsDecimal-append [] d h k = (ground arith, tt)
IsDecimal-append (c ∷ s) d h k = (h.0, IsDecimal-append s d h.1 k)

digits_fuel-IsDecimal : (f n : ℕ) → IsDecimal (digits_fuel f n)
unfolding digits_fuel
digits_fuel-IsDecimal zero n = tt
digits_fuel-IsDecimal (suc f) n = elim (Bool-cases (ltb n 10)) [
  | inl small ↦ rw small (ground (arith, small), tt)
  | inr large ↦ rw large (
      IsDecimal-append (digits_fuel f (n / 10)) (n % 10) (digits_fuel-IsDecimal f (n / 10))
        (omega arith))
]

pub digits-IsDecimal : (n : ℕ) → IsDecimal (digits n)
unfolding digits
digits-IsDecimal n = digits_fuel-IsDecimal (suc n) n

parse_digits-digits : (n : ℕ) → parse_digits 0 (digits n) ≡ some n
unfolding digits
parse_digits-digits n = parse-digits_fuel (suc n) n (omega arith)

parse_int-decimal :
    (s : Text) (n : ℕ)
    → IsDecimal s
    → n < int64_bound
    → parse_digits 0 s ≡ some n
    → s ≢ []
    → parse_int s ≡ some (pos n)
unfolding parse_int parse_below
parse_int-decimal [] n d b h ne = absurd (ne refl)
parse_int-decimal (c ∷ s) n d b h ne =
    let no_minus : (c == b'-') ≡ false = ground (arith, d.0) in
    let no_plus : (c == b'+') ≡ false = ground (arith, d.0) in
    ground (arith, no_minus, no_plus, h, b)

append-ne-nil : (s : Text) (d : ℕ) → s ++ (d ∷ []) ≢ []
append-ne-nil [] d = λ e. cc
append-ne-nil (c ∷ s) d = λ e. cc

pub digits-ne-nil : (n : ℕ) → digits n ≢ []
unfolding digits
digits-ne-nil n = elim (Bool-cases (ltb n 10)) [
  | inl small ↦ rw small (λ e. cc)
  | inr large ↦ rw large (append-ne-nil (digits_fuel n (n / 10)) (48 + n % 10))
]

-- What `%d` prints is read back, below 2⁶³.
pub parse_int-digits : (n : ℕ) → n < int64_bound → parse_int (digits n) ≡ some (pos n)
parse_int-digits n h =
    parse_int-decimal (digits n) n (digits-IsDecimal n) h (parse_digits-digits n) (digits-ne-nil n)
