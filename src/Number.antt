-- ===== src/Number.antt =====
-- Python's `int` and `float`, as far as the validators use them.
-- A finite double is a sign and a whole number of units of 2 ^ -1074, which every one of them is.
mod Tests
use Prim.Native.Nat.{min}
use native.Mathlib.Decide.{dec_lt}
use mathlib.Core.Logic.{dite}
use mathlib.Core.WellFounded.{Acc, WellFounded}
use tay.Prelude.{
  ℕ, zero, suc, ◌+◌, ◌-◌, ◌*◌, ◌/◌, ◌%◌, ◌^◌, ◌<◌, Bool, true, false, ◌&&◌, ◌||◌, not, arith, leb,
  ltb, ◌==◌, if◌then◌else◌,
}

-- `negsuc n` is -(n + 1).
pub data ℤ : Type 0 where
  pos : ℕ → ℤ
  negsuc : ℕ → ℤ

-- `lo <= z <= hi`, for bounds that are not negative.
unfoldable pub within : ℕ → ℕ → ℤ → Bool
within lo hi (pos n) = leb lo n && leb n hi
within lo hi (negsuc n) = false

-- The Boolean is the sign, true for a negative number and for -0.0.
pub data Float : Type 0 where
  nan : Float
  inf : Bool → Float
  finite : Bool → ℕ → Float

unfoldable pub unit : ℕ
unit = 2 ^ 1074

-- The number that an int is, in the units of a float and not rounded.
unfoldable pub exact : ℤ → Float
unfolding unit
exact (pos n) = finite false (n * unit)
exact (negsuc n) = finite true (suc n * unit)

unfoldable pub is_finite : Float → Bool
is_finite (finite s n) = true
is_finite _ = false

-- `x < 0` and `x <= 0`
unfoldable pub negative : Float → Bool
negative nan = false
negative (inf s) = s
negative (finite s n) = s && ltb 0 n

unfoldable pub not_positive : Float → Bool
not_positive nan = false
not_positive (inf s) = s
not_positive (finite s n) = s || n == 0

-- `lo <= x <= hi`, for bounds in units that are not negative.
unfoldable pub between : ℕ → ℕ → Float → Bool
between lo hi (finite false n) = leb lo n && leb n hi
between lo hi (finite true n) = lo == 0 && n == 0
between lo hi _ = false

-- `x > bound`, for a bound in units that is not negative.
unfoldable pub exceeds : Float → ℕ → Bool
exceeds nan b = false
exceeds (inf s) b = not s
exceeds (finite s n) b = not s && ltb b n

Acc-below : (k n : ℕ) → n < k → Acc ◌<◌ n
Acc-below zero n h = elim h [ ]
Acc-below (suc k) n h = Acc.intro n (λ m hm. Acc-below k m (omega arith))

-- The number of binary digits.
bit_length_acc : (n : ℕ) → Acc ◌<◌ n → ℕ
bit_length_acc n (Acc.intro _ smaller) =
    dite (dec_lt 0 n) (λ h. suc (bit_length_acc (n / 2) (smaller (n / 2) (omega arith)))) (λ _. 0)

unfoldable pub bit_length : ℕ → ℕ
unfolding bit_length_acc Acc-below dec_lt
bit_length n = bit_length_acc n (Acc-below (suc n) n (omega arith))

-- The nearest multiple of 2 ^ k to a / b, in multiples; a tie goes to the even one.
unfoldable pub nearest : ℕ → ℕ → ℕ
nearest a d =
    let q = a / d in
    let r = a % d in if ltb d (2 * r) || (2 * r == d && q % 2 == 1) then q + 1 else q

-- The double nearest to the quotient a / b of two numbers of units: 53 significant bits, and the
-- infinity from 2 ^ 1024 on.
unfoldable pub rounded : Bool → ℕ → ℕ → Float
unfolding nearest bit_length
rounded s a b =
    let k = bit_length (a / b) - 53 in
    let n = nearest a (b * 2 ^ k) * 2 ^ k in if ltb n (2 ^ 2098) then finite s n else inf s

-- `x * k`, for an int k that is a positive double.
unfoldable pub times : Float → ℕ → Float
unfolding rounded
times nan k = nan
times (inf s) k = inf s
times (finite s n) k = rounded s (n * k) 1

-- `a / b` of two positive ints.
unfoldable pub true_div : ℕ → ℕ → Float
unfolding rounded unit
true_div a b = rounded false (a * unit) b

-- `math.floor(x) + int(x - math.floor(x) >= 0.5)` of a float that is not negative.
unfoldable pub round_half_up : ℕ → ℕ
unfolding unit
round_half_up n = n / unit + (if leb unit (2 * (n % unit)) then 1 else 0)
