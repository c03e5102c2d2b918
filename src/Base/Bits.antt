-- ===== src/Base/Bits.antt =====
-- Python's `&` and `|` on naturals as arithmetic.
use Prim.Native.Nat.{digits, differ, bit_and-bitwise, bit_or-bitwise, bit_xor-bitwise, bit_xor}
use Prim.Native.Nat.{
  ℕ, zero, suc, ◌+◌, ◌-◌, ◌*◌, ◌/◌, ◌%◌, ◌^◌, ◌≤◌, ◌<◌, min, max, bit_and, bit_or,
}
use mathlib.Core.Path.{◌≡◌, ap, ◌∙◌}
use mathlib.Core.Bool.{Bool, true, false}
use mathlib.Core.Logic.{inl, inr}
use elf_dos.Base.Tests.{if◌then◌else◌, Bool-cases, ◌==◌, ==_iff}
use native.Mathlib.Omega.{arith}
use native.Mathlib.Nat.{
  pow-suc, one-le-pow, div-add-mod, mod-lt, mod-eq_of_lt, add-mul-mod_self_right,
}

-- A test that passes at every number below a bound: a table, checked by evaluation.
unfoldable pub passes_below : (ℕ → Bool) → ℕ → Bool
passes_below test zero = true
passes_below test (suc k) = if test k then passes_below test k else false

pub table : (test : ℕ → Bool) (k : ℕ) (x : ℕ) → x < k → passes_below test k ≡ true → test x ≡ true
unfolding passes_below
table test zero x low e = elim low [ ]
table test (suc k) x low e =
    let here : test k ≡ true = ground arith in
    elim (Bool-cases (x == k)) [
      | inl same ↦ rw ((==_iff x k).0 same) here
      | inr other ↦ table test k x (ground arith) (ground arith)
    ]

-- The lowest digit of a remainder by an even number.
mod_double : (q n : ℕ) → 0 < q → n % (2 * q) ≡ n / 2 % q * 2 + n % 2
mod_double q n h =
    let split : n ≡ (n / 2 % q * 2 + n % 2) + n / 2 / q * (2 * q) =
      omega (arith, ap (λ (t : ℕ). 2 * t) (div-add-mod (n / 2) q)) in
    let small : n / 2 % q * 2 + n % 2 < 2 * q = omega (arith, mod-lt (n / 2) h) in
    ap (λ (t : ℕ). t % (2 * q)) split ∙ add-mul-mod_self_right _ _ _ ∙ mod-eq_of_lt small

-- The digit recursion with any fuel that covers `a`, against a mask of `k` ones.
mask_digits : (n k a : ℕ) → a ≤ n → digits (λ b. zero) min n a (2 ^ k - 1) ≡ a % 2 ^ k
mask_digits zero k zero h = omega arith
mask_digits zero k (suc a) h = absurd (omega arith)
mask_digits (suc n) k zero h = omega arith
mask_digits (suc n) zero (suc a) h = omega (arith, mask_digits n zero (suc a / 2) (omega arith))
mask_digits (suc n) (suc k) (suc a) h =
    let q : ℕ = 2 ^ k in
    let p : 2 ^ suc k ≡ 2 * 2 ^ k = omega (arith, pow-suc 2 k) in
    let e : (2 ^ suc k - 1) / 2 ≡ 2 ^ k - 1 = omega (arith, p, one-le-pow k 2) in
    let d : digits (λ b. zero) min n (suc a / 2) ((2 ^ suc k - 1) / 2) ≡ suc a / 2 % 2 ^ k =
      rw e (mask_digits n k (suc a / 2) (omega arith)) in
    let m : suc a % 2 ^ suc k ≡ suc a / 2 % 2 ^ k * 2 + suc a % 2 =
      rw p (mod_double (2 ^ k) (suc a) (one-le-pow k 2 (omega arith))) in
    rw (d, m) (omega (arith, p, one-le-pow k 2))

-- `a & (2 ** k - 1)` is the remainder.
pub bit_and_mask : (k a : ℕ) → bit_and a (2 ^ k - 1) ≡ a % 2 ^ k
bit_and_mask k a = simp bit_and-bitwise (mask_digits a k a (omega arith))

or_digits : (n k x y : ℕ) → x ≤ n → x < 2 ^ k → digits (λ b. b) max n x (y * 2 ^ k) ≡ x + y * 2 ^ k
or_digits zero k zero y h lt = omega arith
or_digits zero k (suc x) y h lt = absurd (omega arith)
or_digits (suc n) k zero y h lt = omega arith
or_digits (suc n) zero (suc x) y h lt = absurd (omega arith)
or_digits (suc n) (suc k) (suc x) y h lt =
    let p : y * 2 ^ suc k ≡ 2 * (y * 2 ^ k) = omega (arith, ap (λ (t : ℕ). y * t) (pow-suc 2 k)) in
    let e : y * 2 ^ suc k / 2 ≡ y * 2 ^ k = omega (arith, p) in
    let d : digits (λ b. b) max n (suc x / 2) (y * 2 ^ suc k / 2) ≡ suc x / 2 + y * 2 ^ k =
      rw e (or_digits n k (suc x / 2) y (omega arith) (omega (arith, pow-suc 2 k))) in
    omega (arith, d, p)

-- `x | (y << k)` is a sum where `x` has at most `k` bits.
pub bit_or_shifted : (k x y : ℕ) → x < 2 ^ k → bit_or x (y * 2 ^ k) ≡ x + y * 2 ^ k
bit_or_shifted k x y h = simp bit_or-bitwise (or_digits x k x y (omega arith) h)

-- An operation on digits that gives digits keeps numbers of `k` digits.
digits-lt :
    (z : ℕ → ℕ) (f : ℕ → ℕ → ℕ)
    → ((b m : ℕ) → b < m → z b < m)
    → ((x y : ℕ) → x < 2 → y < 2 → f x y < 2)
    → (n k a b : ℕ) → a < 2 ^ k
    → b < 2 ^ k
    → digits z f n a b < 2 ^ k
digits-lt z f zb fb zero k a b x y = zb b (2 ^ k) y
digits-lt z f zb fb (suc n) k zero b x y = zb b (2 ^ k) y
digits-lt z f zb fb (suc n) zero (suc a) b x y = absurd (omega arith)
digits-lt z f zb fb (suc n) (suc k) (suc a) b x y =
    let p : 2 ^ suc k ≡ 2 * 2 ^ k = omega (arith, pow-suc 2 k) in
    let high =
      digits-lt z f zb fb n k (suc a / 2) (b / 2) (omega (arith, x, p)) (omega (arith, y, p)) in
    let low = fb (suc a % 2) (b % 2) (omega arith) (omega arith) in omega (arith, p, high, low)

differ-lt : (x y : ℕ) → x < 2 → y < 2 → differ x y < 2
differ-lt zero y h k = k
differ-lt (suc x) zero h k = h
differ-lt (suc x) (suc y) h k = differ-lt x y (omega arith) (omega arith)

-- The second number bounds a conjunction.
digits-min-lt : (n k a b : ℕ) → b < 2 ^ k → digits (λ b. zero) min n a b < 2 ^ k
digits-min-lt zero k a b y = omega (arith, y)
digits-min-lt (suc n) k zero b y = omega (arith, y)
digits-min-lt (suc n) zero (suc a) b y =
    omega (arith, digits-min-lt n zero (suc a / 2) (b / 2) (omega arith))
digits-min-lt (suc n) (suc k) (suc a) b y =
    let p : 2 ^ suc k ≡ 2 * 2 ^ k = omega (arith, pow-suc 2 k) in
    omega (arith, p, digits-min-lt n k (suc a / 2) (b / 2) (omega (arith, y, p)))

pub bit_and-lt : (k a b : ℕ) → b < 2 ^ k → bit_and a b < 2 ^ k
bit_and-lt k a b y = simp bit_and-bitwise (digits-min-lt a k a b y)

pub bit_or-lt : (k a b : ℕ) → a < 2 ^ k → b < 2 ^ k → bit_or a b < 2 ^ k
bit_or-lt k a b x y =
    simp bit_or-bitwise (digits-lt (λ b. b) max (λ b m h. h) (λ x y h l. omega arith) a k a b x y)

pub bit_xor-lt : (k a b : ℕ) → a < 2 ^ k → b < 2 ^ k → bit_xor a b < 2 ^ k
bit_xor-lt k a b x y =
    simp bit_xor-bitwise (digits-lt (λ b. b) differ (λ b m h. h) differ-lt a k a b x y)
