-- ===== src/Common/Fields.antt =====
-- `|` of two numbers whose binary digits do not meet: the address and the flags of a table entry.
use Prim.Native.Nat.{
  ℕ, zero, suc, ◌+◌, ◌*◌, ◌/◌, ◌%◌, ◌^◌, ◌<◌, ◌≤◌, max, digits, bit_or, bit_or-bitwise,
}
use mathlib.Core.Path.{◌≡◌, refl, ap}
use native.Mathlib.Omega.{arith}

abbrev join : ℕ → ℕ → ℕ → ℕ
join left a b = digits (λ y. y) max left a b

-- With as many rounds as the first number, or more, the result is the same.
join-enough : (bound a rounds b : ℕ) → a ≤ bound → a ≤ rounds → join rounds a b ≡ join a a b
join-enough bound zero zero b small h = refl
join-enough bound zero (suc rounds) b small h = refl
join-enough zero (suc a) rounds b small h = absurd (omega arith)
join-enough (suc bound) (suc a) zero b small h = absurd (omega arith)
join-enough (suc bound) (suc a) (suc rounds) b small h =
    let half = suc a / 2 in
    omega (
      arith,
      join-enough bound half rounds (b / 2) (omega arith) (omega arith),
      join-enough bound half a (b / 2) (omega arith) (omega arith),
    )

bit_or-zero_left : (b : ℕ) → bit_or 0 b ≡ b
bit_or-zero_left b = bit_or-bitwise 0 b

-- The last digit and the others.
halves : (a b : ℕ) → bit_or a b ≡ bit_or (a / 2) (b / 2) * 2 + max (a % 2) (b % 2)
halves zero b = omega (arith, bit_or-zero_left b, bit_or-zero_left (b / 2))
halves (suc a) b = omega (
  arith,
  bit_or-bitwise (suc a) b,
  bit_or-bitwise (suc a / 2) (b / 2),
  join-enough a (suc a / 2) a (b / 2) (omega arith) (omega arith),
)

bit_or-zero_right : (bound a : ℕ) → a ≤ bound → bit_or a 0 ≡ a
bit_or-zero_right bound zero h = refl
bit_or-zero_right zero (suc a) h = absurd (omega arith)
bit_or-zero_right (suc bound) (suc a) h =
    omega (arith, halves (suc a) 0, bit_or-zero_right bound (suc a / 2) (omega arith))

double : (q p : ℕ) → q * (p * 2) ≡ q * p * 2
double q p = omega arith

-- An address with its last `width` bits clear, and flags of `width` bits.
pub bit_or-field :
    (width q flags : ℕ) → flags < 2 ^ width → bit_or (q * 2 ^ width) flags ≡ q * 2 ^ width + flags
bit_or-field zero q flags h =
    let e : flags ≡ 0 = omega arith in
    omega
      (arith, ap (bit_or (q * 2 ^ 0)) e, bit_or-zero_right (q * 2 ^ 0) (q * 2 ^ 0) (omega arith))
bit_or-field (suc width) q flags h =
    let p : 2 ^ suc width ≡ 2 ^ width * 2 = omega arith in
    let d : q * 2 ^ suc width ≡ q * 2 ^ width * 2 =
      omega (arith, ap (λ x. q * x) p, double q (2 ^ width)) in
    let e : q * 2 ^ suc width / 2 ≡ q * 2 ^ width = omega arith in
    omega (
      arith,
      halves (q * 2 ^ suc width) flags,
      ap (λ a. bit_or a (flags / 2)) e,
      bit_or-field width q (flags / 2) (omega arith),
    )

comm_below : (bound a b : ℕ) → a ≤ bound → bit_or a b ≡ bit_or b a
comm_below bound zero b h = omega (arith, bit_or-zero_left b, bit_or-zero_right b b (omega arith))
comm_below zero (suc a) b h = absurd (omega arith)
comm_below (suc bound) (suc a) b h =
    omega (
      arith,
      halves (suc a) b,
      halves b (suc a),
      comm_below bound (suc a / 2) (b / 2) (omega arith),
    )

pub bit_or_comm : (a b : ℕ) → bit_or a b ≡ bit_or b a
bit_or_comm a b = comm_below a a b (omega arith)
