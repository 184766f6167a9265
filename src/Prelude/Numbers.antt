-- ===== src/Prelude/Numbers.antt =====
-- Products and spans of native numbers.
use Prim.Native.Nat.{ℕ, ◌+◌, ◌-◌, ◌*◌, ◌/◌, ◌≤◌, ◌<◌}
use mathlib.Core.Path.{◌≡◌}
use native.Mathlib.Omega.{arith}

pub le-mul : (b u : ℕ) → 0 < b → u ≤ b * u
le-mul b u h = grind arith

pub sub_self-mul : (t r : ℕ) → (t - t) * r ≡ 0
sub_self-mul t r = let e : t - t ≡ 0 = omega arith in rw e (omega arith)

-- A span of time is the sum of its parts, also at a rate.
pub split_span : (a s t r : ℕ) → a ≤ s → s ≤ t → (t - a) * r ≡ (s - a) * r + (t - s) * r
split_span a s t r h k = let e : t - a ≡ (s - a) + (t - s) = omega arith in rw e (grind arith)

pub div_sub_self : (x u : ℕ) → 0 < u → u ≤ x → (x - u) / u + 1 ≡ x / u
div_sub_self x u h k = grind arith

pub mul-div_self : (b u : ℕ) → 0 < u → b * u / u ≡ b
mul-div_self b u h = grind arith

pub lt-div : (x u : ℕ) → 0 < u → x < u → x / u ≡ 0
lt-div x u h k = grind arith

pub le-div : (x u : ℕ) → 0 < u → u ≤ x → 1 ≤ x / u
le-div x u h k = grind arith
