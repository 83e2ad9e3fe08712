-- ===== src/Common/Decimal.antt =====
-- Printing a number and parsing it again: `Display` and `str::parse` agree.
use Prim.Native.Nat.{ℕ, zero, suc, ◌+◌, ◌-◌, ◌*◌, ◌/◌, ◌%◌, ◌^◌, ◌≤◌, ◌<◌}
use mathlib.Core.Path.{◌≡◌, refl, ap, ◌∙◌}
use mathlib.Core.Logic.{inl, inr}
use mathlib.Core.Bool.{false}
use mathlib.Core.Option.{some}
use mathlib.Core.List.{[], ◌∷◌}
use native.Mathlib.Nat.{pow-succ'}
use native.Mathlib.Omega.{arith}
use place_net_hamlet.Common.Tests.{◌==◌, ==_iff, Bool-cases}
use place_net_hamlet.Common.Texts.{
  Text, is_empty, is_digit, parse_digits, parse_uint, show_digits, show_uint,
}

-- A digit of a number is read as that digit.
parse_digits-digit :
    (top acc d : ℕ) (s : Text)
    → d < 10
    → acc * 10 + d ≤ top
    → parse_digits top acc ((b'0' + d) ∷ s) ≡ parse_digits top (acc * 10 + d) s
unfolding parse_digits is_digit
parse_digits-digit top acc d s h k =
    let e : acc * 10 + ((b'0' + d) - b'0') ≡ acc * 10 + d = omega arith in rw e (ground arith)

shorter : (fuel n : ℕ) → n < 10 ^ suc fuel → n / 10 < 10 ^ fuel
shorter fuel n h = let e : 10 ^ suc fuel ≡ 10 * 10 ^ fuel = pow-succ' 10 fuel in omega arith

parse_digits-show_digits :
    (top fuel n : ℕ) (t : Text)
    → n < 10 ^ fuel
    → n ≤ top
    → parse_digits top 0 (show_digits fuel n t) ≡ parse_digits top n t
unfolding show_digits
parse_digits-show_digits top zero n t h k = ap (λ m. parse_digits top m t) (omega arith)
parse_digits-show_digits top (suc fuel) n t h k = elim (Bool-cases (n / 10 == 0)) [
  | inl e ↦
      rw (e, show_digits)
        (let small : n / 10 ≡ 0 = (==_iff (n / 10) 0).0 e in
          parse_digits-digit top 0 (n % 10) t (omega arith) (omega arith)
          ∙ ap (λ m. parse_digits top m t) (omega arith))
  | inr e ↦
      rw (e, show_digits)
        (parse_digits-show_digits top fuel (n / 10) ((b'0' + n % 10) ∷ t) (shorter fuel n h)
            (omega arith)
          ∙ parse_digits-digit top (n / 10) (n % 10) t (omega arith) (omega arith)
          ∙ ap (λ m. parse_digits top m t) (omega arith))
]

show_digits-nonempty : (fuel n c : ℕ) (t : Text) → is_empty (show_digits fuel n (c ∷ t)) ≡ false
unfolding show_digits
show_digits-nonempty zero n c t = refl
show_digits-nonempty (suc fuel) n c t = elim (Bool-cases (n / 10 == 0)) [
  | inl e ↦ rw e
  | inr e ↦ rw e (show_digits-nonempty fuel (n / 10) (b'0' + n % 10) (c ∷ t))
]

-- Digits have no sign.
parse_uint-parse_digits :
    (top n : ℕ) (s : Text)
    → is_empty s ≡ false
    → parse_digits top 0 s ≡ some n
    → parse_uint top s ≡ some n
unfolding parse_uint parse_digits is_digit
parse_uint-parse_digits top n [] h k = cc
parse_uint-parse_digits top n (c ∷ s) h k = ground arith

show_digits_some : (fuel n : ℕ) → is_empty (show_digits (suc fuel) n []) ≡ false
unfolding show_digits
show_digits_some fuel n = elim (Bool-cases (n / 10 == 0)) [
  | inl e ↦ rw e
  | inr e ↦ rw e (show_digits-nonempty fuel (n / 10) (b'0' + n % 10) [])
]

-- A number that fits its type is parsed from its decimal digits.
pub parse_uint-show_uint :
    (top n : ℕ) → n ≤ top → n < 10 ^ 20 → parse_uint top (show_uint n) ≡ some n
unfolding show_uint parse_digits
parse_uint-show_uint top n h k =
    parse_uint-parse_digits top n (show_digits 20 n []) (show_digits_some 19 n)
      (parse_digits-show_digits top 20 n [] k h)
