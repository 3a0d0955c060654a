-- ===== src/Prelude/Text/Numerals.antt =====
-- A number in decimal digits is read back, so that different numbers have different digits.
use Prim.Native.Nat.{ℕ, zero, suc, ◌+◌, ◌-◌, ◌*◌, ◌/◌, ◌%◌, ◌<◌, ◌≤◌}
use Prim.Native.String.{String}
use Prim.Native.Char.{Char, code}
use mathlib.Core.Path.{◌≡◌, refl, ap, ◌∙◌, sym}
use mathlib.Core.Logic.{inl, inr}
use native.Mathlib.Omega.{arith}
use text.Mathlib.TextLemmas.{nil-append, cons-append}
use kagents.Prelude.Tests.{Bool-cases, ltb}
use kagents.Prelude.Text.{◌<>◌, digit_names, nth, show_digits, show_nat}

-- The value of digits after the value `v`.
read : ℕ → String → ℕ
read v String.[] = v
read v (String.◌∷◌ c s) = read (v * 10 + (code c - 48)) s

one_digit :
    (c : Char) (v : ℕ) (rest : String)
    → read v (String.◌∷◌ c "" <> rest) ≡ read (v * 10 + (code c - 48)) rest
unfolding read ◌<>◌
one_digit c v rest = rw (cons-append c "" rest, nil-append rest) refl

digit :
    (d v : ℕ) (rest : String) → d < 10 → read v (nth digit_names d <> rest) ≡ read (v * 10 + d) rest
unfolding nth digit_names
digit zero v rest h = one_digit "0" v rest
digit (suc zero) v rest h = one_digit "1" v rest
digit (suc (suc zero)) v rest h = one_digit "2" v rest
digit (suc (suc (suc zero))) v rest h = one_digit "3" v rest
digit (suc (suc (suc (suc zero)))) v rest h = one_digit "4" v rest
digit (suc (suc (suc (suc (suc zero))))) v rest h = one_digit "5" v rest
digit (suc (suc (suc (suc (suc (suc zero)))))) v rest h = one_digit "6" v rest
digit (suc (suc (suc (suc (suc (suc (suc zero))))))) v rest h = one_digit "7" v rest
digit (suc (suc (suc (suc (suc (suc (suc (suc zero)))))))) v rest h = one_digit "8" v rest
digit (suc (suc (suc (suc (suc (suc (suc (suc (suc zero))))))))) v rest h = one_digit "9" v rest
digit (suc (suc (suc (suc (suc (suc (suc (suc (suc (suc n)))))))))) v rest h = absurd (omega arith)

read-show_digits :
    (fuel n : ℕ) (rest : String) → n < fuel → read 0 (show_digits fuel n rest) ≡ read n rest
unfolding show_digits
read-show_digits zero n rest h = absurd (omega arith)
read-show_digits (suc fuel) n rest h = elim (Bool-cases (ltb n 10)) [
  | inl small ↦
      let below : n < 10 = ground arith in
      let same : n % 10 ≡ n = omega arith in
      let plain : 0 * 10 + n ≡ n = omega arith in
      rw (small, same) (digit n 0 rest below ∙ ap (λ k. read k rest) plain)
  | inr large ↦
      let at_least : 10 ≤ n = ground arith in
      let whole : n / 10 * 10 + n % 10 ≡ n = omega arith in
      rw large (
        read-show_digits fuel (n / 10) _ (omega arith)
        ∙ digit (n % 10) (n / 10) rest (omega arith)
        ∙ ap (λ k. read k rest) whole)
]

read-show_nat : (n : ℕ) → read 0 (show_nat n) ≡ n
unfolding show_nat read
read-show_nat n = read-show_digits (suc n) n "" (omega arith)

pub show_nat_inj : (m n : ℕ) → show_nat m ≡ show_nat n → m ≡ n
show_nat_inj m n h = sym (read-show_nat m) ∙ ap (λ s. read 0 s) h ∙ read-show_nat n
