-- ===== src/Prelude/Text/Numerals.antt =====
-- `int(text)` for a text of decimal digits, and its round trip with `str(n)`.
use Prim.Native.Nat.{ℕ, zero, suc, ◌+◌, ◌-◌, ◌*◌, ◌/◌, ◌%◌, ◌≤◌, ◌<◌}
use Prim.Native.Char.{Char, code}
use Prim.Native.String.{String}
use mathlib.Core.Path.{◌≡◌, refl, ap, ◌∙◌}
use mathlib.Core.Bool.{◌&&◌}
use mathlib.Core.Option.{Option, none, some}
use mathlib.Core.Logic.{inl, inr}
use native.Mathlib.Omega.{arith}
use text.Mathlib.TextLemmas.{cons-append, nil-append}
use auditable_scientific_age.Prelude.Tests.{leb, ltb, if◌then◌else◌, Bool-cases}
use auditable_scientific_age.Prelude.Text.{◌<>◌, str, digit, digits_before}

-- The number behind the digits read so far.
unfoldable pub read_digits : ℕ → String → Option ℕ
read_digits n String.[] = some n
read_digits n (String.◌∷◌ c s) =
    if leb 48 (code c) && leb (code c) 57 then read_digits (n * 10 + (code c - 48)) s else none

unfoldable pub read_number : String → Option ℕ
unfolding read_digits
read_number String.[] = none
read_number (String.◌∷◌ c s) = read_digits 0 (String.◌∷◌ c s)

read_one :
    (c : Char) (d n : ℕ) (s : String)
    → code c ≡ 48 + d
    → d < 10
    → read_digits n (String.◌∷◌ c "" <> s) ≡ read_digits (n * 10 + d) s
unfolding read_digits
read_one c d n s e h = rw (cons-append c "" s) (rw (nil-append s) (ground arith))

read_digits-digit :
    (d n : ℕ) (s : String) → d < 10 → read_digits n (digit d <> s) ≡ read_digits (n * 10 + d) s
unfolding digit
read_digits-digit zero n s h = read_one "0" 0 n s refl (omega arith)
read_digits-digit (suc zero) n s h = read_one "1" 1 n s refl (omega arith)
read_digits-digit (suc (suc zero)) n s h = read_one "2" 2 n s refl (omega arith)
read_digits-digit (suc (suc (suc zero))) n s h = read_one "3" 3 n s refl (omega arith)
read_digits-digit (suc (suc (suc (suc zero)))) n s h = read_one "4" 4 n s refl (omega arith)
read_digits-digit (suc (suc (suc (suc (suc zero))))) n s h = read_one "5" 5 n s refl (omega arith)
read_digits-digit (suc (suc (suc (suc (suc (suc zero)))))) n s h =
    read_one "6" 6 n s refl (omega arith)
read_digits-digit (suc (suc (suc (suc (suc (suc (suc zero))))))) n s h =
    read_one "7" 7 n s refl (omega arith)
read_digits-digit (suc (suc (suc (suc (suc (suc (suc (suc zero)))))))) n s h =
    read_one "8" 8 n s refl (omega arith)
read_digits-digit (suc (suc (suc (suc (suc (suc (suc (suc (suc zero))))))))) n s h =
    read_one "9" 9 n s refl (omega arith)
read_digits-digit (suc (suc (suc (suc (suc (suc (suc (suc (suc (suc d)))))))))) n s h =
    absurd (omega arith)

-- The digits before a rest are read as the number.
read_digits-digits_before :
    (fuel n : ℕ) (rest : String)
    → n ≤ fuel
    → read_digits 0 (digits_before fuel n rest) ≡ read_digits n rest
unfolding digits_before
read_digits-digits_before zero n rest h =
    read_digits-digit (n % 10) 0 rest (omega arith) ∙ ap (λ k. read_digits k rest) (omega arith)
read_digits-digits_before (suc fuel) n rest h = elim (Bool-cases (ltb n 10)) [
  | inl e ↦
      rw e (read_digits-digit n 0 rest (ground arith) ∙ ap (λ k. read_digits k rest) (omega arith))
  | inr e ↦ rw e (
      read_digits-digits_before fuel (n / 10) (digit (n % 10) <> rest) (ground arith)
      ∙ read_digits-digit (n % 10) (n / 10) rest (omega arith)
      ∙ ap (λ k. read_digits k rest) (omega arith))
]

read_number-read_digits :
    (s : String) (n : ℕ) → 0 < n → read_digits 0 s ≡ some n → read_number s ≡ some n
unfolding read_number read_digits
read_number-read_digits String.[] n p h = ground (arith, h)
read_number-read_digits (String.◌∷◌ c s) n p h = h

-- Every number is read back from its decimal text.
pub read_number-str : (n : ℕ) → read_number (str n) ≡ some n
unfolding str read_number read_digits
read_number-str zero = refl
read_number-str (suc n) =
    read_number-read_digits (digits_before (suc n) (suc n) "") (suc n) (omega arith)
      (read_digits-digits_before (suc n) (suc n) "" (omega arith))
