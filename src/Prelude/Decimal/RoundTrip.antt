-- ===== src/Prelude/Decimal/RoundTrip.antt =====
-- A number is read back from its print, and a colon behind a number is where its text is split.
use Prim.Native.Nat.{ℕ, zero, suc, ◌+◌, ◌/◌, ◌%◌, ◌≤◌, ◌<◌}
use Prim.Native.Char.{code}
use Prim.Native.String.{String}
use mathlib.Core.Path.{◌≡◌, refl, ◌∙◌, ap}
use mathlib.Core.Bool.{Bool, true, false}
use mathlib.Core.Option.{none, some}
use native.Mathlib.Omega.{arith}
use mathlib.Core.Logic.{inl, inr}
use weather_agent.Prelude.Tests.{◌==◌, ==_iff, Bool-cases}
use weather_agent.Prelude.Text.{strip, lstrip, rstrip}
use weather_agent.Prelude.Decimal.{
  ℤ, pos, negsuc, digit, digits, show_nat, show_int, scan, as_pos, signed, parse_int, with_head,
  split_colon,
}

code-digit : (d : ℕ) → d < 10 → code (digit d) ≡ b'0' + d
unfolding digit
code-digit zero h = refl
code-digit (suc zero) h = refl
code-digit (suc (suc zero)) h = refl
code-digit (suc (suc (suc zero))) h = refl
code-digit (suc (suc (suc (suc zero)))) h = refl
code-digit (suc (suc (suc (suc (suc zero))))) h = refl
code-digit (suc (suc (suc (suc (suc (suc zero)))))) h = refl
code-digit (suc (suc (suc (suc (suc (suc (suc zero))))))) h = refl
code-digit (suc (suc (suc (suc (suc (suc (suc (suc zero)))))))) h = refl
code-digit (suc (suc (suc (suc (suc (suc (suc (suc (suc zero))))))))) h = refl
code-digit (suc (suc (suc (suc (suc (suc (suc (suc (suc (suc d)))))))))) h = absurd (omega arith)

-- What every digit in front of a text keeps, the digits of a number keep.
digits_keep :
    (P : String → Type 0)
    → ((d : ℕ) (s : String) → d < 10 → P s → P (String.◌∷◌ (digit d) s))
    → (fuel n : ℕ) (s : String) → P s
    → P (digits fuel n s)
unfolding digits
digits_keep P keep zero n s h = h
digits_keep P keep (suc fuel) n s h = ground (
  arith,
  digits_keep P keep fuel (n / 10) (String.◌∷◌ (digit (n % 10)) s)
      (keep (n % 10) s (omega arith) h),
)

show_nat_keep :
    (P : String → Type 0)
    → ((d : ℕ) (s : String) → d < 10 → P s → P (String.◌∷◌ (digit d) s))
    → (n : ℕ) (s : String) → P s
    → P (show_nat n s)
unfolding show_nat digit
show_nat_keep P keep zero s h = keep 0 s (omega arith) h
show_nat_keep P keep (suc n) s h = digits_keep P keep (suc n) (suc n) s h

-- No digit is a space.
lstrip-digit :
    (d : ℕ) (s : String) → d < 10 → lstrip (String.◌∷◌ (digit d) s) ≡ String.◌∷◌ (digit d) s
unfolding lstrip
lstrip-digit d s h = ground (arith, code-digit d h)

rstrip-digit :
    (d : ℕ) (s : String)
    → d < 10
    → rstrip s ≡ s
    → rstrip (String.◌∷◌ (digit d) s) ≡ String.◌∷◌ (digit d) s
unfolding rstrip
rstrip-digit d s h e = ground (arith, code-digit d h)

lstrip-show_nat : (n : ℕ) → lstrip (show_nat n "") ≡ show_nat n ""
lstrip-show_nat n =
    show_nat_keep (λ s. lstrip s ≡ s) (λ d s h _. lstrip-digit d s h) n "" (unfold lstrip in refl)

rstrip-show_nat : (n : ℕ) → rstrip (show_nat n "") ≡ show_nat n ""
rstrip-show_nat n = show_nat_keep (λ s. rstrip s ≡ s) rstrip-digit n "" (unfold rstrip in refl)

-- The last digit behind the others.
scan-digit :
    (b : Bool) (n : ℕ) (s : String)
    → scan b (String.◌∷◌ (digit (n % 10)) s) (n / 10) ≡ scan true s n
scan-digit b n s = ground (arith, code-digit (n % 10))

digits_zero : (fuel : ℕ) (s : String) → digits fuel 0 s ≡ s
unfolding digits
digits_zero zero s = refl
digits_zero (suc fuel) s = ground arith

scan-digits :
    (b : Bool) (fuel n : ℕ) (s : String)
    → 0 < n
    → n ≤ fuel
    → scan b (digits fuel n s) 0 ≡ scan true s n
unfolding digits
scan-digits b zero n s p h = absurd (omega arith)
scan-digits b (suc fuel) n s p h = elim (Bool-cases (n / 10 == 0)) [
  | inl e ↦
      ground (
        arith,
        ==_iff (n / 10) 0,
        digits_zero fuel (String.◌∷◌ (digit (n % 10)) s),
        scan-digit b n s,
      )
  | inr e ↦
      ground
        (arith, scan-digits b fuel (n / 10) (String.◌∷◌ (digit (n % 10)) s), scan-digit true n s)
]

scan-show_nat : (b : Bool) (n : ℕ) → scan b (show_nat n "") 0 ≡ some n
unfolding show_nat
scan-show_nat b zero = refl
scan-show_nat b (suc n) = scan-digits b (suc n) (suc n) "" (omega arith) (omega arith)

signed-show_nat : (n : ℕ) → signed (show_nat n "") ≡ as_pos (scan false (show_nat n "") 0)
signed-show_nat n =
    show_nat_keep (λ s. signed s ≡ as_pos (scan false s 0))
      (λ d s h _. ground (arith, code-digit d h)) n "" refl

strip-show_nat : (n : ℕ) → strip (show_nat n "") ≡ show_nat n ""
unfolding strip
strip-show_nat n = rw (lstrip-show_nat n) (rstrip-show_nat n)

strip-minus : (n : ℕ) → strip (String.◌∷◌ "-" (show_nat n "")) ≡ String.◌∷◌ "-" (show_nat n "")
unfolding strip lstrip rstrip
strip-minus n = ground (arith, rstrip-show_nat n)

-- `int(str(n))` is `n`.
pub parse_int-show_int : (n : ℤ) → parse_int (show_int n "") ≡ some n
unfolding parse_int show_int
parse_int-show_int (pos n) = rw (strip-show_nat n, signed-show_nat n, scan-show_nat false n) refl
parse_int-show_int (negsuc n) =
    rw (strip-minus (suc n)) (ground (arith, scan-show_nat false (suc n)))

split_colon-digit :
    (d : ℕ) (s : String)
    → d < 10
    → split_colon (String.◌∷◌ (digit d) s) ≡ with_head (digit d) (split_colon s)
unfolding split_colon
split_colon-digit d s h = ground (arith, code-digit d h)

split_colon-digits :
    (fuel n : ℕ) (s a b : String)
    → split_colon s ≡ some (a, b)
    → split_colon (digits fuel n s) ≡ some (digits fuel n a, b)
unfolding digits
split_colon-digits zero n s a b h = h
split_colon-digits (suc fuel) n s a b h = ground (
  arith,
  split_colon-digit (n % 10) s (omega arith),
  split_colon-digits fuel (n / 10) (String.◌∷◌ (digit (n % 10)) s) (String.◌∷◌ (digit (n % 10)) a)
      b,
)

split_colon-show_nat :
    (n : ℕ) (s a b : String)
    → split_colon s ≡ some (a, b)
    → split_colon (show_nat n s) ≡ some (show_nat n a, b)
unfolding show_nat digit
split_colon-show_nat zero s a b h = ground (arith, split_colon-digit 0 s (omega arith))
split_colon-show_nat (suc n) s a b h = split_colon-digits (suc n) (suc n) s a b h

-- The text before the first colon, where a number stands in front.
split_colon-show_int_lem :
    (n : ℤ) (s a b : String)
    → split_colon s ≡ some (a, b)
    → split_colon (show_int n s) ≡ some (show_int n a, b)
unfolding show_int split_colon
split_colon-show_int_lem (pos n) s a b h = split_colon-show_nat n s a b h
split_colon-show_int_lem (negsuc n) s a b h = ground (arith, split_colon-show_nat (suc n) s a b h)

pub split_colon-show_int :
    (n : ℤ) (s : String) → split_colon (show_int n (String.◌∷◌ ":" s)) ≡ some (show_int n "", s)
split_colon-show_int n s =
    split_colon-show_int_lem n (String.◌∷◌ ":" s) "" s (unfold split_colon in refl)

split_colon-show_nat-none : (n : ℕ) → split_colon (show_nat n "") ≡ none
unfolding split_colon
split_colon-show_nat-none n =
    show_nat_keep (λ s. split_colon s ≡ none)
      (λ d s h e. split_colon-digit d s h ∙ ap (with_head (digit d)) e) n "" refl

pub split_colon-show_int-none : (n : ℤ) → split_colon (show_int n "") ≡ none
unfolding show_int split_colon
split_colon-show_int-none (pos n) = split_colon-show_nat-none n
split_colon-show_int-none (negsuc n) = ground (arith, split_colon-show_nat-none (suc n))
