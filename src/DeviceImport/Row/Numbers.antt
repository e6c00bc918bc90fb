-- ===== src/DeviceImport/Row/Numbers.antt =====
-- `int` reads back what `str` prints of an int.
use Prim.Native.Char.{Char, code}
use Prim.Native.String.{String}
use Prim.Native.String.{◌++◌ as ◌<>◌}
use text.Mathlib.TextLemmas.{cons-append, nil-append}
use nw_edit.Prelude.{
  ℕ, zero, suc, ◌+◌, ◌-◌, ◌*◌, ◌/◌, ◌%◌, ◌<◌, ◌≡◌, refl, ap, ◌∙◌, Bool, true, false, ◌&&◌, not,
  some, inl, inr, arith, ltb, Bool-cases, digit, show_from, show, show_int, ℤ, pos, negsuc,
}
use nw_edit.Text.Chars.{is, is_digit, is_space}
use nw_edit.Text.Strip.{lstrip, rstrip, strip}
use nw_edit.DeviceImport.Row.{digits_from, signed, read_int}

-- Every character passes a test.
abbrev pub all_chars : (Char → Bool) → String → Bool
all_chars p String.[] = true
all_chars p (String.◌∷◌ c text) = p c && all_chars p text

-- The text of a digit is one character, whose code is known.
digit_char : (k : ℕ) → k < 10 → (c : Char) × (digit k ≡ String.◌∷◌ c "") × (code c ≡ 48 + k)
unfolding digit
digit_char zero h = ("0", refl, refl)
digit_char (suc zero) h = ("1", refl, refl)
digit_char (suc (suc zero)) h = ("2", refl, refl)
digit_char (suc (suc (suc zero))) h = ("3", refl, refl)
digit_char (suc (suc (suc (suc zero)))) h = ("4", refl, refl)
digit_char (suc (suc (suc (suc (suc zero))))) h = ("5", refl, refl)
digit_char (suc (suc (suc (suc (suc (suc zero)))))) h = ("6", refl, refl)
digit_char (suc (suc (suc (suc (suc (suc (suc zero))))))) h = ("7", refl, refl)
digit_char (suc (suc (suc (suc (suc (suc (suc (suc zero)))))))) h = ("8", refl, refl)
digit_char (suc (suc (suc (suc (suc (suc (suc (suc (suc zero))))))))) h = ("9", refl, refl)
digit_char (suc (suc (suc (suc (suc (suc (suc (suc (suc (suc k)))))))))) h = absurd (omega arith)

is_digit-code : (c : Char) (k : ℕ) → k < 10 → code c ≡ 48 + k → is_digit c ≡ true
unfolding is_digit
is_digit-code c k h e = ground arith

digits_from-digit :
    (n k : ℕ) (after_digit : Bool) (rest : String)
    → k < 10
    → digits_from n after_digit (digit k <> rest) ≡ digits_from (n * 10 + k) true rest
unfolding digits_from
digits_from-digit n k after_digit rest h =
    let (c, text, number) = digit_char k h in
    let same : n * 10 + (code c - 48) ≡ n * 10 + k = omega (arith, number) in
    rw (text, cons-append, nil-append, is_digit-code c k h number)
      (ap (λ m. digits_from m true rest) same)

all_chars-digit :
    (k : ℕ) (rest : String)
    → k < 10
    → all_chars is_digit rest ≡ true
    → all_chars is_digit (digit k <> rest) ≡ true
all_chars-digit k rest h all =
    let (c, text, number) = digit_char k h in
    rw (text, cons-append, nil-append, is_digit-code c k h number) all

-- The digits of a number, read from the left, are the number.
digits_from-show_from :
    (fuel m : ℕ) (after_digit : Bool) (rest : String)
    → m < fuel
    → digits_from 0 after_digit (show_from fuel m rest) ≡ digits_from m true rest
unfolding show_from
digits_from-show_from zero m after_digit rest h = absurd (omega arith)
digits_from-show_from (suc fuel) m after_digit rest h = elim (Bool-cases (ltb m 10)) [
  | inl small ↦
      let number : 0 * 10 + m ≡ m = omega arith in
      rw small (
        digits_from-digit 0 m after_digit rest (ground arith)
        ∙ ap (λ k. digits_from k true rest) number)
  | inr large ↦
      let number : m / 10 * 10 + m % 10 ≡ m = omega arith in
      rw large (
        digits_from-show_from fuel (m / 10) after_digit (digit (m % 10) <> rest) (ground arith)
        ∙ digits_from-digit (m / 10) (m % 10) true rest (omega arith)
        ∙ ap (λ k. digits_from k true rest) number)
]

all_chars-show_from :
    (fuel m : ℕ) (rest : String)
    → all_chars is_digit rest ≡ true
    → all_chars is_digit (show_from fuel m rest) ≡ true
unfolding show_from
all_chars-show_from zero m rest all = all
all_chars-show_from (suc fuel) m rest all = elim (Bool-cases (ltb m 10)) [
  | inl small ↦ rw small (all_chars-digit m rest (ground arith) all)
  | inr large ↦ rw large (
      all_chars-show_from fuel (m / 10) (digit (m % 10) <> rest)
        (all_chars-digit (m % 10) rest (omega arith) all))
]

-- A text of characters that are no white space is left as it is.
lstrip_none : (text : String) → all_chars (λ c. not (is_space c)) text ≡ true → lstrip text ≡ text
unfolding lstrip
lstrip_none String.[] h = refl
lstrip_none (String.◌∷◌ c text) h = ground arith

rstrip_none : (text : String) → all_chars (λ c. not (is_space c)) text ≡ true → rstrip text ≡ text
unfolding rstrip
rstrip_none String.[] h = refl
rstrip_none (String.◌∷◌ c text) h = ground (arith, rstrip_none text)

digit_no_space : (c : Char) → is_digit c ≡ true → is_space c ≡ false
unfolding is_digit is_space
digit_no_space c h = ground arith

digits_no_space :
    (text : String) → all_chars is_digit text ≡ true → all_chars (λ c. not (is_space c)) text ≡ true
digits_no_space String.[] h = refl
digits_no_space (String.◌∷◌ c text) h = ground (arith, digit_no_space c, digits_no_space text)

strip_none : (text : String) → all_chars (λ c. not (is_space c)) text ≡ true → strip text ≡ text
unfolding strip
strip_none text h = rw (lstrip_none text h) (rstrip_none text h)

pub show_digits : (n : ℕ) → all_chars is_digit (show n) ≡ true
unfolding show
show_digits n = all_chars-show_from (suc n) n "" refl

digits_from-show : (n : ℕ) (after_digit : Bool) → digits_from 0 after_digit (show n) ≡ some n
unfolding show digits_from
digits_from-show n after_digit = digits_from-show_from (suc n) n after_digit "" (omega arith)

digit_no_sign : (c : Char) → is_digit c ≡ true → (is 45 c ≡ false) × (is 43 c ≡ false)
unfolding is_digit
digit_no_sign c h = ground arith

signed_cons :
    (c : Char) (text : String) (n : ℕ)
    → is_digit c ≡ true
    → digits_from 0 false (String.◌∷◌ c text) ≡ some n
    → signed (String.◌∷◌ c text) ≡ some (pos n)
unfolding signed
signed_cons c text n h e =
    let (no_minus, no_plus) = digit_no_sign c h in rw (no_minus, no_plus, e) refl

signed_digits :
    (text : String) (n : ℕ)
    → all_chars is_digit text ≡ true
    → digits_from 0 false text ≡ some n
    → signed text ≡ some (pos n)
unfolding digits_from
signed_digits String.[] n h e = cc
signed_digits (String.◌∷◌ c text) n h e = signed_cons c text n (ground arith) e

pub minus : (text : String) → "-" <> text ≡ String.◌∷◌ "-" text
minus text = cons-append "-" "" text ∙ rw nil-append refl

-- A decimal numeral is read as the number that it shows.
pub read_int-show_int : (n : ℤ) → read_int (show_int n) ≡ some n
unfolding read_int show_int is_space
read_int-show_int (pos n) =
    rw (strip_none (show n) (digits_no_space (show n) (show_digits n)))
      (signed_digits (show n) n (show_digits n) (digits_from-show n false))
read_int-show_int (negsuc n) =
    rw
      (
        minus (show (suc n)),
        strip_none (String.◌∷◌ "-" (show (suc n)))
            (digits_no_space (show (suc n)) (show_digits (suc n))),
        digits_from-show (suc n) false,
      )
      refl
