-- ===== src/Base/Numbers.antt =====
-- Rust's `FromStr` of integers: an optional sign, then at least one digit. An overflow is an error,
-- and digits never make a number smaller, so the limit is tested at the end.
use Prim.Native.Nat.{ℕ, zero, suc, ◌+◌, ◌-◌, ◌*◌, ◌/◌, ◌%◌, ◌≤◌, ◌<◌}
use Prim.Native.Char.{Char, code}
use Prim.Native.String.append.{nil, cons}
use Prim.Native.String.{String}
use mathlib.Core.Path.{◌≡◌, refl, ap, ◌∙◌}
use mathlib.Core.Logic.{inl, inr}
use mathlib.Core.Bool.{Bool, true, ◌&&◌}
use mathlib.Core.Option.{Option, none, some}
use native.Mathlib.Omega.{arith}
use dandori.Base.Tests.{ltb, leb, ◌==◌, if◌then◌else◌, Bool-cases}
use dandori.Base.Text.{append, digit, decimal, decimal_from, all_chars, split_once}
use dandori.Base.Int.{ℤ, pos, minus, display}

unfoldable pub is_digit : Char → Bool
is_digit c = leb 0x30 (code c) && leb (code c) 0x39

unfoldable pub digits_from : ℕ → String → Option ℕ
unfolding is_digit
digits_from acc String.[] = some acc
digits_from acc (String.◌∷◌ c s) =
    let rest = digits_from (acc * 10 + (code c - 0x30)) s in if is_digit c then rest else none

unfoldable pub parse_digits : String → Option ℕ
unfolding digits_from
parse_digits String.[] = none
parse_digits (String.◌∷◌ c s) = digits_from 0 (String.◌∷◌ c s)

abbrev pub up_to : ℕ → Option ℕ → Option ℕ
up_to most none = none
up_to most (some n) = if leb n most then some n else none

-- `str::parse` of an unsigned integer whose greatest value is given.
unfoldable pub parse_unsigned : ℕ → String → Option ℕ
unfolding parse_digits
parse_unsigned most String.[] = none
parse_unsigned most (String.◌∷◌ c s) =
    if code c == b'+'
    then up_to most (parse_digits s)
    else up_to most (parse_digits (String.◌∷◌ c s))

abbrev pub as_pos : Option ℕ → Option ℤ
as_pos none = none
as_pos (some n) = some (pos n)

abbrev pub as_neg : Option ℕ → Option ℤ
as_neg none = none
as_neg (some n) = some (minus 0 n)

-- `str::parse` of a signed integer: the greatest value, and the least one without its sign.
unfoldable pub parse_signed : ℕ → String → Option ℤ
unfolding parse_digits
parse_signed most String.[] = none
parse_signed most (String.◌∷◌ c s) =
    if code c == b'+'
    then as_pos (up_to most (parse_digits s))
    else if code c == b'-'
    then as_neg (up_to (most + 1) (parse_digits s))
    else as_pos (up_to most (parse_digits (String.◌∷◌ c s)))

digit-Char :
    (n : ℕ)
    → n < 10
    → (c : Char) × (digit n ≡ String.◌∷◌ c "") × (is_digit c ≡ true) × (code c ≡ 0x30 + n)
unfolding digit is_digit
digit-Char zero h = ("0", refl, refl, refl)
digit-Char (suc zero) h = ("1", refl, refl, refl)
digit-Char (suc (suc zero)) h = ("2", refl, refl, refl)
digit-Char (suc (suc (suc zero))) h = ("3", refl, refl, refl)
digit-Char (suc (suc (suc (suc zero)))) h = ("4", refl, refl, refl)
digit-Char (suc (suc (suc (suc (suc zero))))) h = ("5", refl, refl, refl)
digit-Char (suc (suc (suc (suc (suc (suc zero)))))) h = ("6", refl, refl, refl)
digit-Char (suc (suc (suc (suc (suc (suc (suc zero))))))) h = ("7", refl, refl, refl)
digit-Char (suc (suc (suc (suc (suc (suc (suc (suc zero)))))))) h = ("8", refl, refl, refl)
digit-Char (suc (suc (suc (suc (suc (suc (suc (suc (suc zero))))))))) h = ("9", refl, refl, refl)
digit-Char (suc (suc (suc (suc (suc (suc (suc (suc (suc (suc n)))))))))) h = absurd (omega arith)

append-digit :
    (n : ℕ) (h : n < 10) (t : String) → append (digit n) t ≡ String.◌∷◌ (digit-Char n h).0 t
append-digit n h t =
    ap (λ d. append d t) (digit-Char n h).1
    ∙ (cons (digit-Char n h).0 "" t ∙ ap (String.◌∷◌ (digit-Char n h).0) (nil t))

digits_from-digit :
    (acc n : ℕ) (t : String)
    → n < 10
    → digits_from acc (append (digit n) t) ≡ digits_from (acc * 10 + n) t
unfolding digits_from
digits_from-digit acc n t h =
    ap (digits_from acc) (append-digit n h t)
    ∙ rw (digit-Char n h).2 (ap (λ k. digits_from k t) (omega (arith, (digit-Char n h).3)))

all_chars-digit :
    (n : ℕ) → n < 10 → (t : String) → all_chars is_digit (append (digit n) t) ≡ all_chars is_digit t
unfolding all_chars
all_chars-digit n h t = ap (all_chars is_digit) (append-digit n h t) ∙ rw (digit-Char n h).2

digits_from-decimal_from :
    (fuel n : ℕ) (t : String) → n < fuel → digits_from 0 (decimal_from fuel n t) ≡ digits_from n t
unfolding decimal_from
digits_from-decimal_from zero n t h = absurd (omega arith)
digits_from-decimal_from (suc fuel) n t h = elim (Bool-cases (ltb n 10)) [
  | inl one ↦
      rw one (digits_from-digit 0 n t (ground arith) ∙ ap (λ k. digits_from k t) (omega arith))
  | inr more ↦ rw more (
      digits_from-decimal_from fuel (n / 10) (append (digit (n % 10)) t) (ground arith)
      ∙ (digits_from-digit (n / 10) (n % 10) t (omega arith)
          ∙ ap (λ k. digits_from k t) (omega arith)))
]

-- The printed number starts with a digit.
decimal_from-head :
    (fuel n : ℕ) (t : String)
    → (c : Char) × (r : String) × (decimal_from (suc fuel) n t ≡ String.◌∷◌ c r)
      × (is_digit c ≡ true)
unfolding decimal_from
decimal_from-head zero n t = elim (Bool-cases (ltb n 10)) [
  | inl one ↦
      let h : n < 10 = ground arith in
      rw one ((digit-Char n h).0, t, append-digit n h t, (digit-Char n h).2)
  | inr more ↦
      let h : n % 10 < 10 = omega arith in
      rw more ((digit-Char (n % 10) h).0, t, append-digit (n % 10) h t, (digit-Char (n % 10) h).2)
]
decimal_from-head (suc fuel) n t = elim (Bool-cases (ltb n 10)) [
  | inl one ↦
      let h : n < 10 = ground arith in
      rw one ((digit-Char n h).0, t, append-digit n h t, (digit-Char n h).2)
  | inr more ↦ rw more (decimal_from-head fuel (n / 10) (append (digit (n % 10)) t))
]

all_chars-decimal_from :
    (fuel n : ℕ) (t : String) → all_chars is_digit (decimal_from fuel n t) ≡ all_chars is_digit t
unfolding decimal_from all_chars
all_chars-decimal_from zero n t = refl
all_chars-decimal_from (suc fuel) n t = elim (Bool-cases (ltb n 10)) [
  | inl one ↦ rw one (all_chars-digit n (ground arith) t)
  | inr more ↦ rw more (
      all_chars-decimal_from fuel (n / 10) (append (digit (n % 10)) t)
      ∙ all_chars-digit (n % 10) (omega arith) t)
]

all_chars-decimal : (n : ℕ) → all_chars is_digit (decimal n) ≡ true
unfolding decimal all_chars
all_chars-decimal n = all_chars-decimal_from (n + 1) n ""

decimal-head :
    (n : ℕ) → (c : Char) × (r : String) × (decimal n ≡ String.◌∷◌ c r) × (is_digit c ≡ true)
unfolding decimal
decimal-head n =
    let (c, r, e, d) = decimal_from-head n n "" in
    let step : n + 1 ≡ suc n = omega arith in (c, r, ap (λ k. decimal_from k n "") step ∙ e, d)

digits_from-decimal : (n : ℕ) → digits_from 0 (decimal n) ≡ some n
unfolding decimal digits_from
digits_from-decimal n = digits_from-decimal_from (n + 1) n "" (omega arith)

parse_digits-cons :
    (s : String) (c : Char) (r : String) → s ≡ String.◌∷◌ c r → parse_digits s ≡ digits_from 0 s
unfolding parse_digits
parse_digits-cons s c r e = rw e

-- Every number is read back from what is printed for it.
parse_digits-decimal : (n : ℕ) → parse_digits (decimal n) ≡ some n
parse_digits-decimal n =
    let (c, r, e, d) = decimal-head n in parse_digits-cons (decimal n) c r e ∙ digits_from-decimal n

parse_signed-digits :
    (most : ℕ) (s : String) (c : Char) (r : String)
    → s ≡ String.◌∷◌ c r
    → is_digit c ≡ true
    → parse_signed most s ≡ as_pos (up_to most (parse_digits s))
unfolding parse_signed is_digit
parse_signed-digits most s c r e d = rw e (ground arith)

pub parse_signed-display :
    (most n : ℕ) → n ≤ most → parse_signed most (display (pos n)) ≡ some (pos n)
unfolding display
parse_signed-display most n h =
    let (c, r, e, d) = decimal-head n in
    parse_signed-digits most (decimal n) c r e d ∙ rw (parse_digits-decimal n) (ground arith)

parse_unsigned-digits :
    (most : ℕ) (s : String) (c : Char) (r : String)
    → s ≡ String.◌∷◌ c r
    → is_digit c ≡ true
    → parse_unsigned most s ≡ up_to most (parse_digits s)
unfolding parse_unsigned is_digit
parse_unsigned-digits most s c r e d = rw e (ground arith)

pub parse_unsigned-decimal : (most n : ℕ) → n ≤ most → parse_unsigned most (decimal n) ≡ some n
parse_unsigned-decimal most n h =
    let (c, r, e, d) = decimal-head n in
    parse_unsigned-digits most (decimal n) c r e d ∙ rw (parse_digits-decimal n) (ground arith)

up_to-le : (most n : ℕ) (o : Option ℕ) → up_to most o ≡ some n → n ≤ most
up_to-le most n none h = absurd (ground arith)
up_to-le most n (some k) h = ground arith

pub parse_unsigned-le : (most n : ℕ) (s : String) → parse_unsigned most s ≡ some n → n ≤ most
unfolding parse_unsigned
parse_unsigned-le most n String.[] h = absurd (ground arith)
parse_unsigned-le most n (String.◌∷◌ c s) h =
    ground
      (arith, up_to-le most n (parse_digits s), up_to-le most n (parse_digits (String.◌∷◌ c s)))

two_dots : (t : String) → append ".." t ≡ String.◌∷◌ "." (String.◌∷◌ "." t)
two_dots t = cons "." "." t ∙ ap (String.◌∷◌ ".") (cons "." "" t ∙ ap (String.◌∷◌ ".") (nil t))

-- A text is split at the first two dots after its digits.
pub split_once-digits :
    (s t : String)
    → all_chars is_digit s ≡ true
    → split_once ".." (append s (append ".." t)) ≡ some (s, t)
unfolding split_once all_chars is_digit
split_once-digits String.[] t h = ap (split_once "..") (nil (append ".." t) ∙ two_dots t) ∙ refl
split_once-digits (String.◌∷◌ c s) t h =
    ap (split_once "..") (cons c s (append ".." t)) ∙ ground (arith, split_once-digits s t)

pub all_chars-display : (n : ℕ) → all_chars is_digit (display (pos n)) ≡ true
unfolding display
all_chars-display n = all_chars-decimal n
