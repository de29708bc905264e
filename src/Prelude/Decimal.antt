-- ===== src/Prelude/Decimal.antt =====
-- Python's `str(n)` and `int(s)` on integers, over the code points of ASCII texts. `int` takes white
-- space around the number, a sign, and single underscores between digits.
use Prim.Native.Nat.{ℕ, zero, suc, ◌+◌, ◌-◌, ◌*◌, ◌/◌, ◌%◌, ◌≤◌, ◌<◌}
use mathlib.Core.Path.{◌≡◌, refl, ap, ◌∙◌}
use mathlib.Core.Bool.{Bool, true, false, ◌&&◌}
use mathlib.Core.Logic.{◌↔◌, inl, inr}
use mathlib.Core.Option.{Option, none, some, none-ne-some}
use mathlib.Core.List.{[], ◌∷◌, reverse, reverse_aux, reverse-reverse}
use native.Mathlib.Omega.{arith}
use network_mapper.Prelude.Tests.{ltb, leb, nat_beq, if◌then◌else◌, Bool-cases}
use network_mapper.Prelude.Lists.{All, All-weaken}
use network_mapper.Prelude.Eq.{Eq}
use network_mapper.Prelude.Text.{Text, strip, is_space, lstrip}

-- `negsuc n` is -(n + 1).
pub data ℤ : Type 0 where
  pos negsuc : ℕ → ℤ

abbrev pub int_beq : ℤ → ℤ → Bool
int_beq (ℤ.pos m) (ℤ.pos n) = nat_beq m n
int_beq (ℤ.negsuc m) (ℤ.negsuc n) = nat_beq m n
int_beq _ _ = false

pub int_beq_iff : (x y : ℤ) → (int_beq x y ≡ true) ↔ (x ≡ y)
int_beq_iff (ℤ.pos m) (ℤ.pos n) = ground arith
int_beq_iff (ℤ.pos m) (ℤ.negsuc n) = ground arith
int_beq_iff (ℤ.negsuc m) (ℤ.pos n) = ground arith
int_beq_iff (ℤ.negsuc m) (ℤ.negsuc n) = ground arith

instance abbrev pub int_eq : Eq ℤ
int_eq = record { decide = int_beq; exact = int_beq_iff }

abbrev pub is_digit : ℕ → Bool
is_digit c = leb b'0' c && leb c b'9'

-- The digits of a number in front of a text; the fuel is above the number.
unfoldable pub digits_before : ℕ → ℕ → Text → Text
digits_before zero n s = s
digits_before (suc fuel) n s =
    let more = digits_before fuel (n / 10) ((b'0' + n % 10) ∷ s) in
    if ltb n 10 then (b'0' + n) ∷ s else more

-- `str(n)` of a natural number.
unfoldable pub str_nat : ℕ → Text
unfolding digits_before
str_nat n = digits_before (suc n) n []

-- `str(n)`
unfoldable pub str_int : ℤ → Text
unfolding str_nat
str_int (ℤ.pos n) = str_nat n
str_int (ℤ.negsuc n) = b'-' ∷ str_nat (suc n)

-- The digits after the sign; the flag says that the last code point was a digit.
unfoldable pub read_digits : ℕ → Bool → Text → Option ℕ
read_digits acc last [] = if last then some acc else none
read_digits acc last (c ∷ s) = elim (is_digit c) [
  | true ↦ read_digits (acc * 10 + (c - b'0')) true s
  | false ↦ elim (nat_beq c b'_' && last) [ true ↦ read_digits acc false s | false ↦ none ]
]

abbrev pub negated : Option ℕ → Option ℤ
negated none = none
negated (some zero) = some (ℤ.pos 0)
negated (some (suc n)) = some (ℤ.negsuc n)

abbrev pub positive : Option ℕ → Option ℤ
positive none = none
positive (some n) = some (ℤ.pos n)

-- The sign and the digits.
unfoldable pub read_signed : Text → Option ℤ
unfolding read_digits
read_signed [] = none
read_signed (c ∷ s) =
    if nat_beq c b'-'
    then negated (read_digits 0 false s)
    else if nat_beq c b'+'
    then positive (read_digits 0 false s)
    else positive (read_digits 0 false (c ∷ s))

-- `int(s)`, `none` for the `ValueError`.
unfoldable pub parse_int : Text → Option ℤ
unfolding read_signed strip
parse_int s = read_signed (strip s)

digit-visible : (c : ℕ) → (b'0' ≤ c) × (c ≤ b'9') → is_space c ≡ false
unfolding is_space
digit-visible c (h, k) = ground arith

read_digits-digit :
    (acc d m : ℕ) (last : Bool) (s : Text)
    → d < 10
    → acc * 10 + d ≡ m
    → read_digits acc last ((b'0' + d) ∷ s) ≡ read_digits m true s
unfolding read_digits
read_digits-digit acc d m last s h e = ground (arith)

read_digits-digits_before :
    (fuel n : ℕ) (s : Text)
    → n < fuel
    → (last : Bool) → read_digits 0 last (digits_before fuel n s) ≡ read_digits n true s
unfolding digits_before
read_digits-digits_before zero n s h last = absurd (omega arith)
read_digits-digits_before (suc fuel) n s h last = elim (Bool-cases (ltb n 10)) [
  | inl e ↦ rw e (read_digits-digit 0 n n last s (ground (arith, e)) (omega arith))
  | inr e ↦ rw e (
      read_digits-digits_before fuel (n / 10) ((b'0' + n % 10) ∷ s) (ground (arith, e)) last
      ∙ read_digits-digit (n / 10) (n % 10) n true s (omega arith) (omega arith))
]

-- A code point that is a digit.
abbrev pub IsDigit : ℕ → Type 0
IsDigit c = (b'0' ≤ c) × (c ≤ b'9')

digits_before-All :
    (fuel n : ℕ) (s : Text) → n < fuel → All IsDigit s → All IsDigit (digits_before fuel n s)
unfolding digits_before
digits_before-All zero n s h p = p
digits_before-All (suc fuel) n s h p = elim (Bool-cases (ltb n 10)) [
  | inl e ↦ rw e ((omega arith, ground (arith, e)), p)
  | inr e ↦ rw e (
      digits_before-All fuel (n / 10) ((b'0' + n % 10) ∷ s) (ground (arith, e))
        ((omega arith, omega arith), p))
]

pub str_nat-digits : (n : ℕ) → All IsDigit (str_nat n)
unfolding str_nat
str_nat-digits n = digits_before-All (suc n) n [] (omega arith) tt

-- A text without white space.
abbrev pub IsSolid : Text → Type 0
IsSolid s = All (λ c. is_space c ≡ false) s

All-reverse_aux {ℓ} : (P : ℕ → Type ℓ) (s t : Text) → All P s → All P t → All P (reverse_aux s t)
All-reverse_aux P [] t h k = k
All-reverse_aux P (c ∷ s) t h k = All-reverse_aux P s (c ∷ t) h.1 (h.0, k)

All-reverse {ℓ} : (P : ℕ → Type ℓ) (s : Text) → All P s → All P (reverse s)
All-reverse P s h = All-reverse_aux P s [] h tt

lstrip-solid : (s : Text) → IsSolid s → lstrip s ≡ s
unfolding lstrip
lstrip-solid [] p = refl
lstrip-solid (c ∷ s) p = rw p.0 refl

strip-solid : (s : Text) → IsSolid s → strip s ≡ s
unfolding strip
strip-solid s p =
    ap (λ t. reverse (lstrip (reverse t))) (lstrip-solid s p)
    ∙ ap reverse (lstrip-solid (reverse s) (All-reverse (λ c. is_space c ≡ false) s p))
    ∙ reverse-reverse s

str_nat-IsSolid : (n : ℕ) → IsSolid (str_nat n)
str_nat-IsSolid n =
    All-weaken IsDigit (λ c. is_space c ≡ false) (str_nat n) digit-visible (str_nat-digits n)

read_digits-str_nat : (n : ℕ) → read_digits 0 false (str_nat n) ≡ some n
unfolding str_nat read_digits
read_digits-str_nat n = read_digits-digits_before (suc n) n [] (omega arith) false

minus-visible : is_space b'-' ≡ false
unfolding is_space
minus-visible = refl

not_sign : {c : ℕ} → IsDigit c → (nat_beq c b'-' ≡ false) × (nat_beq c b'+' ≡ false)
not_sign h = (ground arith, ground arith)

read_signed-digits :
    (s : Text) (n : ℕ)
    → All IsDigit s
    → read_digits 0 false s ≡ some n
    → read_signed s ≡ some (ℤ.pos n)
unfolding read_signed read_digits
read_signed-digits [] n p h = absurd (none-ne-some n h)
read_signed-digits (c ∷ s) n p h = rw (not_sign p.0).0 (rw (not_sign p.0).1 (rw h refl))

-- `int(str(n))` is n.
pub parse_int-str_int : (z : ℤ) → parse_int (str_int z) ≡ some z
unfolding parse_int str_int read_signed
parse_int-str_int (ℤ.pos n) =
    ap read_signed (strip-solid (str_nat n) (str_nat-IsSolid n))
    ∙ read_signed-digits (str_nat n) n (str_nat-digits n) (read_digits-str_nat n)
parse_int-str_int (ℤ.negsuc n) =
    ap read_signed (strip-solid (b'-' ∷ str_nat (suc n)) (minus-visible, str_nat-IsSolid (suc n)))
    ∙ ap negated (read_digits-str_nat (suc n))
