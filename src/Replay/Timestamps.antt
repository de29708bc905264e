-- ===== src/Replay/Timestamps.antt =====
-- The standard library's `datetime`: the texts that `isoformat()` returns, which are those that
-- `datetime.fromisoformat` reads and `isoformat()` gives back as they are.
use Prim.Native.Nat.{◌*◌, ◌%◌}
use network_mapper.Prelude.{
  ℕ, zero, suc, ◌+◌, ◌-◌, Bool, true, false, not, ◌&&◌, ◌||◌, Option, none, some, [], ◌∷◌,
  if◌then◌else◌, leb, ltb, nat_beq,
}
use network_mapper.Prelude.Decimal.{int_eq, is_digit}
use network_mapper.Prelude.Eq.{elem, list_eq, nat_eq, option_eq, pair_eq}
use network_mapper.Prelude.Ord.{list_ord, nat_ord}
use network_mapper.Prelude.Text.{Text, is_filled}
use network_mapper.Snmp.Rows.{rem_key_eq}

-- What is read and the text behind it.
abbrev pub Read : Type 0
Read = Option (ℕ × Text)

infixl 5 ◌>>=◌
abbrev ◌>>=◌ {ℓ κ} : {A : Type ℓ} {B : Type κ} → Option A → (A → Option B) → Option B
none >>= f = none
some a >>= f = f a

-- A number of exactly so many digits.
unfoldable pub digits : ℕ → ℕ → Text → Read
digits zero acc s = some (acc, s)
digits (suc n) acc [] = none
digits (suc n) acc (c ∷ s) =
    let rest = digits n (acc * 10 + (c - b'0')) s in if is_digit c then rest else none

-- The text behind one character.
abbrev pub behind : ℕ → Text → Option Text
behind c [] = none
behind c (d ∷ s) = if nat_beq c d then some s else none

abbrev pub is_leap : ℕ → Bool
is_leap year = nat_beq (year % 4) 0 && (not (nat_beq (year % 100) 0) || nat_beq (year % 400) 0)

abbrev pub days_in_month : ℕ → ℕ → ℕ
days_in_month year month =
    if nat_beq month 2
    then if is_leap year then 29 else 28
    else if elem month (4 ∷ 6 ∷ 9 ∷ 11 ∷ [])
    then 30
    else 31

abbrev pub is_date : ℕ → ℕ → ℕ → Bool
is_date year month day =
    leb 1 year && leb 1 month && leb month 12 && leb 1 day && leb day (days_in_month year month)

abbrev pub is_time : ℕ → ℕ → ℕ → Bool
is_time hour minute second = ltb hour 24 && ltb minute 60 && ltb second 60

-- `.ffffff`, which is written unless it is 0: the microseconds and the text behind them.
abbrev pub microseconds : Text → Read
microseconds [] = some (0, [])
microseconds (c ∷ s) = if nat_beq c b'.' then digits 6 0 s else some (0, c ∷ s)

-- `:SS[.ffffff]` of an offset, which is written unless both are 0.
abbrev pub offset_seconds : ℕ → ℕ → Text → Bool
offset_seconds hour minute s = elim (behind b':' s >>= digits 2 0) [
  | none ↦ false
  | some (second, rest) ↦ elim (microseconds rest) [
    | none ↦ false
    | some (micro, end) ↦
        is_time hour minute second
        && (ltb 0 second || ltb 0 micro)
        && not (is_filled end)
        && (ltb 0 micro || not (is_filled rest))
  ]
]

abbrev pub hour_and_minute : Text → Option (ℕ × ℕ × Text)
hour_and_minute s = do h ← digits 2 0 s; r ← behind b':' h.1; m ← digits 2 0 r; some (h.0, m.0, m.1)

-- `+HH:MM` or `-HH:MM` with what follows; a negative offset is not 0.
abbrev pub offset : Bool → Text → Bool
offset negative s = elim (hour_and_minute s) [
  | none ↦ false
  | some (hour, minute, rest) ↦
      if is_filled rest
      then offset_seconds hour minute rest
      else is_time hour minute 0 && (not negative || ltb 0 (hour + minute))
]

abbrev pub zone : Text → Bool
zone [] = true
zone (c ∷ s) = if nat_beq c b'+' then offset false s else nat_beq c b'-' && offset true s

-- The fraction, which is not 0 when it is written, and the offset.
abbrev pub fraction_and_zone : Text → Bool
fraction_and_zone [] = true
fraction_and_zone (c ∷ s) =
    if nat_beq c b'.'
    then elim (digits 6 0 s) [ none ↦ false | some (micro, rest) ↦ ltb 0 micro && zone rest ]
    else zone (c ∷ s)

-- `datetime.fromisoformat(s)` succeeds, and its `isoformat()` is s.
unfoldable pub is_canonical_timestamp : Text → Bool
unfolding digits
is_canonical_timestamp s =
    let parts = (do
      y ← digits 4 0 s
      r ← behind b'-' y.1
      mo ← digits 2 0 r
      r ← behind b'-' mo.1
      d ← digits 2 0 r
      r ← behind b'T' d.1
      h ← digits 2 0 r
      r ← behind b':' h.1
      mi ← digits 2 0 r
      r ← behind b':' mi.1
      sec ← digits 2 0 r
      some (is_date y.0 mo.0 d.0 && is_time h.0 mi.0 sec.0 && fraction_and_zone sec.1)) in
    elim parts [ none ↦ false | some valid ↦ valid ]
