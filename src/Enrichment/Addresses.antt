-- ===== src/Enrichment/Addresses.antt =====
-- The standard library's `ipaddress.IPv4Address(s)`: whether it accepts the text. It wants four parts,
-- each of one to three ASCII digits without a leading zero, and at most 255.
use network_mapper.Prelude.{
  ℕ, Bool, true, false, not, ◌&&◌, Option, none, some, List, [], ◌∷◌, leb, length, nat_beq,
}
use network_mapper.Prelude.Decimal.{is_digit, read_digits}
use network_mapper.Prelude.Split.{split}
use network_mapper.Prelude.Text.{Text, is_filled}

abbrev pub all_digits : Text → Bool
all_digits [] = true
all_digits (c ∷ s) = is_digit c && all_digits s

abbrev pub at_most_255 : Option ℕ → Bool
at_most_255 none = false
at_most_255 (some n) = leb n 255

abbrev pub starts_with_zero : Text → Bool
starts_with_zero [] = false
starts_with_zero (c ∷ s) = nat_beq c b'0' && is_filled s

unfoldable pub is_octet_text : Text → Bool
unfolding read_digits
is_octet_text part =
    is_filled part
    && all_digits part
    && leb (length part) 3
    && not (starts_with_zero part)
    && at_most_255 (read_digits 0 false part)

abbrev pub four_octets : List Text → Bool
four_octets (a ∷ b ∷ c ∷ d ∷ []) =
    is_octet_text a && is_octet_text b && is_octet_text c && is_octet_text d
four_octets _ = false

unfoldable pub is_ipv4_address : Text → Bool
unfolding is_octet_text split
is_ipv4_address s = four_octets (split b'.' s)
