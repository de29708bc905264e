-- ===== src/Snmp/Octets.antt =====
-- networkmapper/discovery/snmp_client.py: addresses and hardware addresses as texts, and the identifier
-- that a device sends for a row.
use network_mapper.Prelude.{
  ℕ, suc, ◌≤◌, ◌≡◌, refl, ap, ◌∙◌, false, some, List, [], ◌∷◌, ◌++◌, map, arith, All, All-map,
  All-weaken, length, length-map, map-id, nat_beq,
}
use network_mapper.Prelude.Decimal.{
  IsDigit, parse_int, parse_int-str_int, str_int, str_nat, str_nat-digits, ℤ,
}
use network_mapper.Prelude.Split.{
  Lacks, drop-append, join, split, split-join, starts_with-append, traverse, traverse-map,
}
use network_mapper.Prelude.Text.{Text, codes}
use network_mapper.Snmp.Rows.{as_octet, octets_of, row_components}

-- The object identifier of the row with an index, under a column.
unfoldable pub row_oid : Text → List ℤ → Text
row_oid column index = (column ++ codes ".") ++ join (codes ".") (map str_int index)

digit-no_dot : (c : ℕ) → IsDigit c → nat_beq c b'.' ≡ false
digit-no_dot c h = ground arith

pub str_nat-Lacks : (n : ℕ) → Lacks b'.' (str_nat n)
str_nat-Lacks n =
    All-weaken IsDigit (λ c. nat_beq c b'.' ≡ false) (str_nat n) digit-no_dot (str_nat-digits n)

str_int-Lacks : (z : ℤ) → Lacks b'.' (str_int z)
unfolding str_int
str_int-Lacks (ℤ.pos n) = str_nat-Lacks n
str_int-Lacks (ℤ.negsuc n) = (refl, str_nat-Lacks (suc n))

traverse-parse_int : (index : List ℤ) → traverse parse_int (map str_int index) ≡ some index
traverse-parse_int index =
    traverse-map parse_int str_int (λ z. z) index parse_int-str_int ∙ ap some (map-id index)

-- The numbers of a row's identifier are the row's index.
pub row_components-row_oid :
    (column : Text) (z : ℤ) (index : List ℤ)
    → row_components (row_oid column (z ∷ index)) column ≡ some (z ∷ index)
unfolding row_components row_oid
row_components-row_oid column z index =
    let prefix = column ++ codes "." in
    let rest = join (codes ".") (map str_int (z ∷ index)) in
    rw (starts_with-append prefix rest) (
      ap (λ s. traverse parse_int (split b'.' s)) (drop-append prefix rest)
      ∙ ap (traverse parse_int) (
          split-join b'.' (str_int z) (map str_int index) (str_int-Lacks z)
            (All-map (Lacks b'.') str_int index str_int-Lacks))
      ∙ traverse-parse_int (z ∷ index))

-- Octets are numbers below 256.
abbrev pub AreOctets : List ℕ → Type 0
AreOctets octets = All (λ n. n ≤ 255) octets

pub traverse-as_octet :
    (octets : List ℕ) → AreOctets octets → traverse as_octet (map ℤ.pos octets) ≡ some octets
traverse-as_octet [] h = refl
traverse-as_octet (n ∷ octets) h = ground (arith, traverse-as_octet octets)

pub octets_of-octets :
    (octets : List ℕ)
    → AreOctets octets
    → octets_of (length octets) (map ℤ.pos octets) ≡ some octets
unfolding octets_of
octets_of-octets octets h = ground (arith, length-map ℤ.pos octets, traverse-as_octet octets)
