-- ===== src/Snmp/Texts.antt =====
-- networkmapper/discovery/snmp_client.py: readers for dotted addresses and hardware addresses.
use Prim.Native.Nat.{◌*◌, ◌/◌, ◌%◌}
use network_mapper.Prelude.{
  ℕ, ◌+◌, ◌-◌, ◌≤◌, ◌<◌, ◌≡◌, refl, ap, ap₂, ◌∙◌, false, Option, some, List, [], ◌∷◌, map, arith,
  All, All-map, if◌then◌else◌, ltb, nat_beq,
}
use network_mapper.Prelude.Decimal.{parse_int, parse_int-str_int, str_int, str_nat, ℤ}
use network_mapper.Prelude.Split.{Lacks, split, split-join, traverse, traverse-map}
use network_mapper.Prelude.Text.{Text}
use network_mapper.Snmp.Octets.{AreOctets, str_nat-Lacks, traverse-as_octet}
use network_mapper.Snmp.Rows.{after_components, as_octet}
use network_mapper.Snmp.Values.{dotted, format_mac, hex_byte, upper_hex}

-- The octets of a dotted address.
unfoldable pub read_dotted : Text → Option (List ℕ)
unfolding split
read_dotted s = after_components (traverse as_octet) (traverse parse_int (split b'.' s))

abbrev pub unhex : ℕ → ℕ
unhex c = if ltb c b'A' then c - b'0' else c - b'A' + 10

abbrev pub read_byte : Text → ℕ
read_byte (c ∷ d ∷ s) = unhex c * 16 + unhex d
read_byte _ = 0

-- The bytes of a hardware address.
unfoldable pub read_mac : Text → List ℕ
unfolding split
read_mac s = map read_byte (split b':' s)

pub read_dotted-dotted :
    (n : ℕ) (octets : List ℕ)
    → AreOctets (n ∷ octets)
    → read_dotted (dotted (n ∷ octets)) ≡ some (n ∷ octets)
unfolding read_dotted dotted str_int
read_dotted-dotted n octets h =
    ap (λ parts. after_components (traverse as_octet) (traverse parse_int parts))
      (split-join b'.' (str_nat n) (map str_nat octets) (str_nat-Lacks n)
        (All-map (Lacks b'.') str_nat octets str_nat-Lacks))
    ∙ ap (after_components (traverse as_octet))
        (traverse-map parse_int str_nat ℤ.pos (n ∷ octets) (λ m. parse_int-str_int (ℤ.pos m)))
    ∙ traverse-as_octet (n ∷ octets) h

unhex-upper_hex : (d : ℕ) → d < 16 → unhex (upper_hex d) ≡ d
unhex-upper_hex d h = ground arith

read_byte-hex_byte : (b : ℕ) → b ≤ 255 → read_byte (hex_byte b) ≡ b
read_byte-hex_byte b h =
    ground (arith, unhex-upper_hex (b / 16) (omega arith), unhex-upper_hex (b % 16) (omega arith))

upper_hex-no_colon : (d : ℕ) → d < 16 → nat_beq (upper_hex d) b':' ≡ false
upper_hex-no_colon d h = ground arith

hex_byte-Lacks : (b : ℕ) → b ≤ 255 → Lacks b':' (hex_byte b)
hex_byte-Lacks b h =
    (upper_hex-no_colon (b / 16) (omega arith), (upper_hex-no_colon (b % 16) (omega arith), tt))

map-read_byte : (bytes : List ℕ) → AreOctets bytes → map read_byte (map hex_byte bytes) ≡ bytes
map-read_byte [] h = refl
map-read_byte (b ∷ bytes) h =
    ap₂ (λ c cs. c ∷ cs) (read_byte-hex_byte b h.0) (map-read_byte bytes h.1)

All-Lacks : (bytes : List ℕ) → AreOctets bytes → All (Lacks b':') (map hex_byte bytes)
All-Lacks [] h = tt
All-Lacks (b ∷ bytes) h = (hex_byte-Lacks b h.0, All-Lacks bytes h.1)

pub read_mac-format_mac :
    (b : ℕ) (bytes : List ℕ) → AreOctets (b ∷ bytes) → read_mac (format_mac (b ∷ bytes)) ≡ b ∷ bytes
unfolding read_mac format_mac
read_mac-format_mac b bytes h =
    ap (map read_byte) (
      split-join b':' (hex_byte b) (map hex_byte bytes) (hex_byte-Lacks b h.0)
        (All-Lacks bytes h.1))
    ∙ map-read_byte (b ∷ bytes) h
