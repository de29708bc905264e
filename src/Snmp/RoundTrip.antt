-- ===== src/Snmp/RoundTrip.antt =====
-- networkmapper/discovery/snmp_client.py: the row parsers on the identifiers that a device sends for its
-- rows, and the numbers of the rows that the ARP and the forwarding-table parser accept.
use network_mapper.Prelude.{
  ℕ, ◌≡◌, refl, sym, ap, ap₂, subst, ◌∙◌, inl, inr, ◌&&◌, Option, none, some, List, [], ◌∷◌, map,
  arith, Bool-cases, Option-cases, leb, length, length-map, nat_beq, some_injective,
}
use network_mapper.Prelude.Decimal.{int_eq, ℤ}
use network_mapper.Prelude.Eq.{eq_of_beq, list_eq, nat_eq, option_eq, pair_eq, ◌==◌}
use network_mapper.Prelude.Ord.{list_ord, nat_ord}
use network_mapper.Prelude.Split.{take, traverse}
use network_mapper.Prelude.Text.{Text}
use network_mapper.Snmp.Octets.{AreOctets, octets_of-octets, row_components-row_oid, row_oid}
use network_mapper.Snmp.Rows.{
  after_components, arp_index, as_mac, as_octet, man_addr_index, octets_of, parse_bridge_fdb_row,
  parse_ipv4_arp_row, parse_lldp_man_addr_row, parse_lldp_rem_row, rem_index, rem_key_eq,
  row_components, with_address,
}
use network_mapper.Snmp.Texts.{read_dotted, read_dotted-dotted, read_mac, read_mac-format_mac}
use network_mapper.Snmp.Values.{dotted, format_mac}

-- Each row parser gives back the index of a row from the identifier that a device sends for it: a row
-- of `ipNetToPhysicalTable` or `lldpRemManAddrTable` with an address of four octets, a row of
-- `lldpRemTable`, and a row of `dot1dTpFdbTable` with a hardware address of six octets; and the
-- address or hardware address in what they return can be read back to the octets of the index.
pub parse_row-row_oid :
    (column : Text) (if_index time_mark port rem : ℤ) (a b c d e f : ℕ)
    → AreOctets (a ∷ b ∷ c ∷ d ∷ e ∷ f ∷ [])
    → (parse_ipv4_arp_row
          (row_oid column (if_index ∷ ℤ.pos 1 ∷ ℤ.pos 4 ∷ map ℤ.pos (a ∷ b ∷ c ∷ d ∷ [])))
          column
        ≡ some (if_index, dotted (a ∷ b ∷ c ∷ d ∷ [])))
      × (parse_lldp_rem_row (row_oid column (time_mark ∷ port ∷ rem ∷ [])) column
          ≡ some (time_mark, port, rem))
      × (parse_lldp_man_addr_row
            (row_oid column
              (time_mark ∷ port ∷ rem ∷ ℤ.pos 1 ∷ ℤ.pos 4 ∷ map ℤ.pos (a ∷ b ∷ c ∷ d ∷ [])))
            column
          ≡ some ((time_mark, port, rem), dotted (a ∷ b ∷ c ∷ d ∷ [])))
      × (parse_bridge_fdb_row (row_oid column (map ℤ.pos (a ∷ b ∷ c ∷ d ∷ e ∷ f ∷ []))) column
          ≡ some (format_mac (a ∷ b ∷ c ∷ d ∷ e ∷ f ∷ [])))
      × (read_dotted (dotted (a ∷ b ∷ c ∷ d ∷ [])) ≡ some (a ∷ b ∷ c ∷ d ∷ []))
      × (read_mac (format_mac (a ∷ b ∷ c ∷ d ∷ e ∷ f ∷ [])) ≡ a ∷ b ∷ c ∷ d ∷ e ∷ f ∷ [])
unfolding parse_ipv4_arp_row parse_lldp_rem_row parse_lldp_man_addr_row parse_bridge_fdb_row
    arp_index rem_index man_addr_index
parse_row-row_oid column if_index time_mark port rem a b c d e f h =
    let four = octets_of-octets (a ∷ b ∷ c ∷ d ∷ []) (h.0, (h.1.0, (h.1.1.0, (h.1.1.1.0, tt)))) in
    (
      ap (after_components arp_index) (
            row_components-row_oid column if_index
              (ℤ.pos 1 ∷ ℤ.pos 4 ∷ map ℤ.pos (a ∷ b ∷ c ∷ d ∷ [])))
          ∙ ap (with_address if_index) four,
      ap (after_components rem_index) (row_components-row_oid column time_mark (port ∷ rem ∷ [])),
      ap (after_components man_addr_index) (
            row_components-row_oid column time_mark
              (port ∷ rem ∷ ℤ.pos 1 ∷ ℤ.pos 4 ∷ map ℤ.pos (a ∷ b ∷ c ∷ d ∷ [])))
          ∙ ap (with_address (time_mark, port, rem)) four,
      ap (after_components (λ numbers. as_mac (octets_of 6 numbers)))
            (row_components-row_oid column (ℤ.pos a) (map ℤ.pos (b ∷ c ∷ d ∷ e ∷ f ∷ [])))
          ∙ ap as_mac (octets_of-octets (a ∷ b ∷ c ∷ d ∷ e ∷ f ∷ []) h),
      read_dotted-dotted a (b ∷ c ∷ d ∷ []) (h.0, (h.1.0, (h.1.1.0, (h.1.1.1.0, tt)))),
      read_mac-format_mac a (b ∷ c ∷ d ∷ e ∷ f ∷ []) h,
    )

traverse-bounds :
    (numbers : List ℤ) (octets : List ℕ)
    → traverse as_octet numbers ≡ some octets
    → (numbers ≡ map ℤ.pos octets) × AreOctets octets
traverse-bounds [] octets h =
    subst (λ os. ([] ≡ map ℤ.pos os) × AreOctets os) (some_injective h) (refl, tt)
traverse-bounds (ℤ.negsuc n ∷ numbers) octets h = absurd (ground arith)
traverse-bounds (ℤ.pos n ∷ numbers) octets h = elim (Option-cases (traverse as_octet numbers)) [
  | inl e ↦ absurd (ground arith)
  | inr (more, e) ↦
      let rest = traverse-bounds numbers more e in
      elim (Bool-cases (leb n 255)) [
        | inl b ↦
            subst (λ os. (ℤ.pos n ∷ numbers ≡ map ℤ.pos os) × AreOctets os)
              (some_injective {x = n ∷ more} {y = octets} (ground arith))
              (ap (λ ns. ℤ.pos n ∷ ns) rest.0, (ground arith, rest.1))
        | inr b ↦ absurd (ground arith)
      ]
]

octets_of-bounds :
    (size : ℕ) (numbers : List ℤ) (octets : List ℕ)
    → octets_of size numbers ≡ some octets
    → (numbers ≡ map ℤ.pos octets) × (length octets ≡ size) × AreOctets octets
unfolding octets_of
octets_of-bounds size numbers octets h = elim (Bool-cases (nat_beq (length numbers) size)) [
  | inl b ↦
      let found = traverse-bounds numbers octets (ground arith) in
      (found.0, ground (arith, found.0, length-map ℤ.pos octets), found.1)
  | inr b ↦ absurd (ground arith)
]

with_address-some {ℓ} :
    {K : Type ℓ} (key k : K) (address : Text) (found : Option (List ℕ))
    → with_address key found ≡ some (k, address)
    → (octets : List ℕ) × (found ≡ some octets) × (k ≡ key) × (address ≡ dotted octets)
with_address-some key k address none h = absurd (ground arith)
with_address-some key k address (some octets) h =
    (octets, refl, sym (ap (λ p. p.0) (some_injective h)), sym (ap (λ p. p.1) (some_injective h)))

-- How the numbers behind the column begin, for what they are parsed to. More numbers may follow.
abbrev pub IsArpIndex : List ℤ → ℤ × Text → Type 0
IsArpIndex numbers (if_index, address) =
    (rest : List ℤ) × (octets : List ℕ) × (numbers ≡ if_index ∷ ℤ.pos 1 ∷ ℤ.pos 4 ∷ rest)
    × (take 4 rest ≡ map ℤ.pos octets)
    × (length octets ≡ 4)
    × AreOctets octets
    × (address ≡ dotted octets)

arp_index-IsArpIndex :
    (numbers : List ℤ) (key : ℤ × Text) → arp_index numbers ≡ some key → IsArpIndex numbers key
unfolding arp_index
arp_index-IsArpIndex [] key h = absurd (ground arith)
arp_index-IsArpIndex (i ∷ []) key h = absurd (ground arith)
arp_index-IsArpIndex (i ∷ ty ∷ []) key h = absurd (ground arith)
arp_index-IsArpIndex (i ∷ ty ∷ len ∷ rest) (if_index, address) h =
    elim (Bool-cases (ty == ℤ.pos 1 && len == ℤ.pos 4)) [
      | inl b ↦
          let found =
            with_address-some i if_index address (octets_of 4 (take 4 rest)) (ground arith) in
          let bounds = octets_of-bounds 4 (take 4 rest) found.0 found.1 in
          (
            rest,
            found.0,
            rw found.2 (
                ap₂ (λ t l. i ∷ t ∷ l ∷ rest) (eq_of_beq ty (ℤ.pos 1) (ground arith))
                  (eq_of_beq len (ℤ.pos 4) (ground arith))),
            bounds.0,
            bounds.1,
            bounds.2,
            found.3,
          )
      | inr b ↦ absurd (ground arith)
    ]

arp_components :
    (found : Option (List ℤ)) (key : ℤ × Text)
    → after_components arp_index found ≡ some key
    → (numbers : List ℤ) × (found ≡ some numbers) × IsArpIndex numbers key
arp_components none key h = absurd (ground arith)
arp_components (some numbers) key h = (numbers, refl, arp_index-IsArpIndex numbers key h)

bridge_components :
    (found : Option (List ℤ)) (mac : Text)
    → after_components (λ numbers. as_mac (octets_of 6 numbers)) found ≡ some mac
    → (octets : List ℕ) × (found ≡ some (map ℤ.pos octets))
      × (length octets ≡ 6)
      × AreOctets octets
      × (mac ≡ format_mac octets)
bridge_components none mac h = absurd (ground arith)
bridge_components (some numbers) mac h = elim (Option-cases (octets_of 6 numbers)) [
  | inl e ↦ absurd (ground arith)
  | inr (octets, e) ↦
      let bounds = octets_of-bounds 6 numbers octets e in
      (octets, ap some bounds.0, bounds.1, bounds.2, sym (some_injective (ap as_mac (sym e) ∙ h)))
]

-- A parsed row of `ipNetToPhysicalTable` begins behind the column's identifier with the number of its
-- interface, the type and the size of an IPv4 address, and four octets below 256, in this order,
-- and the address returned is these octets with dots, whatever follows them; a parsed row of
-- `dot1dTpFdbTable` has exactly six numbers below 256 there, and the hardware address returned is
-- their colon-separated hexadecimal text.
pub parse_row-bounds :
    (oid bridge_oid column bridge_column : Text) (key : ℤ × Text) (mac : Text)
    → parse_ipv4_arp_row oid column ≡ some key
    → parse_bridge_fdb_row bridge_oid bridge_column ≡ some mac
    → ((numbers : List ℤ) × (row_components oid column ≡ some numbers) × IsArpIndex numbers key)
      × ((octets : List ℕ) × (row_components bridge_oid bridge_column ≡ some (map ℤ.pos octets))
          × (length octets ≡ 6)
          × AreOctets octets
          × (mac ≡ format_mac octets))
unfolding parse_ipv4_arp_row parse_bridge_fdb_row
parse_row-bounds oid bridge_oid column bridge_column key mac h k = (
  arp_components (row_components oid column) key h,
  bridge_components (row_components bridge_oid bridge_column) mac k,
)
