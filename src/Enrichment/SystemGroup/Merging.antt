-- ===== src/Enrichment/SystemGroup/Merging.antt =====
-- networkmapper/discovery/snmp_provider.py: what `_merge` leaves in a device.
use network_mapper.Prelude.{
  ◌≡◌, refl, sym, ap, ◌∙◌, inl, inr, Bool, true, false, Option, none, some, List, [], ◌∷◌, arith,
  All, Option-cases, if◌then◌else◌,
}
use network_mapper.Devices.{Device}
use network_mapper.Enrichment.SystemGroup.{
  Attribute, attribute_beq, attribute_of, fill, get_attribute, merge, set_attribute,
}
use network_mapper.Prelude.Dict.{or_else, or_else-none}
use network_mapper.Prelude.Eq.{list_beq}
use network_mapper.Prelude.Text.{Text}

get-set :
    (a b : Attribute) (value : Text) (d : Device)
    → get_attribute b (set_attribute a value d)
      ≡ (if attribute_beq a b then some value else get_attribute b d)
get-set a Attribute.hostname value d = refl
get-set a Attribute.sys_descr value d = refl
get-set a Attribute.sys_object_id value d = refl
get-set a Attribute.sys_uptime value d = refl
get-set a Attribute.sys_contact value d = refl
get-set a Attribute.sys_location value d = refl

attribute_beq_eq : (a b : Attribute) → attribute_beq a b ≡ true → a ≡ b
attribute_beq_eq Attribute.hostname Attribute.hostname h = refl
attribute_beq_eq Attribute.sys_descr Attribute.sys_descr h = refl
attribute_beq_eq Attribute.sys_object_id Attribute.sys_object_id h = refl
attribute_beq_eq Attribute.sys_uptime Attribute.sys_uptime h = refl
attribute_beq_eq Attribute.sys_contact Attribute.sys_contact h = refl
attribute_beq_eq Attribute.sys_location Attribute.sys_location h = refl
attribute_beq_eq _ _ h = absurd (ground arith)

filled_in :
    (c : Bool) (before : Option Text) (value : Text)
    → (c ≡ true → before ≡ none)
    → (if c then some value else before) ≡ or_else before (if c then some value else none)
filled_in true before value h = rw (h refl) refl
filled_in false before value h = sym (or_else-none before)

kept :
    (c : Bool) (before : Option Text) (v value : Text)
    → (c ≡ true → before ≡ some v)
    → before ≡ or_else before (if c then some value else none)
kept true before v value h = rw (h refl) refl
kept false before v value h = sym (or_else-none before)

get-fill :
    (a b : Attribute) (found : Option Text) (value : Text) (d : Device)
    → get_attribute a d ≡ found
    → get_attribute b (fill found a value d)
      ≡ or_else (get_attribute b d) (if attribute_beq a b then some value else none)
get-fill a b none value d e =
    get-set a b value d
    ∙ filled_in (attribute_beq a b) (get_attribute b d) value
        (λ h. ap (λ c. get_attribute c d) (sym (attribute_beq_eq a b h)) ∙ e)
get-fill a b (some v) value d e =
    kept (attribute_beq a b) (get_attribute b d) v value
      (λ h. ap (λ c. get_attribute c d) (sym (attribute_beq_eq a b h)) ∙ e)

-- The value of the first of the fields that has the attribute, before a field that has none.
unfoldable pub value_for : Attribute → List (Text × Text) → Option Text
value_for b [] = none
value_for b ((field_name, value) ∷ fields) =
    let rest = value_for b fields in
    elim (attribute_of field_name) [
      | none ↦ none
      | some a ↦ or_else (if attribute_beq a b then some value else none) rest
    ]

or_else_assoc : (o p q : Option Text) → or_else (or_else o p) q ≡ or_else o (or_else p q)
or_else_assoc none p q = refl
or_else_assoc (some v) p q = refl

-- After the merge an attribute has the value that it had, and the value of its field only when it had none:
-- no value of another source is overwritten, and no field is lost that comes before one without an attribute.
pub merge-fallback :
    (fields : List (Text × Text)) (d : Device) (b : Attribute)
    → get_attribute b (merge fields d).0 ≡ or_else (get_attribute b d) (value_for b fields)
unfolding merge value_for attribute_of list_beq
merge-fallback [] d b = sym (or_else-none (get_attribute b d))
merge-fallback ((field_name, value) ∷ fields) d b = elim (Option-cases (attribute_of field_name)) [
  | inl e ↦ rw e (sym (or_else-none (get_attribute b d)))
  | inr (a, e) ↦ rw e (
      merge-fallback fields (fill (get_attribute a d) a value d) b
      ∙ ap (λ o. or_else o (value_for b fields)) (get-fill a b (get_attribute a d) value d refl)
      ∙ or_else_assoc (get_attribute b d) (if attribute_beq a b then some value else none)
          (value_for b fields))
]

-- Every field has an attribute.
abbrev pub AreKnown : List (Text × Text) → Type 0
AreKnown fields = All (λ p. (a : Attribute) × (attribute_of p.0 ≡ some a)) fields

pub merge-AreKnown :
    (fields : List (Text × Text)) (d : Device) → AreKnown fields → (merge fields d).1 ≡ true
unfolding merge attribute_of list_beq
merge-AreKnown [] d h = refl
merge-AreKnown ((field_name, value) ∷ fields) d (here, rest) =
    rw here.1 (merge-AreKnown fields (fill (get_attribute here.0 d) here.0 value d) rest)
