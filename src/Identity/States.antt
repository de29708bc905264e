-- ===== src/Identity/States.antt =====
-- What the corroboration states say about the observations.
use mathlib.Core.Logic.Iff
use network_mapper.Prelude.{
  ℕ, ◌≤◌, ◌≡◌, ◌≢◌, ◌↔◌, sym, ◌∙◌, inl, inr, Bool, true, false, List, [], ◌⊎◌, map, any, any-none,
  any-map, length, length-map, arith, Bool-cases,
}
use network_mapper.Prelude.Text.{Text}
use network_mapper.Prelude.Ord.{nat_ord, list_ord, list_le}
use network_mapper.Prelude.Eq.{nat_eq, list_eq, pair_eq, elem}
use network_mapper.Prelude.Sort.{sort}
use network_mapper.Prelude.Group.{of_key, of_key-absent, group_keys, elem-group_keys}
use network_mapper.Prelude.Reorder.{elem-sort}
use network_mapper.Prelude.Sets.{AreEqual, length-le_one}
use network_mapper.Prelude.Unions.{
  AreEqual-members, any-elem, length-all_values_le_one, length-group_set_le_one,
}
use network_mapper.Prelude.Tables.{table-sorted_keys}
use network_mapper.Observations.{IdentityObservation}
use network_mapper.Identity.Evidence.{resolve_subject-properties}
use network_mapper.Identity.{
  State, PropertyCorroboration, state_eq, has_state, property_state, observation_source,
  resolve_property, roll_up_identity_state, resolve_subject, name-resolve_property,
}

module _ (n m : ℕ) where
  property_state-conflicting : (property_state n m ≢ State.conflicting) ↔ (n ≤ 1)
  property_state-conflicting = ground arith

  property_state-confirmed : (property_state n m ≡ State.confirmed) ↔ ((n ≤ 1) × (2 ≤ m))
  property_state-confirmed = ground arith

  property_state-weak : (property_state n m ≡ State.weak) ↔ ((n ≤ 1) × (m ≤ 1))
  property_state-weak = ground arith

any-absent :
    (f : Text → Bool) (k : Text) (ks : List Text)
    → any f ks ≡ false
    → elem k ks ≡ true
    → f k ≡ false
any-absent f k ks h m = elim (Bool-cases (f k)) [ inl t ↦ cc (any-elem f k ks m t) | inr t ↦ t ]

two_le : (m : ℕ) → ¬ (m ≤ 1) → 2 ≤ m
two_le m h = omega arith

-- The states by the facts that the two counts stand for.
states :
    (n m : ℕ) {P Q : Type 0}
    → (n ≤ 1) ↔ P
    → (m ≤ 1) ↔ Q
    → ((property_state n m ≢ State.conflicting) ↔ P)
      × ((property_state n m ≡ State.confirmed) ↔ (P × ¬ Q))
      × ((property_state n m ≡ State.weak) ↔ (P × Q))
      × (property_state n m ≢ State.probable)
states n m h k = (
  Iff.trans (property_state-conflicting n m) h,
  Iff.trans (property_state-confirmed n m) (
    λ a. (h.0 a.0, λ q. omega (arith, k.1 q)),
    λ a. (h.1 a.0, two_le m (λ small. a.1 (k.0 small))),
  ),
  Iff.trans (property_state-weak n m) (λ a. (h.0 a.0, k.0 a.1), λ a. (h.1 a.0, k.1 a.1)),
  ground arith,
)

-- A property conflicts exactly if two of its observations differ in value; else it is confirmed if
-- two of them are from different sources, and weak if not. It is never probable.
pub resolve_property-state :
    (p : Text) (os : List IdentityObservation)
    → (((resolve_property p os).state ≢ State.conflicting) ↔ AreEqual (map (λ o. o.value) os))
      × (((resolve_property p os).state ≡ State.confirmed)
          ↔ (AreEqual (map (λ o. o.value) os) × ¬ AreEqual (map observation_source os)))
      × (((resolve_property p os).state ≡ State.weak)
          ↔ (AreEqual (map (λ o. o.value) os) × AreEqual (map observation_source os)))
      × ((resolve_property p os).state ≢ State.probable)
unfolding resolve_property
resolve_property-state p os =
    states _ _ (length-all_values_le_one observation_source (λ o. o.value) os)
      (length-group_set_le_one observation_source (λ o. o.value) os)

else_weak :
    (t : State) → t ≢ State.confirmed → t ≢ State.conflicting → t ≢ State.probable → t ≡ State.weak
else_weak t h k l = ground arith

-- The observations of one property of a subject.
abbrev pub of_property : Text → List IdentityObservation → List IdentityObservation
of_property p os = of_key (λ o. o.property_name) p os

-- No property has two values,
abbrev pub IsConsistent : List IdentityObservation → Type 0
IsConsistent os = (p : Text) → AreEqual (map (λ o. o.value) (of_property p os))

-- no property has two sources,
abbrev pub IsSingleSourced : List IdentityObservation → Type 0
IsSingleSourced os = (p : Text) → AreEqual (map observation_source (of_property p os))

-- and there are no two properties.
abbrev pub IsSingleProperty : List IdentityObservation → Type 0
IsSingleProperty os = AreEqual (map (λ o. o.property_name) os)

state_eq-ne : (a b : State) → (state_eq a b ≡ false) ↔ (a ≢ b)
state_eq-ne a b = ground arith

module _ (s : Text) (os : List IdentityObservation) where
  names : List Text
  names = sort list_le (group_keys (λ o. o.property_name) os)

  state_at : Text → State
  state_at p = (resolve_property p (of_property p os)).state

  properties-names :
      (resolve_subject s os).properties ≡ map (λ p. resolve_property p (of_property p os)) names
  unfolding resolve_subject names
  properties-names =
      table-sorted_keys (λ o. o.property_name) (λ c. c.property_name) resolve_property
        name-resolve_property os

  has_state-names :
      (t : State)
      → has_state t (resolve_subject s os).properties ≡ any (λ p. state_eq (state_at p) t) names
  unfolding state_at
  has_state-names t = rw properties-names (any-map _ _ names)

  state_at-absent : (p : Text) → elem p names ≡ false → state_at p ≡ State.weak
  unfolding state_at names
  state_at-absent p h =
      let absent : elem p (map (λ o. o.property_name) os) ≡ false =
        sym (elem-group_keys (λ o. o.property_name) p os) ∙ sym (elem-sort list_le p _) ∙ h in
      let empty : of_property p os ≡ [] =
        of_key-absent (λ (o : IdentityObservation). o.property_name) p os absent in
      (resolve_property-state p (of_property p os)).2.1 (rw empty (λ v w q r. cc, λ v w q r. cc))

  -- A state that no property has: an absent property has no observation, so it is weak.
  has_state-none :
      (t : State)
      → State.weak ≢ t
      → (has_state t (resolve_subject s os).properties ≡ false) ↔ ((p : Text) → state_at p ≢ t)
  has_state-none t ne = (
    λ h p. (state_eq-ne (state_at p) t).0 (fails h p (Bool-cases (elem p names))),
    λ h. has_state-names t ∙ any-none _ names (λ p. (state_eq-ne _ t).1 (h p)),
  )
    where
      fails :
          has_state t (resolve_subject s os).properties ≡ false
          → (p : Text) → (elem p names ≡ true) ⊎ (elem p names ≡ false)
          → state_eq (state_at p) t ≡ false
      fails h p (inl m) = any-absent _ p names (sym (has_state-names t) ∙ h) m
      fails h p (inr m) = (state_eq-ne (state_at p) t).1 (λ q. ne (sym (state_at-absent p m) ∙ q))

  conflicts :
      (has_state State.conflicting (resolve_subject s os).properties ≡ false) ↔ IsConsistent os
  unfolding state_at
  conflicts = Iff.trans (has_state-none State.conflicting (λ e. cc)) (
    λ h p. (resolve_property-state p (of_property p os)).0.0 (h p),
    λ h p. (resolve_property-state p (of_property p os)).0.1 (h p),
  )

  confirmations :
      IsConsistent os
      → (has_state State.confirmed (resolve_subject s os).properties ≡ false) ↔ IsSingleSourced os
  unfolding state_at
  confirmations c = Iff.trans (has_state-none State.confirmed (λ e. cc)) (
    λ h p.
        ((resolve_property-state p (of_property p os)).2.0 (
          else_weak (state_at p) (h p) ((resolve_property-state p (of_property p os)).0.1 (c p))
            (resolve_property-state p (of_property p os)).3)).1,
    λ h p q. ((resolve_property-state p (of_property p os)).1.0 q).1 (h p),
  )

  breadth : (length (resolve_subject s os).properties ≤ 1) ↔ IsSingleProperty os
  breadth =
      let (_, distinct, members) = resolve_subject-properties s os in
      rw
        (← length-map (λ (c : PropertyCorroboration). c.property_name)
          (resolve_subject s os).properties)
        (Iff.trans (length-le_one _ distinct) (AreEqual-members _ _ members))

module _ (ps : List PropertyCorroboration) where
  abbrev conflict : Bool
  conflict = has_state State.conflicting ps

  abbrev confirmation : Bool
  confirmation = has_state State.confirmed ps

  rolled-conflicting : (roll_up_identity_state ps ≢ State.conflicting) ↔ (conflict ≡ false)
  unfolding roll_up_identity_state
  rolled-conflicting = ground arith

  rolled-confirmed :
      (roll_up_identity_state ps ≡ State.confirmed) ↔ ((conflict ≡ false) × (confirmation ≡ true))
  unfolding roll_up_identity_state
  rolled-confirmed = ground arith

  rolled-probable :
      (roll_up_identity_state ps ≡ State.probable)
      ↔ ((conflict ≡ false) × (confirmation ≡ false) × (2 ≤ length ps))
  unfolding roll_up_identity_state
  rolled-probable = ground arith

  rolled-weak :
      (roll_up_identity_state ps ≡ State.weak)
      ↔ ((conflict ≡ false) × (confirmation ≡ false) × (length ps ≤ 1))
  unfolding roll_up_identity_state
  rolled-weak = ground arith

ne_false : (b : Bool) → ¬ (b ≡ false) → b ≡ true
ne_false b h = ground arith

ne_true : (b : Bool) → b ≡ true → ¬ (b ≡ false)
ne_true b h k = cc

-- The rollup by the facts that its three tests stand for.
rollup :
    (ps : List PropertyCorroboration) {P Q R : Type 0}
    → (has_state State.conflicting ps ≡ false) ↔ P
    → (P → (has_state State.confirmed ps ≡ false) ↔ Q)
    → (length ps ≤ 1) ↔ R
    → ((roll_up_identity_state ps ≢ State.conflicting) ↔ P)
      × ((roll_up_identity_state ps ≡ State.confirmed) ↔ (P × ¬ Q))
      × ((roll_up_identity_state ps ≡ State.probable) ↔ (P × Q × ¬ R))
      × ((roll_up_identity_state ps ≡ State.weak) ↔ (P × Q × R))
rollup ps p q r = (
  Iff.trans (rolled-conflicting ps) p,
  Iff.trans (rolled-confirmed ps) (
    λ a. let c = p.0 a.0 in (c, λ u. ne_true _ a.1 ((q c).1 u)),
    λ a. (p.1 a.0, ne_false _ (λ d. a.1 ((q a.0).0 d))),
  ),
  Iff.trans (rolled-probable ps) (
    λ a. let c = p.0 a.0 in (c, (q c).0 a.1, λ u. omega (arith, r.1 u)),
    λ a. (p.1 a.0, (q a.0).1 a.1, two_le _ (λ small. a.2 (r.0 small))),
  ),
  Iff.trans (rolled-weak ps)
      (λ a. let c = p.0 a.0 in (c, (q c).0 a.1, r.0 a.2), λ a. (p.1 a.0, (q a.0).1 a.1, r.1 a.2)),
)

-- The state of a subject's identity, by its observations alone. It is conflicting exactly if some
-- property has two values, be they of two sources or of one. Otherwise it is confirmed if some property has two sources, else
-- probable if there are two properties, and else weak.
pub resolve_subject-state :
    (s : Text) (os : List IdentityObservation)
    → (((resolve_subject s os).state ≢ State.conflicting) ↔ IsConsistent os)
      × (((resolve_subject s os).state ≡ State.confirmed)
          ↔ (IsConsistent os × ¬ IsSingleSourced os))
      × (((resolve_subject s os).state ≡ State.probable)
          ↔ (IsConsistent os × IsSingleSourced os × ¬ IsSingleProperty os))
      × (((resolve_subject s os).state ≡ State.weak)
          ↔ (IsConsistent os × IsSingleSourced os × IsSingleProperty os))
resolve_subject-state s os =
    let rolled =
      rollup (resolve_subject s os).properties (conflicts s os) (confirmations s os)
        (breadth s os) in
    unfold resolve_subject in rolled
