-- ===== src/Prelude/Split.antt =====
-- Python's `sep.join(parts)` and `s.split(sep)` for a separator of one character, slices, and the
-- comprehension that stops at the first exception.
use Prim.Native.Nat.{ℕ, zero, suc}
use mathlib.Core.Path.{◌≡◌, refl, ap, ◌∙◌}
use mathlib.Core.Bool.{true, false}
use mathlib.Core.Option.{Option, none, some}
use mathlib.Core.List.{List, [], ◌∷◌, ◌++◌, map}
use native.Mathlib.Omega.{arith}
use network_mapper.Prelude.Tests.{nat_beq, if◌then◌else◌}
use network_mapper.Prelude.Lists.{All, length}
use network_mapper.Prelude.Text.{Text, starts_with}

-- `xs[:n]`
abbrev pub take {ℓ} : {A : Type ℓ} → ℕ → List A → List A
take zero xs = []
take (suc n) [] = []
take (suc n) (x ∷ xs) = x ∷ take n xs

-- `xs[n:]`
abbrev pub drop {ℓ} : {A : Type ℓ} → ℕ → List A → List A
drop zero xs = xs
drop (suc n) [] = []
drop (suc n) (x ∷ xs) = drop n xs

-- `sep.join(parts)`
unfoldable pub join : Text → List Text → Text
join sep [] = []
join sep (p ∷ []) = p
join sep (p ∷ q ∷ ps) = p ++ (sep ++ join sep (q ∷ ps))

abbrev pub onto_first : ℕ → List Text → List Text
onto_first c [] = (c ∷ []) ∷ []
onto_first c (p ∷ ps) = (c ∷ p) ∷ ps

-- `s.split(sep)`
unfoldable pub split : ℕ → Text → List Text
split sep [] = [] ∷ []
split sep (c ∷ s) = let rest = split sep s in if nat_beq c sep then [] ∷ rest else onto_first c rest

abbrev pub onto_read {ℓ} : {A : Type ℓ} → A → Option (List A) → Option (List A)
onto_read a none = none
onto_read a (some more) = some (a ∷ more)

-- `[f(x) for x in xs]` where f may raise.
abbrev pub traverse {ℓ κ} : {A : Type ℓ} {B : Type κ} → (A → Option B) → List A → Option (List B)
traverse f [] = some []
traverse f (x ∷ xs) = elim (f x) [ none ↦ none | some y ↦ onto_read y (traverse f xs) ]

pub traverse-map {ℓ κ μ} :
    {A : Type ℓ} {B : Type κ} {C : Type μ} (f : B → Option C) (g : A → B) (h : A → C) (xs : List A)
    → ((a : A) → f (g a) ≡ some (h a))
    → traverse f (map g xs) ≡ some (map h xs)
traverse-map f g h [] e = refl
traverse-map f g h (x ∷ xs) e = rw (e x) (rw (traverse-map f g h xs e) refl)

-- The text has no such character.
abbrev pub Lacks : ℕ → Text → Type 0
Lacks sep s = All (λ c. nat_beq c sep ≡ false) s

split-lacking : (sep : ℕ) (s : Text) → Lacks sep s → split sep s ≡ s ∷ []
unfolding split
split-lacking sep [] h = refl
split-lacking sep (c ∷ s) h = rw h.0 (ap (onto_first c) (split-lacking sep s h.1))

split-append : (sep : ℕ) (p s : Text) → Lacks sep p → split sep (p ++ (sep ∷ s)) ≡ p ∷ split sep s
unfolding split
split-append sep [] s h = ground arith
split-append sep (c ∷ p) s h = rw h.0 (ap (onto_first c) (split-append sep p s h.1))

-- Splitting what was joined gives the parts back when there is a part and none has the separator.
pub split-join :
    (sep : ℕ) (p : Text) (ps : List Text)
    → Lacks sep p
    → All (Lacks sep) ps
    → split sep (join (sep ∷ []) (p ∷ ps)) ≡ p ∷ ps
unfolding join
split-join sep p [] h k = split-lacking sep p h
split-join sep p (q ∷ ps) h k =
    split-append sep p (join (sep ∷ []) (q ∷ ps)) h
    ∙ ap (λ qs. p ∷ qs) (split-join sep q ps k.0 k.1)

pub starts_with-append : (p s : Text) → starts_with p (p ++ s) ≡ true
unfolding starts_with
starts_with-append [] s = refl
starts_with-append (c ∷ p) s = ground (arith, starts_with-append p s)

pub drop-append {ℓ} : {A : Type ℓ} (xs ys : List A) → drop (length xs) (xs ++ ys) ≡ ys
drop-append [] ys = refl
drop-append (x ∷ xs) ys = drop-append xs ys
