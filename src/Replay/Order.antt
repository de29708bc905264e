-- ===== src/Replay/Order.antt =====
-- networkmapper/observations/replay_format.py: the artifact and the order of the observations.
use mathlib.Core.Logic.{∥∥₁_elim}
use native.Mathlib.Decide.{ℕ_discrete}
use mathlib.Core.List.{Perm}
use network_mapper.Prelude.{
  ◌≡◌, refl, sym, ap, ◌∙◌, Option, none, some, List, [], ◌∷◌, some_injective,
}
use network_mapper.Observations.{Observation}
use network_mapper.Prelude.Decimal.{int_eq}
use network_mapper.Prelude.Eq.{list_beq, list_eq, nat_eq, option_eq, pair_eq, ◌==◌}
use network_mapper.Prelude.Ord.{list_ord, nat_ord}
use network_mapper.Prelude.Reorder.{All-trivial}
use network_mapper.Prelude.Sort.{sort_by-permᴰ}
use network_mapper.Prelude.Text.{Text, codes}
use network_mapper.Replay.Reader.{observation_of}
use network_mapper.Replay.Records.{observation_key}
use network_mapper.Replay.RoundTrip.{
  replay_document, serialize_observations-replay_document, written,
}
use network_mapper.Replay.Writer.{serialize_observations}
use network_mapper.Snmp.Rows.{rem_key_eq}

-- The observation of the fields in the order of the sort key.
abbrev of_key : List Text → Option Observation
of_key (ty ∷ subject ∷ third ∷ fourth ∷ provider ∷ method ∷ run ∷ at ∷ []) = some (
    observation_of (ty == codes "identity") subject third fourth (record {
      provider = provider;
      collection_method = method;
      observed_at = at;
      source_run = run;
    }))
of_key _ = none

of_key-observation_key : (o : Observation) → of_key (observation_key o) ≡ some o
unfolding list_beq
of_key-observation_key (Observation.identity o) = refl
of_key-observation_key (Observation.relationship o) = refl

observation_key-injective : (o p : Observation) → observation_key o ≡ observation_key p → o ≡ p
observation_key-injective o p h =
    some_injective (sym (of_key-observation_key o) ∙ ap of_key h ∙ of_key-observation_key p)

List-IsSet : IsSet (List Observation)
List-IsSet = hlevel ℕ_discrete

-- The artifact is the same for every order of the same observations.
pub serialize_observations-perm :
    (os ps : List Observation) → Perm os ps → serialize_observations os ≡ serialize_observations ps
serialize_observations-perm os ps r =
    serialize_observations-replay_document os
    ∙ ap (λ sorted. replay_document (written sorted))
        (∥∥₁_elim r (List-IsSet _ _) (λ q.
          sort_by-permᴰ observation_key (λ o. Unit {0}) (λ o p h k. observation_key-injective o p) q
            (All-trivial os)))
    ∙ sym (serialize_observations-replay_document ps)
