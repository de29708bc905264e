-- ===== src/Enrichment/Loop.antt =====
-- The loop of `enrich` over the hosts: what it collects, counts and publishes.
use network_mapper.Prelude.{
  ℕ, suc, ◌+◌, ◌≡◌, refl, sym, ap₂, ◌∙◌, Bool, true, false, not, List, [], ◌∷◌, ◌++◌, map,
  append-nil, append_assoc, arith, concat, if◌then◌else◌, length, select,
}
use network_mapper.Enrichment.{Collection, Event, Visits, enrich, query_host, visit, visit_all}
use network_mapper.Observations.{Observation}
use network_mapper.Prelude.Text.{Text}

if_append {ℓ} :
    {A : Type ℓ} (b : Bool) (xs added rest : List A)
    → (if b then xs ++ added else xs) ++ rest ≡ xs ++ ((if b then added else []) ++ rest)
if_append true xs added rest = append_assoc xs added rest
if_append false xs added rest = refl

counted {ℓ} :
    {A : Type ℓ} (b : Bool) (n : ℕ) (x : A) (xs : List A)
    → (if b then suc n else n) + length xs ≡ n + length (if b then x ∷ xs else xs)
counted true n x xs = omega arith
counted false n x xs = refl

uncounted {ℓ} :
    {A : Type ℓ} (b : Bool) (n : ℕ) (x : A) (xs : List A)
    → (if b then n else suc n) + length xs ≡ n + length (if not b then x ∷ xs else xs)
uncounted true n x xs = refl
uncounted false n x xs = omega arith

module _ {Entry : Type 0} (provider : Collection Entry) where
  -- Whether the host's query succeeds.
  abbrev pub responds : Text → Bool
  responds ip = (query_host provider.client ip).responded

  -- What one host adds to the observations.
  abbrev pub contribution : Text → List Observation
  contribution ip =
      let result = query_host provider.client ip in
      if result.responded then provider.collect ip result.entries else []

  -- The progress that is published from an index on.
  abbrev pub progress_from : ℕ → ℕ → List Text → List Event
  progress_from total index [] = []
  progress_from total index (ip ∷ ips) =
      Event.progress index total ∷ progress_from total (suc index) ips

  visit_all-collected :
      (total index : ℕ) (ips : List Text) (visits : Visits)
      → (visit_all provider total index ips visits).collected
        ≡ visits.collected ++ concat (map contribution ips)
  unfolding visit_all visit
  visit_all-collected total index [] visits = sym (append-nil visits.collected)
  visit_all-collected total index (ip ∷ ips) visits =
      visit_all-collected total (suc index) ips (visit provider total index ip visits)
      ∙ if_append (responds ip) visits.collected
          (provider.collect ip (query_host provider.client ip).entries)
          (concat (map contribution ips))

  visit_all-published :
      (total index : ℕ) (ips : List Text) (visits : Visits)
      → (visit_all provider total index ips visits).published
        ≡ visits.published ++ progress_from total index ips
  unfolding visit_all visit
  visit_all-published total index [] visits = sym (append-nil visits.published)
  visit_all-published total index (ip ∷ ips) visits =
      visit_all-published total (suc index) ips (visit provider total index ip visits)
      ∙ append_assoc visits.published (Event.progress index total ∷ [])
          (progress_from total (suc index) ips)

  visit_all-counts :
      (total index : ℕ) (ips : List Text) (visits : Visits)
      → ((visit_all provider total index ips visits).responding
          ≡ visits.responding + length (select responds ips))
        × ((visit_all provider total index ips visits).silent
            ≡ visits.silent + length (select (λ ip. not (responds ip)) ips))
  unfolding visit_all visit
  visit_all-counts total index [] visits = (omega arith, omega arith)
  visit_all-counts total index (ip ∷ ips) visits =
      let rest = visit_all-counts total (suc index) ips (visit provider total index ip visits) in
      (
        rest.0 ∙ counted (responds ip) visits.responding ip (select responds ips),
        rest.1 ∙ uncounted (responds ip) visits.silent ip (select (λ i. not (responds i)) ips),
      )

  count_all :
      (p : Text → Bool) (ips : List Text)
      → length (select p ips) + length (select (λ ip. not (p ip)) ips) ≡ length ips
  count_all p [] = refl
  count_all p (ip ∷ ips) = ground (arith, count_all p ips)

  -- A run over hosts collects, for each host in its order, what that host alone contributes: nothing
  -- when its query fails or raises. It counts the hosts that respond and the others, and these are all.
  -- It publishes the start, one step of progress for each host, numbered from 1, and the completion
  -- with the number of hosts that responded.
  pub enrich-account :
      (ips : List Text)
      → ((enrich provider ips).observations ≡ concat (map contribution ips))
        × ((enrich provider ips).events
            ≡ Event.phase_started (length ips) ∷ progress_from (length ips) 1 ips
              ++ Event.phase_completed (length (select responds ips)) (length ips) ∷ [])
        × ((enrich provider ips).diagnostics.hosts_responded ≡ length (select responds ips))
        × ((enrich provider ips).diagnostics.hosts_responded
              + (enrich provider ips).diagnostics.hosts_timed_out
            ≡ (enrich provider ips).diagnostics.hosts_eligible)
  unfolding enrich
  enrich-account ips =
      let total = length ips in
      let start : Visits = record {
        collected = [];
        published = Event.phase_started total ∷ [];
        responding = 0;
        silent = 0;
        hosts = [];
      } in
      let counts = visit_all-counts total 1 ips start in
      (
        visit_all-collected total 1 ips start,
        ap₂ (λ published n. published ++ Event.phase_completed n total ∷ [])
            (visit_all-published total 1 ips start) (counts.0 ∙ omega arith),
        counts.0 ∙ omega arith,
        ap₂ (λ m n. m + n) counts.0 counts.1 ∙ omega (arith, count_all responds ips),
      )
