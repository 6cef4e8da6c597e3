-- ===== src/Tests/Funnel.antt =====
-- Runs of the selector.
use Prim.Native.Nat.{Ordering}
use atenea.Prelude.Int.{pos}
use atenea.Prelude.Float.{Float64, float_one, float_zero}
use atenea.Prelude.Str.{Str, codes, str_eq, trim_space}
use atenea.Prelude.{
  ℕ, ◌≡◌, ◌≢◌, refl, ◌⊎◌, inl, inr, true, false, List, [], ◌∷◌, none, some, map, keep, In, All,
  lookup,
}
use atenea.Contract.Enums.{
  rank, scale_unspecified, vcs_present, health_alive, HealthState, scope_unspecified,
}
use atenea.Contract.Implementation.{
  Constraints, Sample, Cost, Health, Implementation, Repository, has_measurements, barren,
  effective,
}
use atenea.Contract.Value.{end}
use atenea.Selector.Quality.{Observation, tested}
use atenea.Selector.Types.{
  Rule, Request, Decision, decided, failed, Stage, Notice, Settled, one_call_preference,
}
use atenea.Selector.Funnel.{refresh, filter_constraints, filter_reach, filter_health, eligible}
use atenea.Selector.Funnel.Survivors.{
  passes, survivors, survivors-eligible, Accounts, stages-Accounts,
}
use atenea.Selector.Rank.{
  settling_rank, rank_tail, quality_compare, owes_more, cheaper, dominated, in_break_in, rank_with,
  rank_with_quality,
}
use atenea.Selector.Rank.Order.{Before}
use atenea.Selector.Choose.{choose_ranked, choose}
use atenea.Selector.Choose.Best.{SameHealth, choose_ranked-best}
use atenea.Selector.Choose.Preference.{choose-prefers}
use atenea.Selector.Select.{Selector, names_nobody, select}
use atenea.Selector.Select.Laws.{FromEligible, select_lem, first_empty}

abbrev sample : ℕ → ℕ → Sample
sample tokens duration = record { duration = pos duration; tokens = pos tokens; peak_rss = pos 0 }

abbrev cost : Sample → ℕ → ℕ → Cost
cost s samples attempts = record {
  estimated = s;
  measured = s;
  samples = pos samples;
  attempts = pos attempts;
  tool_version = [];
}

abbrev no_constraints : Constraints
no_constraints = record {
  languages = [];
  requires_vcs = false;
  min_scale = scale_unspecified;
  max_scale = scale_unspecified;
  max_input = [];
}

abbrev state : HealthState → Health
state s = record { state = s; score = float_one; reason = []; raw = []; observed_at = 0 }

abbrev implementation : Str → Cost → Implementation
implementation id c = record {
  id = id;
  provider = id;
  config_digest = [];
  capability = codes "code.search";
  constraints = no_constraints;
  cost = c;
  health = state health_alive;
  scope_guarantee = scope_unspecified;
}

-- The three candidates that the comment on `dominationCounts` measures.
abbrev alpha : Implementation
alpha = implementation (codes "alpha") (cost (sample 2000 2) 0 0)

abbrev bravo : Implementation
bravo = implementation (codes "bravo") (cost (sample 500 9) 0 0)

abbrev charlie : Implementation
charlie = implementation (codes "charlie") (cost (sample 1000 1) 0 0)

abbrev repository : Repository
repository = record {
  id = codes "api";
  path = codes "/srv/api";
  languages = codes "go" ∷ [];
  scale = scale_unspecified;
  vcs = vcs_present;
}

abbrev three : List Implementation
three = alpha ∷ bravo ∷ charlie ∷ []

abbrev request : Request
request = record {
  capability = codes "code.search";
  repository = repository;
  candidates = three;
  reachable = codes "alpha" ∷ codes "bravo" ∷ codes "charlie" ∷ [];
  unreachable = [];
  measuring = false;
  payload = end;
  prefer = [];
  quality = [];
  language = codes "go";
  observed_versions = [];
  observed_instances = [];
  observed_config_digests = [];
}

abbrev selector : Selector
selector = record {
  rules = [];
  health_stale_after = pos 0;
  digest = λ i. i.id;
  scope = λ r. r.path;
  snapshot_version = λ a b c d e f g. none;
  minimum_samples = 2;
  durable = false;
}

survivors-eligible_example :
    survivors 1 (pos 0) request three
    ≡ map (refresh 1 (pos 0)) (keep (λ i. passes (eligible 1 (pos 0) request i)) three)
survivors-eligible_example = survivors-eligible 1 (pos 0) request three

stages-Accounts_example :
    Accounts three (filter_constraints request three)
    × Accounts three (filter_reach request three)
    × Accounts three (filter_health 1 (pos 0) three)
stages-Accounts_example = stages-Accounts 1 (pos 0) request three

choose_ranked-best_example :
    (chosen : Implementation) × (why : Settled) × (said : List Notice) × (choose_ranked request
        three [] 2 []
      ≡ some (chosen, why, said))
    × In chosen three
    × All (λ s. ¬ Before (dominated three) s chosen) three
    × All (λ s. SameHealth s chosen → cheaper s chosen ≡ false) three
choose_ranked-best_example =
    choose_ranked-best request alpha (bravo ∷ charlie ∷ []) [] 2 []
      ((refl, refl), ((refl, refl), ((refl, refl), tt))) tt

choose-prefers_example :
    (chosen : Implementation) × (choose [] request bravo.id three [] 2
      ≡ some (chosen, one_call_preference chosen.id bravo.id, []))
    × (chosen.id ≡ bravo.id)
    × In chosen three
unfolding str_eq
choose-prefers_example = choose-prefers [] request [] 2 three bravo (λ e. cc) (inr (inl refl)) refl

abbrev rules : List Rule
rules =
    record { capability = codes "code.search"; repository = []; prefer = codes "alpha" }
    ∷ record { capability = codes "code.search"; repository = codes "api"; prefer = codes "bravo" }
    ∷ []

select_lem_example :
    ((d : Decision) × (select selector 1 request ≡ decided d)
      × FromEligible 1 (pos 0) request d.chosen)
    ⊎ ((stages : List Stage) × (select selector 1 request
          ≡ failed (first_empty selector 1 request) stages)
        × ((i : Implementation) → In i three → eligible 1 (pos 0) request i ≢ none))
unfolding names_nobody trim_space str_eq
select_lem_example = select_lem selector 1 request refl

-- `alpha` failed four times over; `bravo` holds one measurement.
abbrev spent : Implementation
spent = record alpha { cost = cost (sample 2000 2) 0 4 }

abbrev halfway : Implementation
halfway = record bravo { cost = cost (sample 1 1) 1 1 }

-- The spent candidate goes first, though the other is on its way.
barren_goes_first : rank_with true (dominated (spent ∷ halfway ∷ [])) spent halfway ≡ Ordering.lt
unfolding rank_with rank_tail owes_more barren in_break_in has_measurements dominated cheaper
    effective settling_rank rank
barren_goes_first = refl

abbrev observation : Float64 → Observation
observation score = record {
  capability = [];
  repository = [];
  repository_root = [];
  implementation = [];
  language = [];
  tool_version = [];
  instance_id = [];
  config_digest = [];
  samples = 2;
  total = 2;
  valid_count = 2;
  accepted_count = 2;
  complete_count = 2;
  partial_count = 0;
  truncated_count = 0;
  failure_count = 0;
  accepted = true;
  complete = true;
  truncated = false;
  out_of_scope = pos 0;
  valid_outcome = true;
  validated = true;
  score = score;
  observed_at = 1;
}

abbrev evidence : List (Str × Observation)
evidence = (alpha.id, observation float_one) ∷ (charlie.id, observation float_zero) ∷ []

-- Three candidates of falling cost, the dearest with the best evidence.
abbrev dear : Implementation
dear = implementation (codes "alpha") (cost (sample 3 3) 2 2)

abbrev fair : Implementation
fair = implementation (codes "bravo") (cost (sample 2 2) 2 2)

abbrev cheap : Implementation
cheap = implementation (codes "charlie") (cost (sample 1 1) 2 2)

abbrev counts : Implementation → ℕ
counts = dominated (dear ∷ fair ∷ cheap ∷ [])

-- Each goes before the next, and the last before the first.
comparison_goes_round :
    (rank_with_quality false counts evidence 2 [] dear cheap ≡ Ordering.lt)
    × (rank_with_quality false counts evidence 2 [] cheap fair ≡ Ordering.lt)
    × (rank_with_quality false counts evidence 2 [] fair dear ≡ Ordering.lt)
unfolding rank_with_quality quality_compare rank_with rank_tail owes_more barren in_break_in lookup
    str_eq tested dominated cheaper effective has_measurements settling_rank rank
comparison_goes_round = (refl, refl, refl)
