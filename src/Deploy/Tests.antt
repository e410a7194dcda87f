-- ===== src/Deploy/Tests.antt =====
-- The theorems of the deployment client at concrete inputs.
use temporal_serverless_rain.Base.{ltb, false}
use temporal_serverless_rain.Deploy.Publish.{publish_label, publish_from, published, gave_up}
use temporal_serverless_rain.Base.{
  ◌≡◌, refl, ℕ, String, [], ◌∷◌, Option, none, some, ◌==◌, if◌then◌else◌, ◌≢◌, ◌⊎◌, All, List, pos,
}
use temporal_serverless_rain.Base.Float.{float}
use temporal_serverless_rain.Deploy.Types.{Routing}
use temporal_serverless_rain.Deploy.Describe.{Summary, RoutingConfig, unspecified, resolve_label}
use temporal_serverless_rain.Deploy.Describe.Laws.{Exists, resolve_label_lem}
use temporal_serverless_rain.Deploy.Labels.{failed, labelled, label, lookup}
use temporal_serverless_rain.Deploy.Labels.Laws.{after_calls, label_permanent}
use temporal_serverless_rain.Deploy.Restore.{restore_routing}
use temporal_serverless_rain.Deploy.Restore.Laws.{Outcomes, restore_routing-Outcomes}

abbrev found : Routing
found = record {
  current_build_id = "b3";
  current_label = "v3";
  ramping_build_id = "b2";
  ramping_label = "v2";
  ramping_pct = float 5;
}

abbrev second_fails : ℕ → Option String
second_fails n = if n == 1 then some "unavailable" else none

restore_routing-Outcomes_example : Outcomes second_fails found (restore_routing second_fails found)
restore_routing-Outcomes_example = restore_routing-Outcomes second_fails found

label_permanent_example :
    ((label (labelled "v3") "b3" []).0 ≡ "v3")
    × (label failed "b3"
          (after_calls ((labelled "v4", "b4") ∷ []) (label (labelled "v3") "b3" []).1)
        ≡ ("v3", after_calls ((labelled "v4", "b4") ∷ []) (label (labelled "v3") "b3" []).1))
unfolding lookup
label_permanent_example =
    label_permanent "b3" "v3" [] ((labelled "v4", "b4") ∷ []) failed refl refl refl

abbrev same : String → String
same b = b

abbrev config : RoutingConfig
config = record { current = some "v3"; ramping = some "v4"; ramping_pct = float 5 }

abbrev listed : List Summary
listed =
    record { build_id = "v4"; create_time = pos 2; drainage = unspecified }
    ∷ record { build_id = "v3"; create_time = pos 1; drainage = unspecified }
    ∷ []

resolve_label_lem_example :
    ((b : String) × (resolve_label same config listed "v4" ≡ some b)
      × Exists (λ s. (s.build_id ≡ b) × (same s.build_id ≡ "v4")) listed)
    ⊎ ((resolve_label same config listed "v4" ≡ none) × All (λ s. same s.build_id ≢ "v4") listed)
resolve_label_lem_example = resolve_label_lem same config listed "v4"

-- The version is registered at its first poll, before the third attempt.
third : publish_label (λ n. ltb 2 n) (λ n. false) ≡ published 3
unfolding publish_label publish_from
third = refl

never : publish_label (λ n. false) (λ n. false) ≡ gave_up
unfolding publish_label publish_from
never = refl
