-- ===== src/Tests/Settled.antt =====
-- Two passes in a world whose status functions keep the conditions.
use kubetraffic.Prelude.{Bool, true, false, [], List, ◌∷◌, if◌then◌else◌, ◌&&◌, str_eq}
use kubetraffic.Prelude.Int.{eqb_ℤ}
use kubetraffic.Api.{Condition}
use kubetraffic.Controller.{Env, Survey, no_survey, record_rule, Libraries}
use kubetraffic.Tests.Data.{payment_rule, libraries}
use kubetraffic.Tests.Served.{serving, served_resolution}

upsert : List Condition → Condition → List Condition
upsert [] c = c ∷ []
upsert (d ∷ rest) c =
    let more = upsert rest c in if str_eq d.kind c.kind then c ∷ rest else d ∷ more

-- The generations, and the kinds of the conditions, agree.
same_kinds : List Condition → List Condition → Bool
same_kinds [] [] = true
same_kinds (c ∷ cs) (d ∷ ds) = str_eq c.kind d.kind && same_kinds cs ds
same_kinds _ _ = false

abbrev keeping : Libraries
keeping = record libraries {
  set_condition = upsert;
  status_equal = λ a b.
      eqb_ℤ a.observed_generation b.observed_generation && same_kinds a.conditions b.conditions;
}

abbrev stable : Env
stable = record serving { libraries = keeping }

abbrev stable_survey : Survey
stable_survey = record_rule stable payment_rule served_resolution no_survey
