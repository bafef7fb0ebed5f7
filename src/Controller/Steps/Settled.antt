-- ===== src/Controller/Steps/Settled.antt =====
-- A status that was written once is not written again.
use kubetraffic.Prelude.{
  ◌≡◌, refl, ap, ◌∙◌, ◌≢◌, true, Option, none, some, List, [], ◌∷◌, if◌then◌else◌, Str, str_eq, All,
  Distinct, Differs,
}
use kubetraffic.Prelude.Int.{ℤ}
use kubetraffic.Api.{TrafficRoute, TrafficRouteStatus, TrafficRoutePhase, RouteStatus, Condition}
use kubetraffic.Controller.World.{Env, Libraries}
use kubetraffic.Controller.Steps.{set_conditions, updated_status, apply_status}

-- The first condition of a kind.
abbrev pub find_condition : Str → List Condition → Option Condition
find_condition k [] = none
find_condition k (c ∷ rest) = if str_eq c.kind k then some c else find_condition k rest

abbrev pub kinds : List Condition → List Str
kinds [] = []
kinds (c ∷ rest) = c.kind ∷ kinds rest

-- `meta.SetStatusCondition` sets the condition of one kind and leaves the others; one that is there
-- already, with the same fields, it leaves as it is. `DeepEqual` holds of equal statuses.
pub record KeepsConditions (libs : Libraries) : Type 0 where
  pub set_is_found :
      (cs : List Condition) (c : Condition)
      → find_condition c.kind (libs.set_condition cs c) ≡ some c
  pub set_keeps_others :
      (k : Str) (cs : List Condition) (c : Condition)
      → k ≢ c.kind
      → find_condition k (libs.set_condition cs c) ≡ find_condition k cs
  pub set_keeps_equal :
      (cs : List Condition) (c : Condition)
      → find_condition c.kind cs ≡ some c
      → libs.set_condition cs c ≡ cs
  pub equal_is_equal : (st : TrafficRouteStatus) → libs.status_equal st st ≡ true

abbrev stamped : ℤ → Condition → Condition
stamped generation c = record c { observed_generation = generation }

-- The list has a condition as the generation stamps it.
abbrev IsStamped : ℤ → List Condition → Condition → Type 0
IsStamped generation cs c = find_condition c.kind cs ≡ some (stamped generation c)

module _ (env : Env) (laws : KeepsConditions env.libraries) (generation : ℤ) where
  find-set_conditions :
      (k : Str) (old conds : List Condition)
      → Differs k (kinds conds)
      → find_condition k (set_conditions env generation old conds) ≡ find_condition k old
  unfolding set_conditions
  find-set_conditions k old [] h = refl
  find-set_conditions k old (c ∷ rest) h =
      find-set_conditions k (env.set_condition old (stamped generation c)) rest h.1
      ∙ laws.set_keeps_others k old (stamped generation c) h.0

  set_conditions-IsStamped :
      (old conds : List Condition)
      → Distinct (kinds conds)
      → All (IsStamped generation (set_conditions env generation old conds)) conds
  unfolding set_conditions
  set_conditions-IsStamped old [] h = tt
  set_conditions-IsStamped old (c ∷ rest) h = (
    find-set_conditions c.kind (env.set_condition old (stamped generation c)) rest h.0
        ∙ laws.set_is_found old (stamped generation c),
    set_conditions-IsStamped (env.set_condition old (stamped generation c)) rest h.1,
  )

  set_conditions-kept :
      (cs conds : List Condition)
      → All (IsStamped generation cs) conds
      → set_conditions env generation cs conds ≡ cs
  unfolding set_conditions
  set_conditions-kept cs [] h = refl
  set_conditions-kept cs (c ∷ rest) h =
      ap (λ x. set_conditions env generation x rest)
        (laws.set_keeps_equal cs (stamped generation c) h.0)
      ∙ set_conditions-kept cs rest h.1

  pub set_conditions_idem :
      (old conds : List Condition)
      → Distinct (kinds conds)
      → let once = set_conditions env generation old conds in
        set_conditions env generation once conds ≡ once
  set_conditions_idem old conds h =
      set_conditions-kept (set_conditions env generation old conds) conds
        (set_conditions-IsStamped old conds h)

module _ (env : Env) (laws : KeepsConditions env.libraries) (tr : TrafficRoute) where
  updated_status_idem :
      (phase : TrafficRoutePhase) (routes : List RouteStatus) (conds : List Condition)
      → Distinct (kinds conds)
      → let st = updated_status env tr phase routes conds in
        updated_status env (record tr { status = st }) phase routes conds ≡ st
  unfolding updated_status
  updated_status_idem phase routes conds h =
      let st = updated_status env tr phase routes conds in
      ap (λ cs. record st { conditions = cs })
        (set_conditions_idem env laws tr.generation tr.status.conditions conds h)

  -- Once the status that a phase, statuses of the rules and conditions of distinct kinds give a
  -- route is stored, the same phase, statuses and conditions write nothing, and it does not fail.
  pub apply_status_settles :
      (phase : TrafficRoutePhase) (routes : List RouteStatus) (conds : List Condition)
      → Distinct (kinds conds)
      → let st = updated_status env tr phase routes conds in
        apply_status env (record tr { status = st }) phase routes conds ≡ (none, [])
  unfolding apply_status
  apply_status_settles phase routes conds h =
      let st = updated_status env tr phase routes conds in
      rw (updated_status_idem phase routes conds h, laws.equal_is_equal st) refl
