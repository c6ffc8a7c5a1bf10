-- ===== src/Server/JobQueue/World/Guards.antt =====
-- The per-store guard under one owner's step: it keeps its reservation, takes one, or gives it up.
use localdb.Prelude.{
  ◌≡◌, sym, ◌∙◌, true, false, none, some, List, ◌∷◌, Text, text_eq, text_eq_iff, contains, delete,
  contains-cons, contains-delete, if◌then◌else◌, arith,
}
use localdb.Server.JobQueue.World.Invariant.{reservation}
use localdb.Server.JobQueue.World.Frame.{set_phase}
use localdb.Server.JobQueue.World.{Phase}

abbrev pub Guarded : (Text → Phase) → List Text → Type 0
Guarded phase inflight = (i s : Text) → reservation (phase i) ≡ some s → contains s inflight ≡ true

abbrev pub Exclusive : (Text → Phase) → Type 0
Exclusive phase =
    (i j s : Text) → reservation (phase i) ≡ some s → reservation (phase j) ≡ some s → i ≡ j

abbrev pub Guards : (Text → Phase) → List Text → Type 0
Guards phase inflight = Guarded phase inflight × Exclusive phase

module _ (i : Text) (p : Phase) (phase : Text → Phase) (inflight : List Text) where
  reservation-set :
      (j : Text)
      → reservation (set_phase i p phase j)
        ≡ (if text_eq i j then reservation p else reservation (phase j))
  reservation-set j =
      elim (text_eq i j)
        as (λ b.
          reservation (if b then p else phase j)
          ≡ (if b then reservation p else reservation (phase j))) [
            | true ↦ λ k. reservation p
            | false ↦ λ k. reservation (phase j)
          ]

  pub Guards-keep :
      reservation p ≡ reservation (phase i)
      → Guards phase inflight
      → Guards (set_phase i p phase) inflight
  Guards-keep e (g, x) = (
    λ j s h. g j s (sym (same j) ∙ h),
    λ j k s h h'. x j k s (sym (same j) ∙ h) (sym (same k) ∙ h'),
  )
    where
      same : (j : Text) → reservation (set_phase i p phase j) ≡ reservation (phase j)
      same j = ground (arith, reservation-set j, text_eq_iff i j)

  pub Guards-drop :
      reservation p ≡ none → Guards phase inflight → Guards (set_phase i p phase) inflight
  Guards-drop e (g, x) =
      (λ j s h. g j s (held j s h), λ j k s h h'. x j k s (held j s h) (held k s h'))
    where
      held :
          (j s : Text)
          → reservation (set_phase i p phase j) ≡ some s
          → reservation (phase j) ≡ some s
      held j s h = ground (arith, reservation-set j)

  pub Guards-take :
      (s : Text)
      → contains s inflight ≡ false
      → reservation p ≡ some s
      → Guards phase inflight
      → Guards (set_phase i p phase) (s ∷ inflight)
  Guards-take s free e (g, x) = (
    λ j t h. ground (arith, reservation-set j, contains-cons s t inflight, text_eq_iff s t, g j t),
    λ j k t h h'. ground (
      arith,
      reservation-set j,
      reservation-set k,
      text_eq_iff i j,
      text_eq_iff i k,
      g j t,
      g k t,
      x j k t,
    ),
  )

  pub Guards-release :
      (s : Text)
      → reservation (phase i) ≡ some s
      → reservation p ≡ none
      → Guards phase inflight
      → Guards (set_phase i p phase) (delete s inflight)
  Guards-release s mine e (g, x) = (
    λ j t h. ground (
      arith,
      reservation-set j,
      contains-delete s t inflight,
      text_eq_iff s t,
      text_eq_iff i j,
      g j t,
      x i j s,
    ),
    (Guards-drop e (g, x)).1,
  )
