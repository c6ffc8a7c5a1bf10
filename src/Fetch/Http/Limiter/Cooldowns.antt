-- ===== src/Fetch/Http/Limiter/Cooldowns.antt =====
-- The cooldown map: one deadline for each host, and what insertion and pruning leave of it.
use localdb.Prelude.{
  has_key, Unique, lookup-has_key, ℕ, ◌≤◌, ◌≡◌, refl, ◌⊎◌, inl, inr, Bool, false, Option, none,
  some, List, [], ◌∷◌, Text, text_eq_iff, ltb, lookup, insert, lookup-insert, if◌then◌else◌, arith,
  Option-cases,
}
use localdb.Fetch.Http.Limiter.{later, retain}

pub has_key-retain :
    (p : ℕ → Bool) (k : Text) (m : List (Text × ℕ))
    → has_key k m ≡ false
    → has_key k (retain p m) ≡ false
unfolding retain
has_key-retain p k [] h = refl
has_key-retain p k ((j, d) ∷ m) h = ground (arith, has_key-retain p k m)

pub retain-Unique : (p : ℕ → Bool) (m : List (Text × ℕ)) → Unique m → Unique (retain p m)
unfolding retain
retain-Unique p [] u = tt
retain-Unique p ((k, d) ∷ m) u = ground (arith, has_key-retain p k m, retain-Unique p m)

abbrev pub kept : (ℕ → Bool) → Option ℕ → Option ℕ
kept p none = none
kept p (some d) = if p d then some d else none

pub lookup-retain :
    (p : ℕ → Bool) (k : Text) (m : List (Text × ℕ))
    → Unique m
    → lookup k (retain p m) ≡ kept p (lookup k m)
unfolding lookup retain
lookup-retain p k [] u = refl
lookup-retain p k ((j, d) ∷ m) u =
    ground (arith, text_eq_iff j k, lookup-has_key k m, lookup-retain p k m)

abbrev pub standing : Option ℕ → ℕ
standing none = 0
standing (some e) = e

-- No earlier than `deadline` may `key` be contacted: the time has come, or a deadline stands.
abbrev pub Stands : Text → ℕ → ℕ → List (Text × ℕ) → Type 0
Stands key deadline now m = (deadline ≤ now) ⊎ (deadline ≤ standing (lookup key m))

pub later-le : (o : Option ℕ) (d : ℕ) → (d ≤ later o d) × (standing o ≤ later o d)
later-le none d = ground arith
later-le (some e) d = ground arith

pub later-cap : (o : Option ℕ) (d c : ℕ) → d ≤ c → standing o ≤ c → later o d ≤ c
later-cap none d c h k = h
later-cap (some e) d c h k = ground arith

module _ (key k : Text) (deadline now d : ℕ) (m : List (Text × ℕ)) where
  pub Stands-insert :
      Stands key deadline now m → Stands key deadline now (insert k (later (lookup k m) d) m)
  Stands-insert s = ground (
    arith,
    text_eq_iff k key,
    lookup-insert k key (later (lookup k m) d) m,
    later-le (lookup k m) d,
  )

  pub insert-Stands :
      d ≡ deadline → k ≡ key → Stands key deadline now (insert k (later (lookup k m) d) m)
  insert-Stands e f = ground (
    arith,
    text_eq_iff k key,
    lookup-insert k key (later (lookup k m) d) m,
    later-le (lookup k m) d,
  )

  pub Stands-retain :
      Unique m → Stands key deadline now m → Stands key deadline now (retain (λ e. ltb now e) m)
  Stands-retain u s = elim (Option-cases (lookup key m)) [
    | inl gone ↦ ground (arith, lookup-retain (λ e. ltb now e) key m u)
    | inr (e, found) ↦ ground (arith, lookup-retain (λ e. ltb now e) key m u)
  ]
