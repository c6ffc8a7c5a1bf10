-- ===== src/Fetch/Http/Retry/Budget.antt =====
-- How long one retry loop sleeps in all, against its budget.
use localdb.Prelude.{
  ℕ, ◌+◌, ◌-◌, ◌*◌, ◌/◌, ◌^◌, ◌<◌, ◌≤◌, ◌≡◌, refl, ◌∙◌, inl, inr, Option, none, some, List, [], ◌∷◌,
  length, arith, Option-cases, ◌⊎◌,
}
use localdb.Fetch.Http.{from_millis}
use localdb.Fetch.Http.Retry.{
  RetryError, Adjusted, stop, panic, sleep, charge, grant, candidate, retry_after_adjuster, sleeps,
}

abbrev pub total : List ℕ → ℕ
total [] = 0
total (n ∷ ns) = n + total ns

total_none : (ns : List ℕ) → (total ns ≡ 0) ⊎ (1 ≤ length ns)
total_none [] = inl refl
total_none (n ∷ ns) = inr (omega arith)

charge-eq :
    (budget spent wait : ℕ)
    → budget < from_millis (2 ^ 64)
    → from_millis spent + wait ≤ budget
    → charge spent wait ≡ spent + wait / 1000000
charge-eq budget spent wait h le = omega arith

-- What a granted wait is.
grant-sleep :
    (budget wait spent w s : ℕ)
    → grant budget wait spent ≡ sleep w s
    → (w ≡ wait) × (s ≡ charge spent wait) × (from_millis spent + wait ≤ budget)
unfolding grant
grant-sleep budget wait spent w s e = ground arith

adjuster-sleep :
    (budget : ℕ) (e : RetryError) (dur : Option ℕ) (spent w s : ℕ)
    → retry_after_adjuster budget e dur spent ≡ sleep w s
    → (s ≡ charge spent w) × (from_millis spent + w ≤ budget)
unfolding retry_after_adjuster
adjuster-sleep budget e none spent w s h = ground arith
adjuster-sleep budget e (some d) spent w s h = elim (Option-cases (candidate e d)) [
  | inl none_ ↦ ground (arith, rw (none_, retry_after_adjuster) at h)
  | inr (wait, found) ↦
      ground (arith, grant-sleep budget wait spent w s (rw (found, retry_after_adjuster) at h))
]

sleeps-cases :
    (budget : ℕ) (e : RetryError) (dur : Option ℕ) (attempts : List (RetryError × Option ℕ))
    (spent : ℕ) (a : Adjusted)
    → retry_after_adjuster budget e dur spent ≡ a
    → (sleeps budget ((e, dur) ∷ attempts) spent ≡ [])
      ⊎ ((w : ℕ) × (s : ℕ) × (s ≡ charge spent w)
          × (from_millis spent + w ≤ budget)
          × (sleeps budget ((e, dur) ∷ attempts) spent ≡ w ∷ sleeps budget attempts s))
unfolding sleeps
sleeps-cases budget e dur attempts spent stop h = inl (rw (h, sleeps) refl)
sleeps-cases budget e dur attempts spent panic h = inl (rw (h, sleeps) refl)
sleeps-cases budget e dur attempts spent (sleep w s) h =
    let (charged, fits) = adjuster-sleep budget e dur spent w s h in
    inr (w, s, charged, fits, rw (h, sleeps) refl)

sleeps_from :
    (budget : ℕ) (attempts : List (RetryError × Option ℕ)) (spent : ℕ)
    → budget < from_millis (2 ^ 64)
    → from_millis spent ≤ budget
    → let slept = sleeps budget attempts spent in
      from_millis spent + total slept ≤ budget + (length slept - 1) * 999999
unfolding sleeps
sleeps_from budget [] spent h le = omega arith
sleeps_from budget ((e, dur) ∷ attempts) spent h le =
    elim (sleeps-cases budget e dur attempts spent _ refl) [
      | inl none_ ↦ rw none_ (omega arith)
      | inr (w, s, charged, fits, shape) ↦
          let counted = charged ∙ charge-eq budget spent w h fits in
          let rest = sleeps_from budget attempts s h (omega (arith, counted)) in
          rw shape (omega (arith, counted, rest, total_none (sleeps budget attempts s)))
    ]

-- The waits of one retry loop add up to no more than the budget and a millisecond less one
-- nanosecond for each wait but the last, for any budget below 2 ^ 64 milliseconds.
pub sleeps-total :
    (budget : ℕ) (attempts : List (RetryError × Option ℕ))
    → budget < from_millis (2 ^ 64)
    → let slept = sleeps budget attempts 0 in total slept ≤ budget + (length slept - 1) * 999999
sleeps-total budget attempts h = omega (arith, sleeps_from budget attempts 0 h (omega arith))
