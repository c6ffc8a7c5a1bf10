-- ===== src/Server/Scheduler/Spacing.antt =====
-- The time between the refreshes of one source, over the sections of server/src/scheduler.rs.
use mathlib.Core.Path.{subst}
use localdb.Prelude.{
  ℕ, ◌+◌, ◌<◌, ◌≤◌, ◌≡◌, refl, Bool, true, false, Option, none, some, List, [], ◌∷◌, Text,
  text_eq_refl, lookup, contains, lookup-insert, lookup-remove, arith, All,
}
use localdb.Core.Errors.{Error, Result, ok, err}
use localdb.Server.Scheduler.{
  UrlRefreshRecord, is_due, register, unregister, mark_inflight, stamp, marked, stamped, Scheduler,
  Action, registers, unregisters, ticks, submits, marks, stamps, ticks_at, submits_at, marks_at,
  stamps_at, step, run, new_record,
}
use localdb.Server.Scheduler.Due.{
  Wf, named, holds, named-due_records, register-Wf, unregister-Wf, lookup-update_record,
  update_record-Wf,
}
use localdb.Server.Scheduler.Exclusion.{
  one, is_for, watching, under_way, IsOther, Inv, watching-remove_one, run-Inv, Idle, registers-Inv,
}

-- A tick begins after `t`, and before `d` has passed since.
abbrev pub IsEarly : ℕ → ℕ → Action → Type 0
IsEarly t d (ticks now) = (t ≤ now) × (now < t + d)
IsEarly t d a = Unit

abbrev RestedRecord : ℕ → ℕ → Option UrlRefreshRecord → Type 0
RestedRecord t d none = Unit
RestedRecord t d (some r) = (r.last_refreshed ≡ some t) × (r.interval ≡ some d)

record Rested (s : Text) (t d : ℕ) (w : Scheduler) : Type 0 where
  wf : Wf w.records
  nothing : under_way s w ≡ 0
  resting : RestedRecord t d (lookup s w.records)

rested_not_due :
    (t d now : ℕ) (o : Option UrlRefreshRecord)
    → RestedRecord t d o
    → (t ≤ now) × (now < t + d)
    → holds (is_due now) o ≡ false
unfolding is_due
rested_not_due t d now none h l = refl
rested_not_due t d now (some r) h l = ground arith

module _ (s : Text) (t d : ℕ) (w : Scheduler) (v : Rested s t d w) where
  nothing_at :
      (todo : List UrlRefreshRecord) (submitted : Option Text)
      → w.todo ≡ todo
      → w.submitted ≡ submitted
      → one (named s todo) + one (is_for s submitted) + watching s w.watchers ≡ 0
  nothing_at todo submitted e f =
      subst (λ r. one (named s r) + one (is_for s submitted) + watching s w.watchers ≡ 0) e
        (subst (λ o. one (named s w.todo) + one (is_for s o) + watching s w.watchers ≡ 0) f
          v.nothing)

  ticks-Rested :
      (todo : List UrlRefreshRecord) (submitted : Option Text) (now : ℕ)
      → w.todo ≡ todo
      → w.submitted ≡ submitted
      → (t ≤ now) × (now < t + d)
      → Rested s t d (ticks_at todo submitted now w)
  unfolding ticks_at
  ticks-Rested [] none now e f early = record {
    wf = v.wf;
    nothing = ground (
      arith,
      f,
      nothing_at [] none e f,
      named-due_records now s w.records v.wf,
      rested_not_due t d now (lookup s w.records) v.resting early,
    );
    resting = v.resting;
  }
  ticks-Rested todo submitted now e f early = v

  submits-Rested :
      (todo : List UrlRefreshRecord) (submitted : Option Text) (answer : Result Error Text)
      → w.todo ≡ todo
      → w.submitted ≡ submitted
      → Rested s t d (submits_at todo submitted answer w)
  unfolding submits_at
  submits-Rested (r ∷ todo) none (ok job_id) e f = record {
    wf = v.wf;
    nothing = ground (arith, nothing_at (r ∷ todo) none e f);
    resting = v.resting;
  }
  submits-Rested (r ∷ todo) none (err error) e f = record {
    wf = v.wf;
    nothing = ground (arith, nothing_at (r ∷ todo) none e f);
    resting = v.resting;
  }
  submits-Rested todo submitted answer e f = v

  marks-Rested :
      (submitted : Option Text) → w.submitted ≡ submitted → Rested s t d (marks_at submitted w)
  unfolding marks_at mark_inflight
  marks-Rested none f = v
  marks-Rested (some k) f = record {
    wf = update_record-Wf marked k w.records (λ r. refl) v.wf;
    nothing = ground (arith, nothing_at w.todo (some k) refl f);
    resting = ground (
      arith,
      v.resting,
      nothing_at w.todo (some k) refl f,
      lookup-update_record marked k w.records s,
    );
  }

  stamps-Rested :
      (b : Bool) (k : Text) (now : ℕ)
      → contains k w.watchers ≡ b
      → Rested s t d (stamps_at b k now w)
  unfolding stamps_at stamp
  stamps-Rested false k now e = v
  stamps-Rested true k now e = record {
    wf = update_record-Wf (stamped now) k w.records (λ r. refl) v.wf;
    nothing = ground (arith, v.nothing, watching-remove_one s k w.watchers e);
    resting = ground (
      arith,
      v.resting,
      v.nothing,
      watching-remove_one s k w.watchers e,
      lookup-update_record (stamped now) k w.records s,
    );
  }

  step-Rested : (a : Action) → IsOther s a → IsEarly t d a → Rested s t d (step a w)
  unfolding step register unregister
  step-Rested (registers k store url secs) other early = record {
    wf = register-Wf k store url secs w.records v.wf;
    nothing = v.nothing;
    resting =
        ground (arith, other, v.resting, lookup-insert k s (new_record k store url secs) w.records);
  }
  step-Rested (unregisters k) other early = record {
    wf = unregister-Wf k w.records v.wf;
    nothing = v.nothing;
    resting = ground (arith, v.resting, lookup-remove k s w.records);
  }
  step-Rested (ticks now) other early = ticks-Rested w.todo w.submitted now refl refl early
  step-Rested (submits answer) other early = submits-Rested w.todo w.submitted answer refl refl
  step-Rested marks other early = marks-Rested w.submitted refl
  step-Rested (stamps k now) other early = stamps-Rested (contains k w.watchers) k now refl

run-Rested :
    (s : Text) (t d : ℕ) (schedule : List Action) (w : Scheduler)
    → All (IsOther s) schedule
    → All (IsEarly t d) schedule
    → Rested s t d w
    → Rested s t d (run schedule w)
unfolding run
run-Rested s t d [] w o early v = v
run-Rested s t d (a ∷ schedule) w o early v =
    run-Rested s t d schedule (step a w) o.1 early.1 (step-Rested s t d w v a o.0 early.0)

stamped-Rested :
    (s : Text) (t d : ℕ) (w : Scheduler) (r : UrlRefreshRecord) (b : Bool)
    → Inv s w
    → contains s w.watchers ≡ b
    → b ≡ true
    → lookup s w.records ≡ some r
    → r.interval ≡ some d
    → Rested s t d (stamps_at b s t w)
unfolding stamps_at stamp
stamped-Rested s t d w r false v e h f g = ground arith
stamped-Rested s t d w r true v e h f g = record {
  wf = update_record-Wf (stamped t) s w.records (λ q. refl) v.wf;
  nothing = ground (arith, v.alone, text_eq_refl s, watching-remove_one s s w.watchers e);
  resting = ground (arith, text_eq_refl s, lookup-update_record (stamped t) s w.records s);
}

-- A source is registered while no refresh of it is under way. Once a refresh of it ended at `t`,
-- whether well or not, none is under way again as long as each tick begins at `t` or later and
-- before the interval of the source has passed, and it is not registered again.
pub refresh_rests :
    (s store url : Text) (secs : Option ℕ) (w : Scheduler) (before after : List Action) (t d : ℕ)
    (r : UrlRefreshRecord)
    → Idle s w
    → All (IsOther s) before
    → let ran = run before (step (registers s store url secs) w) in
      contains s ran.watchers ≡ true
      → lookup s ran.records ≡ some r
      → r.interval ≡ some d
      → All (IsOther s) after
      → All (IsEarly t d) after
      → under_way s (run after (step (stamps s t) ran)) ≡ 0
unfolding step
refresh_rests s store url secs w before after t d r idle o watched e f o' early =
    let ran = run before (step (registers s store url secs) w) in
    let v = run-Inv s before _ o (registers-Inv s store url secs w idle) in
    (run-Rested s t d after (step (stamps s t) ran) o' early
      (stamped-Rested s t d ran r (contains s ran.watchers) v refl watched e f)).nothing
