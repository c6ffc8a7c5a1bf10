-- ===== src/Server/Scheduler/Exclusion.antt =====
-- The refreshes of one source that are under way, over the sections of server/src/scheduler.rs.
use mathlib.Core.Path.{subst}
use localdb.Prelude.{
  ℕ, ◌+◌, ◌≤◌, ◌≡◌, refl, Bool, true, false, ◌||◌, Option, none, some, List, [], ◌∷◌, Text, text_eq,
  text_eq_iff, lookup, contains, lookup-insert, lookup-remove, count, if◌then◌else◌, arith, All,
}
use localdb.Core.Errors.{Error, Result, ok, err}
use localdb.Server.Scheduler.{
  UrlRefreshRecord, is_due, register, unregister, mark_inflight, stamp, marked, stamped, Scheduler,
  Action, registers, unregisters, ticks, submits, marks, stamps, ticks_at, submits_at, marks_at,
  stamps_at, remove_one, step, run, new_record,
}
use localdb.Server.Scheduler.Due.{
  Wf, named, DistinctIds, holds, changed, due_records-DistinctIds, named-due_records, register-Wf,
  unregister-Wf, lookup-update_record, update_record-Wf,
}

abbrev pub one : Bool → ℕ
one b = if b then 1 else 0

abbrev pub is_for : Text → Option Text → Bool
is_for s none = false
is_for s (some k) = text_eq k s

-- How many refreshes of a source are to be submitted, submitted, or watched.
abbrev pub watching : Text → List Text → ℕ
watching s watchers = count (λ k. text_eq k s) watchers

abbrev pub under_way : Text → Scheduler → ℕ
under_way s w = one (named s w.todo) + one (is_for s w.submitted) + watching s w.watchers

abbrev pub flag : Option UrlRefreshRecord → Bool
flag none = true
flag (some r) = r.refresh_inflight

pub record Inv (s : Text) (w : Scheduler) : Type 0 where
  pub wf : Wf w.records
  pub distinct : DistinctIds w.todo
  pub alone : under_way s w ≤ 1
  pub flagged : 1 ≤ watching s w.watchers → flag (lookup s w.records) ≡ true

-- The action does not register the source again.
abbrev pub IsOther : Text → Action → Type 0
IsOther s (registers k store url secs) = text_eq k s ≡ false
IsOther s a = Unit

pub watching-remove_one :
    (s k : Text) (ws : List Text)
    → contains k ws ≡ true
    → watching s (remove_one k ws) + one (text_eq k s) ≡ watching s ws
unfolding remove_one contains
watching-remove_one s k [] h = cc
watching-remove_one s k (j ∷ ws) h =
    ground (arith, text_eq_iff j k, text_eq_iff j s, text_eq_iff k s, watching-remove_one s k ws)

due_unflagged :
    (now : ℕ) (o : Option UrlRefreshRecord) → holds (is_due now) o ≡ true → flag o ≡ false
unfolding is_due
due_unflagged now none h = cc
due_unflagged now (some r) h = ground arith

flag-changed :
    (k s : Text) (change : UrlRefreshRecord → UrlRefreshRecord) (o : Option UrlRefreshRecord)
    → ((r : UrlRefreshRecord) → (change r).refresh_inflight ≡ true)
    → flag (if text_eq k s then changed change o else o) ≡ (text_eq k s || flag o)
flag-changed k s change none h = ground arith
flag-changed k s change (some r) h = ground (arith, h r)

module _ (s : Text) (w : Scheduler) (v : Inv s w) where
  alone_at :
      (todo : List UrlRefreshRecord) (submitted : Option Text)
      → w.todo ≡ todo
      → w.submitted ≡ submitted
      → one (named s todo) + one (is_for s submitted) + watching s w.watchers ≤ 1
  alone_at todo submitted e f =
      subst (λ t. one (named s t) + one (is_for s submitted) + watching s w.watchers ≤ 1) e
        (subst (λ o. one (named s w.todo) + one (is_for s o) + watching s w.watchers ≤ 1) f v.alone)

  ticks-Inv :
      (todo : List UrlRefreshRecord) (submitted : Option Text) (now : ℕ)
      → w.todo ≡ todo
      → w.submitted ≡ submitted
      → Inv s (ticks_at todo submitted now w)
  unfolding ticks_at
  ticks-Inv [] none now e f = record {
    wf = v.wf;
    distinct = due_records-DistinctIds now w.records v.wf;
    alone = ground (
      arith,
      f,
      alone_at [] none e f,
      v.flagged,
      named-due_records now s w.records v.wf,
      due_unflagged now (lookup s w.records),
    );
    flagged = v.flagged;
  }
  ticks-Inv todo submitted now e f = v

  submits-Inv :
      (todo : List UrlRefreshRecord) (submitted : Option Text) (answer : Result Error Text)
      → w.todo ≡ todo
      → w.submitted ≡ submitted
      → Inv s (submits_at todo submitted answer w)
  unfolding submits_at
  submits-Inv (r ∷ todo) none (ok job_id) e f = record {
    wf = v.wf;
    distinct = (subst DistinctIds e v.distinct).1;
    alone = ground (
      arith,
      subst DistinctIds e v.distinct,
      alone_at (r ∷ todo) none e f,
      text_eq_iff r.source_id s,
    );
    flagged = v.flagged;
  }
  submits-Inv (r ∷ todo) none (err error) e f = record {
    wf = v.wf;
    distinct = (subst DistinctIds e v.distinct).1;
    alone = ground (arith, alone_at (r ∷ todo) none e f);
    flagged = v.flagged;
  }
  submits-Inv todo submitted answer e f = v

  marks-Inv : (submitted : Option Text) → w.submitted ≡ submitted → Inv s (marks_at submitted w)
  unfolding marks_at mark_inflight
  marks-Inv none f = v
  marks-Inv (some k) f = record {
    wf = update_record-Wf marked k w.records (λ r. refl) v.wf;
    distinct = v.distinct;
    alone = ground (arith, alone_at w.todo (some k) refl f);
    flagged = λ h. ground (
      arith,
      h,
      v.flagged,
      lookup-update_record marked k w.records s,
      flag-changed k s marked (lookup s w.records) (λ r. refl),
    );
  }

  stamps-Inv :
      (b : Bool) (k : Text) (now : ℕ) → contains k w.watchers ≡ b → Inv s (stamps_at b k now w)
  unfolding stamps_at stamp
  stamps-Inv false k now e = v
  stamps-Inv true k now e = record {
    wf = update_record-Wf (stamped now) k w.records (λ r. refl) v.wf;
    distinct = v.distinct;
    alone = ground (arith, v.alone, watching-remove_one s k w.watchers e);
    flagged = λ h. ground (
      arith,
      h,
      v.alone,
      v.flagged,
      watching-remove_one s k w.watchers e,
      lookup-update_record (stamped now) k w.records s,
    );
  }

  step-Inv : (a : Action) → IsOther s a → Inv s (step a w)
  unfolding step register unregister
  step-Inv (registers k store url secs) other = record {
    wf = register-Wf k store url secs w.records v.wf;
    distinct = v.distinct;
    alone = v.alone;
    flagged = λ h.
        ground
          (arith, other, h, v.flagged, lookup-insert k s (new_record k store url secs) w.records);
  }
  step-Inv (unregisters k) other = record {
    wf = unregister-Wf k w.records v.wf;
    distinct = v.distinct;
    alone = v.alone;
    flagged = λ h. ground (arith, h, v.flagged, lookup-remove k s w.records);
  }
  step-Inv (ticks now) other = ticks-Inv w.todo w.submitted now refl refl
  step-Inv (submits answer) other = submits-Inv w.todo w.submitted answer refl refl
  step-Inv marks other = marks-Inv w.submitted refl
  step-Inv (stamps k now) other = stamps-Inv (contains k w.watchers) k now refl

pub run-Inv :
    (s : Text) (schedule : List Action) (w : Scheduler)
    → All (IsOther s) schedule
    → Inv s w
    → Inv s (run schedule w)
unfolding run
run-Inv s [] w o v = v
run-Inv s (a ∷ schedule) w o v = run-Inv s schedule (step a w) o.1 (step-Inv s w v a o.0)

-- The records are well formed, the tick has no source twice, and no refresh of this one is under
-- way.
abbrev pub Idle : Text → Scheduler → Type 0
Idle s w = Wf w.records × (DistinctIds w.todo × (under_way s w ≡ 0))

pub registers-Inv :
    (s store url : Text) (secs : Option ℕ) (w : Scheduler)
    → Idle s w
    → Inv s (step (registers s store url secs) w)
unfolding step
registers-Inv s store url secs w (wf, (distinct, none_)) = record {
  wf = register-Wf s store url secs w.records wf;
  distinct = distinct;
  alone = omega arith;
  flagged = λ h. absurd (omega (arith, none_, h));
}

-- A source that is registered while no refresh of it is under way has one refresh at most to be
-- submitted, submitted or watched, after any schedule that does not register it again.
pub under_way-run :
    (s store url : Text) (secs : Option ℕ) (w : Scheduler) (schedule : List Action)
    → Idle s w
    → All (IsOther s) schedule
    → under_way s (run schedule (step (registers s store url secs) w)) ≤ 1
under_way-run s store url secs w schedule idle o =
    (run-Inv s schedule (step (registers s store url secs) w) o
      (registers-Inv s store url secs w idle)).alone
