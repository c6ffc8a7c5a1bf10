-- ===== src/Server/Scheduler/Tests.antt =====
-- A source with an interval of one second: registered, refreshed, and stamped.
use localdb.Prelude.{
  ◌≡◌, ◌≤◌, refl, arith, true, some, List, [], ◌∷◌, codes, text_eq, contains, lookup, insert,
}
use localdb.Core.Errors.{ok}
use localdb.Server.Scheduler.{
  first_scheduler, Action, registers, ticks, submits, marks, stamps, step, run, new_record,
  register, due_records, is_due, mark_inflight, update_record, ticks_at, submits_at, marks_at,
}
use localdb.Server.Scheduler.Exclusion.{Idle, under_way, under_way-run}
use localdb.Server.Scheduler.Spacing.{refresh_rests}

abbrev refreshed : List Action
refreshed = ticks 5 ∷ submits (ok (codes "job")) ∷ marks ∷ []

abbrev again : List Action
again = ticks 1000000006 ∷ submits (ok (codes "job")) ∷ []

first-Idle : Idle (codes "s") first_scheduler
unfolding first_scheduler
first-Idle = ((tt, tt), (tt, refl))

under_way-run_example :
    under_way (codes "s") (
      run refreshed
        (step (registers (codes "s") (codes "store") (codes "url") (some 1)) first_scheduler))
    ≤ 1
under_way-run_example =
    under_way-run (codes "s") (codes "store") (codes "url") (some 1) first_scheduler refreshed
      first-Idle (tt, (tt, (tt, tt)))

refresh_rests_example :
    under_way (codes "s") (
      run again (
        step (stamps (codes "s") 7) (
          run refreshed
            (step (registers (codes "s") (codes "store") (codes "url") (some 1)) first_scheduler))))
    ≡ 0
unfolding first_scheduler run step register due_records is_due mark_inflight update_record ticks_at
    submits_at marks_at insert lookup contains text_eq
refresh_rests_example =
    refresh_rests (codes "s") (codes "store") (codes "url") (some 1) first_scheduler refreshed again
      7 1000000000
      (record (new_record (codes "s") (codes "store") (codes "url") (some 1)) {
        refresh_inflight = true;
      })
      first-Idle (tt, (tt, (tt, tt))) refl refl refl (tt, (tt, tt))
      ((omega arith, omega arith), (tt, tt))
