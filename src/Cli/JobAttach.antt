-- ===== src/Cli/JobAttach.antt =====
-- How an attached client reports the end of a job: `finish_job` of cli/src/job_attach.rs, with
-- `IndexSummary` of cli/src/cmds/index.rs. The warning printed to stderr is left out.
use localdb.Prelude.{
  ℕ, ◌++◌, ◌≡◌, Bool, false, Option, none, some, Text, codes, ltb, unwrap_or, if◌then◌else◌, arith,
}
use localdb.Core.Errors.{Error, internal, Result, ok, err, from_code, is_opaque}
use localdb.Core.Errors.Wire.{wire_message, from_code-code}
use localdb.Core.Jobs.{
  IndexJob, IndexJobState, IndexJobStats, pending, running, done, failed, fail_index_job_with_error,
}

pub data IndexErrorMode : Type 0 where
  strict_exit warn_and_continue : IndexErrorMode

pub record IndexSummary : Type 0 where
  pub has_sources : Bool
  pub indexed : ℕ
  pub skipped : ℕ
  pub chunks : ℕ
  pub errors : ℕ
  pub unsupported : ℕ
  pub prunable : ℕ
  pub deleted : ℕ
  pub metadata_updated : ℕ
  pub feed_liveness_checked : ℕ
  pub recheck_deferred : ℕ

-- `IndexSummary::default()`.
abbrev pub no_summary : IndexSummary
no_summary = record {
  has_sources = false;
  indexed = 0;
  skipped = 0;
  chunks = 0;
  errors = 0;
  unsupported = 0;
  prunable = 0;
  deleted = 0;
  metadata_updated = 0;
  feed_liveness_checked = 0;
  recheck_deferred = 0;
}

unfoldable pub from_job_stats : IndexJobStats → IndexSummary
from_job_stats stats = record {
  has_sources = ltb 0 stats.sources_count;
  indexed = stats.docs_indexed;
  skipped = stats.docs_skipped;
  chunks = stats.chunks_written;
  errors = stats.error_count;
  unsupported = stats.unsupported_format_count;
  prunable = stats.docs_prunable;
  deleted = stats.docs_deleted;
  metadata_updated = stats.docs_metadata_updated;
  feed_liveness_checked = stats.feed_entries_liveness_checked;
  recheck_deferred = stats.docs_recheck_deferred;
}

-- `error_code.as_deref().and_then(|code| Error::from_code(code, msg))`.
abbrev pub decoded : Option Text → Text → Option Error
decoded none message = none
decoded (some c) message = from_code c message

unfoldable pub finish_job :
    IndexErrorMode
    → Text
    → IndexJobState
    → IndexJobStats
    → Option Text
    → Option Text
    → Result Error IndexSummary
finish_job mode context done stats e c = ok (from_job_stats stats)
finish_job warn_and_continue context failed stats e c = ok no_summary
finish_job strict_exit context failed stats e c =
    let message = unwrap_or e (codes "index job failed") in
    err (
      unwrap_or (decoded c message)
        (internal (context ++ (codes ": " ++ message)) (codes "index_job_failed")))
finish_job mode context pending stats e c = err (
    internal (context ++ codes ": job ended in a non-terminal state")
      (codes "index_job_nonterminal"))
finish_job mode context running stats e c = err (
    internal (context ++ codes ": job ended in a non-terminal state")
      (codes "index_job_nonterminal"))

-- A client that attached to a job in strict mode ends with the very error that the job failed with
-- in the daemon, unless its variant is one of the three opaque ones: then it ends with an internal
-- error whose message holds the context and the text of that error.
pub finish_job-fail_index_job_with_error :
    (job : IndexJob) (e : Error) (now context : Text)
    → let ended = fail_index_job_with_error job e now in
      finish_job strict_exit context ended.state ended.stats ended.error ended.error_code
      ≡ err (
          if is_opaque e
          then internal (context ++ (codes ": " ++ wire_message e)) (codes "index_job_failed")
          else e)
unfolding finish_job fail_index_job_with_error
finish_job-fail_index_job_with_error job e now context = rw (from_code-code e) (ground arith)
