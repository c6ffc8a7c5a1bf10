-- ===== src/Cli/Tests.antt =====
-- A job that failed in the daemon, as an attached client reports it.
use localdb.Prelude.{◌≡◌, codes}
use localdb.Core.Errors.{rate_limited, err}
use localdb.Core.Jobs.{whole_store, create_index_job, fail_index_job_with_error}
use localdb.Cli.JobAttach.{strict_exit, finish_job, finish_job-fail_index_job_with_error}

finish_job-fail_index_job_with_error_example :
    let ended =
      fail_index_job_with_error
        (create_index_job (codes "j") (codes "s") whole_store (codes "dawn"))
        (rate_limited (codes "slow down"))
        (codes "noon") in
    finish_job strict_exit (codes "index") ended.state ended.stats ended.error ended.error_code
    ≡ err (rate_limited (codes "slow down"))
finish_job-fail_index_job_with_error_example =
    finish_job-fail_index_job_with_error
      (create_index_job (codes "j") (codes "s") whole_store (codes "dawn"))
      (rate_limited (codes "slow down")) (codes "noon") (codes "index")
