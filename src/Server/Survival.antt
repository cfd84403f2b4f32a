-- ===== src/Server/Survival.antt =====
-- No activity of the servers loses a job or doubles it.
use cogs_crash_refresh_job_q.Redis.{Redis}
use cogs_crash_refresh_job_q.System.Runs.{Runs}
use cogs_crash_refresh_job_q.Server as Server
