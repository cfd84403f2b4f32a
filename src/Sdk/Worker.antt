-- ===== src/Sdk/Worker.antt =====
-- `process` of sdk/go/cogsclient/client.go: one job with its handler, in the goroutine of
-- `process`, and its heartbeat in a goroutine of its own. The two run side by side with all that
-- other clients and the servers do; any order of their steps is a list of events. An event that
-- cannot happen where it stands changes nothing.
pub mod Reports
pub mod Renewals
pub mod OnTime
pub mod Settles
pub mod Killed
use cogs_crash_refresh_job_q.Prelude.{
  ℕ, Bool, true, false, List, [], ◌∷◌, Bytes, ℤ, pos, if◌then◌else◌,
}
use cogs_crash_refresh_job_q.Results.{Link}
use cogs_crash_refresh_job_q.Redis.{Redis}
use cogs_crash_refresh_job_q.Store.{Config}
use cogs_crash_refresh_job_q.Schedules.Manager.{Parser}
use cogs_crash_refresh_job_q.Api.{World}
use cogs_crash_refresh_job_q.System.{Step, run}
use cogs_crash_refresh_job_q.Sdk.{
  ClientError, lease_lost, unreached, Outcome, ok, err, renew, ack, fail,
}

-- Where `process` stands: in the handler; behind it, with `done` closed and the handler's error or
-- none; behind the check of `leaseLost`; or at its end.
pub data Phase : Type 0 where
  working : Phase
  returned passed : (failed : Bool) → Phase
  finished : Phase

-- Where the heartbeat stands: in its `select`, behind a `Renew` with its result, or at its end.
pub data Beat : Type 0 where
  selecting : Beat
  heard : Outcome {0} Unit → Beat
  stopped : Beat

-- A call that `process` has made.
pub data Report : Type 0 where
  ack_call fail_call : Report

pub record Process : Type 0 where
  pub phase : Phase
  pub beat : Beat
  pub lost : Bool
  pub cancelled : Bool
  pub reports : List Report
  -- `OnAck` was called.
  pub acked : Bool

pub data Event : Type 0 where
  -- the ticker fires and the heartbeat calls `Renew`; it goes on; it sees that `done` is closed
  beats : Link → World → Event
  hears quits : Event
  -- the handler returns; `leaseLost` is read; the report is made
  returns : (failed : Bool) → Event
  checks : Event
  reports_to : Link → World → Event
  -- what others do to the keyspace
  others : List Step → Event

-- A job whose queue has no handler fails at once.
abbrev pub start : (has_handler : Bool) → Process
start has_handler = record {
  phase = if has_handler then working else returned true;
  beat = selecting;
  lost = false;
  cancelled = false;
  reports = [];
  acked = false;
}

-- `errors.Is(err, ErrLeaseLost)`, and the other results of `Renew`.
abbrev pub after_beat : Outcome {0} Unit → Process → Process
after_beat (err lease_lost) p = record p { beat = stopped; lost = true; cancelled = true }
after_beat r p = record p { beat = selecting }

abbrev pub hear : Beat → Process → Process
hear (heard r) p = after_beat r p
hear b p = p

abbrev pub quit : Phase → Beat → Process → Process
quit working b p = p
quit phase selecting p = record p { beat = stopped }
quit phase b p = p

abbrev pub return : Phase → Bool → Process → Process
return working failed p = record p { phase = returned failed }
return phase failed p = p

-- The check of `leaseLost`. On its return `process` cancels the context.
abbrev pub check : Phase → Process → Process
check (returned failed) p =
    if p.lost
    then record p { phase = finished; cancelled = true }
    else record p { phase = passed failed }
check phase p = p

abbrev pub is_ok : Outcome {0} Unit → Bool
is_ok (ok u) = true
is_ok (err e) = false

module _ (R : Redis) (cfg : Config) (parse : Parser) (token q id : Bytes) (attempts : ℕ) where
  open R use {Db}

  -- `Renew` under a cancelled context does not reach the server.
  unfoldable pub beat_once : Beat → Link → World → Process → Db → Process × Db
  beat_once selecting link w p d =
      if p.cancelled
      then (record p { beat = heard (err unreached) }, d)
      else let (r, d') = renew R cfg parse token link w q id d in (record p { beat = heard r }, d')
  beat_once b link w p d = (p, d)

  -- `Fail` with the attempts that the claim gave, or `Ack` of the one job.
  unfoldable pub report : Phase → Link → World → Process → Db → Process × Db
  report (passed true) link w p d =
      let (r, d') = fail R cfg parse token link w q id (pos attempts) d in
      (record p { phase = finished; cancelled = true; reports = fail_call ∷ p.reports }, d')
  report (passed false) link w p d =
      let (r, d') = ack R cfg parse token link w q (id ∷ []) d in
      (
        record p {
          phase = finished;
          cancelled = true;
          reports = ack_call ∷ p.reports;
          acked = is_ok r;
        },
        d',
      )
  report phase link w p d = (p, d)

  unfoldable pub advance : Event → Process → Db → Process × Db
  unfolding beat_once report
  advance (beats link w) p d = beat_once p.beat link w p d
  advance hears p d = (hear p.beat p, d)
  advance quits p d = (quit p.phase p.beat p, d)
  advance (returns failed) p d = (return p.phase failed p, d)
  advance checks p d = (check p.phase p, d)
  advance (reports_to link w) p d = report p.phase link w p d
  advance (others steps) p d = (p, run R steps d)

  unfoldable pub process : List Event → Process → Db → Process × Db
  process [] p d = (p, d)
  process (e ∷ events) p d = let (p', d') = advance e p d in process events p' d'
