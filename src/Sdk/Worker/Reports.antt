-- ===== src/Sdk/Worker/Reports.antt =====
-- What `process` reports: at most one call, and none once it knows that its lease is lost.
use cogs_crash_refresh_job_q.Prelude.{
  ℕ, ◌≤◌, Bool, true, false, ◌||◌, List, [], ◌∷◌, Bytes, ◌≡◌, refl, length, arith,
}
use cogs_crash_refresh_job_q.Results.{Link}
use cogs_crash_refresh_job_q.Redis.{Redis}
use cogs_crash_refresh_job_q.Store.{Config}
use cogs_crash_refresh_job_q.Schedules.Manager.{Parser}
use cogs_crash_refresh_job_q.Api.{World}
use cogs_crash_refresh_job_q.Sdk.Worker.{
  Phase, working, returned, passed, finished, Beat, stopped, Report, ack_call, Process, Event,
  beats, hears, quits, returns, checks, reports_to, others, start, hear, quit, return, check,
  beat_once, report, advance, process,
}

-- The flag has not been read yet.
abbrev pub is_unread : Phase → Bool
is_unread working = true
is_unread (returned failed) = true
is_unread (passed failed) = false
is_unread finished = false

abbrev pub is_finished : Phase → Bool
is_finished finished = true
is_finished phase = false

abbrev pub is_working : Phase → Bool
is_working working = true
is_working phase = false

unfinished : (phase : Phase) → is_unread phase ≡ true → is_finished phase ≡ false
unfinished phase h = ground arith

-- In every state of the process.
pub record Sound (p : Process) : Type 0 where
  -- The handler's context is cancelled if the lease is lost.
  pub told : p.lost ≡ true → p.cancelled ≡ true
  -- A call is made only at the end, and only one.
  pub at_end : is_finished p.phase ≡ false → p.reports ≡ []
  pub once : length p.reports ≤ 1
  pub hooked : p.acked ≡ true → p.reports ≡ ack_call ∷ []

hear-Sound : (b : Beat) (p : Process) → Sound p → Sound (hear b p)
hear-Sound b p s = ground arith

quit-Sound : (phase : Phase) (b : Beat) (p : Process) → Sound p → Sound (quit phase b p)
quit-Sound phase b p s = ground arith

return-Sound :
    (phase : Phase) (failed : Bool) (p : Process)
    → phase ≡ p.phase
    → Sound p
    → Sound (return phase failed p)
return-Sound phase failed p e s = ground arith

check-Sound : (phase : Phase) (p : Process) → phase ≡ p.phase → Sound p → Sound (check phase p)
check-Sound phase p e s = ground arith

start-Sound : (has_handler : Bool) → Sound (start has_handler)
start-Sound has_handler = ground arith

-- The process knows that its lease is lost, and has not made a call.
pub record Abandons (p : Process) : Type 0 where
  pub knows : p.lost ≡ true
  pub silent : p.reports ≡ []
  pub before : (is_unread p.phase || is_finished p.phase) ≡ true

hear-Abandons : (b : Beat) (p : Process) → Abandons p → Abandons (hear b p)
hear-Abandons b p s = ground arith

quit-Abandons : (phase : Phase) (b : Beat) (p : Process) → Abandons p → Abandons (quit phase b p)
quit-Abandons phase b p s = ground arith

return-Abandons :
    (phase : Phase) (failed : Bool) (p : Process) → Abandons p → Abandons (return phase failed p)
return-Abandons phase failed p s = ground arith

check-Abandons : (phase : Phase) (p : Process) → Abandons p → Abandons (check phase p)
check-Abandons phase p s = ground arith

module _ (R : Redis) (cfg : Config) (parse : Parser) (token q id : Bytes) (attempts : ℕ) where
  open R use {Db}

  abbrev step : Event → Process → Db → Process × Db
  step = advance R cfg parse token q id attempts

  abbrev pub after : List Event → Process → Db → Process × Db
  after = process R cfg parse token q id attempts

  beat-Sound :
      (b : Beat) (link : Link) (w : World) (p : Process) (d : Db)
      → Sound p
      → Sound (beat_once R cfg parse token q id attempts b link w p d).0
  unfolding beat_once
  beat-Sound b link w p d s = ground arith

  report-Sound :
      (phase : Phase) (link : Link) (w : World) (p : Process) (d : Db)
      → phase ≡ p.phase
      → Sound p
      → Sound (report R cfg parse token q id attempts phase link w p d).0
  unfolding report
  report-Sound phase link w p d e s = ground arith

  advance-Sound : (e : Event) (p : Process) (d : Db) → Sound p → Sound (step e p d).0
  unfolding advance
  advance-Sound (beats link w) p d s = beat-Sound p.beat link w p d s
  advance-Sound hears p d s = hear-Sound p.beat p s
  advance-Sound quits p d s = quit-Sound p.phase p.beat p s
  advance-Sound (returns failed) p d s = return-Sound p.phase failed p refl s
  advance-Sound checks p d s = check-Sound p.phase p refl s
  advance-Sound (reports_to link w) p d s = report-Sound p.phase link w p d refl s
  advance-Sound (others steps) p d s = s

  process-Sound :
      (events : List Event) (p : Process) (d : Db) → Sound p → Sound (after events p d).0
  unfolding process
  process-Sound [] p d s = s
  process-Sound (e ∷ events) p d s =
      process-Sound events (step e p d).0 (step e p d).1 (advance-Sound e p d s)

  beat-Abandons :
      (b : Beat) (link : Link) (w : World) (p : Process) (d : Db)
      → Abandons p
      → Abandons (beat_once R cfg parse token q id attempts b link w p d).0
  unfolding beat_once
  beat-Abandons b link w p d s = ground arith

  report-Abandons :
      (phase : Phase) (link : Link) (w : World) (p : Process) (d : Db)
      → phase ≡ p.phase
      → Abandons p
      → Abandons (report R cfg parse token q id attempts phase link w p d).0
  unfolding report
  report-Abandons phase link w p d e s = ground arith

  advance-Abandons : (e : Event) (p : Process) (d : Db) → Abandons p → Abandons (step e p d).0
  unfolding advance
  advance-Abandons (beats link w) p d s = beat-Abandons p.beat link w p d s
  advance-Abandons hears p d s = hear-Abandons p.beat p s
  advance-Abandons quits p d s = quit-Abandons p.phase p.beat p s
  advance-Abandons (returns failed) p d s = return-Abandons p.phase failed p s
  advance-Abandons checks p d s = check-Abandons p.phase p s
  advance-Abandons (reports_to link w) p d s = report-Abandons p.phase link w p d refl s
  advance-Abandons (others steps) p d s = s

  process-Abandons :
      (events : List Event) (p : Process) (d : Db) → Abandons p → Abandons (after events p d).0
  unfolding process
  process-Abandons [] p d s = s
  process-Abandons (e ∷ events) p d s =
      process-Abandons events (step e p d).0 (step e p d).1 (advance-Abandons e p d s)

  -- The four steps from a given state.
  ends :
      (link : Link) (w : World) (phase : Phase) (beat : Beat) (lost cancelled : Bool)
      (reports : List Report) (acked : Bool) (d : Db)
      → is_working phase ≡ false
      → let p : Process = record {
        phase = phase;
        beat = beat;
        lost = lost;
        cancelled = cancelled;
        reports = reports;
        acked = acked;
      } in
        let end = after (checks ∷ reports_to link w ∷ hears ∷ quits ∷ []) p d in
        (end.0.phase ≡ finished) × (end.0.beat ≡ stopped)
  unfolding process advance report
  ends link w working beat lost cancelled reports acked d h = cc
  ends link w finished beat lost cancelled reports acked d h = ground arith
  ends link w (passed failed) beat lost cancelled reports acked d h = ground arith
  ends link w (returned failed) beat lost cancelled reports acked d h = ground arith

  module _ (has_handler : Bool) (events : List Event) (d : Db) where
    -- Where the process is after the events.
    abbrev pub now : Process × Db
    now = after events (start has_handler) d

    -- However the steps of the handler, the heartbeat and everybody else follow each other,
    -- `process` makes at most one call to report, and only at its end; `OnAck` is called only
    -- if that call is an acknowledgement; and the handler's context is cancelled once the lease
    -- is known to be lost.
    pub process_reports_once : Sound now.0
    process_reports_once = process-Sound events (start has_handler) d (start-Sound has_handler)

    -- If the heartbeat learns that the lease is lost before `process` has read the flag, then
    -- whatever happens later, neither an acknowledgement nor a failure is ever reported.
    pub lost_reports_nothing :
        now.0.lost ≡ true
        → is_unread now.0.phase ≡ true
        → (later : List Event) → (after later now.0 now.1).0.reports ≡ []
    lost_reports_nothing lost unread later =
        let sound = process_reports_once in
        let silent : now.0.reports ≡ [] = sound.at_end (unfinished now.0.phase unread) in
        (process-Abandons later now.0 now.1
          (record { knows = lost; silent = silent; before = rw unread refl })).silent

    -- Once the handler has returned, `process` ends: it reads the flag and makes its report,
    -- and the heartbeat takes up the result of its last call, if one is on its way, and stops.
    pub process_ends :
        (link : Link) (w : World)
        → is_working now.0.phase ≡ false
        → let end = after (checks ∷ reports_to link w ∷ hears ∷ quits ∷ []) now.0 now.1 in
          (end.0.phase ≡ finished) × (end.0.beat ≡ stopped)
    process_ends link w behind =
        let p = now.0 in
        ends link w p.phase p.beat p.lost p.cancelled p.reports p.acked now.1 behind
