-- ===== src/Schedules/Manager.antt =====
-- The Go side of internal/cogs/scheduler.go: `Create`, `Delete`, `List` and `Pass`. The parser of
-- cron expressions is a library: for a text it gives the function from a time to the next one.
use cogs_crash_refresh_job_q.Prelude.{
  ℕ, List, [], ◌∷◌, Bytes, Option, none, some, ℤ, pos, if◌then◌else◌,
}
use cogs_crash_refresh_job_q.Results.{
  bad_cron, no_id, Result, ok, err, ◌>>=◌, Link, over, replied, reading,
}
use cogs_crash_refresh_job_q.Keys.{schedule_key, schedules_key}
use cogs_crash_refresh_job_q.Redis.{Redis, Field, queue, payload, cron, Value}
use cogs_crash_refresh_job_q.Schedules.{Quad, Fired, put_schedule, delete_schedule, schedule_script}
use cogs_crash_refresh_job_q.Store.{Config, payload_or_null}
use cogs_crash_refresh_job_q.Store.Reads.{no_fields, field_text}

pub record Schedule : Type 0 where
  pub id : Bytes
  pub queue : Bytes
  pub cron : Bytes
  pub payload : Bytes
  pub next_run : ℤ

abbrev pub Parser : Type 0
Parser = Bytes → Option (ℕ → ℤ)

-- What a pass meets at one due schedule: the fate of its HGETALL and of its ZREM, the ID of the
-- new job if the random source gives one, and the clock.
pub record Fate : Type 0 where
  pub reads : Link
  pub drops : Link
  pub new_id : Option Bytes
  pub time : ℕ

-- The hash of a schedule that can fire: its payload and its times. `none` if the read failed or
-- found nothing, or the expression does not parse.
unfoldable pub fireable : Parser → Result (Field → Option Value) → Option (Bytes × (ℕ → ℤ))
unfolding no_fields
fireable parse (err e) = none
fireable parse (ok m) = if no_fields m then none else elim (parse (field_text (m cron))) [
  | none ↦ none
  | some next ↦ some (field_text (m payload), next)
]

module _ (R : Redis) (cfg : Config) (parse : Parser) where
  open R use {Db, hgetall, zrem, zrange, zrange_by_score}

  -- `time` is the clock for the next run, `now` for the creation.
  unfoldable pub create :
      Link → Option Bytes → ℕ → ℕ → Bytes → Bytes → Bytes → Db → Result Schedule × Db
  create link new_id time now q spec body d = elim (parse spec) [
    | none ↦ (err bad_cron, d)
    | some next ↦ elim new_id [
      | none ↦ (err no_id, d)
      | some id ↦
          over link
            (λ e. (
              ok (record {
                id = id;
                queue = q;
                cron = spec;
                payload = payload_or_null body;
                next_run = next time;
              }),
              put_schedule R id q spec (payload_or_null body) now (next time) e,
            ))
            d
    ]
  ]

  unfoldable pub delete : Link → Bytes → Db → Result {0} Unit × Db
  delete link id d = over link (λ e. (ok tt, delete_schedule R id e)) d

  -- The schedules whose hash is read; the others are passed over.
  unfoldable pub list_entries : (Bytes → Link) → List (Bytes × ℤ) → Db → List Schedule
  unfolding no_fields
  list_entries reads [] d = []
  list_entries reads ((id, score) ∷ entries) d =
      let rest = list_entries reads entries d in
      elim (reading (reads id) (hgetall (schedule_key id) d)) [
        | err e ↦ rest
        | ok m ↦
            if no_fields m
            then rest
            else record {
              id = id;
              queue = field_text (m queue);
              cron = field_text (m cron);
              payload = field_text (m payload);
              next_run = score;
            }
              ∷ rest
      ]

  unfoldable pub list : Link → (Bytes → Link) → Db → Result (List Schedule)
  unfolding list_entries
  list link reads d =
      reading link (zrange schedules_key d) >>= λ entries. ok (list_entries reads entries d)

  -- One due schedule: its quad, or `none` if it is dropped from the sorted set.
  unfoldable pub prepare_one : Fate → Bytes → Db → Result (Option Quad) × Db
  unfolding fireable
  prepare_one f id d = elim (fireable parse (reading f.reads (hgetall (schedule_key id) d))) [
    | none ↦ (ok none, (over f.drops (λ e. replied (zrem schedules_key id e)) d).1)
    | some (body, next) ↦ elim f.new_id [
      | none ↦ (err no_id, d)
      | some job_id ↦ (
        ok (some (record { sched_id = id; job_id = job_id; body = body; next_run = next f.time })),
        d,
      )
    ]
  ]

  abbrev add_quad : Option Quad → List Quad → List Quad
  add_quad none quads = quads
  add_quad (some s) quads = s ∷ quads

  unfoldable pub prepare : (Bytes → Fate) → List Bytes → Db → Result (List Quad) × Db
  unfolding prepare_one
  prepare fate [] d = (ok [], d)
  prepare fate (id ∷ due) d =
      let (one, d') = prepare_one (fate id) id d in
      elim one [
        | err e ↦ (err e, d')
        | ok s ↦
            let (rest, d'') = prepare fate due d' in (rest >>= λ quads. ok (add_quad s quads), d'')
      ]

  -- The script is called only if there is something to fire.
  unfoldable pub fire_prepared : Link → ℕ → List Quad → Db → Result (List Fired) × Db
  fire_prepared link now [] d = (ok [], d)
  fire_prepared link now (s ∷ quads) d =
      over link (λ e. replied (schedule_script R schedules_key now (s ∷ quads) e)) d

  -- The fates of the read of the due schedules, of what is done for each, and of the script.
  unfoldable pub schedule_pass : Link → (Bytes → Fate) → Link → ℕ → Db → Result (List Fired) × Db
  unfolding prepare fire_prepared
  schedule_pass reads fate fires now d =
      elim (reading reads (zrange_by_score schedules_key (pos now) cfg.drain_limit d)) [
        | err e ↦ (err e, d)
        | ok due ↦
            let (prepared, d') = prepare fate due d in
            elim prepared [ err e ↦ (err e, d') | ok quads ↦ fire_prepared fires now quads d' ]
      ]
