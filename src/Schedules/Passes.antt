-- ===== src/Schedules/Passes.antt =====
-- What a pass of the scheduler does with a due schedule, and what the scheduler's operations are
-- as steps.
use cogs_crash_refresh_job_q.Prelude.{
  ℕ, false, List, [], ◌∷◌, Bytes, Option, none, some, ℤ, pos, ◌≡◌, ◌≢◌, refl, ◌∙◌, inl, inr,
  bytes_eq_refl, arith, Option-cases,
}
use cogs_crash_refresh_job_q.Results.{
  Result, Result-cases, Error, redis_failed, ok, err, Link, answered, lost_call, lost_reply, over,
  replied, reading,
}
use cogs_crash_refresh_job_q.Keys.{schedule_key, schedules_key}
use cogs_crash_refresh_job_q.Redis.{Redis, Field, payload, cron, Value, value_bytes}
use cogs_crash_refresh_job_q.Schedules.{Quad}
use cogs_crash_refresh_job_q.Schedules.Fire.{one, unknown_unchanged, AllFresh}
use cogs_crash_refresh_job_q.Schedules.Manager.{
  Parser, Fate, fireable, prepare_one, prepare, fire_prepared, schedule_pass, create, delete,
}
use cogs_crash_refresh_job_q.Store.{Config}
use cogs_crash_refresh_job_q.Store.Reads.{field_text, no_fields}
use cogs_crash_refresh_job_q.System.{apply, schedules, creates, deletes, drops}
use cogs_crash_refresh_job_q.System.Runs.{Runs, Runs-refl, Runs-trans, Runs-over}

no_fields-cron : (m : Field → Option Value) (v : Value) → m cron ≡ some v → no_fields m ≡ false
unfolding no_fields
no_fields-cron m v h = ground (arith, h)

fireable_ready :
    (parse : Parser) (m : Field → Option Value) (spec : Value) (next : ℕ → ℤ)
    → m cron ≡ some spec
    → parse (value_bytes spec) ≡ some next
    → fireable parse (ok m) ≡ some (field_text (m payload), next)
unfolding fireable
fireable_ready parse m spec next there parses = rw (no_fields-cron m spec there, there, parses) refl

module _ (R : Redis) (cfg : Config) (parse : Parser) where
  open R use {Db, view, hgetall, hgetall_reply, zrem, view-zrem, zscore, zscore_reply}

  abbrev pub prep : Fate → Bytes → Db → Result (Option Quad) × Db
  prep = prepare_one R cfg parse

  -- A due schedule whose hash is read, holds an expression that parses, and for which there is a
  -- job ID, is prepared with its payload and its next time, and stays scheduled.
  pub prepare_one_ready :
      (f : Fate) (id job_id : Bytes) (spec : Value) (next : ℕ → ℤ) (d : Db)
      → f.reads ≡ answered
      → f.new_id ≡ some job_id
      → (view d).hashes (schedule_key id) cron ≡ some spec
      → parse (value_bytes spec) ≡ some next
      → ((prep f id d).0
          ≡ ok (
              some (record {
                sched_id = id;
                job_id = job_id;
                body = field_text ((view d).hashes (schedule_key id) payload);
                next_run = next f.time;
              })))
        × ((prep f id d).1 ≡ d)
  unfolding prepare_one
  prepare_one_ready f id job_id spec next d read drawn there parses =
      let ready : fireable parse (reading f.reads (hgetall (schedule_key id) d))
          ≡ some (field_text (hgetall (schedule_key id) d payload), next) =
        simp read (
          fireable_ready parse (hgetall (schedule_key id) d) spec next (hgetall_reply _ _ _ ∙ there)
            parses) in
      (rw (ready, prepare_one, drawn, hgetall_reply) refl, rw (ready, prepare_one, drawn) refl)

  unread :
      (link : Link) {A : Type 0} (a : A) → link ≢ answered → (e : Error) × (reading link a ≡ err e)
  unread answered a lost = absurd (lost refl)
  unread lost_call a lost = (redis_failed, refl)
  unread lost_reply a lost = (redis_failed, refl)

  -- The keyspace after the ZREM of a schedule over a link.
  abbrev after_drop : Link → Bytes → Db → Db
  after_drop link id d = (over link (λ e. replied (zrem schedules_key id e)) d).1

  after_drop-view :
      (link : Link) (id : Bytes) (d : Db)
      → link ≢ lost_call
      → view (after_drop link id d) ≡ view (zrem schedules_key id d).1
  after_drop-view answered id d arrives = refl
  after_drop-view lost_call id d arrives = absurd (arrives refl)
  after_drop-view lost_reply id d arrives = refl

  lost_dropped :
      (f : Fate) (id : Bytes) (d : Db)
      → f.reads ≢ answered
      → prep f id d ≡ (ok none, after_drop f.drops id d)
  unfolding prepare_one fireable
  lost_dropped f id d lost =
      let (e, failed) = unread f.reads (hgetall (schedule_key id) d) lost in
      rw (failed, prepare_one) refl

  -- A due schedule whose read fails is taken out of the sorted set if the ZREM takes effect:
  -- its hash stays as it was, but a call of the script for it then fires nothing, whatever the
  -- time.
  pub lost_read_unschedules :
      (f : Fate) (id : Bytes) (d : Db) (now : ℕ) (s : Quad)
      → f.reads ≢ answered
      → f.drops ≢ lost_call
      → s.sched_id ≡ id
      → ((prep f id d).0 ≡ ok none)
        × ((view (prep f id d).1).hashes ≡ (view d).hashes)
        × ((one R now s (prep f id d).1).0 ≡ none)
  lost_read_unschedules f id d now s lost arrives same =
      let w = after_drop-view f.drops id d arrives ∙ view-zrem schedules_key id d in
      let gone : (view (after_drop f.drops id d)).zsets schedules_key s.sched_id ≡ none =
        rw (w, same) (simp bytes_eq_refl) in
      rw (lost_dropped f id d lost)
        (refl, rw w refl, (unknown_unchanged R now s (after_drop f.drops id d) gone).0)

module _ (R : Redis) (cfg : Config) (parse : Parser) (q id : Bytes) where
  open R use {Db, view, hgetall, zrem, zrange_by_score}

  pub create-Runs :
      (link : Link) (new_id : Option Bytes) (time now : ℕ) (q' spec body : Bytes) (d : Db)
      → Runs R q id d (create R cfg parse link new_id time now q' spec body d).1
  unfolding create apply
  create-Runs link new_id time now q' spec body d = elim (Option-cases (parse spec)) [
    | inl e ↦ rw (e, create) (Runs-refl R q id d)
    | inr (next, e) ↦ elim (Option-cases new_id) [
      | inl e' ↦ rw (e, create, e') (Runs-refl R q id d)
      | inr (x, e') ↦
          rw (e, create, e')
            (Runs-over R q id link _ (creates x q' spec _ now (next time)) d tt tt refl)
    ]
  ]

  pub delete-Runs :
      (link : Link) (id' : Bytes) (d : Db) → Runs R q id d (delete R cfg parse link id' d).1
  unfolding delete apply
  delete-Runs link id' d = Runs-over R q id link _ (deletes id') d tt tt refl

  prepare_one-Runs :
      (f : Fate) (id' : Bytes) (d : Db) → Runs R q id d (prepare_one R cfg parse f id' d).1
  unfolding prepare_one apply
  prepare_one-Runs f id' d =
      elim (Option-cases (fireable parse (reading f.reads (hgetall (schedule_key id') d)))) [
        | inl e ↦ rw (e, prepare_one) (Runs-over R q id f.drops _ (drops id') d tt tt refl)
        | inr (s, e) ↦ elim (Option-cases f.new_id) [
          | inl e' ↦ rw (e, prepare_one, e') (Runs-refl R q id d)
          | inr (x, e') ↦ rw (e, prepare_one, e') (Runs-refl R q id d)
        ]
      ]

  prepare-Runs :
      (fate : Bytes → Fate) (due : List Bytes) (d : Db)
      → Runs R q id d (prepare R cfg parse fate due d).1
  unfolding prepare
  prepare-Runs fate [] d = Runs-refl R q id d
  prepare-Runs fate (x ∷ due) d =
      let first = prepare_one-Runs (fate x) x d in
      elim (Result-cases (prepare_one R cfg parse (fate x) x d).0) [
        | inl (e, h) ↦ rw (h, prepare) first
        | inr (s, h) ↦
            rw (h, prepare)
              (Runs-trans R q id first
                (prepare-Runs fate due (prepare_one R cfg parse (fate x) x d).1))
      ]

  fire-Runs :
      (link : Link) (now : ℕ) (quads : List Quad) (d : Db)
      → AllFresh (view d) quads
      → Runs R q id d (fire_prepared R cfg parse link now quads d).1
  unfolding fire_prepared apply
  fire-Runs link now [] d fresh = Runs-refl R q id d
  fire-Runs link now (s ∷ quads) d fresh =
      Runs-over R q id link _ (schedules now (s ∷ quads)) d (inl fresh) tt refl

  -- The job IDs that a pass draws are new and distinct.
  abbrev pub DrawsNew : (Bytes → Fate) → Db → Type 0
  DrawsNew fate d =
      (due : List Bytes) (quads : List Quad)
      → (prepare R cfg parse fate due d).0 ≡ ok quads
      → AllFresh (view (prepare R cfg parse fate due d).1) quads

  pub schedule_pass-Runs :
      (reads : Link) (fate : Bytes → Fate) (fires : Link) (now : ℕ) (d : Db)
      → DrawsNew fate d
      → Runs R q id d (schedule_pass R cfg parse reads fate fires now d).1
  unfolding schedule_pass
  schedule_pass-Runs reads fate fires now d new =
      let due = zrange_by_score schedules_key (pos now) cfg.drain_limit d in
      elim (Result-cases (reading reads due)) [
        | inl (e, h) ↦ rw (h, schedule_pass) (Runs-refl R q id d)
        | inr (ids, h) ↦
            let first = prepare-Runs fate ids d in
            elim (Result-cases (prepare R cfg parse fate ids d).0) [
              | inl (e, h') ↦ rw (h, schedule_pass, h') first
              | inr (quads, h') ↦
                  rw (h, schedule_pass, h')
                    (Runs-trans R q id first (
                      fire-Runs fires now quads (prepare R cfg parse fate ids d).1
                        (new ids quads h')))
            ]
      ]
