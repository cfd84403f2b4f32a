-- ===== src/Jobs/Pass.antt =====
-- A whole pass of the drain script: which IDs it takes, where they go, and that it comes to an end
-- without an error.
mod Round
use cogs_crash_refresh_job_q.Jobs.Pass.Round.{
  is_moved, one_zset, put_back, other_key, relocated-other, one_other, one_moved,
}
use cogs_crash_refresh_job_q.Prelude.{
  ℕ, ◌+◌, ◌≤◌, ◌<◌, Bool, true, false, List, [], ◌∷◌, Bytes, Option, some, none, ℤ, ◌≤ℤ◌, ◌≡◌, refl,
  inl, inr, present, arith, ◌==◌, if◌then◌else◌, ◌&&◌, count, bytes_eq, bytes_eq_refl,
  bytes_eq_sound, length, Bool-cases, ltb_ℤ, ◌∙◌,
}
use cogs_crash_refresh_job_q.Results.{Result, ok}
use cogs_crash_refresh_job_q.Keys.{pending_key, leased_key, retry_key, dead_key}
use cogs_crash_refresh_job_q.Keys.Layout.{key_laws}
use cogs_crash_refresh_job_q.Redis.{Redis, View}
use cogs_crash_refresh_job_q.Scripts.{
  drain_loop, drain_script, Moved, skipped, requeued, buried, Drained, add_moved,
}
use cogs_crash_refresh_job_q.Jobs.{places, Inv, Keeps, Keeps-refl, Keeps-trans, Keeps-Inv}
use cogs_crash_refresh_job_q.Jobs.Relocate.{
  Source, leased, retry, source_key, Target, pending, dead, later, relocated,
}
use cogs_crash_refresh_job_q.Jobs.Drain.{
  DrainOutcome, next_attempts, drain_one_outcome, drain_one-Keeps,
}

-- How often an ID is reported, in either list.
abbrev pub reports : Drained → Bytes → ℕ
reports r id = count id r.requeued_ids + count id r.dead_ids

reports-add_moved :
    (m : Moved) (id : Bytes) (r : Drained) (id' : Bytes)
    → reports (add_moved m id r) id'
      ≡ (if is_moved m && bytes_eq id id' then 1 else 0) + reports r id'
unfolding count
reports-add_moved skipped id r id' = omega arith
reports-add_moved requeued id r id' = omega arith
reports-add_moved buried id r id' = omega arith

-- What a pass over the given IDs has done.
pub record Passed (s : Source) (q : Bytes) (ids : List Bytes) (v w : View) (r : Drained)
    : Type 0 where
  pub keeps : Keeps v w
  pub cleared : (id : Bytes) → 1 ≤ count id ids → w.zsets (source_key s q) id ≡ none
  pub others :
      (id : Bytes) → count id ids ≡ 0 → w.zsets (source_key s q) id ≡ v.zsets (source_key s q) id
  pub untouched : (id : Bytes) → w.zsets (other_key s q) id ≡ v.zsets (other_key s q) id
  pub reported :
      (id : Bytes)
      → reports r id ≡ (if count id ids == 0 then 0 else present (v.zsets (source_key s q) id))

Passed-cons :
    (s : Source) (bump : Bool) (max_retries : ℕ) (q id : Bytes) (ids : List Bytes) (u v w : View)
    (m : Moved) (r : Drained)
    → Keeps u v
    → DrainOutcome s bump max_retries q id u v m
    → Passed s q ids v w r
    → Passed s q (id ∷ ids) u w (add_moved m id r)
unfolding count
Passed-cons s bump max_retries q id ids u v w m r k o p = record {
  keeps = Keeps-trans k p.keeps;
  cleared = λ id' h. ground (arith, zset id', bytes_eq_sound id id', p.cleared id', p.others id');
  others = λ id' h. ground (arith, zset id', p.others id');
  untouched = λ id'. p.untouched id' ∙ one_other s bump max_retries q id u v m o id';
  reported = λ id'. ground (
    arith,
    zset id',
    one_moved s bump max_retries q id u v m o,
    reports-add_moved m id r id',
    bytes_eq_sound id id',
    p.reported id',
  );
}
  where
    zset :
        (id' : Bytes)
        → v.zsets (source_key s q) id'
          ≡ (if bytes_eq id id' then none else u.zsets (source_key s q) id')
    zset = one_zset s bump max_retries q id u v m o

-- A job that has left one sorted set and did not enter the other is in a list.
where_to :
    (s : Source) (q id : Bytes) (v w : View) (t : ℤ)
    → Keeps v w
    → w.zsets (source_key s q) id ≡ none
    → w.zsets (other_key s q) id ≡ v.zsets (other_key s q) id
    → v.zsets (source_key s q) id ≡ some t
    → places v q id ≤ 1
    → count id (w.lists (pending_key q)) + count id (w.lists (dead_key q)) ≡ 1
where_to leased q id v w t k gone other held one = ground (arith, k.same_places q id)
where_to retry q id v w t k gone other held one = ground (arith, k.same_places q id)

module _ (R : Redis) (s : Source) (bump : Bool) (max_retries : ℕ) (q : Bytes) where
  open R use {Db, view, zrange_by_score, zrange_once, zrange_due, zrange_limit, zrange_all}

  abbrev pub loop : List Bytes → Db → Result Drained × Db
  loop = drain_loop R (source_key s q) (pending_key q) (dead_key q) bump max_retries

  drain_loop_total :
      (ids : List Bytes) (d : Db)
      → Inv (view d)
      → (r : Drained) × ((loop ids d).0 ≡ ok r) × Passed s q ids (view d) (view (loop ids d).1) r
  unfolding drain_loop count
  drain_loop_total [] d inv = (
    record { requeued_ids = []; dead_ids = [] },
    refl,
    record {
      keeps = Keeps-refl (view d);
      cleared = λ id h. absurd (omega arith);
      others = λ id h. refl;
      untouched = λ id. refl;
      reported = λ id. refl;
    },
  )
  drain_loop_total (id ∷ ids) d inv =
      let (m, moves) = drain_one_outcome R s max_retries q bump id d inv in
      let first = drain_one-Keeps R s max_retries q bump id d inv in
      let (r, reply, rest) = drain_loop_total ids _ (Keeps-Inv first inv) in
      (
        add_moved m id r,
        rw (moves.0, drain_loop, reply) refl,
        rw (moves.0, drain_loop)
            (Passed-cons s bump max_retries q id ids _ _ _ m r first moves.1 rest),
      )

  module _ (now : ℤ) (limit : ℕ) (d : Db) where
    abbrev pub due : List Bytes
    due = zrange_by_score (source_key s q) now limit d

    abbrev pub pass : Result Drained × Db
    pass = drain_script R (source_key s q) (pending_key q) (dead_key q) now limit bump max_retries d

    pub drain_script_passes :
        Inv (view d) → (r : Drained) × (pass.0 ≡ ok r) × Passed s q due (view d) (view pass.1) r
    unfolding drain_script
    drain_script_passes inv = drain_loop_total due d inv

    pub drain_script-Keeps : Inv (view d) → Keeps (view d) (view pass.1)
    drain_script-Keeps inv = let (r, reply, p) = drain_script_passes inv in p.keeps

    due_counts :
        (id : Bytes)
        → (if count id due == 0 then 0 else present ((view d).zsets (source_key s q) id))
          ≡ count id due
    due_counts id = elim (Bool-cases (count id due == 0)) [
      | inl nothing ↦ ground arith
      | inr something ↦
          let (t, held, over) = zrange_due (source_key s q) id now limit d (ground arith) in
          rw (something, held) (ground (arith, zrange_once (source_key s q) id now limit d))
    ]

    not_due :
        (id : Bytes) (t : ℤ)
        → (view d).zsets (source_key s q) id ≡ some t
        → ltb_ℤ now t ≡ true
        → count id due ≡ 0
    not_due id t held early = elim (Bool-cases (count id due == 0)) [
      | inl nothing ↦ ground arith
      | inr something ↦
          let (t', held', over) = zrange_due (source_key s q) id now limit d (ground arith) in
          absurd (ground arith)
    ]

    -- On a keyspace that keeps the invariant a pass ends without an error. It takes at most
    -- `limit` IDs, and reports each of them once, in one of its two lists, and no other.
    pub drain_script_reports :
        Inv (view d)
        → (r : Drained) × (pass.0 ≡ ok r)
          × ((id : Bytes) → reports r id ≡ count id due)
          × (length due ≤ limit)
    drain_script_reports inv =
        let (r, reply, p) = drain_script_passes inv in
        (r, reply, λ id. p.reported id ∙ due_counts id, zrange_limit (source_key s q) now limit d)

    -- On a keyspace that keeps the invariant, a pass leaves a lease or a backoff that has not
    -- run out as it was.
    pub drain_script_early :
        (id : Bytes) (t : ℤ)
        → Inv (view d)
        → (view d).zsets (source_key s q) id ≡ some t
        → ltb_ℤ now t ≡ true
        → (view pass.1).zsets (source_key s q) id ≡ some t
    drain_script_early id t inv held early =
        let (r, reply, p) = drain_script_passes inv in p.others id (not_due id t held early) ∙ held

    -- On a keyspace that keeps the invariant, a lease or a backoff that has run out is gone
    -- after a pass that was not filled to its limit, and the job stands in the pending or in
    -- the dead list, once.
    pub drain_script_clears :
        (id : Bytes) (t : ℤ)
        → Inv (view d)
        → length due < limit
        → (view d).zsets (source_key s q) id ≡ some t
        → t ≤ℤ now
        → ((view pass.1).zsets (source_key s q) id ≡ none)
          × (count id ((view pass.1).lists (pending_key q))
                + count id ((view pass.1).lists (dead_key q))
              ≡ 1)
    drain_script_clears id t inv room held over =
        let (r, reply, p) = drain_script_passes inv in
        let gone = p.cleared id (zrange_all (source_key s q) id now limit d t room held over) in
        (gone, where_to s q id _ _ t p.keeps gone (p.untouched id) held (inv.once q id))
