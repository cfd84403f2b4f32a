-- ===== src/Jobs/Ack/Finished.antt =====
-- The keyspace after one leased job has been finished.
use cogs_crash_refresh_job_q.Prelude.{
  ◌≤◌, false, [], Bytes, none, ◌≡◌, sym, ◌∙◌, present, arith, if◌then◌else◌, ◌&&◌, bytes_eq,
  bytes_eq_sound, bytes_eq_iff,
}
use cogs_crash_refresh_job_q.Keys.{job_key, leased_key}
use cogs_crash_refresh_job_q.Keys.Layout.{key_laws}
use cogs_crash_refresh_job_q.Keys.Families.{del_laws}
use cogs_crash_refresh_job_q.Redis.{View, Field, queue, attempts, at_member, at}
use cogs_crash_refresh_job_q.Jobs.{places, Inv}
use cogs_crash_refresh_job_q.Jobs.Relocate.{leased, source_places}

-- The keyspace without a leased job: its lease removed and its hash deleted.
abbrev pub finished : Bytes → Bytes → View → View
finished q id v = record {
  lists = at v.lists (job_key id) [];
  zsets = at (at_member v.zsets (leased_key q) id none) (job_key id) (λ m. none);
  hashes = at v.hashes (job_key id) (λ f. none);
  strings = at v.strings (job_key id) none;
}

module _ (q id : Bytes) (v : View) (inv : Inv v)
    (held : present (v.zsets (leased_key q) id) ≡ 1) where
  pub finished-places :
      (q' id' : Bytes)
      → places (finished q id v) q' id'
        ≡ (if bytes_eq q q' && bytes_eq id id' then 0 else places v q' id')
  finished-places q' id' =
      simp (key_laws, del_laws)
        (ground (arith, bytes_eq_sound q q', bytes_eq_sound id id', inv.once q id))

  pub finished-hashes :
      (id' : Bytes) (f : Field)
      → (finished q id v).hashes (job_key id') f
        ≡ (if bytes_eq id id' then none else v.hashes (job_key id') f)
  finished-hashes id' f = simp key_laws (ground arith)

  pub finished-leased :
      (id' : Bytes)
      → (finished q id v).zsets (leased_key q) id'
        ≡ (if bytes_eq id id' then none else v.zsets (leased_key q) id')
  finished-leased id' = simp (key_laws, del_laws)

  -- A job that still stands is another job.
  pub other_job :
      (q' id' : Bytes)
      → 1 ≤ places (finished q id v) q' id'
      → (bytes_eq id id' ≡ false) × (1 ≤ places v q' id')
  other_job q' id' h = ground (
    arith,
    finished-places q' id',
    bytes_eq_sound id id',
    bytes_eq_iff q q',
    inv.backed q' id',
    inv.backed q id (source_places leased q id v held),
  )

  pub finished-Inv : Inv (finished q id v)
  finished-Inv = record {
    once = λ q' id'. rw (finished-places q' id') (ground (arith, inv.once q' id'));
    backed = λ q' id' h.
        let (other, stood) = other_job q' id' h in
        rw (finished-hashes id' queue, other) (inv.backed q' id' stood);
    located = λ q' id' h.
        ground
          (arith, finished-places q' id', inv.located q' id', sym (finished-hashes id' queue) ∙ h);
    numbered = λ q' id' h.
        let (other, stood) = other_job q' id' h in
        rw (finished-hashes id' attempts, other) (inv.numbered q' id' stood);
  }
