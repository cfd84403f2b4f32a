-- ===== src/Jobs/Enqueue.antt =====
-- The enqueue script: a new job stands in the pending list of its queue, and a second call with
-- the same idempotency key gives back the first call's job.
use cogs_crash_refresh_job_q.Prelude.{
  ℕ, ◌+◌, ◌≤◌, true, false, [], ◌∷◌, Bytes, Option, some, none, ◌≡◌, refl, ap, sym, ◌∙◌, inl, inr,
  arith, ◌==◌, if◌then◌else◌, ◌&&◌, count, bytes_eq, bytes_eq_sound, bytes_eq_iff, Bool-cases,
}
use cogs_crash_refresh_job_q.Results.{Result, ok, err, redis_failed}
use cogs_crash_refresh_job_q.Keys.{job_key, pending_key, idem_key}
use cogs_crash_refresh_job_q.Keys.Layout.{key_laws}
use cogs_crash_refresh_job_q.Redis.{
  Redis, View, Field, payload, queue, attempts, idempotency_key, created_at, cron, last_run, Value,
  text, int, as_int, at, at_field, field_eq,
}
use cogs_crash_refresh_job_q.Scripts.{put_job, enqueue_script}
use cogs_crash_refresh_job_q.Jobs.{places, Inv}

-- The fields of a new job.
abbrev pub job_fields : Bytes → Bytes → Bytes → ℕ → (Field → Option Value) → Field → Option Value
job_fields q body idem created old payload = some (text body)
job_fields q body idem created old queue = some (text q)
job_fields q body idem created old attempts = some (int 0)
job_fields q body idem created old idempotency_key = some (text idem)
job_fields q body idem created old created_at = some (int created)
job_fields q body idem created old cron = old cron
job_fields q body idem created old last_run = old last_run

abbrev pub added : Bytes → Bytes → (Field → Option Value) → View → View
added q id fields v = record v {
  lists = at v.lists (pending_key q) (id ∷ v.lists (pending_key q));
  hashes = at v.hashes (job_key id) fields;
}

-- The marker of an idempotency key holds the job's ID.
abbrev pub marked : Bytes → Bytes → View → View
marked idem id v = record v { strings = at v.strings (idem_key idem) (some id) }

-- The ID is new: no job has it.
abbrev pub IsFresh : View → Bytes → Type 0
IsFresh v id = v.hashes (job_key id) queue ≡ none

-- The call has an idempotency key, and the key a marker.
abbrev pub IsKnown : View → Bytes → Type 0
IsKnown v idem =
    (bytes_eq idem [] ≡ false) × (owner : Bytes) × (v.strings (idem_key idem) ≡ some owner)

module _ (q id : Bytes) (fields : Field → Option Value) (v : View) where
  pub added-places :
      (q' id' : Bytes)
      → places (added q id fields v) q' id'
        ≡ (if bytes_eq q q' && bytes_eq id id' then 1 else 0) + places v q' id'
  unfolding count
  added-places q' id' = simp key_laws (ground (arith, bytes_eq_sound q q'))

  pub added-hashes :
      (id' : Bytes) (f : Field)
      → (added q id fields v).hashes (job_key id') f
        ≡ (if bytes_eq id id' then fields f else v.hashes (job_key id') f)
  added-hashes id' f = simp key_laws (ground arith)

  pub fresh-places : Inv v → IsFresh v id → (q' : Bytes) → places v q' id ≡ 0
  fresh-places inv fresh q' = ground (arith, inv.backed q' id)

  added_numbered :
      Inv v
      → fields attempts ≡ some (int 0)
      → (q' id' : Bytes) → 1 ≤ places (added q id fields v) q' id'
      → (n : ℕ) × (as_int ((added q id fields v).hashes (job_key id') attempts) ≡ some n)
  added_numbered inv at_attempts q' id' h = elim (Bool-cases (bytes_eq id id')) [
    | inl new ↦ (0, rw (added-hashes id' attempts, new, at_attempts) refl)
    | inr other ↦
        let (n, e) = inv.numbered q' id' (ground (arith, added-places q' id')) in
        (n, rw (added-hashes id' attempts, other) e)
  ]

  -- A new job with an unused ID keeps the invariant.
  pub added-Inv :
      Inv v
      → IsFresh v id
      → fields queue ≡ some (text q)
      → fields attempts ≡ some (int 0)
      → Inv (added q id fields v)
  added-Inv inv fresh at_queue at_attempts = record {
    once = λ q' id'. ground (
      arith,
      added-places q' id',
      bytes_eq_sound id id',
      fresh-places inv fresh q',
      inv.once q' id',
    );
    backed = λ q' id' h. rw (added-hashes id' queue) (
        ground (
          arith,
          added-places q' id',
          bytes_eq_sound id id',
          bytes_eq_sound q q',
          fresh-places inv fresh q',
          inv.backed q' id',
        ));
    located = λ q' id' h. ground (
      arith,
      added-places q' id',
      bytes_eq_iff q q',
      bytes_eq_sound id id',
      inv.located q' id',
      sym (added-hashes id' queue) ∙ h,
    );
    numbered = λ q' id' h. added_numbered inv at_attempts q' id' h;
  }

put_same :
    (h : Bytes → Field → Option Value) (k q body idem : Bytes) (created : ℕ) (j : Bytes) (f : Field)
    → k ≡ j
    → (if field_eq created_at f
        then some (int created)
        else if field_eq idempotency_key f
        then some (text idem)
        else if field_eq attempts f
        then some (int 0)
        else if field_eq queue f
        then some (text q)
        else if field_eq payload f
        then some (text body)
        else h j f)
      ≡ job_fields q body idem created (h k) f
put_same h k q body idem created j payload e = refl
put_same h k q body idem created j f e = cc

-- Five HSETs of one hash.
put_fields :
    (h : Bytes → Field → Option Value) (k q body idem : Bytes) (created : ℕ) (j : Bytes) (f : Field)
    → at_field
        (at_field
          (at_field
            (at_field (at_field h k payload (some (text body))) k queue (some (text q)))
            k
            attempts
            (some (int 0)))
          k
          idempotency_key
          (some (text idem)))
        k
        created_at
        (some (int created))
        j
        f
      ≡ at h k (job_fields q body idem created (h k)) j f
put_fields h k q body idem created j f = elim (Bool-cases (bytes_eq k j)) [
  | inl same ↦ rw same (put_same h k q body idem created j f (bytes_eq_sound k j same))
  | inr other ↦ rw other refl
]

module _ (R : Redis) (q id body idem : Bytes) (created : ℕ) where
  open R use {
    Db, view, hset, lpush, set_nx, get, set_nx_reply, view-set_nx, get_reply, view-hset, view-lpush,
  }

  -- The new job's fields, over what the hash of its ID held.
  abbrev pub new_fields : View → Field → Option Value
  new_fields v = job_fields q body idem created (v.hashes (job_key id))

  pub view-put_job :
      (d : Db)
      → view (put_job R (job_key id) (pending_key q) id body q idem created d)
        ≡ added q id (new_fields (view d)) (view d)
  unfolding put_job
  view-put_job d =
      simp (view-lpush, view-hset)
        (λ i. record (added q id (new_fields (view d)) (view d)) {
          hashes = λ j f. put_fields (view d).hashes (job_key id) q body idem created j f i;
        })

  module _ (idem_ttl : ℕ) (d : Db) where
    abbrev pub enqueue : Result (ℕ × Option Bytes) × Db
    enqueue =
        enqueue_script R (job_key id) (pending_key q) (idem_key idem) id body q created idem
          idem_ttl d

    pub enqueue_plain :
        bytes_eq idem [] ≡ true
        → (enqueue.0 ≡ ok (1, some id))
          × (view enqueue.1 ≡ added q id (new_fields (view d)) (view d))
    unfolding enqueue_script
    enqueue_plain h = rw h (refl, view-put_job d)

    pub enqueue_refused :
        bytes_eq idem [] ≡ false
        → idem_ttl ≡ 0
        → (enqueue.0 ≡ err redis_failed) × (view enqueue.1 ≡ view d)
    unfolding enqueue_script
    enqueue_refused h z = rw (h, set_nx_reply, z) (refl, rw (view-set_nx, z) refl)

    pub enqueue_hit :
        (old : Bytes)
        → bytes_eq idem [] ≡ false
        → (idem_ttl == 0) ≡ false
        → (view d).strings (idem_key idem) ≡ some old
        → (enqueue.0 ≡ ok (0, some old)) × (view enqueue.1 ≡ view d)
    unfolding enqueue_script
    enqueue_hit old h t e =
        rw (h, set_nx_reply, t, e)
          (
            rw (get_reply, view-set_nx, t, e) (ap (λ (o : Option Bytes). ok (0, o)) e),
            rw (view-set_nx, t, e) refl,
          )

    pub enqueue_marks :
        bytes_eq idem [] ≡ false
        → (idem_ttl == 0) ≡ false
        → (view d).strings (idem_key idem) ≡ none
        → (enqueue.0 ≡ ok (1, some id))
          × (view enqueue.1 ≡ added q id (new_fields (view d)) (marked idem id (view d)))
    unfolding enqueue_script
    enqueue_marks h t e =
        rw (h, set_nx_reply, t, e) (refl, rw (view-put_job, view-set_nx, t, e) refl)
