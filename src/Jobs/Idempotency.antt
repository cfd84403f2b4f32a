-- ===== src/Jobs/Idempotency.antt =====
-- What an enqueue call leaves behind, on each of its ways, and what a repeated call finds.
use cogs_crash_refresh_job_q.Prelude.{
  ℕ, [], Bytes, Option, some, ◌≡◌, refl, sym, ◌⊎◌, inl, inr, subst, arith, ◌==◌, if◌then◌else◌,
  bytes_eq, Bool-cases, Option-cases,
}
use cogs_crash_refresh_job_q.Results.{Result, ok, err, redis_failed}
use cogs_crash_refresh_job_q.Keys.{idem_key}
use cogs_crash_refresh_job_q.Redis.{Redis, View}
use cogs_crash_refresh_job_q.Jobs.{Inv}
use cogs_crash_refresh_job_q.Jobs.Enqueue.{
  added, marked, new_fields, IsFresh, IsKnown, added-Inv, enqueue, enqueue_plain, enqueue_refused,
  enqueue_hit, enqueue_marks,
}

marked-Inv : (idem id : Bytes) (v : View) → Inv v → Inv (marked idem id v)
marked-Inv idem id v inv = record {
  once = inv.once;
  backed = inv.backed;
  located = inv.located;
  numbered = inv.numbered;
}

module _ (R : Redis) (q id body idem : Bytes) (created ttl : ℕ) where
  open R use {Db, view}

  abbrev call : Db → Result (ℕ × Option Bytes) × Db
  call = enqueue R q id body idem created ttl

  -- A call that made a job: it stands in the pending list, and a key leaves its marker.
  abbrev pub Created : Db → Type 0
  Created d =
      ((call d).0 ≡ ok (1, some id))
      × (view (call d).1
          ≡ added q id (new_fields R q id body idem created (view d))
              (if bytes_eq idem [] then view d else marked idem id (view d)))

  -- A call that gave back the job of the marker.
  abbrev pub Repeated : Db → Type 0
  Repeated d =
      (old : Bytes) × ((view d).strings (idem_key idem) ≡ some old)
      × ((call d).0 ≡ ok (0, some old))
      × (view (call d).1 ≡ view d)

  -- A call with a key, under a window of less than a second, which Redis refuses.
  abbrev pub Refused : Db → Type 0
  Refused d = (ttl ≡ 0) × ((call d).0 ≡ err redis_failed) × (view (call d).1 ≡ view d)

  -- Every enqueue call makes a job, gives back the job of the key's marker, or is refused, and the
  -- last two change nothing.
  pub enqueue_outcome : (d : Db) → Created d ⊎ Repeated d ⊎ Refused d
  enqueue_outcome d = elim (Bool-cases (bytes_eq idem [])) [
    | inl plain ↦ inl (rw plain (enqueue_plain R q id body idem created ttl d plain))
    | inr keyed ↦ elim (Bool-cases (ttl == 0)) [
      | inl zero ↦
          let z : ttl ≡ 0 = ground arith in
          inr
            (inr (let (r, w) = enqueue_refused R q id body idem created ttl d keyed z in (z, r, w)))
      | inr positive ↦ elim (Option-cases ((view d).strings (idem_key idem))) [
        | inl none_yet ↦
            inl (rw keyed (enqueue_marks R q id body idem created ttl d keyed positive none_yet))
        | inr (old, e) ↦ inr (
            inl (
              let (r, w) = enqueue_hit R q id body idem created ttl d old keyed positive e in
              (old, e, r, w)))
      ]
    ]
  ]

  -- A call whose key has a marker changes nothing, whatever its ID: the key makes it safe to send
  -- the call again.
  pub known_unchanged : (d : Db) → IsKnown (view d) idem → view (call d).1 ≡ view d
  known_unchanged d (keyed, owner, there) = elim (Bool-cases (ttl == 0)) [
    | inl zero ↦
        let z : ttl ≡ 0 = ground arith in (enqueue_refused R q id body idem created ttl d keyed z).1
    | inr window ↦ (enqueue_hit R q id body idem created ttl d owner keyed window there).1
  ]

  -- With an ID that no job has, an enqueue call keeps the invariant on all its ways.
  pub enqueue-Inv : (d : Db) → Inv (view d) → IsFresh (view d) id → Inv (view (call d).1)
  enqueue-Inv d inv fresh = elim (enqueue_outcome d) [
    | inl made ↦ subst Inv (sym made.1) (elim (Bool-cases (bytes_eq idem [])) [
      | inl plain ↦ rw plain (added-Inv q id _ (view d) inv fresh refl refl)
      | inr keyed ↦ rw keyed (
          added-Inv q id _ (marked idem id (view d)) (marked-Inv idem id (view d) inv) fresh refl
            refl)
    ])
    | inr (inl again) ↦ subst Inv (sym again.3) inv
    | inr (inr refused) ↦ subst Inv (sym refused.2) inv
  ]
