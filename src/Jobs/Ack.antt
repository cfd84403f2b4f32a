-- ===== src/Jobs/Ack.antt =====
-- The ack script: what is leased is finished and removed, and nothing else is touched.
mod Finished
use cogs_crash_refresh_job_q.Jobs.Ack.Finished.{
  finished, finished-places, finished-hashes, finished-leased, other_job, finished-Inv,
}
use cogs_crash_refresh_job_q.Prelude.{
  ℕ, ◌+◌, ◌≤◌, Bool, false, not, List, [], ◌∷◌, Bytes, none, ◌≡◌, refl, ap, subst, sym, ◌∙◌, inl,
  inr, present, arith, ◌==◌, if◌then◌else◌, ◌&&◌, count, bytes_eq, bytes_eq_refl, bytes_eq_sound,
  bytes_eq_iff, is_some, Option-cases,
}
use cogs_crash_refresh_job_q.Keys.{job_key, leased_key}
use cogs_crash_refresh_job_q.Keys.Layout.{key_laws}
use cogs_crash_refresh_job_q.Keys.Families.{del_laws}
use cogs_crash_refresh_job_q.Redis.{Redis, View, Field, queue, attempts, at_member, at}
use cogs_crash_refresh_job_q.Scripts.{ack_script}
use cogs_crash_refresh_job_q.Jobs.{places, Inv}
use cogs_crash_refresh_job_q.Jobs.Relocate.{leased, source_places, at_member_absent}

-- An ID that the call names and that is leased in the queue.
abbrev pub was_leased : View → Bytes → List Bytes → Bytes → Bool
was_leased v q ids id = not (count id ids == 0) && is_some (v.zsets (leased_key q) id)

-- How many distinct IDs of the call are leased: each is counted where it stands last.
abbrev pub leased_among : View → Bytes → List Bytes → ℕ
leased_among v q [] = 0
leased_among v q (id ∷ ids) =
    (if count id ids == 0 then present (v.zsets (leased_key q) id) else 0) + leased_among v q ids

pub record Acked (q : Bytes) (ids : List Bytes) (v w : View) : Type 0 where
  pub inv : Inv w
  pub places_after :
      (q' id : Bytes)
      → places w q' id ≡ (if bytes_eq q q' && was_leased v q ids id then 0 else places v q' id)
  pub hashes_after :
      (id : Bytes) (f : Field)
      → w.hashes (job_key id) f ≡ (if was_leased v q ids id then none else v.hashes (job_key id) f)
  pub leased_after :
      (id : Bytes)
      → w.zsets (leased_key q) id
        ≡ (if was_leased v q ids id then none else v.zsets (leased_key q) id)

-- A further ID in front that is not leased is passed over.
Acked-skip :
    (q id : Bytes) (ids : List Bytes) (v w : View)
    → v.zsets (leased_key q) id ≡ none
    → Acked q ids v w
    → Acked q (id ∷ ids) v w
unfolding count
Acked-skip q id ids v w absent a = record {
  inv = a.inv;
  places_after = λ q' id'. ground (arith, bytes_eq_sound id id', a.places_after q' id');
  hashes_after = λ id' f. ground (arith, bytes_eq_sound id id', a.hashes_after id' f);
  leased_after = λ id'. ground (arith, bytes_eq_sound id id', a.leased_after id');
}

Acked-cons :
    (q id : Bytes) (ids : List Bytes) (v w : View)
    → Inv v
    → present (v.zsets (leased_key q) id) ≡ 1
    → Acked q ids (finished q id v) w
    → Acked q (id ∷ ids) v w
unfolding count
Acked-cons q id ids v w inv held a = record {
  inv = a.inv;
  places_after = λ q' id'. ground (
    arith,
    bytes_eq_sound id id',
    a.places_after q' id',
    finished-places q id v inv held q' id',
    finished-leased q id v inv held id',
  );
  hashes_after = λ id' f. ground (
    arith,
    bytes_eq_sound id id',
    a.hashes_after id' f,
    finished-hashes q id v inv held id' f,
    finished-leased q id v inv held id',
  );
  leased_after = λ id'.
      ground
        (arith, bytes_eq_sound id id', a.leased_after id', finished-leased q id v inv held id');
}

leased_among-finished :
    (q id : Bytes) (v : View) (inv : Inv v) (held : present (v.zsets (leased_key q) id) ≡ 1)
    → (ids : List Bytes)
    → leased_among v q ids
      ≡ leased_among (finished q id v) q ids + (if count id ids == 0 then 0 else 1)
unfolding count
leased_among-finished q id v inv held [] = refl
leased_among-finished q id v inv held (x ∷ ids) = ground (
  arith,
  bytes_eq_sound id x,
  bytes_eq_sound x id,
  bytes_eq_refl id,
  finished-leased q id v inv held x,
  leased_among-finished q id v inv held ids,
)

-- The state and the reply after a call for the given IDs.
abbrev pub Acks : Bytes → List Bytes → View → View → ℕ → Type 0
Acks q ids v w n = Acked q ids v w × (n ≡ leased_among v q ids)

Acks-skip :
    (q id : Bytes) (ids : List Bytes) (v u w : View) (n : ℕ)
    → v.zsets (leased_key q) id ≡ none
    → u ≡ v
    → Acks q ids u w n
    → Acks q (id ∷ ids) v w (0 + n)
Acks-skip q id ids v u w n absent same (a, e) = (
  Acked-skip q id ids v w absent (subst (λ x. Acked q ids x w) same a),
  rw absent (ground (arith, e, ap (λ x. leased_among x q ids) same)),
)

Acks-cons :
    (q id : Bytes) (ids : List Bytes) (v u w : View) (n : ℕ)
    → Inv v
    → present (v.zsets (leased_key q) id) ≡ 1
    → u ≡ finished q id v
    → Acks q ids u w n
    → Acks q (id ∷ ids) v w (1 + n)
Acks-cons q id ids v u w n inv held same (a, e) = (
  Acked-cons q id ids v w inv held (subst (λ x. Acked q ids x w) same a),
  ground (arith, e, ap (λ x. leased_among x q ids) same, leased_among-finished q id v inv held ids),
)

module _ (R : Redis) (q : Bytes) where
  open R use {Db, view, zrem, del, zrem_reply, view-zrem, view-del}

  abbrev pub ack : List Bytes → Db → ℕ × Db
  ack = ack_script R (leased_key q)

  ack_skip :
      (id : Bytes) (ids : List Bytes) (d : Db)
      → (view d).zsets (leased_key q) id ≡ none
      → ack (id ∷ ids) d ≡ (let (n, d') = ack ids (zrem (leased_key q) id d).1 in (0 + n, d'))
  unfolding ack_script
  ack_skip id ids d absent = rw (zrem_reply, absent) refl

  ack_take :
      (id : Bytes) (ids : List Bytes) (d : Db)
      → present ((view d).zsets (leased_key q) id) ≡ 1
      → ack (id ∷ ids) d
        ≡ (let (n, d') = ack ids (del (job_key id) (zrem (leased_key q) id d).1) in (1 + n, d'))
  unfolding ack_script
  ack_take id ids d held = rw (zrem_reply, held) refl

  after_zrem :
      (id : Bytes) (d : Db)
      → (view d).zsets (leased_key q) id ≡ none
      → view (zrem (leased_key q) id d).1 ≡ view d
  after_zrem id d absent =
      rw (view-zrem, at_member_absent (view d).zsets (leased_key q) id absent) refl

  after_del :
      (id : Bytes) (d : Db)
      → view (del (job_key id) (zrem (leased_key q) id d).1) ≡ finished q id (view d)
  after_del id d = simp (view-del, view-zrem)

  -- On a keyspace that keeps the invariant, acknowledging finishes exactly the named jobs that
  -- are leased in the queue: their leases and hashes are gone, every other job stands where it
  -- stood with its fields unchanged, and the reply counts the distinct finished ones. The
  -- invariant is kept.
  pub ack_script-Acks :
      (ids : List Bytes) (d : Db)
      → Inv (view d)
      → Acks q ids (view d) (view (ack ids d).1) (ack ids d).0
  unfolding ack_script count
  ack_script-Acks [] d inv = (
    record {
      inv = inv;
      places_after = λ q' id. ground arith;
      hashes_after = λ id f. refl;
      leased_after = λ id. refl;
    },
    refl,
  )
  ack_script-Acks (id ∷ ids) d inv = elim (Option-cases ((view d).zsets (leased_key q) id)) [
    | inl absent ↦
        subst (λ r. Acks q (id ∷ ids) (view d) (view r.1) r.0) (sym (ack_skip id ids d absent))
          (Acks-skip q id ids _ _ _ _ absent (after_zrem id d absent)
            (ack_script-Acks ids _ (subst Inv (sym (after_zrem id d absent)) inv)))
    | inr (t, held) ↦
        subst (λ r. Acks q (id ∷ ids) (view d) (view r.1) r.0)
          (sym (ack_take id ids d (ap present held)))
          (Acks-cons q id ids _ _ _ _ inv (ap present held) (after_del id d) (
            ack_script-Acks ids _ (
              subst Inv (sym (after_del id d)) (finished-Inv q id (view d) inv (ap present held)))))
  ]
