-- ===== src/Jobs/Leases.antt =====
-- What the scripts of other calls do to a lease: nothing, until a drain pass finds it expired.
pub mod Others
use mathlib.Core.List.{reverse, reverse-cons}
use cogs_crash_refresh_job_q.Prelude.{
  ℕ, zero, suc, ◌+◌, true, false, List, [], ◌∷◌, ◌++◌, Bytes, some, none, ℤ, ltb_ℤ, ◌≡◌, ◌≢◌, ◌⊎◌,
  ◌&&◌, refl, sym, ap, subst, ◌∙◌, inl, inr, arith, ◌==◌, if◌then◌else◌, count, count-append,
  bytes_eq, bytes_eq_iff, bytes_eq_sound, bytes_eq_ne, Bool-cases, Option-cases, present,
}
use cogs_crash_refresh_job_q.Keys.{pending_key, leased_key, schedules_key}
use cogs_crash_refresh_job_q.Keys.Layout.{key_laws, retry-leased}
use cogs_crash_refresh_job_q.Keys.Families.{del_laws}
use cogs_crash_refresh_job_q.Redis.{Redis, View}
use cogs_crash_refresh_job_q.Scripts.{
  claim_script, lease_one, ack_script, FailReply, gone, retried, dead_lettered,
}
use cogs_crash_refresh_job_q.Schedules.{Quad, schedule_script}
use cogs_crash_refresh_job_q.Schedules.Fire.{one, schedule_one_outcome}
use cogs_crash_refresh_job_q.Jobs.Relocate.{leased, retry}
use cogs_crash_refresh_job_q.Jobs.Fail.{FailOutcome, after, fail_script_outcome}
use cogs_crash_refresh_job_q.Jobs.Ack.{ack, ack_script-Acks}
use cogs_crash_refresh_job_q.Jobs.Pass.{pass, drain_script_early}
use cogs_crash_refresh_job_q.Jobs.Elsewhere.{pass_elsewhere, pass_other_sets}
use cogs_crash_refresh_job_q.Jobs.Enqueue.{enqueue}
use cogs_crash_refresh_job_q.Jobs.Idempotency.{enqueue_outcome}
use cogs_crash_refresh_job_q.Jobs.{Inv}
use cogs_crash_refresh_job_q.Jobs.Order.{ids, Handed, claim, claim_script_hands}
use cogs_crash_refresh_job_q.Jobs.Renew.{renew, extended, renew_script_outcome}

pub count-reverse : (a : Bytes) (xs : List Bytes) → count a (reverse xs) ≡ count a xs
unfolding count
count-reverse a [] = refl
count-reverse a (x ∷ xs) =
    ap (count a) (reverse-cons x xs)
    ∙ count-append a (reverse xs) (x ∷ [])
    ∙ omega (arith, count-reverse a xs)

-- The queue holds a lease for the ID with that deadline.
abbrev pub HasLease : Bytes → Bytes → ℤ → View → Type 0
HasLease q id t v = v.zsets (leased_key q) id ≡ some t

-- A leased job waits in no queue.
pub leased-not_pending :
    (q id : Bytes) (t : ℤ) (v : View)
    → Inv v
    → HasLease q id t v
    → (q' : Bytes) → count id (v.lists (pending_key q')) ≡ 0
leased-not_pending q id t v inv held q' = elim (Bool-cases (bytes_eq q' q)) [
  | inl same ↦ rw (bytes_eq_sound q' q same) (ground (arith, inv.once q id))
  | inr other ↦ ground (arith, inv.backed q' id, inv.backed q id, bytes_eq_iff q' q)
]

module _ (R : Redis) (q id : Bytes) (t : ℤ) where
  open R use {Db, view, rpop, zrem, rpop_reply, view-rpop, view-zadd, view-zrem, view-del}

  claim_elsewhere :
      (q' : Bytes) (deadline : ℤ)
      → bytes_eq q' q ≡ false
      → (n : ℕ) (d : Db)
      → (view (claim R q' deadline n d).1).zsets (leased_key q) id
        ≡ (view d).zsets (leased_key q) id
  unfolding claim_script lease_one
  claim_elsewhere q' deadline other zero d = refl
  claim_elsewhere q' deadline other (suc n) d = elim (Option-cases (rpop (pending_key q') d).0) [
    | inl e ↦ rw (e, claim_script) (simp view-rpop)
    | inr (x, e) ↦
        rw (e, claim_script)
          (claim_elsewhere q' deadline other n _
            ∙ simp (view-zadd, view-rpop, key_laws) (rw other refl))
  ]

  -- A claim does not hand out a leased job, and leaves its lease.
  pub claim_leaves :
      (q' : Bytes) (deadline : ℤ) (n : ℕ) (d : Db)
      → Inv (view d)
      → HasLease q id t (view d)
      → (count id (ids (claim R q' deadline n d).0) ≡ 0)
        × HasLease q id t (view (claim R q' deadline n d).1)
  claim_leaves q' deadline n d inv held =
      let h = claim_script_hands R q' deadline n d in
      let w = view (claim R q' deadline n d).1 in
      let out = ids (claim R q' deadline n d).0 in
      let absent : count id out ≡ 0 = omega (
        arith,
        leased-not_pending q id t (view d) inv held q',
        ap (count id) h.oldest_first,
        count-append id (w.lists (pending_key q')) (reverse out),
        count-reverse id out,
      ) in
      (
        absent,
        elim (Bool-cases (bytes_eq q' q)) [
          | inl same ↦
              let e = bytes_eq_sound q' q same in rw (← e) (h.leases id ∙ rw absent (rw e held))
          | inr other ↦ claim_elsewhere q' deadline other n d ∙ held
        ],
      )
