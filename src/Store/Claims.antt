-- ===== src/Store/Claims.antt =====
-- `Store.Claim` over several queues: the batch is its bound, and fewer jobs empty all queues.
pub mod Emptied
use cogs_crash_refresh_job_q.Store.Claims.Emptied.{
  length-reverse, nil_of_length, bind_ok, short_claim, pop_empty, stays_empty,
}
use cogs_crash_refresh_job_q.Prelude.{
  length-map, ℕ, zero, suc, ◌+◌, ◌-◌, ◌≤◌, ◌<◌, true, false, List, [], ◌∷◌, ◌++◌, map, Bytes, pos,
  ℤ, ◌≡◌, ◌≢◌, refl, ap, sym, ◌∙◌, Bool-cases, Option-cases, inl, inr, ◌==◌, length, length-append,
  arith, bytes_eq_sound,
}
use mathlib.Core.List.{reverse, reverse-cons}
use cogs_crash_refresh_job_q.Results.{Result, ok, err, ◌>>=◌, Link, answered, lost_call, lost_reply}
use cogs_crash_refresh_job_q.Keys.{pending_key, leased_key}
use cogs_crash_refresh_job_q.Keys.Layout.{key_laws}
use cogs_crash_refresh_job_q.Redis.{Redis, View}
use cogs_crash_refresh_job_q.Scripts.{Claimed, claim_script, lease_one}
use cogs_crash_refresh_job_q.Jobs.Order.{ids, claim as claim_one, claim_script_hands}
use cogs_crash_refresh_job_q.Store.{Config, Job, claimed_job, claim_queues, claim, clamp_batch}

-- The pending lists of the queues are empty.
abbrev pub AllEmpty : List (Bytes × Link) → View → Type 0
AllEmpty [] v = Unit
AllEmpty ((q, link) ∷ queues) v = (v.lists (pending_key q) ≡ []) × AllEmpty queues v

module _ (R : Redis) (cfg : Config) where
  open R use {Db, view}

  abbrev take_from : ℕ → ℕ → List (Bytes × Link) → Db → Result (List Job) × Db
  take_from = claim_queues R cfg

  -- The equations of the loop.
  pub take_full :
      (room deadline : ℕ) (q : Bytes) (link : Link) (queues : List (Bytes × Link)) (d : Db)
      → (room == 0) ≡ true
      → take_from room deadline ((q, link) ∷ queues) d ≡ (ok [], d)
  unfolding claim_queues
  take_full room deadline q link queues d full = rw (full, claim_queues) refl

  pub take_lost :
      (room deadline : ℕ) (q : Bytes) (link : Link) (queues : List (Bytes × Link)) (d : Db)
      (jobs : List Job)
      → (room == 0) ≡ false
      → link ≢ answered
      → (take_from room deadline ((q, link) ∷ queues) d).0 ≢ ok jobs
  unfolding claim_queues
  take_lost room deadline q answered queues d jobs more lost h = lost refl
  take_lost room deadline q lost_call queues d jobs more lost h = ground (arith, more)
  take_lost room deadline q lost_reply queues d jobs more lost h = ground (arith, more)

  pub take_answered :
      (room deadline : ℕ) (q : Bytes) (queues : List (Bytes × Link)) (d : Db)
      → (room == 0) ≡ false
      → take_from room deadline ((q, answered) ∷ queues) d ≡ (
          let vals = (claim_one R q (pos deadline) room d).0 in
          let (rest, d') =
            take_from
              (room - length vals)
              deadline
              queues
              (claim_one R q (pos deadline) room d).1 in
          (rest >>= λ jobs. ok (map (claimed_job q deadline) vals ++ jobs), d'))
  unfolding claim_queues
  take_answered room deadline q queues d more = rw (more, claim_queues) refl

  pub queues_stay_empty :
      (room deadline : ℕ) (queues : List (Bytes × Link)) (d : Db) (q' : Bytes)
      → (view d).lists (pending_key q') ≡ []
      → (view (take_from room deadline queues d).1).lists (pending_key q') ≡ []
  unfolding claim_queues
  queues_stay_empty room deadline [] d q' h = h
  queues_stay_empty room deadline ((q, answered) ∷ queues) d q' h = elim (Bool-cases (room == 0)) [
    | inl full ↦ rw (full, claim_queues) h
    | inr more ↦ rw (take_answered room deadline q queues d more) (
        queues_stay_empty (room - length (claim_one R q (pos deadline) room d).0) deadline queues
          (claim_one R q (pos deadline) room d).1 q' (stays_empty R q q' room deadline d h))
  ]
  queues_stay_empty room deadline ((q, lost_call) ∷ queues) d q' h = elim (Bool-cases (room == 0)) [
    | inl full ↦ rw (full, claim_queues) h
    | inr more ↦ rw (more, claim_queues) h
  ]
  queues_stay_empty room deadline ((q, lost_reply) ∷ queues) d q' h =
      elim (Bool-cases (room == 0)) [
        | inl full ↦ rw (full, claim_queues) h
        | inr more ↦ rw (more, claim_queues) (stays_empty R q q' room deadline d h)
      ]

  -- What is left of a claim that gave jobs, and the state after it.
  abbrev Bounded : ℕ → List (Bytes × Link) → View → List Job → Type 0
  Bounded room queues v jobs = (length jobs ≤ room) × (length jobs < room → AllEmpty queues v)

  queue_then_rest :
      (room deadline : ℕ) (q : Bytes) (queues : List (Bytes × Link)) (d d' : Db)
      (rest jobs : List Job)
      → (length (claim_one R q (pos deadline) room d).0 < room
          → (view d').lists (pending_key q) ≡ [])
      → Bounded (room - length (claim_one R q (pos deadline) room d).0) queues (view d') rest
      → jobs ≡ map (claimed_job q deadline) (claim_one R q (pos deadline) room d).0 ++ rest
      → Bounded room ((q, answered) ∷ queues) (view d') jobs
  queue_then_rest room deadline q queues d d' rest jobs emptied (few, all) e =
      let vals = (claim_one R q (pos deadline) room d).0 in
      let total : length jobs ≡ length vals + length rest =
        ap length e
        ∙ length-append (map (claimed_job q deadline) vals) rest
        ∙ ap (λ n. n + length rest) (length-map (claimed_job q deadline) vals) in
      let most = (claim_script_hands R q (pos deadline) room d).as_many in
      (
        omega (arith, total, few, most),
        λ short. (emptied (omega (arith, total, short)), all (omega (arith, total, short, most))),
      )

  nothing_within : (room : ℕ) (jobs : List Job) → ok [] ≡ ok jobs → length jobs ≤ room
  nothing_within room [] h = omega arith
  nothing_within room (j ∷ jobs) h = cc

  ended :
      (room deadline : ℕ) (q : Bytes) (link : Link) (queues : List (Bytes × Link)) (d : Db)
      (jobs : List Job)
      → (room == 0) ≡ true
      → (take_from room deadline ((q, link) ∷ queues) d).0 ≡ ok jobs
      → Bounded room
          ((q, link) ∷ queues)
          (view (take_from room deadline ((q, link) ∷ queues) d).1)
          jobs
  ended room deadline q link queues d jobs full h = (
    nothing_within room jobs
        (sym (ap (λ r. r.0) (take_full room deadline q link queues d full)) ∙ h),
    λ few. absurd (ground arith),
  )

  lost-Bounded :
      (room deadline : ℕ) (q : Bytes) (link : Link) (queues : List (Bytes × Link)) (d : Db)
      (jobs : List Job)
      → link ≢ answered
      → (take_from room deadline ((q, link) ∷ queues) d).0 ≡ ok jobs
      → Bounded room
          ((q, link) ∷ queues)
          (view (take_from room deadline ((q, link) ∷ queues) d).1)
          jobs
  lost-Bounded room deadline q link queues d jobs lost h = elim (Bool-cases (room == 0)) [
    | inl full ↦ ended room deadline q link queues d jobs full h
    | inr more ↦ absurd (take_lost room deadline q link queues d jobs more lost h)
  ]

  pub claim_queues_bounded :
      (room deadline : ℕ) (queues : List (Bytes × Link)) (d : Db) (jobs : List Job)
      → (take_from room deadline queues d).0 ≡ ok jobs
      → (length jobs ≤ room)
        × (length jobs < room → AllEmpty queues (view (take_from room deadline queues d).1))
  unfolding claim_queues
  claim_queues_bounded room deadline [] d jobs h = (nothing_within room jobs h, λ few. tt)
  claim_queues_bounded room deadline ((q, answered) ∷ queues) d jobs h =
      elim (Bool-cases (room == 0)) [
        | inl full ↦ ended room deadline q answered queues d jobs full h
        | inr more ↦
            let (rest, got, e) =
              bind_ok _ _ _
                (sym (ap (λ r. r.0) (take_answered room deadline q queues d more)) ∙ h) in
            let d' = (claim_one R q (pos deadline) room d).1 in
            let left = room - length (claim_one R q (pos deadline) room d).0 in
            rw (take_answered room deadline q queues d more) (
              queue_then_rest room deadline q queues d _ rest jobs
                (λ few.
                  queues_stay_empty left deadline queues d' q (short_claim R q room deadline d few))
                (claim_queues_bounded left deadline queues d' rest got) e)
      ]
  claim_queues_bounded room deadline ((q, lost_call) ∷ queues) d jobs h =
      lost-Bounded room deadline q lost_call queues d jobs (λ e. cc) h
  claim_queues_bounded room deadline ((q, lost_reply) ∷ queues) d jobs h =
      lost-Bounded room deadline q lost_reply queues d jobs (λ e. cc) h

  -- A claim that returns hands out at most the batch that it was asked for, brought between 1
  -- and the configured one, and so at most the configured number of jobs.
  pub claim_bounded :
      (now : ℕ) (queues : List (Bytes × Link)) (batch : ℤ) (d : Db) (jobs : List Job)
      → (claim R cfg now queues batch d).0 ≡ ok jobs
      → (length jobs ≤ clamp_batch cfg.max_claim_batch batch) × (length jobs ≤ cfg.max_claim_batch)
  unfolding claim clamp_batch
  claim_bounded now queues batch d jobs h =
      let few = (claim_queues_bounded _ _ queues d jobs h).0 in (few, ground (arith, few))
