-- ===== src/Sdk/Pool/Slots.antt =====
-- What `Run` starts, and what it does for a job that waits for a slot: nothing.
use mathlib.Core.List.{append_assoc, append-nil}
use cogs_crash_refresh_job_q.Prelude.{
  ℕ, ◌≤◌, Bool, true, false, List, [], ◌∷◌, ◌++◌, Bytes, ◌≡◌, ◌⊎◌, refl, sym, ap, ◌∙◌, arith, inl,
  inr, Bool-cases, ltb,
}
use cogs_crash_refresh_job_q.Results.{Link}
use cogs_crash_refresh_job_q.Redis.{Redis}
use cogs_crash_refresh_job_q.Store.{Config}
use cogs_crash_refresh_job_q.Schedules.Manager.{Parser}
use cogs_crash_refresh_job_q.Api.{World}
use cogs_crash_refresh_job_q.Sdk.{Outcome, ok, err, ClaimResult, claim}
use cogs_crash_refresh_job_q.Sdk.Pool.{
  Worker, Task, tasks_of, Pool, no_tasks, Turn, rounds, starts, ends, others, start_next,
  after_claim, round, take_turn, work,
}

-- The tasks of a claim.
abbrev pub given : Worker → Outcome ClaimResult → List Task
given w (ok res) = tasks_of w res
given w (err e) = []

start_next-order :
    (concurrent : ℕ) (tasks : List Task) (p : Pool)
    → tasks ≡ p.waiting
    → let p' = start_next concurrent tasks p in p'.started ++ p'.waiting ≡ p.started ++ p.waiting
start_next-order concurrent [] p e = refl
start_next-order concurrent (task ∷ tasks) p e = elim (Bool-cases (ltb p.running concurrent)) [
  | inl free ↦ rw free (append_assoc p.started (task ∷ []) tasks ∙ ap (λ l. p.started ++ l) e)
  | inr full ↦ rw full refl
]

module _ (R : Redis) (cfg : Config) (parse : Parser) (token : Bytes) (w : Worker) where
  open R use {Db}

  abbrev pub turn : Turn → Pool → Db → Pool × Db
  turn = take_turn R cfg parse token w

  abbrev pub after : List Turn → Pool → Db → Pool × Db
  after = work R cfg parse token w

  -- What a turn claims.
  abbrev round_claims : List Task → Bool → Bool → Link → World → Db → List Task
  round_claims [] false false link world d =
      given w (claim R cfg parse token link world w.queues w.batch w.wait_ms d).0
  round_claims waiting left gone link world d = []

  abbrev pub claimed_by : Turn → Pool → Db → List Task
  claimed_by (rounds gone gone_after link world) p d =
      round_claims p.waiting p.left gone link world d
  claimed_by t p d = []

  -- All that the turns claim, in order.
  abbrev pub all_claimed : List Turn → Pool → Db → List Task
  all_claimed [] p d = []
  all_claimed (t ∷ turns) p d = claimed_by t p d ++ all_claimed turns (turn t p d).0 (turn t p d).1

  claim-order :
      (gone_after : Bool) (r : Outcome ClaimResult) (p : Pool)
      → [] ≡ p.waiting
      → let p' = after_claim w gone_after r p in
        p'.started ++ p'.waiting ≡ (p.started ++ p.waiting) ++ given w r
  claim-order gone_after (ok res) p e = rw (← e) (rw append-nil refl)
  claim-order gone_after (err x) p e = sym (append-nil _)

  round-order :
      (waiting : List Task) (left gone gone_after : Bool) (link : Link) (world : World) (p : Pool)
      (d : Db)
      → waiting ≡ p.waiting
      → let p' = (round R cfg parse token w waiting left gone gone_after link world p d).0 in
        p'.started ++ p'.waiting
        ≡ (p.started ++ p.waiting) ++ round_claims waiting left gone link world d
  unfolding round
  round-order [] false false gone_after link world p d e = claim-order gone_after _ p e
  round-order [] false true gone_after link world p d e = sym (append-nil _)
  round-order [] true gone gone_after link world p d e = sym (append-nil _)
  round-order (task ∷ tasks) left gone gone_after link world p d e = sym (append-nil _)

  turn-order :
      (t : Turn) (p : Pool) (d : Db)
      → (turn t p d).0.started ++ (turn t p d).0.waiting
        ≡ (p.started ++ p.waiting) ++ claimed_by t p d
  unfolding take_turn
  turn-order (rounds gone gone_after link world) p d =
      round-order p.waiting p.left gone gone_after link world p d refl
  turn-order starts p d = start_next-order w.concurrent p.waiting p refl ∙ sym (append-nil _)
  turn-order ends p d = sym (append-nil _)
  turn-order (others steps) p d = sym (append-nil _)

  work-order :
      (turns : List Turn) (p : Pool) (d : Db)
      → (after turns p d).0.started ++ (after turns p d).0.waiting
        ≡ (p.started ++ p.waiting) ++ all_claimed turns p d
  unfolding work
  work-order [] p d = sym (append-nil _)
  work-order (t ∷ turns) p d =
      work-order turns (turn t p d).0 (turn t p d).1
      ∙ ap (λ l. l ++ all_claimed turns (turn t p d).0 (turn t p d).1) (turn-order t p d)
      ∙ append_assoc (p.started ++ p.waiting) (claimed_by t p d) _

  -- The slots in use are within the limit, and no job waits once the loop has been left.
  pub record IsWithin (p : Pool) : Type 0 where
    pub bounded : p.running ≤ w.concurrent
    pub none_behind : p.left ≡ true → p.waiting ≡ []

  round-IsWithin :
      (waiting : List Task) (left gone gone_after : Bool) (link : Link) (world : World) (p : Pool)
      (d : Db)
      → waiting ≡ p.waiting
      → left ≡ p.left
      → IsWithin p
      → IsWithin (round R cfg parse token w waiting left gone gone_after link world p d).0
  unfolding round
  round-IsWithin waiting left gone gone_after link world p d e e' h = ground arith

  start-IsWithin :
      (tasks : List Task) (p : Pool)
      → tasks ≡ p.waiting
      → IsWithin p
      → IsWithin (start_next w.concurrent tasks p)
  start-IsWithin tasks p e h = ground arith

  turn-IsWithin : (t : Turn) (p : Pool) (d : Db) → IsWithin p → IsWithin (turn t p d).0
  unfolding take_turn
  turn-IsWithin (rounds gone gone_after link world) p d h =
      round-IsWithin p.waiting p.left gone gone_after link world p d refl refl h
  turn-IsWithin starts p d h = start-IsWithin p.waiting p refl h
  turn-IsWithin ends p d h = ground arith
  turn-IsWithin (others steps) p d h = h

  work-IsWithin :
      (turns : List Turn) (p : Pool) (d : Db) → IsWithin p → IsWithin (after turns p d).0
  unfolding work
  work-IsWithin [] p d h = h
  work-IsWithin (t ∷ turns) p d h =
      work-IsWithin turns (turn t p d).0 (turn t p d).1 (turn-IsWithin t p d h)

  -- However the rounds of `Run`, the ends of its jobs and everybody else follow each other, the
  -- jobs started and those that wait for a slot are all the jobs that its claims have returned,
  -- once and in order; at most `Concurrent` run at a time; and once the loop is left, because
  -- the context is cancelled, none waits: all have been started.
  pub run_starts_all :
      (turns : List Turn) (d : Db)
      → let now = after turns no_tasks d in
        (now.0.started ++ now.0.waiting ≡ all_claimed turns no_tasks d)
        × (now.0.running ≤ w.concurrent)
        × ((now.0.left ≡ false) ⊎ (now.0.started ≡ all_claimed turns no_tasks d))
  run_starts_all turns d =
      let now = after turns no_tasks d in
      let order = work-order turns no_tasks d in
      let within : IsWithin now.0 =
        work-IsWithin turns no_tasks d
          (record { bounded = omega arith; none_behind = λ h. refl }) in
      (
        order,
        within.bounded,
        elim (Bool-cases now.0.left) [
          | inl left ↦ inr (
              sym (append-nil _)
              ∙ ap (λ l. now.0.started ++ l) (sym (within.none_behind left))
              ∙ order)
          | inr going ↦ inl going
        ],
      )
