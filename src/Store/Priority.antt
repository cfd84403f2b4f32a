-- ===== src/Store/Priority.antt =====
-- `Store.Claim` over several queues: their order is their priority.
use cogs_crash_refresh_job_q.Store.Claims.Emptied.{bind_ok, short_claim}
use cogs_crash_refresh_job_q.Prelude.{
  ℕ, ◌-◌, ◌≤◌, ◌<◌, true, false, List, [], ◌∷◌, ◌++◌, map, Bytes, pos, ℤ, ◌≡◌, ◌≢◌, ◌⊎◌, refl, ap,
  sym, ◌∙◌, Bool-cases, inl, inr, ◌==◌, length, length-append, arith, count, bytes_eq_refl,
}
use mathlib.Core.List.{append_assoc}
use cogs_crash_refresh_job_q.Results.{Result, ok, Link, answered, lost_call, lost_reply}
use cogs_crash_refresh_job_q.Redis.{Redis, View}
use cogs_crash_refresh_job_q.Scripts.{Claimed}
use cogs_crash_refresh_job_q.Jobs.Order.{claim as claim_one}
use cogs_crash_refresh_job_q.Store.{Config, Job, claimed_job, claim_queues, claim, clamp_batch}
use cogs_crash_refresh_job_q.Store.Claims.{
  AllEmpty, take_full, take_lost, take_answered, queues_stay_empty, claim_queues_bounded,
}

-- The jobs are of queues that are named.
abbrev pub AllFrom : List (Bytes × Link) → List Job → Type 0
AllFrom queues [] = Unit
AllFrom queues (j ∷ jobs) = (1 ≤ count j.queue (map (λ e. e.0) queues)) × AllFrom queues jobs

AllFrom-append :
    (queues : List (Bytes × Link)) (l m : List Job)
    → AllFrom queues l
    → AllFrom queues m
    → AllFrom queues (l ++ m)
AllFrom-append queues [] m left right = right
AllFrom-append queues (j ∷ l) m left right = (left.0, AllFrom-append queues l m left.1 right)

AllFrom-more :
    (q : Bytes) (link : Link) (queues : List (Bytes × Link)) (l : List Job)
    → AllFrom queues l
    → AllFrom ((q, link) ∷ queues) l
unfolding count
AllFrom-more q link queues [] h = tt
AllFrom-more q link queues (j ∷ l) h = (ground (arith, h.0), AllFrom-more q link queues l h.1)

AllFrom-claimed :
    (q : Bytes) (deadline : ℕ) (link : Link) (queues : List (Bytes × Link)) (vals : List Claimed)
    → AllFrom ((q, link) ∷ queues) (map (claimed_job q deadline) vals)
unfolding count
AllFrom-claimed q deadline link queues [] = tt
AllFrom-claimed q deadline link queues (v ∷ vals) =
    (ground (arith, bytes_eq_refl q), AllFrom-claimed q deadline link queues vals)

nil-or-some {ℓ} : {A : Type ℓ} (l : List A) → (l ≡ []) ⊎ (1 ≤ length l)
nil-or-some [] = inl refl
nil-or-some (x ∷ l) = inr (omega arith)

full-or-short : (n m : ℕ) → n ≤ m → (n ≡ m) ⊎ (n < m)
full-or-short n m most = ground (arith, most)

ok_inj {ℓ} : {A : Type ℓ} {a b : A} → ok a ≡ ok b → a ≡ b
ok_inj h = cc

module _ (R : Redis) (cfg : Config) where
  open R use {Db, view}

  abbrev take_from : ℕ → ℕ → List (Bytes × Link) → Db → Result (List Job) × Db
  take_from = claim_queues R cfg

  -- A loop that returned has stopped at its bound, and then gave nothing, or its call was answered.
  stopped :
      (room deadline : ℕ) (q : Bytes) (link : Link) (queues : List (Bytes × Link)) (d : Db)
      (jobs : List Job)
      → (room == 0) ≡ true
      → (take_from room deadline ((q, link) ∷ queues) d).0 ≡ ok jobs
      → jobs ≡ []
  stopped room deadline q link queues d jobs full h =
      ok_inj (sym h ∙ ap (λ r. r.0) (take_full R cfg room deadline q link queues d full))

  lost_none :
      (room deadline : ℕ) (q : Bytes) (link : Link) (queues : List (Bytes × Link)) (d : Db)
      (jobs : List Job)
      → link ≢ answered
      → (take_from room deadline ((q, link) ∷ queues) d).0 ≡ ok jobs
      → jobs ≡ []
  lost_none room deadline q link queues d jobs lost h = elim (Bool-cases (room == 0)) [
    | inl full ↦ stopped room deadline q link queues d jobs full h
    | inr more ↦ absurd (take_lost R cfg room deadline q link queues d jobs more lost h)
  ]

  -- What the first queue gave, and what the others gave in the room that it left.
  abbrev Served : ℕ → ℕ → Bytes → List (Bytes × Link) → Db → List Job → List Job → Type 0
  Served room deadline q queues d jobs rest =
      let vals = (claim_one R q (pos deadline) room d).0 in
      ((take_from (room - length vals) deadline queues (claim_one R q (pos deadline) room d).1).0
        ≡ ok rest)
      × (jobs ≡ map (claimed_job q deadline) vals ++ rest)

  served :
      (room deadline : ℕ) (q : Bytes) (queues : List (Bytes × Link)) (d : Db) (jobs : List Job)
      → (room == 0) ≡ false
      → (take_from room deadline ((q, answered) ∷ queues) d).0 ≡ ok jobs
      → (rest : List Job) × Served room deadline q queues d jobs rest
  served room deadline q queues d jobs more h =
      let (rest, got, all) =
        bind_ok _ _ _
          (sym (ap (λ r. r.0) (take_answered R cfg room deadline q queues d more)) ∙ h) in
      (rest, (got, all))

  claim_queues-AllFrom :
      (room deadline : ℕ) (queues : List (Bytes × Link)) (d : Db) (jobs : List Job)
      → (take_from room deadline queues d).0 ≡ ok jobs
      → AllFrom queues jobs
  unfolding claim_queues
  claim_queues-AllFrom room deadline [] d jobs h = rw (sym (ok_inj h)) tt
  claim_queues-AllFrom room deadline ((q, answered) ∷ queues) d jobs h =
      elim (Bool-cases (room == 0)) [
        | inl full ↦ rw (stopped room deadline q answered queues d jobs full h) tt
        | inr more ↦
            let (rest, (got, all)) = served room deadline q queues d jobs more h in
            let vals = (claim_one R q (pos deadline) room d).0 in
            rw all (
              AllFrom-append ((q, answered) ∷ queues) _ rest
                (AllFrom-claimed q deadline answered queues vals)
                (AllFrom-more q answered queues rest (
                  claim_queues-AllFrom (room - length vals) deadline queues
                    (claim_one R q (pos deadline) room d).1 rest got)))
      ]
  claim_queues-AllFrom room deadline ((q, lost_call) ∷ queues) d jobs h =
      rw (lost_none room deadline q lost_call queues d jobs (λ e. cc) h) tt
  claim_queues-AllFrom room deadline ((q, lost_reply) ∷ queues) d jobs h =
      rw (lost_none room deadline q lost_reply queues d jobs (λ e. cc) h) tt

  -- What the queues of the first part gave, and then what those behind them gave.
  abbrev Divides :
      List (Bytes × Link) → List (Bytes × Link) → View → List Job → List Job → List Job → Type 0
  Divides before behind v jobs first later =
      (jobs ≡ first ++ later)
      × AllFrom before first
      × AllFrom behind later
      × ((later ≡ []) ⊎ AllEmpty before v)

  nothing :
      (before behind : List (Bytes × Link)) (v : View) (jobs : List Job)
      → jobs ≡ []
      → (first later : List Job) × Divides before behind v jobs first later
  nothing before behind v jobs none = ([], [], (none, tt, tt, inl refl))

  -- A queue in front, which the next ones are behind.
  front-Divides :
      (room deadline : ℕ) (q : Bytes) (before behind : List (Bytes × Link)) (d : Db)
      (rest first later : List Job)
      → (room == 0) ≡ false
      → Served room deadline q
          (before ++ behind)
          d
          (map (claimed_job q deadline) (claim_one R q (pos deadline) room d).0 ++ rest)
          rest
      → Divides before behind
          (view (take_from room deadline ((q, answered) ∷ before ++ behind) d).1)
          rest
          first
          later
      → Divides
          ((q, answered) ∷ before)
          behind
          (view (take_from room deadline ((q, answered) ∷ before ++ behind) d).1)
          (map (claimed_job q deadline) (claim_one R q (pos deadline) room d).0 ++ rest)
          (map (claimed_job q deadline) (claim_one R q (pos deadline) room d).0 ++ first)
          later
  front-Divides room deadline q before behind d rest first later more (got, all)
        (parts, from, behind_from, done) =
      let vals = (claim_one R q (pos deadline) room d).0 in
      let left = room - length vals in
      let d' = (claim_one R q (pos deadline) room d).1 in
      (
        ap (λ l. map (claimed_job q deadline) vals ++ l) parts
            ∙ sym (append_assoc (map (claimed_job q deadline) vals) first later),
        AllFrom-append ((q, answered) ∷ before) _ first
            (AllFrom-claimed q deadline answered before vals)
            (AllFrom-more q answered before first from),
        behind_from,
        elim done [
          | inl none ↦ inl none
          | inr emptied ↦ elim (nil-or-some later) [
            | inl none ↦ inl none
            | inr some_later ↦
                let bounded =
                  (claim_queues_bounded R cfg left deadline (before ++ behind) d' rest got).0 in
                let counted = ap length parts ∙ length-append first later in
                inr (
                  rw (take_answered R cfg room deadline q (before ++ behind) d more) (
                      queues_stay_empty R cfg left deadline (before ++ behind) d' q (
                        short_claim R q room deadline d
                          (omega (arith, bounded, counted, some_later)))),
                  emptied,
                )
          ]
        ],
      )

  divided :
      (room deadline : ℕ) (before behind : List (Bytes × Link)) (d : Db) (jobs : List Job)
      → (take_from room deadline (before ++ behind) d).0 ≡ ok jobs
      → (first later : List Job) × Divides before behind
          (view (take_from room deadline (before ++ behind) d).1)
          jobs
          first
          later
  divided room deadline [] behind d jobs h =
      ([], jobs, (refl, tt, claim_queues-AllFrom room deadline behind d jobs h, inr tt))
  divided room deadline ((q, answered) ∷ before) behind d jobs h = elim (Bool-cases (room == 0)) [
    | inl full ↦
        nothing ((q, answered) ∷ before) behind _ jobs
          (stopped room deadline q answered (before ++ behind) d jobs full h)
    | inr more ↦
        let (rest, (got, all)) = served room deadline q (before ++ behind) d jobs more h in
        let vals = (claim_one R q (pos deadline) room d).0 in
        let (first, later, parts) =
          divided (room - length vals) deadline before behind
            (claim_one R q (pos deadline) room d).1 rest got in
        (
          map (claimed_job q deadline) vals ++ first,
          later,
          rw all (
              front-Divides room deadline q before behind d rest first later more (got, refl)
                (rw (take_answered R cfg room deadline q (before ++ behind) d more) parts)),
        )
  ]
  divided room deadline ((q, lost_call) ∷ before) behind d jobs h =
      nothing ((q, lost_call) ∷ before) behind _ jobs
        (lost_none room deadline q lost_call (before ++ behind) d jobs (λ e. cc) h)
  divided room deadline ((q, lost_reply) ∷ before) behind d jobs h =
      nothing ((q, lost_reply) ∷ before) behind _ jobs
        (lost_none room deadline q lost_reply (before ++ behind) d jobs (λ e. cc) h)

  -- The order of the queues is their priority. The jobs of a claim that returns are those that
  -- the first queues of the list gave, followed by those of the queues behind them; if a queue
  -- behind has given any, then no job is left pending in those before it. And unless the batch
  -- that was asked for is filled, no job is left pending in any queue of the list.
  pub claim_priority :
      (now : ℕ) (before behind : List (Bytes × Link)) (batch : ℤ) (d : Db) (jobs : List Job)
      → (claim R cfg now (before ++ behind) batch d).0 ≡ ok jobs
      → (first later : List Job) × (jobs ≡ first ++ later)
        × AllFrom before first
        × AllFrom behind later
        × ((later ≡ []) ⊎ AllEmpty before (view (claim R cfg now (before ++ behind) batch d).1))
        × ((length jobs ≡ clamp_batch cfg.max_claim_batch batch)
            ⊎ AllEmpty (before ++ behind) (view (claim R cfg now (before ++ behind) batch d).1))
  unfolding claim
  claim_priority now before behind batch d jobs h =
      let (first, later, (parts, from, behind_from, done)) = divided _ _ before behind d jobs h in
      let (few, emptied) = claim_queues_bounded R cfg _ _ (before ++ behind) d jobs h in
      (
        first,
        later,
        parts,
        from,
        behind_from,
        done,
        elim (full-or-short _ _ few) [ inl full ↦ inl full | inr short ↦ inr (emptied short) ],
      )
