-- ===== src/Jobs/Poison.antt =====
-- A job whose lease runs out again and again: each reap counts an attempt, and the last one
-- buries it.
use cogs_crash_refresh_job_q.Prelude.{
  ℕ, ◌+◌, ◌<◌, Bool, true, false, List, [], ◌∷◌, Bytes, Option, some, ℤ, ◌≤ℤ◌, ◌≡◌, refl, ap, subst,
  sym, ◌∙◌, inl, inr, arith, count, bytes_eq, bytes_eq_refl, bytes_eq_sound, Bool-cases, length,
  ltb, if◌then◌else◌,
}
use cogs_crash_refresh_job_q.Keys.{job_key, pending_key, leased_key, dead_key}
use cogs_crash_refresh_job_q.Keys.Layout.{key_laws}
use cogs_crash_refresh_job_q.Results.{ok}
use cogs_crash_refresh_job_q.Redis.{Redis, View, attempts, as_int}
use cogs_crash_refresh_job_q.Scripts.{Moved, skipped, requeued, buried, drain_loop, drain_script}
use cogs_crash_refresh_job_q.Jobs.{Inv, Keeps-Inv}
use cogs_crash_refresh_job_q.Jobs.Relocate.{Source, leased}
use cogs_crash_refresh_job_q.Jobs.Drain.{one, DrainOutcome, drain_one_outcome, drain_one-Keeps}
use cogs_crash_refresh_job_q.Jobs.Pass.{loop, pass, due}

-- The attempts of a job, and how often its ID stands in the pending and in the dead list.
abbrev pub Stands : Bytes → Bytes → View → Option ℕ → ℕ → ℕ → Type 0
Stands q id v n waiting buried_there =
    (as_int (v.hashes (job_key id) attempts) ≡ n)
    × (count id (v.lists (pending_key q)) ≡ waiting)
    × (count id (v.lists (dead_key q)) ≡ buried_there)

-- Nothing has happened to the job.
abbrev pub Alike : Bytes → Bytes → View → View → Type 0
Alike q id v w =
    (w.hashes (job_key id) attempts ≡ v.hashes (job_key id) attempts)
    × (count id (w.lists (pending_key q)) ≡ count id (v.lists (pending_key q)))
    × (count id (w.lists (dead_key q)) ≡ count id (v.lists (dead_key q)))
    × (w.zsets (leased_key q) id ≡ v.zsets (leased_key q) id)

Alike-trans : (q id : Bytes) (u v w : View) → Alike q id u v → Alike q id v w → Alike q id u w
Alike-trans q id u v w (h, p, b, l) (h', p', b', l') = (h' ∙ h, p' ∙ p, b' ∙ b, l' ∙ l)

Stands-Alike :
    (q id : Bytes) (v w : View) (n : Option ℕ) (waiting buried_there : ℕ)
    → Alike q id v w
    → Stands q id v n waiting buried_there
    → Stands q id w n waiting buried_there
Stands-Alike q id v w n waiting buried_there (h, p, b, l) (h', p', b') =
    (ap as_int h ∙ h', p ∙ p', b ∙ b')

-- What a counting pass makes of a job with so many attempts.
abbrev pub Counted : ℕ → Bytes → Bytes → ℕ → View → Type 0
Counted max_retries q id n w =
    Stands q id w (some (n + 1)) (if ltb max_retries (n + 1) then 0 else 1)
      (if ltb max_retries (n + 1) then 1 else 0)

some_inj {ℓ} : {A : Type ℓ} {a b : A} → some a ≡ some b → a ≡ b
some_inj h = cc

module _ (max_retries : ℕ) (q x : Bytes) where
  -- A round for another job.
  other_round :
      (v w : View) (m : Moved) (id : Bytes)
      → DrainOutcome leased true max_retries q x v w m
      → bytes_eq x id ≡ false
      → Alike q id v w
  unfolding count
  other_round v w skipped id o other = rw o.1 (refl, refl, refl, refl)
  other_round v w requeued id o other =
      rw o.4 (simp (key_laws, other, bytes_eq_refl) (refl, omega arith, refl, refl))
  other_round v w buried id o other =
      rw o.4 (simp (key_laws, other, bytes_eq_refl) (refl, refl, omega arith, refl))

  -- The round of the job itself.
  own_round :
      (v w : View) (m : Moved) (t : ℤ) (n : ℕ)
      → DrainOutcome leased true max_retries q x v w m
      → v.zsets (leased_key q) x ≡ some t
      → Stands q x v (some n) 0 0
      → Counted max_retries q x n w
  unfolding count
  own_round v w skipped t n o held stands = absurd (ground (arith, o.0, held))
  own_round v w requeued t n o held stands =
      let same : o.1 ≡ n = some_inj (sym o.2 ∙ stands.0) in
      let flag : ltb max_retries (n + 1) ≡ false =
        subst (λ i. ltb max_retries (i + 1) ≡ false) same o.3 in
      rw (flag, o.4)
        (simp (key_laws, bytes_eq_refl)
          (ap (λ (i : ℕ). some (i + 1)) same, omega (arith, stands.1), stands.2))
  own_round v w buried t n o held stands =
      let same : o.1 ≡ n = some_inj (sym o.2 ∙ stands.0) in
      let flag : ltb max_retries (n + 1) ≡ true =
        subst (λ i. ltb max_retries (i + 1) ≡ true) same o.3 in
      rw (flag, o.4)
        (simp (key_laws, bytes_eq_refl)
          (ap (λ (i : ℕ). some (i + 1)) same, stands.1, omega (arith, stands.2)))

loop_next :
    (R : Redis) (s : Source) (bump : Bool) (max_retries : ℕ) (q x : Bytes) (xs : List Bytes)
    (d : R.Db) (m : Moved)
    → (one R s bump max_retries q x d).0 ≡ ok m
    → (loop R s bump max_retries q (x ∷ xs) d).1
      ≡ (loop R s bump max_retries q xs (one R s bump max_retries q x d).1).1
unfolding drain_loop
loop_next R s bump max_retries q x xs d m reply = rw (reply, drain_loop) refl

module _ (R : Redis) (max_retries : ℕ) (q id : Bytes) where
  open R use {Db, view, zrange_once, zrange_all}

  abbrev reap_all : List Bytes → Db → Db
  reap_all xs d = (loop R leased true max_retries q xs d).1

  loop-Alike :
      (xs : List Bytes) (d : Db)
      → Inv (view d)
      → count id xs ≡ 0
      → Alike q id (view d) (view (reap_all xs d))
  unfolding drain_loop count
  loop-Alike [] d inv none_of = (refl, refl, refl, refl)
  loop-Alike (x ∷ xs) d inv none_of =
      let (m, moves) = drain_one_outcome R leased max_retries q true x d inv in
      let inv' = Keeps-Inv (drain_one-Keeps R leased max_retries q true x d inv) inv in
      let other : bytes_eq x id ≡ false = ground (arith, none_of) in
      let first = other_round max_retries q x (view d) _ m id moves.1 other in
      let d' = (one R leased true max_retries q x d).1 in
      subst (λ e. Alike q id (view d) (view e))
        (sym (loop_next R leased true max_retries q x xs d m moves.0))
        (Alike-trans q id (view d) (view d') (view (reap_all xs d')) first
          (loop-Alike xs d' inv' (ground (arith, none_of))))

  loop-Counted :
      (xs : List Bytes) (d : Db) (t : ℤ) (n : ℕ)
      → Inv (view d)
      → count id xs ≡ 1
      → (view d).zsets (leased_key q) id ≡ some t
      → Stands q id (view d) (some n) 0 0
      → Counted max_retries q id n (view (reap_all xs d))
  unfolding drain_loop count
  loop-Counted [] d t n inv one_of held stands = absurd (omega (arith, one_of))
  loop-Counted (x ∷ xs) d t n inv one_of held stands =
      let (m, moves) = drain_one_outcome R leased max_retries q true x d inv in
      let inv' = Keeps-Inv (drain_one-Keeps R leased max_retries q true x d inv) inv in
      let d' = (one R leased true max_retries q x d).1 in
      subst (λ e. Counted max_retries q id n (view e))
        (sym (loop_next R leased true max_retries q x xs d m moves.0))
        (elim (Bool-cases (bytes_eq x id)) [
          | inl same ↦
              let e = bytes_eq_sound x id same in
              let own =
                own_round max_retries q x (view d) (view d') m t n moves.1
                  (subst (λ i. (view d).zsets (leased_key q) i ≡ some t) (sym e) held)
                  (subst (λ i. Stands q i (view d) (some n) 0 0) (sym e) stands) in
              Stands-Alike q id (view d') (view (reap_all xs d')) _ _ _
                (loop-Alike xs d' inv' (ground (arith, one_of, same)))
                (subst (λ i. Counted max_retries q i n (view d')) e own)
          | inr other ↦
              let (h, p, b, l) =
                other_round max_retries q x (view d) (view d') m id moves.1 other in
              loop-Counted xs d' t n inv' (ground (arith, one_of, other)) (l ∙ held)
                (Stands-Alike q id (view d) (view d') (some n) 0 0 (h, p, b, l) stands)
        ])

  -- A lease that has run out, in a pass that is not filled.
  pub pass-Counted :
      (now : ℤ) (limit : ℕ) (d : Db) (t : ℤ) (n : ℕ)
      → Inv (view d)
      → length (due R leased true max_retries q now limit d) < limit
      → (view d).zsets (leased_key q) id ≡ some t
      → t ≤ℤ now
      → as_int ((view d).hashes (job_key id) attempts) ≡ some n
      → Counted max_retries q id n (view (pass R leased true max_retries q now limit d).1)
  unfolding drain_script
  pass-Counted now limit d t n inv room held over attempted =
      let once = zrange_once (leased_key q) id now limit d in
      let there = zrange_all (leased_key q) id now limit d t room held over in
      let alone = inv.once q id in
      loop-Counted (due R leased true max_retries q now limit d) d t n inv
        (omega (arith, once, there)) held
        (attempted, ground (arith, alone, held), ground (arith, alone, held))
