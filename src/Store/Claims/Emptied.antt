-- ===== src/Store/Claims/Emptied.antt =====
-- A claim that gets fewer jobs than it asked for has emptied the pending list.
use cogs_crash_refresh_job_q.Prelude.{
  length-map, ℕ, zero, suc, ◌<◌, List, [], ◌∷◌, Bytes, pos, ◌≡◌, refl, ap, ◌∙◌, Option-cases, inl,
  inr, length, length-append, arith, bytes_eq_sound,
}
use mathlib.Core.List.{reverse, reverse-cons}
use cogs_crash_refresh_job_q.Results.{Result, ok, err, ◌>>=◌}
use cogs_crash_refresh_job_q.Keys.{pending_key, leased_key}
use cogs_crash_refresh_job_q.Keys.Layout.{key_laws}
use cogs_crash_refresh_job_q.Redis.{Redis}
use cogs_crash_refresh_job_q.Scripts.{Claimed, claim_script, lease_one}
use cogs_crash_refresh_job_q.Jobs.Order.{ids, claim as claim_one, claim_script_hands}

pub length-reverse {ℓ} : {A : Type ℓ} (l : List A) → length (reverse l) ≡ length l
length-reverse [] = refl
length-reverse (x ∷ l) =
    ap length (reverse-cons x l)
    ∙ omega (arith, length-append (reverse l) (x ∷ []), length-reverse l)

pub nil_of_length {ℓ} : {A : Type ℓ} (l : List A) → length l ≡ 0 → l ≡ []
nil_of_length [] h = refl
nil_of_length (x ∷ l) h = absurd (omega (arith, h))

pub bind_ok {ℓ κ} :
    {A : Type ℓ} {B : Type κ} (r : Result A) (f : A → B) (b : B)
    → (r >>= λ a. ok (f a)) ≡ ok b
    → (a : A) × (r ≡ ok a) × (b ≡ f a)
bind_ok (ok a) f b h = (a, refl, cc)
bind_ok (err e) f b h = cc

module _ (R : Redis) where
  open R use {Db, view, rpop, zadd, rpop_reply, view-rpop, view-zadd}

  -- A claim that got fewer jobs than it asked for has emptied the pending list.
  pub short_claim :
      (q : Bytes) (n deadline : ℕ) (d : Db)
      → length (claim_one R q (pos deadline) n d).0 < n
      → (view (claim_one R q (pos deadline) n d).1).lists (pending_key q) ≡ []
  short_claim q n deadline d few =
      let h = claim_script_hands R q (pos deadline) n d in
      nil_of_length _ (
        omega (
          arith,
          h.as_many,
          ap length h.oldest_first,
          length-append ((view (claim_one R q (pos deadline) n d).1).lists (pending_key q))
              (reverse (ids (claim_one R q (pos deadline) n d).0)),
          length-reverse (ids (claim_one R q (pos deadline) n d).0),
          length-map (λ (c : Claimed). c.id) (claim_one R q (pos deadline) n d).0,
        ))

  pub pop_empty :
      (q q' : Bytes) (d : Db)
      → (view d).lists (pending_key q') ≡ []
      → (view (rpop (pending_key q) d).1).lists (pending_key q') ≡ []
  pop_empty q q' d h = simp (view-rpop, key_laws) (ground (arith, bytes_eq_sound q q'))

  -- No claim puts anything into a pending list.
  pub stays_empty :
      (q q' : Bytes) (n deadline : ℕ) (d : Db)
      → (view d).lists (pending_key q') ≡ []
      → (view (claim_one R q (pos deadline) n d).1).lists (pending_key q') ≡ []
  unfolding claim_script lease_one
  stays_empty q q' zero deadline d h = h
  stays_empty q q' (suc n) deadline d h = elim (Option-cases (rpop (pending_key q) d).0) [
    | inl e ↦ rw (e, claim_script) (pop_empty q q' d h)
    | inr (x, e) ↦
        rw (e, claim_script)
          (stays_empty q q' n deadline
            (zadd (leased_key q) (pos deadline) x (rpop (pending_key q) d).1)
            (simp view-zadd (pop_empty q q' d h)))
  ]
