-- ===== src/Jobs/Claim.antt =====
-- The claim script moves the oldest pending jobs to the leased set, and loses none.
use cogs_crash_refresh_job_q.Prelude.{
  ℕ, zero, suc, Bytes, none, some, ℤ, ◌≡◌, ◌∙◌, sym, inl, inr, arith, get_last?, count-drop_last,
  drop_last-none, Option-cases, bytes_eq_sound,
}
use cogs_crash_refresh_job_q.Keys.{pending_key, leased_key}
use cogs_crash_refresh_job_q.Keys.Layout.{key_laws}
use cogs_crash_refresh_job_q.Redis.{Redis}
use cogs_crash_refresh_job_q.Scripts.{claim_script, lease_one}
use cogs_crash_refresh_job_q.Jobs.{places, Inv, Keeps, Keeps-refl, Keeps-trans, Keeps-Inv}

module _ (R : Redis) where
  open R use {Db, view, rpop, zadd, rpop_reply, view-rpop, view-zadd}

  lease-places :
      (q job_id : Bytes) (deadline : ℤ) (d : Db)
      → Inv (view d)
      → get_last? ((view d).lists (pending_key q)) ≡ some job_id
      → (q' id : Bytes)
      → places (view (zadd (leased_key q) deadline job_id (rpop (pending_key q) d).1)) q' id
        ≡ places (view d) q' id
  lease-places q job_id deadline d inv last q' id =
      simp (view-zadd, view-rpop, key_laws)
        (ground (
          arith,
          bytes_eq_sound q q',
          bytes_eq_sound job_id id,
          inv.once q id,
          count-drop_last id job_id ((view d).lists (pending_key q)) last,
        ))

  -- One round: the popped ID leaves the pending list and enters the leased set.
  lease_one-Keeps :
      (q job_id : Bytes) (deadline : ℤ) (d : Db)
      → Inv (view d)
      → get_last? ((view d).lists (pending_key q)) ≡ some job_id
      → Keeps
          (view d)
          (view (lease_one R (leased_key q) deadline job_id (rpop (pending_key q) d).1).1)
  unfolding lease_one
  lease_one-Keeps q job_id deadline d inv last = record {
    same_places = lease-places q job_id deadline d inv last;
    same_queue = λ id. simp (view-zadd, view-rpop);
    still_numbered = λ id n e. (n, simp (view-zadd, view-rpop) e);
  }

  -- A pop from an empty list changes nothing.
  empty-Keeps :
      (q : Bytes) (d : Db)
      → get_last? ((view d).lists (pending_key q)) ≡ none
      → Keeps (view d) (view (rpop (pending_key q) d).1)
  empty-Keeps q d last = record {
    same_places = λ q' id.
        simp (view-rpop, key_laws)
          (ground
            (arith, bytes_eq_sound q q', drop_last-none ((view d).lists (pending_key q)) last));
    same_queue = λ id. simp view-rpop;
    still_numbered = λ id n e. (n, simp view-rpop e);
  }

  -- Claiming loses no job and doubles none, however many it takes.
  pub claim_script-Keeps :
      (q : Bytes) (n : ℕ) (deadline : ℤ) (d : Db)
      → Inv (view d)
      → Keeps (view d) (view (claim_script R (pending_key q) (leased_key q) n deadline d).1)
  unfolding claim_script
  claim_script-Keeps q zero deadline d inv = Keeps-refl (view d)
  claim_script-Keeps q (suc n) deadline d inv = elim (Option-cases (rpop (pending_key q) d).0) [
    | inl e ↦ rw (e, claim_script) (empty-Keeps q d (sym (rpop_reply (pending_key q) d) ∙ e))
    | inr (job_id, e) ↦
        let first =
          lease_one-Keeps q job_id deadline d inv (sym (rpop_reply (pending_key q) d) ∙ e) in
        rw (e, claim_script)
          (Keeps-trans first (claim_script-Keeps q n deadline _ (Keeps-Inv first inv)))
  ]
