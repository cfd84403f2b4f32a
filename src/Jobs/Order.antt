-- ===== src/Jobs/Order.antt =====
-- What a claim hands out: the oldest pending jobs in order, each with its stored payload and
-- attempts, and each under a lease until the deadline.
use Prim.Native.Nat.{min}
use mathlib.Core.List.{reverse, reverse-cons, append-nil, append_assoc}
use cogs_crash_refresh_job_q.Prelude.{
  ℕ, zero, suc, ◌+◌, List, [], ◌∷◌, ◌++◌, map, Bytes, some, none, ℤ, ◌≡◌, refl, sym, ap, subst, ◌∙◌,
  inl, inr, arith, ◌==◌, if◌then◌else◌, length, length-append, get_last?, drop_last, drop_last-some,
  nil_of_get_last?, count, bytes_eq, Option, Option-cases,
}
use cogs_crash_refresh_job_q.Keys.{job_key, pending_key, leased_key}
use cogs_crash_refresh_job_q.Keys.Layout.{key_laws}
use cogs_crash_refresh_job_q.Redis.{Redis, View, Field, Value, payload, attempts, text, int}
use cogs_crash_refresh_job_q.Scripts.{Claimed, field_or, claim_script, lease_one}

abbrev pub ids : List Claimed → List Bytes
ids = map (λ c. c.id)

-- Every entry holds what the job's hash holds.
abbrev pub Delivered : (Bytes → Field → Option Value) → List Claimed → Type 0
Delivered h [] = Unit
Delivered h (c ∷ cs) =
    (c.payload ≡ field_or (h (job_key c.id) payload) (text []))
    × (c.attempts ≡ field_or (h (job_key c.id) attempts) (int 0))
    × Delivered h cs

pub record Handed (q : Bytes) (n : ℕ) (deadline : ℤ) (v w : View) (out : List Claimed)
    : Type 0 where
  -- The pending list was what is left of it, and behind it the claimed IDs, oldest last.
  pub oldest_first : v.lists (pending_key q) ≡ w.lists (pending_key q) ++ reverse (ids out)
  pub as_many : length out ≡ min n (length (v.lists (pending_key q)))
  pub leases :
      (id : Bytes)
      → w.zsets (leased_key q) id
        ≡ (if count id (ids out) == 0 then v.zsets (leased_key q) id else some deadline)
  pub contents : Delivered v.hashes out
  pub same_hashes : w.hashes ≡ v.hashes

length-drop_last :
    (l : List Bytes) (x : Bytes) → get_last? l ≡ some x → length l ≡ length (drop_last l) + 1
length-drop_last l x h = ap length (drop_last-some l x h) ∙ length-append (drop_last l) (x ∷ [])

-- The pending list and the leases after one round.
abbrev LeasedNext : Bytes → ℤ → Bytes → View → View → Type 0
LeasedNext q deadline x v u =
    (u.lists (pending_key q) ≡ drop_last (v.lists (pending_key q)))
    × ((id : Bytes)
        → u.zsets (leased_key q) id
          ≡ (if bytes_eq x id then some deadline else v.zsets (leased_key q) id))
    × (u.hashes ≡ v.hashes)

Handed-cons :
    (q : Bytes) (n : ℕ) (deadline : ℤ) (v u w : View) (c : Claimed) (out : List Claimed)
    → get_last? (v.lists (pending_key q)) ≡ some c.id
    → LeasedNext q deadline c.id v u
    → c.payload ≡ field_or (v.hashes (job_key c.id) payload) (text [])
    → c.attempts ≡ field_or (v.hashes (job_key c.id) attempts) (int 0)
    → Handed q n deadline u w out
    → Handed q (suc n) deadline v w (c ∷ out)
unfolding count
Handed-cons q n deadline v u w c out last (lists, zsets, hashes) body tries h = record {
  oldest_first =
      drop_last-some (v.lists (pending_key q)) c.id last
      ∙ ap (λ l. l ++ c.id ∷ []) (sym lists ∙ h.oldest_first)
      ∙ append_assoc (w.lists (pending_key q)) (reverse (ids out)) (c.id ∷ [])
      ∙ ap (◌++◌ (w.lists (pending_key q))) (sym (reverse-cons c.id (ids out)));
  as_many =
      omega
        (arith, h.as_many, ap length lists, length-drop_last (v.lists (pending_key q)) c.id last);
  leases = λ id. ground (arith, h.leases id, zsets id);
  contents = (body, tries, subst (λ x. Delivered x out) hashes h.contents);
  same_hashes = h.same_hashes ∙ hashes;
}

module _ (R : Redis) (q : Bytes) (deadline : ℤ) where
  open R use {Db, view, rpop, zadd, hget, rpop_reply, hget_reply, view-rpop, view-zadd}

  abbrev pub claim : ℕ → Db → List Claimed × Db
  claim n d = claim_script R (pending_key q) (leased_key q) n deadline d

  next_round :
      (d : Db) (x : Bytes)
      → LeasedNext q deadline x
          (view d)
          (view (zadd (leased_key q) deadline x (rpop (pending_key q) d).1))
  next_round d x = (
    simp (view-zadd, view-rpop, key_laws),
    λ id. simp (view-zadd, view-rpop, key_laws),
    simp (view-zadd, view-rpop),
  )

  nothing_left :
      (n : ℕ) (d : Db)
      → get_last? ((view d).lists (pending_key q)) ≡ none
      → Handed q (suc n) deadline (view d) (view (rpop (pending_key q) d).1) []
  unfolding count
  nothing_left n d last =
      let none_left = nil_of_get_last? ((view d).lists (pending_key q)) last in
      record {
        oldest_first = simp (view-rpop, key_laws) (rw none_left refl);
        as_many = rw none_left (omega arith);
        leases = λ id. simp view-rpop;
        contents = tt;
        same_hashes = simp view-rpop;
      }

  -- A claim takes as many jobs as it is asked for, or all that are pending if they are fewer. It
  -- takes them from the old end of the list, in order, and leaves the rest as it was; each has
  -- its own payload and attempts, and is leased until the deadline, and no other lease changes.
  pub claim_script_hands :
      (n : ℕ) (d : Db) → Handed q n deadline (view d) (view (claim n d).1) (claim n d).0
  unfolding claim_script count
  claim_script_hands zero d = record {
    oldest_first = sym (append-nil _);
    as_many = omega arith;
    leases = λ id. refl;
    contents = tt;
    same_hashes = refl;
  }
  claim_script_hands (suc n) d = elim (Option-cases (rpop (pending_key q) d).0) [
    | inl e ↦ rw (e, claim_script) (nothing_left n d (sym (rpop_reply _ _) ∙ e))
    | inr (x, e) ↦
        rw (e, claim_script)
          (Handed-cons q n deadline (view d) _ _
            (lease_one R (leased_key q) deadline x (rpop (pending_key q) d).1).0 _
            (sym (rpop_reply _ _) ∙ e) (next_round d x) (simp (hget_reply, view-zadd, view-rpop))
            (simp (hget_reply, view-zadd, view-rpop)) (claim_script_hands n _))
  ]
