-- ===== src/Sdk/Retries.antt =====
-- An enqueue with an idempotency key may be sent again: `Enqueue` of the client, over and over.
use cogs_crash_refresh_job_q.Prelude.{
  ℕ, ◌<◌, Bool, true, false, List, [], ◌∷◌, Bytes, Option, some, none, ◌≡◌, ◌≢◌, refl, subst, ◌∙◌,
  ◌⊎◌, inl, inr, arith, bytes_eq_ne, bytes_eq_refl, Option-cases,
}
use cogs_crash_refresh_job_q.Results.{Result, Link, answered, lost_call, lost_reply, over}
use cogs_crash_refresh_job_q.Results as Results
use cogs_crash_refresh_job_q.Keys.{idem_key, valid_queue_name}
use cogs_crash_refresh_job_q.Redis.{Redis, View}
use cogs_crash_refresh_job_q.Jobs.Enqueue.{added, marked, new_fields, enqueue_hit, enqueue_marks}
use cogs_crash_refresh_job_q.Store as Store
use cogs_crash_refresh_job_q.Store.{Config, payload_or_null, seconds}
use cogs_crash_refresh_job_q.Schedules.Manager.{Parser}
use cogs_crash_refresh_job_q.Api.{World, post_job, enqueue_response}
use cogs_crash_refresh_job_q.Api.Handlers.{handle, handle_enqueue}
use cogs_crash_refresh_job_q.Sdk.{
  Outcome, ok, err, EnqueueResult, enqueue, do_into, as_enqueued, no_enqueue, reply_of, checked,
  ◌>>=◌,
}
use cogs_crash_refresh_job_q.Sdk.Calls.{wrap-handle}

-- The result is an error, or names the ID.
abbrev pub Names : Bytes → Outcome EnqueueResult → Type 0
Names owner (ok r) = r.id ≡ owner
Names owner (err e) = Unit

module _ (R : Redis) (cfg : Config) (parse : Parser) (q payload key : Bytes) where
  open R use {Db, view}

  abbrev pub attempt : Link → World → Db → Outcome EnqueueResult × Db
  attempt link w d = enqueue R cfg parse cfg.auth_token link w q (some payload) key d

  -- The key's marker is there and holds the ID.
  abbrev pub IsMarked : Bytes → Db → Type 0
  IsMarked owner d = (view d).strings (idem_key key) ≡ some owner

  -- One attempt has made the job, with the key's marker, at its clock.
  abbrev pub Made : Bytes → View → View → Type 0
  Made id v v' =
      (now : ℕ) × (v'
        ≡ added q id (new_fields R q id (payload_or_null payload) key now v) (marked key id v))

  -- What one attempt does, with a way to say that its result names an ID: nothing, with an
  -- error; nothing, and it names the owner of the marker; or it makes the job, where there was no
  -- marker.
  abbrev Attempted : (Bytes → Type 0) → Type 0 → Db → Db → Type 0
  Attempted names fails d d' =
      ((view d' ≡ view d) × fails)
      ⊎ ((owner : Bytes) × IsMarked owner d × (view d' ≡ view d) × names owner)
      ⊎ ((id : Bytes) × ((view d).strings (idem_key key) ≡ none)
          × Made id (view d) (view d')
          × names id)

  abbrev Told : Result (Bytes × Bool) → Bytes → Type 0
  Told (Results.ok (id, created)) owner = id ≡ owner
  Told (Results.err e) owner = Unit

  abbrev Failed : Result (Bytes × Bool) → Type 0
  Failed (Results.ok r) = ⊥
  Failed (Results.err e) = Unit

  abbrev HasFailed : Outcome EnqueueResult → Type 0
  HasFailed (ok r) = ⊥
  HasFailed (err e) = Unit

  abbrev response : Result (Bytes × Bool) → Outcome EnqueueResult
  response r = do_into as_enqueued no_enqueue (reply_of (some (enqueue_response q r))) >>= checked

  Told-Names : (r : Result (Bytes × Bool)) (owner : Bytes) → Told r owner → Names owner (response r)
  Told-Names (Results.ok (id, true)) owner h = h
  Told-Names (Results.ok (id, false)) owner h = h
  Told-Names (Results.err e) owner h = tt

  Failed-HasFailed : (r : Result (Bytes × Bool)) → Failed r → HasFailed (response r)
  Failed-HasFailed (Results.ok r) h = absurd h
  Failed-HasFailed (Results.err e) h = tt

  Attempted-map :
      {names names' : Bytes → Type 0} {fails fails' : Type 0} {d d' : Db}
      → ((owner : Bytes) → names owner → names' owner)
      → (fails → fails')
      → Attempted names fails d d'
      → Attempted names' fails' d d'
  Attempted-map f g (inl (same, failed)) = inl (same, g failed)
  Attempted-map f g (inr (inl (owner, m, same, named))) = inr (inl (owner, m, same, f owner named))
  Attempted-map f g (inr (inr (id, unmarked, made, named))) =
      inr (inr (id, unmarked, made, f id named))

  -- The attempts of a client, with their results.
  abbrev pub tries : List (Link × World) → Db → List (Outcome EnqueueResult) × Db
  tries [] d = ([], d)
  tries ((link, w) ∷ attempts) d =
      let (r, d') = attempt link w d in let (results, d'') = tries attempts d' in (r ∷ results, d'')

  abbrev pub AllName : Bytes → List (Outcome EnqueueResult) → Type 0
  AllName owner [] = Unit
  AllName owner (r ∷ results) = Names owner r × AllName owner results

  failed-Names : (r : Outcome EnqueueResult) (owner : Bytes) → HasFailed r → Names owner r
  failed-Names (ok r) owner h = absurd h
  failed-Names (err e) owner h = tt

  module _ (valid : valid_queue_name q ≡ true) (keyed : key ≢ [])
      (window : 0 < seconds cfg.idempotency_window) where
    abbrev stores : Link → Option Bytes → ℕ → Db → Result (Bytes × Bool) × Db
    stores l new_id now d = Store.enqueue R cfg l new_id now q payload key d

    -- The script on its own.
    script-Attempted :
        (id : Bytes) (now : ℕ) (d : Db)
        → Attempted
            (Told (stores answered (some id) now d).0)
            ⊥
            d
            (stores answered (some id) now d).1
    unfolding Store.enqueue
    script-Attempted id now d =
        let h = bytes_eq_ne key [] keyed in
        elim (Option-cases ((view d).strings (idem_key key))) [
          | inl unmarked ↦
              let (r, v) =
                enqueue_marks R q id (payload_or_null payload) key now
                  (seconds cfg.idempotency_window) d h (ground arith) unmarked in
              inr (inr (id, unmarked, (now, v), rw r refl))
          | inr (owner, m) ↦
              let (r, v) =
                enqueue_hit R q id (payload_or_null payload) key now
                  (seconds cfg.idempotency_window) d owner h (ground arith) m in
              inr (inl (owner, m, v, rw r refl))
        ]

    store-Attempted :
        (l : Link) (new_id : Option Bytes) (now : ℕ) (d : Db)
        → Attempted
            (Told (stores l new_id now d).0)
            (Failed (stores l new_id now d).0)
            d
            (stores l new_id now d).1
    unfolding Store.enqueue
    store-Attempted l none now d = inl (refl, tt)
    store-Attempted lost_call (some id) now d = inl (refl, tt)
    store-Attempted answered (some id) now d =
        Attempted-map (λ o h. h) (λ h. absurd h) (script-Attempted id now d)
    store-Attempted lost_reply (some id) now d =
        Attempted-map (λ o h. tt) (λ h. absurd h) (script-Attempted id now d)

    attempted :
        (link : Link) (w : World) (d : Db)
        → Attempted
            (λ o. Names o (attempt link w d).0)
            (HasFailed (attempt link w d).0)
            d
            (attempt link w d).1
    unfolding enqueue handle handle_enqueue
    attempted lost_call w d = inl (refl, tt)
    attempted lost_reply w d =
        rw (wrap-handle R cfg parse w (post_job (some (q, payload, key))) d)
          (rw valid (Attempted-map (λ o h. tt) (λ h. tt) (store-Attempted w.link w.new_id w.now d)))
    attempted answered w d = rw (wrap-handle R cfg parse w (post_job (some (q, payload, key))) d) (
        rw valid (
          Attempted-map (Told-Names (stores w.link w.new_id w.now d).0)
            (Failed-HasFailed (stores w.link w.new_id w.now d).0)
            (store-Attempted w.link w.new_id w.now d)))

    -- Once the marker is there, attempts change nothing and name its owner.
    marked_tries :
        (attempts : List (Link × World)) (owner : Bytes) (d : Db)
        → IsMarked owner d
        → AllName owner (tries attempts d).0 × (view (tries attempts d).1 ≡ view d)
    marked_tries [] owner d m = (tt, refl)
    marked_tries ((link, w) ∷ attempts) owner d m = elim (attempted link w d) [
      | inl (same, failed) ↦
          let (named, same') = marked_tries attempts owner (attempt link w d).1 (rw same m) in
          ((failed-Names (attempt link w d).0 owner failed, named), same' ∙ same)
      | inr (inl (owner', m', same, names)) ↦
          let (named, same') = marked_tries attempts owner (attempt link w d).1 (rw same m) in
          let one : owner' ≡ owner = ground (arith, m, m') in
          ((subst (λ o. Names o (attempt link w d).0) one names, named), same' ∙ same)
      | inr (inr (id, unmarked, made, names)) ↦ absurd (ground (arith, m, unmarked))
    ]

    -- An enqueue with an idempotency key may be sent again and again: for a valid queue, a
    -- non-empty key, and a window of a second or more, and with the marker alive between them,
    -- any number of attempts in a row, any of whose requests, calls of Redis or answers are lost,
    -- make at most one job and change nothing else; and all that return name the same job, which is
    -- the new one if one was made.
    pub tries_make_one :
        (attempts : List (Link × World)) (d : Db)
        → ((view (tries attempts d).1 ≡ view d)
            × (owner : Bytes) × AllName owner (tries attempts d).0)
          ⊎ ((id : Bytes) × Made id (view d) (view (tries attempts d).1)
              × AllName id (tries attempts d).0)
    tries_make_one [] d = inl (refl, [], tt)
    tries_make_one ((link, w) ∷ attempts) d = elim (attempted link w d) [
      | inl (same, failed) ↦ elim (tries_make_one attempts (attempt link w d).1) [
        | inl (same', owner, named) ↦
            inl (same' ∙ same, owner, (failed-Names (attempt link w d).0 owner failed, named))
        | inr (id, made, named) ↦ inr (
          id,
          subst (λ v. Made id v (view (tries attempts (attempt link w d).1).1)) same made,
          (failed-Names (attempt link w d).0 id failed, named),
        )
      ]
      | inr (inl (owner, m, same, names)) ↦
          let (named, same') = marked_tries attempts owner (attempt link w d).1 (rw same m) in
          inl (same' ∙ same, owner, (names, named))
      | inr (inr (id, unmarked, (now, made), names)) ↦
          let there : IsMarked id (attempt link w d).1 = rw made (rw bytes_eq_refl refl) in
          let (named, same') = marked_tries attempts id (attempt link w d).1 there in
          inr (id, (now, same' ∙ made), (names, named))
    ]
