-- ===== src/Loops/Entries.antt =====
-- What the drain of one queue does to the leases, or the backoffs, of a queue.
use cogs_crash_refresh_job_q.Prelude.{
  ℕ, ◌+◌, ◌≤◌, List, [], ◌++◌, map, Bytes, none, some, ℤ, pos, ◌≤ℤ◌, ◌≡◌, ◌⊎◌, subst, sym, ap, inl,
  inr, count, count-append, length-append, length-map, length-count-le, bytes_eq, bytes_eq_sound,
  Bool-cases, ◌==◌, arith, length, present, ltb,
}
use cogs_crash_refresh_job_q.Redis.{Redis}
use cogs_crash_refresh_job_q.Jobs.{Inv, Keeps-Inv}
use cogs_crash_refresh_job_q.Jobs.Relocate.{Source, source_key}
use cogs_crash_refresh_job_q.Jobs.Pass.{due, drain_script_passes}
use cogs_crash_refresh_job_q.Jobs.Elsewhere.{pass_elsewhere}
use cogs_crash_refresh_job_q.Store.{Config}
use cogs_crash_refresh_job_q.Loops.OnePass as OnePass
use cogs_crash_refresh_job_q.Loops.Sources.{counts}

module _ (R : Redis) (cfg : Config) (s : Source) (q : Bytes) where
  open R use {Db, view, zrange, zrange_members, zrange_once, zrange_due, zrange_limit, zrange_all}

  abbrev members : Db → List Bytes
  members d = map (λ e. e.0) (zrange (source_key s q) d)

  -- How many entries the queue has, as ZCARD counts them.
  abbrev pub entries : Db → ℕ
  entries d = length (zrange (source_key s q) d)

  -- Entries that were all there before, and others besides that are gone.
  entries-le :
      (taken : List Bytes) (d d' : Db)
      → ((m : Bytes)
          → count m taken + present ((view d').zsets (source_key s q) m)
            ≤ present ((view d).zsets (source_key s q) m))
      → length taken + entries d' ≤ entries d
  entries-le taken d d' fewer =
      let each = length-count-le (taken ++ members d') (members d) (λ m. omega (
        arith,
        fewer m,
        count-append m taken (members d'),
        zrange_members (source_key s q) m d,
        zrange_members (source_key s q) m d',
      )) in
      omega (
        arith,
        each,
        length-append taken (members d'),
        length-map (λ e. e.0) (zrange (source_key s q) d),
        length-map (λ e. e.0) (zrange (source_key s q) d'),
      )

  -- What a pass does to the entries of the queue: it takes the one of the job away, or as many as
  -- its limit.
  abbrev pub Clears : Bytes → Db → Db → Type 0
  Clears id d d' =
      ((view d').zsets (source_key s q) id ≡ none) ⊎ (cfg.drain_limit + entries d' ≤ entries d)

  module _ (now : Bytes → ℕ) where
    abbrev pub one_drain : Bytes → Db → Db
    one_drain x d = (OnePass.one_drain R cfg s now x d).1

    pub one_drain-Inv : (x : Bytes) (d : Db) → Inv (view d) → Inv (view (one_drain x d))
    one_drain-Inv x d inv = Keeps-Inv (OnePass.one_drain-Keeps R cfg s now x d inv) inv

    -- The pass over the queue itself takes what is due, each entry once.
    own_drain :
        (d : Db)
        → Inv (view d)
        → (m : Bytes)
        → count m (due R s (counts s) cfg.max_retries q (pos (now q)) cfg.drain_limit d)
            + present ((view (one_drain q d)).zsets (source_key s q) m)
          ≤ present ((view d).zsets (source_key s q) m)
    own_drain d inv m =
        let now_q = pos (now q) in
        let limit = cfg.drain_limit in
        let (r, reply, p) =
          drain_script_passes R s (counts s) cfg.max_retries q now_q limit d inv in
        elim (Bool-cases (count m (due R s (counts s) cfg.max_retries q now_q limit d) == 0)) [
          | inl nothing ↦ ground (arith, p.others m)
          | inr something ↦
              let (t, held, over) = zrange_due (source_key s q) m now_q limit d (ground arith) in
              let once = zrange_once (source_key s q) m now_q limit d in
              rw (held, p.cleared m (ground arith)) (omega (arith, once))
        ]

    pub own_drain-Clears :
        (id : Bytes) (t : ℤ) (d : Db)
        → Inv (view d)
        → (view d).zsets (source_key s q) id ≡ some t
        → t ≤ℤ pos (now q)
        → Clears id d (one_drain q d)
    own_drain-Clears id t d inv held over =
        let now_q = pos (now q) in
        let limit = cfg.drain_limit in
        let taken = due R s (counts s) cfg.max_retries q now_q limit d in
        let (r, reply, p) =
          drain_script_passes R s (counts s) cfg.max_retries q now_q limit d inv in
        elim (Bool-cases (ltb (length taken) limit)) [
          | inl room ↦ inl (
              p.cleared id
                (zrange_all (source_key s q) id now_q limit d t (ground arith) held over))
          | inr full ↦
              let fewer = entries-le taken d (one_drain q d) (own_drain d inv) in
              inr (ground (arith, fewer))
        ]

    present-one_drain :
        (x m : Bytes) (d : Db)
        → Inv (view d)
        → present ((view (one_drain x d)).zsets (source_key s q) m)
          ≤ present ((view d).zsets (source_key s q) m)
    present-one_drain x m d inv = elim (Bool-cases (bytes_eq x q)) [
      | inl same ↦
          subst
            (λ k.
              present ((view (one_drain k d)).zsets (source_key s q) m)
              ≤ present ((view d).zsets (source_key s q) m))
            (sym (bytes_eq_sound x q same)) (omega (arith, own_drain d inv m))
      | inr other ↦
          let stays =
            pass_elsewhere R s (counts s) cfg.max_retries x (pos (now x)) cfg.drain_limit d q m inv
              other in
          omega (arith, ap present stays)
    ]

    pub one_drain_fewer : (x : Bytes) (d : Db) → Inv (view d) → entries (one_drain x d) ≤ entries d
    unfolding count
    one_drain_fewer x d inv =
        omega
          (arith, entries-le [] d (one_drain x d) (λ m. omega (arith, present-one_drain x m d inv)))

    own_drain_leaves :
        (id : Bytes) (d : Db)
        → Inv (view d)
        → ((view (one_drain q d)).zsets (source_key s q) id ≡ none)
          ⊎ ((view (one_drain q d)).zsets (source_key s q) id ≡ (view d).zsets (source_key s q) id)
    own_drain_leaves id d inv =
        let now_q = pos (now q) in
        let limit = cfg.drain_limit in
        let (r, reply, p) =
          drain_script_passes R s (counts s) cfg.max_retries q now_q limit d inv in
        elim (Bool-cases (count id (due R s (counts s) cfg.max_retries q now_q limit d) == 0)) [
          | inl nothing ↦ inr (p.others id (ground arith))
          | inr something ↦ inl (p.cleared id (ground arith))
        ]

    -- The drain of one queue takes an entry away or leaves it as it was.
    pub one_drain_leaves :
        (x id : Bytes) (d : Db)
        → Inv (view d)
        → ((view (one_drain x d)).zsets (source_key s q) id ≡ none)
          ⊎ ((view (one_drain x d)).zsets (source_key s q) id ≡ (view d).zsets (source_key s q) id)
    one_drain_leaves x id d inv = elim (Bool-cases (bytes_eq x q)) [
      | inl same ↦
          subst
            (λ k.
              ((view (one_drain k d)).zsets (source_key s q) id ≡ none)
              ⊎ ((view (one_drain k d)).zsets (source_key s q) id
                  ≡ (view d).zsets (source_key s q) id))
            (sym (bytes_eq_sound x q same)) (own_drain_leaves id d inv)
      | inr other ↦ inr (
          pass_elsewhere R s (counts s) cfg.max_retries x (pos (now x)) cfg.drain_limit d q id inv
            other)
    ]
