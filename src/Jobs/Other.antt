-- ===== src/Jobs/Other.antt =====
-- The commands on schedules, markers and the leader's lock do not touch the jobs.
use cogs_crash_refresh_job_q.Prelude.{ℕ, ◌<◌, Bytes, ℤ, ◌≡◌, refl}
use cogs_crash_refresh_job_q.Keys.{leased_key, leader_key, schedules_key}
use cogs_crash_refresh_job_q.Keys.Layout.{key_laws}
use cogs_crash_refresh_job_q.Keys.Families.{del_laws}
use cogs_crash_refresh_job_q.Redis.{Redis, View, SetReply, stored, invalid_expire, nil, done}
use cogs_crash_refresh_job_q.Schedules.{put_schedule, delete_schedule}
use cogs_crash_refresh_job_q.Results.{Link}
use cogs_crash_refresh_job_q.Leader.{Leader, LockCall, lock_step}
use cogs_crash_refresh_job_q.Leader.Effects.{lock_step-relates}
use cogs_crash_refresh_job_q.Jobs.{Keeps, Keeps-refl}

-- No job has come, gone or moved, and no lease has changed.
pub record SameJobs (v w : View) : Type 0 where
  pub keeps : Keeps v w
  pub leases : (q id : Bytes) → w.zsets (leased_key q) id ≡ v.zsets (leased_key q) id

SameJobs-refl : (v : View) → SameJobs v v
SameJobs-refl v = record { keeps = Keeps-refl v; leases = λ q id. refl }

stored-SameJobs : (r : SetReply) (k x : Bytes) (v : View) → SameJobs v (stored r k x v)
stored-SameJobs invalid_expire k x v = SameJobs-refl v
stored-SameJobs nil k x v = SameJobs-refl v
stored-SameJobs done k x v = record {
  keeps = record {
    same_places = λ q id. refl;
    same_queue = λ id. refl;
    still_numbered = λ id n e. (n, e);
  };
  leases = λ q' id'. refl;
}

module _ (R : Redis) where
  open R use {
    zrem, Db, view, get, del, set_nx, pexpire, expire, view-del, view-set_nx, view-pexpire,
    view-expire, view-hset, view-zadd, view-zrem,
  }

  pub expire-SameJobs : (k : Bytes) (d : Db) → SameJobs (view d) (view (expire k d))
  expire-SameJobs k d = rw view-expire (record {
    keeps = record {
      same_places = λ q id. refl;
      same_queue = λ id. refl;
      still_numbered = λ id n e. (n, e);
    };
    leases = λ q' id'. refl;
  })

  pub put_schedule-SameJobs :
      (id q spec body : Bytes) (now : ℕ) (next : ℤ) (d : Db)
      → SameJobs (view d) (view (put_schedule R id q spec body now next d))
  unfolding put_schedule
  put_schedule-SameJobs id q spec body now next d = record {
    keeps = record {
      same_places = λ q' id'. simp (view-zadd, view-hset, key_laws);
      same_queue = λ id'. simp (view-zadd, view-hset, key_laws);
      still_numbered = λ id' n e. (n, simp (view-zadd, view-hset, key_laws) e);
    };
    leases = λ q' id'. simp (view-zadd, view-hset, key_laws);
  }

  pub delete_schedule-SameJobs :
      (id : Bytes) (d : Db) → SameJobs (view d) (view (delete_schedule R id d))
  unfolding delete_schedule
  delete_schedule-SameJobs id d = record {
    keeps = record {
      same_places = λ q' id'. simp (view-del, view-zrem, key_laws, del_laws);
      same_queue = λ id'. simp (view-del, view-zrem, key_laws);
      still_numbered = λ id' n e. (n, simp (view-del, view-zrem, key_laws) e);
    };
    leases = λ q' id'. simp (view-del, view-zrem, key_laws, del_laws);
  }

  pub drop_schedule-SameJobs :
      (id : Bytes) (d : Db) → SameJobs (view d) (view (zrem schedules_key id d).1)
  drop_schedule-SameJobs id d = record {
    keeps = record {
      same_places = λ q' id'. simp (view-zrem, key_laws);
      same_queue = λ id'. simp view-zrem;
      still_numbered = λ id' n e. (n, simp view-zrem e);
    };
    leases = λ q' id'. simp (view-zrem, key_laws);
  }

  del_leader-SameJobs : (d : Db) → SameJobs (view d) (view (del leader_key d))
  del_leader-SameJobs d = record {
    keeps = record {
      same_places = λ q' id'. simp (view-del, del_laws);
      same_queue = λ id'. simp (view-del, del_laws);
      still_numbered = λ id' n e. (n, simp (view-del, del_laws) e);
    };
    leases = λ q' id'. simp (view-del, del_laws);
  }

  pub lock_step-SameJobs :
      (call : LockCall) (link : Link) (ttl : ℕ) (l : Leader) (d : Db)
      → 0 < ttl
      → SameJobs (view d) (view (lock_step R call link ttl l d).1)
  lock_step-SameJobs =
      lock_step-relates R SameJobs SameJobs-refl (λ r x v. stored-SameJobs r leader_key x v)
        del_leader-SameJobs
