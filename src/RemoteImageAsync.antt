-- ===== src/RemoteImageAsync.antt =====
-- pkg/remoteimageasync: pulls that outlive the request that asked for them. A session is a pointer
-- that the session map, the channel, the pulling goroutine and the waiters share: here an index of
-- `heap`. The goroutines and the requests interleave as the steps of `Step`.
pub mod Steps
pub mod Sharing
pub mod Sealed
pub mod Stale
pub mod Draining
mod Samples
use container_image_csi_driv.Base.{
  ℕ, suc, Bool, true, false, List, [], ◌∷◌, ◌++◌, Option, none, some, ltb, if◌then◌else◌, length,
  nat_eq,
}
use container_image_csi_driv.Text.{Text, Text-eq}
use container_image_csi_driv.Dict.{Dict, get, has, put, delete}
use container_image_csi_driv.Exec.{Outcome, ok, err, crash}

-- The error of a session, over the errors of `Pull`.
pub data SessionError (E : Type 0) : Type 0 where
  pull_error : E → SessionError E
  shutting_down : SessionError E
  exceeded_timeout : SessionError E

-- How `Pull` ended: the application shuts down, the session's time is over, or neither.
pub data PullEnd (E : Type 0) : Type 0 where
  shut_down : PullEnd E
  timed_out : PullEnd E
  completed : Option E → PullEnd E

-- What WaitForPull returns: the error of the session, if any, or that the caller's time is over.
pub data WaitResult (E : Type 0) : Type 0 where
  session_over : Option (SessionError E) → WaitResult E
  caller_timed_out : WaitResult E

-- `done` tells whether the channel of that name is closed.
pub record PullSession (E : Type 0) : Type 0 where
  pub image_with_tag : Text
  pub timeout : ℕ
  pub done : Bool
  pub is_timed_out : Bool
  pub failure : Option (SessionError E)

-- Where the goroutine of a received session stands: in `Pull`, or between `close(ses.done)` and
-- the end of `completedFunc`.
pub data Task : Type 0 where
  pulling : Task
  completing : Task

-- The synchronizer, the channel between it and the puller loop, and the goroutines of the loop.
-- `cancelled` tells whether the loop's context is done, `closed` whether the channel is closed.
pub record Synchronizer (E : Type 0) : Type 0 where
  pub heap : Dict ℕ (PullSession E)
  pub next : ℕ
  pub session_map : Dict Text ℕ
  pub queue : List ℕ
  pub depth : ℕ
  pub cancelled : Bool
  pub closed : Bool
  pub tasks : Dict ℕ Task

pub data StartError : Type 0 where
  throttling : StartError

module _ {E : Type 0} where
  -- StartAsyncPuller, getSynchronizer: a channel of fewer than 50 places ends the process.
  unfoldable pub start_async_puller : ℕ → Option (Synchronizer E)
  start_async_puller depth =
      if ltb depth 50
      then none
      else some (record {
        heap = [];
        next = 0;
        session_map = [];
        queue = [];
        depth = depth;
        cancelled = false;
        closed = false;
        tasks = [];
      })

  abbrev pub new_session : Text → ℕ → PullSession E
  new_session tag timeout = record {
    image_with_tag = tag;
    timeout = timeout;
    done = false;
    is_timed_out = false;
    failure = none;
  }

  -- The new session is in the map and in the channel.
  abbrev pub enqueued : Text → Text → ℕ → Synchronizer E → Synchronizer E
  enqueued image tag timeout s = record s {
    heap = put s.next (new_session tag timeout) s.heap;
    next = suc s.next;
    session_map = put image s.next s.session_map;
    queue = s.queue ++ s.next ∷ [];
  }

  -- A send on the closed channel panics. The deferred function recovers, sets `ses = nil` and then
  -- calls `ses.ImageWithTag()`, which panics again and ends the process.
  start_session : Text → Text → ℕ → Synchronizer E → Outcome StartError ℕ × Synchronizer E
  start_session image tag timeout s =
      if s.closed
      then (crash, s)
      else if ltb (length s.queue) s.depth
      then (ok s.next, enqueued image tag timeout s)
      else (err throttling, s)

  -- `image` is the key of the map, `tag` the name that the puller gives itself.
  unfoldable pub start_pull :
      Text → Text → ℕ → Synchronizer E → Outcome StartError ℕ × Synchronizer E
  unfolding start_session
  start_pull image tag timeout s = elim (get image s.session_map) [
    | none ↦ start_session image tag timeout s
    | some id ↦ (ok id, s)
  ]

  abbrev pub taken : ℕ → List ℕ → Synchronizer E → Synchronizer E
  taken id rest s = record s { queue = rest; tasks = put id pulling s.tasks }

  -- ses, ok := <-sessionChan, and the start of the goroutine. `none` blocks, or ends the loop.
  take_session : List ℕ → Synchronizer E → Option (Synchronizer E)
  take_session [] s = none
  take_session (id ∷ rest) s = some (taken id rest s)

  unfoldable pub receive : Synchronizer E → Option (Synchronizer E)
  unfolding take_session
  receive s = take_session s.queue s

  abbrev pull_error_of : Option E → Option (SessionError E)
  pull_error_of none = none
  pull_error_of (some e) = some (pull_error e)

  -- The fields that the select writes, and close(ses.done).
  unfoldable pub settle : PullEnd E → PullSession E → PullSession E
  settle shut_down ses = record ses {
    done = true;
    is_timed_out = false;
    failure = some shutting_down;
  }
  settle timed_out ses = record ses {
    done = true;
    is_timed_out = true;
    failure = some exceeded_timeout;
  }
  settle (completed e) ses = record ses {
    done = true;
    is_timed_out = false;
    failure = pull_error_of e;
  }

  abbrev pub settled : ℕ → PullEnd E → PullSession E → Synchronizer E → Synchronizer E
  settled id how ses s = record s {
    heap = put id (settle how ses) s.heap;
    tasks = put id completing s.tasks;
  }

  end_pull :
      Option Task
      → Option (PullSession E)
      → ℕ
      → PullEnd E
      → Synchronizer E
      → Option (Synchronizer E)
  end_pull (some pulling) (some ses) id how s = some (settled id how ses s)
  end_pull _ _ id how s = none

  -- The goroutine of session `id` leaves `Pull`. `none`: it is not there.
  unfoldable pub finish : ℕ → PullEnd E → Synchronizer E → Option (Synchronizer E)
  unfolding end_pull
  finish id how s = end_pull (get id s.tasks) (get id s.heap) id how s

  abbrev pub forgotten : ℕ → PullSession E → Synchronizer E → Synchronizer E
  forgotten id ses s = record s {
    session_map = delete ses.image_with_tag s.session_map;
    tasks = delete id s.tasks;
  }

  -- completedFunc: delete(async.sessionMap, ses.ImageWithTag())
  forget : Option Task → Option (PullSession E) → ℕ → Synchronizer E → Option (Synchronizer E)
  forget (some completing) (some ses) id s = some (forgotten id ses s)
  forget _ _ id s = none

  unfoldable pub complete : ℕ → Synchronizer E → Option (Synchronizer E)
  unfolding forget
  complete id s = forget (get id s.tasks) (get id s.heap) id s

  -- The application shuts down: the context of the loop is done.
  unfoldable pub cancel : Synchronizer E → Synchronizer E
  cancel s = record s { cancelled = true }

  -- close(sessionChan), after <-ctx.Done()
  unfoldable pub shut : Synchronizer E → Synchronizer E
  shut s = record s { closed = true }

  -- The cases of WaitForPull's select that are ready; none of them means that it waits. Where both
  -- are, Go picks one.
  unfoldable pub wait_for_pull : PullSession E → Bool → List (WaitResult E)
  wait_for_pull ses caller_done =
      (if ses.done then session_over ses.failure ∷ [] else [])
      ++ (if caller_done then caller_timed_out ∷ [] else [])
