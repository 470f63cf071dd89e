-- ===== src/RemoteImageAsync/Draining.antt =====
-- The puller loop and its goroutines come to rest.
mod Costs
mod Kept
use container_image_csi_driv.Base.{
  ℕ, zero, suc, ◌+◌, ◌*◌, ◌≤◌, ◌<◌, ◌≡◌, ◌≢◌, ◌⊎◌, refl, sym, ap, subst, ◌∙◌, inl, inr, Bool, true,
  false, ◌||◌, List, [], ◌∷◌, Option, none, some, some-injective, arith, ltb, length, elem,
  elem-snoc, nat_eq, nat_beq, nat_beq_iff, Bool-cases, Option-cases, if◌then◌else◌,
}
use container_image_csi_driv.Text.{Text, Text-eq}
use container_image_csi_driv.Dict.{Dict, get, put, delete, has, get-put, get-delete}
use container_image_csi_driv.RemoteImageAsync.{
  Synchronizer, PullSession, PullEnd, timed_out, Task, pulling, completing, start_async_puller,
  take_session, end_pull, forget, receive, finish, complete, taken, settled, forgotten, enqueued,
  new_session, settle,
}
use container_image_csi_driv.RemoteImageAsync.Draining.Costs.{
  costs, costs-put, costs-put_known, costs-delete,
}
use container_image_csi_driv.RemoteImageAsync.Steps.{
  Allowed, Step, receives, finishes, completes, Reach, next, Keeps, Reach-rule,
}
use container_image_csi_driv.RemoteImageAsync.Sharing.{active, undone, tag_of}
use container_image_csi_driv.RemoteImageAsync.Draining.Kept.{Tracked, Tracked-Keeps, start-Tracked}

module _ {E : Type 0} where
  -- The steps of the loop and of its goroutines, without those of requests and the shutdown.
  pub data Work (s s' : Synchronizer E) : Type 0 where
    takes : receive s ≡ some s' → Work s s'
    ends :
        (id : ℕ) (how : PullEnd E) → Allowed s.cancelled how → finish id how s ≡ some s' → Work s s'
    forgets : (id : ℕ) → complete id s ≡ some s' → Work s s'

  pub data Run (s : Synchronizer E) : Synchronizer E → Type 0 where
    rest : Run s s
    more : {t u : Synchronizer E} → Run s t → Work t u → Run s u

  abbrev pub rounds : {s s' : Synchronizer E} → Run s s' → ℕ
  rounds rest = 0
  rounds (more r w) = suc (rounds r)

  -- Three steps for each session in the channel, and those that the goroutines have left.
  abbrev pub work_left : Synchronizer E → ℕ
  work_left s = 3 * length s.queue + costs s.tasks

  abbrev Less : Synchronizer E → Synchronizer E → Type 0
  Less s' s = work_left s' < work_left s

  module _ (s s' : Synchronizer E) where
    take-Less : (q : List ℕ) → s.queue ≡ q → take_session q s ≡ some s' → Less s' s
    unfolding take_session
    take-Less [] e h = absurd cc
    take-Less (id ∷ others) e h =
        subst (λ u. Less u s) (some-injective _ s' h)
          (let l = ap length e in omega (arith, costs-put id pulling s.tasks))

    end-Less :
        (id : ℕ) (how : PullEnd E) (task : Option Task) (found : Option (PullSession E))
        → get id s.tasks ≡ task
        → end_pull task found id how s ≡ some s'
        → Less s' s
    unfolding end_pull
    end-Less id how none found e h = absurd cc
    end-Less id how (some completing) found e h = absurd cc
    end-Less id how (some pulling) none e h = absurd cc
    end-Less id how (some pulling) (some ses) e h =
        subst (λ u. Less u s) (some-injective _ s' h)
          (omega (arith, costs-put_known id completing pulling s.tasks e))

    forget-Less :
        (id : ℕ) (task : Option Task) (found : Option (PullSession E))
        → get id s.tasks ≡ task
        → forget task found id s ≡ some s'
        → Less s' s
    unfolding forget
    forget-Less id none found e h = absurd cc
    forget-Less id (some pulling) found e h = absurd cc
    forget-Less id (some completing) none e h = absurd cc
    forget-Less id (some completing) (some ses) e h =
        subst (λ u. Less u s) (some-injective _ s' h)
          (omega (arith, costs-delete id completing s.tasks e))

    Work-Less : Work s s' → Less s' s
    unfolding receive finish complete
    Work-Less (takes h) = take-Less s.queue refl h
    Work-Less (ends id how a h) = end-Less id how (get id s.tasks) (get id s.heap) refl h
    Work-Less (forgets id h) = forget-Less id (get id s.tasks) (get id s.heap) refl h

  rounds_bounded : {s s' : Synchronizer E} (r : Run s s') → rounds r + work_left s' ≤ work_left s
  rounds_bounded rest = omega arith
  rounds_bounded (more {t} {u} r w) = omega (arith, rounds_bounded r, Work-Less t u w)

  module _ (Keyed : Text → Text → Type 0) where
    to_Step : {s s' : Synchronizer E} → Work s s' → Step Keyed s s'
    to_Step (takes h) = receives h
    to_Step (ends id how a h) = finishes id how a h
    to_Step (forgets id h) = completes id h

    to_Reach : {s t u : Synchronizer E} → Reach Keyed s t → Run t u → Reach Keyed s u
    to_Reach r rest = r
    to_Reach r (more run w) = next (to_Reach r run) (to_Step w)

  -- No session waits, is pulled or is open, and the map has none under its own name of the image.
  pub record Drained (s : Synchronizer E) : Type 0 where
    pub channel : s.queue ≡ []
    pub goroutines : s.tasks ≡ []
    pub over : (id : ℕ) → undone id s ≡ false
    pub released :
        (image : Text) (id : ℕ) → get image s.session_map ≡ some id → tag_of id s ≢ some image

  module _ (s : Synchronizer E) (i : Tracked s) where
    -- A goroutine can always take its next step.
    goes_on : (id : ℕ) (t : Task) → get id s.tasks ≡ some t → (u : Synchronizer E) × Work s u
    unfolding finish complete end_pull forget
    goes_on id t busy = elim (Option-cases (get id s.heap)) [
      | inl lost ↦ absurd (ground (arith, i.stored id))
      | inr (ses, stored) ↦ ongoing t busy ses stored
    ]
      where
        ongoing :
            (task : Task)
            → get id s.tasks ≡ some task
            → (ses : PullSession E) → get id s.heap ≡ some ses
            → (u : Synchronizer E) × Work s u
        ongoing pulling b ses h =
            (settled id timed_out ses s, ends id timed_out tt (rw (finish, b, h, end_pull) refl))
        ongoing completing b ses h =
            (forgotten id ses s, forgets id (rw (complete, b, h, forget) refl))

    tasks-cases : (m : Dict ℕ Task) → s.tasks ≡ m → (m ≡ []) ⊎ ((u : Synchronizer E) × Work s u)
    unfolding get
    tasks-cases [] e = inl refl
    tasks-cases ((id, t) ∷ m) e = inr (goes_on id t (rw e (rw ((nat_beq_iff id id).1 refl) refl)))

    nothing_left : s.queue ≡ [] → s.tasks ≡ [] → Drained s
    unfolding get
    nothing_left e f = record {
      channel = e;
      goroutines = f;
      over = λ id. ground (arith, i.live id);
      released = λ image id h t. ground (arith, i.held image id h t);
    }

    Drained-or_Work : (q : List ℕ) → s.queue ≡ q → Drained s ⊎ ((u : Synchronizer E) × Work s u)
    unfolding receive take_session
    Drained-or_Work [] e = elim (tasks-cases s.tasks refl) [
      | inl idle ↦ inl (nothing_left e idle)
      | inr w ↦ inr w
    ]
    Drained-or_Work (id ∷ others) e =
        inr (taken id others s, takes (rw (receive, e, take_session) refl))

  -- From the start on, whatever the keys of the requests and the order of the steps until then: while
  -- no request and no shutdown comes, the loop and its goroutines make at most three steps for each
  -- session in the channel, two for each that is in `Pull` and one for each that is to be
  -- forgotten. Wherever they stop in between, one of them can make another step, or all is drained:
  -- the channel is empty, no goroutine is left, every session is closed, and the map has no session
  -- left under the session's own name of its image.
  pub drains :
      (Keyed : Text → Text → Type 0) (depth : ℕ) (start s t : Synchronizer E) (r : Run s t)
      → start_async_puller depth ≡ some start
      → Reach Keyed start s
      → (rounds r ≤ work_left s) × (Drained t ⊎ ((u : Synchronizer E) × Work t u))
  drains Keyed depth start s t r begins to_s =
      let tracked : Tracked t =
        Reach-rule {P = Tracked} (λ u i. Tracked-Keeps u i Keyed) (start-Tracked depth start begins)
          (to_Reach Keyed to_s r) in
      (omega (arith, rounds_bounded r), Drained-or_Work t tracked t.queue refl)
