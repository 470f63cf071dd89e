-- ===== src/RemoteImageAsync/Steps.antt =====
-- The steps of requests, of the puller loop and of its goroutines, in any order.
use container_image_csi_driv.Base.{
  ℕ, ◌≡◌, refl, sym, ap, subst, Bool, true, false, List, [], ◌∷◌, Option, none, some,
  some-injective, ltb, if◌then◌else◌, length, nat_eq,
}
use container_image_csi_driv.Text.{Text, Text-eq}
use container_image_csi_driv.Dict.{get}
use container_image_csi_driv.Exec.{Outcome, ok, err, crash}
use container_image_csi_driv.RemoteImageAsync.{
  Synchronizer, StartError, PullEnd, shut_down, timed_out, completed, start_pull, start_session,
  throttling, Task, pulling, completing, PullSession, take_session, end_pull, forget, enqueued,
  taken, settled, forgotten, receive, finish, complete, cancel, shut,
}

module _ {E : Type 0} where
  -- The select after `Pull`: once the application shuts down, the session's context is done too and
  -- Go picks either case; `completed` is its default.
  abbrev pub Allowed : Bool → PullEnd E → Type 0
  Allowed cancelled shut_down = cancelled ≡ true
  Allowed cancelled timed_out = Unit
  Allowed cancelled (completed e) = cancelled ≡ false

  -- `keyed` relates the key of a request to its puller's own name for the image.
  pub data Step (Keyed : Text → Text → Type 0) (s s' : Synchronizer E) : Type 0 where
    starts :
        (image tag : Text) (timeout id : ℕ)
        → Keyed image tag
        → start_pull image tag timeout s ≡ (ok id, s')
        → Step Keyed s s'
    throttles :
        (image tag : Text) (timeout : ℕ) (e : StartError)
        → start_pull image tag timeout s ≡ (err e, s')
        → Step Keyed s s'
    receives : receive s ≡ some s' → Step Keyed s s'
    finishes :
        (id : ℕ) (how : PullEnd E)
        → Allowed s.cancelled how
        → finish id how s ≡ some s'
        → Step Keyed s s'
    completes : (id : ℕ) → complete id s ≡ some s' → Step Keyed s s'
    cancels : s' ≡ cancel s → Step Keyed s s'
    -- The goroutine that waits for the context closes the channel once.
    shuts : s.cancelled ≡ true → s.closed ≡ false → s' ≡ shut s → Step Keyed s s'

  pub data Reach (Keyed : Text → Text → Type 0) (s : Synchronizer E) : Synchronizer E → Type 0 where
    here : Reach Keyed s s
    next : {t u : Synchronizer E} → Reach Keyed s t → Step Keyed t u → Reach Keyed s u

  -- What to show of a predicate for each way in which a step changes the state.
  pub record Keeps (Keyed : Text → Text → Type 0) (P : Synchronizer E → Type 0) (s : Synchronizer E)
      : Type 0 where
    pub same : P s
    pub enqueues :
        (image tag : Text) (timeout : ℕ)
        → Keyed image tag
        → get image s.session_map ≡ none
        → ltb (length s.queue) s.depth ≡ true
        → P (enqueued image tag timeout s)
    pub takes : (id : ℕ) (rest : List ℕ) → s.queue ≡ id ∷ rest → P (taken id rest s)
    pub settles :
        (id : ℕ) (how : PullEnd E) (ses : PullSession E)
        → get id s.tasks ≡ some pulling
        → get id s.heap ≡ some ses
        → P (settled id how ses s)
    pub forgets :
        (id : ℕ) (ses : PullSession E)
        → get id s.tasks ≡ some completing
        → get id s.heap ≡ some ses
        → P (forgotten id ses s)
    pub closes : (cancelled closed : Bool) → P (record s { cancelled = cancelled; closed = closed })

  module _ {Keyed : Text → Text → Type 0} {P : Synchronizer E → Type 0} {s : Synchronizer E}
      (k : Keeps Keyed P s) where
    module _ (image tag : Text) (timeout : ℕ) (keyed : Keyed image tag) where
      admit-Keeps :
          get image s.session_map ≡ none
          → (stopped room : Bool) → ltb (length s.queue) s.depth ≡ room
          → P
              (if◌then◌else◌ {A = Outcome StartError ℕ × Synchronizer E} stopped
                (crash, s)
                (if room then (ok s.next, enqueued image tag timeout s) else (err throttling, s))).1
      admit-Keeps free true room e = k.same
      admit-Keeps free false true e = k.enqueues image tag timeout keyed free e
      admit-Keeps free false false e = k.same

      lookup-Keeps :
          (found : Option ℕ)
          → get image s.session_map ≡ found
          → P
              (elim found as (λ _. Outcome StartError ℕ × Synchronizer E) [
                | none ↦ start_session image tag timeout s
                | some id ↦ (ok id, s)
              ]).1
      unfolding start_session
      lookup-Keeps none free = admit-Keeps free s.closed (ltb (length s.queue) s.depth) refl
      lookup-Keeps (some id) e = k.same

      pub start_pull-Keeps : P (start_pull image tag timeout s).1
      unfolding start_pull
      start_pull-Keeps = lookup-Keeps (get image s.session_map) refl

    module _ (s' : Synchronizer E) where
      take_session-Keeps : (q : List ℕ) → s.queue ≡ q → take_session q s ≡ some s' → P s'
      unfolding take_session
      take_session-Keeps [] q e = absurd cc
      take_session-Keeps (id ∷ rest) q e = subst P (some-injective _ s' e) (k.takes id rest q)

      end_pull-Keeps :
          (id : ℕ) (how : PullEnd E) (task : Option Task) (found : Option (PullSession E))
          → get id s.tasks ≡ task
          → get id s.heap ≡ found
          → end_pull task found id how s ≡ some s'
          → P s'
      unfolding end_pull
      end_pull-Keeps id how none found busy stored e = absurd cc
      end_pull-Keeps id how (some completing) found busy stored e = absurd cc
      end_pull-Keeps id how (some pulling) none busy stored e = absurd cc
      end_pull-Keeps id how (some pulling) (some ses) busy stored e =
          subst P (some-injective _ s' e) (k.settles id how ses busy stored)

      forget-Keeps :
          (id : ℕ) (task : Option Task) (found : Option (PullSession E))
          → get id s.tasks ≡ task
          → get id s.heap ≡ found
          → forget task found id s ≡ some s'
          → P s'
      unfolding forget
      forget-Keeps id none found busy stored e = absurd cc
      forget-Keeps id (some pulling) found busy stored e = absurd cc
      forget-Keeps id (some completing) none busy stored e = absurd cc
      forget-Keeps id (some completing) (some ses) busy stored e =
          subst P (some-injective _ s' e) (k.forgets id ses busy stored)

  module _ (image tag : Text) (timeout : ℕ) (s : Synchronizer E) (x : StartError) where
    admit-throttled :
        (s' : Synchronizer E) (stopped room : Bool)
        → (if◌then◌else◌ {A = Outcome StartError ℕ × Synchronizer E} stopped
            (crash, s)
            (if room then (ok s.next, enqueued image tag timeout s) else (err throttling, s)))
          ≡ (err x, s')
        → s' ≡ s
    admit-throttled s' true room e = ap (λ p. p.1) (sym e)
    admit-throttled s' false true e = absurd cc
    admit-throttled s' false false e = ap (λ p. p.1) (sym e)

    lookup-throttled :
        (s' : Synchronizer E) (found : Option ℕ)
        → (elim found as (λ _. Outcome StartError ℕ × Synchronizer E) [
          | none ↦ start_session image tag timeout s
          | some id ↦ (ok id, s)
        ])
          ≡ (err x, s')
        → s' ≡ s
    unfolding start_session
    lookup-throttled s' none e = admit-throttled s' s.closed (ltb (length s.queue) s.depth) e
    lookup-throttled s' (some id) e = ap (λ p. p.1) (sym e)

    -- A throttled request changes nothing.
    pub throttled : (s' : Synchronizer E) → start_pull image tag timeout s ≡ (err x, s') → s' ≡ s
    unfolding start_pull
    throttled s' e = lookup-throttled s' (get image s.session_map) e

  module _ {Keyed : Text → Text → Type 0} {P : Synchronizer E → Type 0} where
    pub Step-rule : {s s' : Synchronizer E} → Keeps Keyed P s → Step Keyed s s' → P s'
    unfolding receive finish complete cancel shut
    Step-rule k (starts image tag timeout id keyed e) =
        subst P (ap (λ p. p.1) e) (start_pull-Keeps k image tag timeout keyed)
    Step-rule {s} {s'} k (throttles image tag timeout x e) =
        rw (throttled image tag timeout s x s' e) k.same
    Step-rule {s} {s'} k (receives e) = take_session-Keeps k s' s.queue refl e
    Step-rule {s} {s'} k (finishes id how allowed e) =
        end_pull-Keeps k s' id how (get id s.tasks) (get id s.heap) refl refl e
    Step-rule {s} {s'} k (completes id e) =
        forget-Keeps k s' id (get id s.tasks) (get id s.heap) refl refl e
    Step-rule {s} k (cancels e) = rw e (k.closes true s.closed)
    Step-rule {s} k (shuts done opened e) = rw e (k.closes s.cancelled true)

    -- A predicate that every step keeps holds wherever the steps lead.
    pub Reach-rule :
        {s s' : Synchronizer E}
        → ((t : Synchronizer E) → P t → Keeps Keyed P t)
        → P s
        → Reach Keyed s s'
        → P s'
    Reach-rule keeps p here = p
    Reach-rule keeps p (next {t = t} r step) = Step-rule (keeps t (Reach-rule keeps p r)) step
