-- ===== src/RemoteImageAsync/Sealed.antt =====
-- A session is closed once, and its result then stays.
use container_image_csi_driv.Base.{
  ℕ, ◌<◌, ◌≡◌, refl, ◌∙◌, true, false, [], ◌∷◌, Option, none, some, arith, nat_eq, sym, subst,
  some-injective, ltb, inl, inr, Bool-cases, elem, elem-snoc, Unique, Unique-snoc,
}
use container_image_csi_driv.Text.{Text, Text-eq}
use container_image_csi_driv.Dict.{get, has, get-put, get-delete}
use container_image_csi_driv.RemoteImageAsync.{
  start_async_puller, Synchronizer, PullSession, SessionError, PullEnd, Task, end_pull, finish,
  session_over, pulling, completing, new_session, settle, wait_for_pull,
}
use container_image_csi_driv.RemoteImageAsync.Steps.{Reach, Keeps, Reach-rule}
use container_image_csi_driv.RemoteImageAsync.Sharing.{undone}

module _ {E : Type 0} where
  -- What waits or is pulled is not closed, whatever the keys of the requests are.
  pub record Once (s : Synchronizer E) : Type 0 where
    pub fresh : (id : ℕ) → has id s.heap ≡ true → id < s.next
    pub stored : (id : ℕ) → has id s.tasks ≡ true → has id s.heap ≡ true
    pub waits : (id : ℕ) → elem id s.queue ≡ true → undone id s ≡ true
    pub pulls : (id : ℕ) → get id s.tasks ≡ some pulling → undone id s ≡ true
    pub apart : (id : ℕ) → elem id s.queue ≡ true → has id s.tasks ≡ false
    pub unique : Unique s.queue

  abbrev pub ClosedWith : ℕ → Option (SessionError E) → Synchronizer E → Type 0
  ClosedWith id e s =
      (ses : PullSession E) × (get id s.heap ≡ some ses) × (ses.done ≡ true) × (ses.failure ≡ e)

  finish-undone :
      (id : ℕ) (how : PullEnd E) (s s'' : Synchronizer E) (task : Option Task)
      (found : Option (PullSession E))
      → Once s
      → get id s.tasks ≡ task
      → end_pull task found id how s ≡ some s''
      → undone id s ≡ true
  unfolding end_pull
  finish-undone id how s s'' none found o busy e = absurd cc
  finish-undone id how s s'' (some completing) found o busy e = absurd cc
  finish-undone id how s s'' (some pulling) found o busy e = o.pulls id busy

  module _ (Keyed : Text → Text → Type 0) (s : Synchronizer E) (o : Once s) where
    Once-Keeps : Keeps Keyed Once s
    Once-Keeps = record {
      same = o;
      enqueues = λ image tag timeout keyed free room. record {
        fresh =
            λ id h. ground (arith, get-put s.next id (new_session tag timeout) s.heap, o.fresh id);
        waits = λ id h. ground (
          arith,
          get-put s.next id (new_session tag timeout) s.heap,
          elem-snoc id s.next s.queue,
          o.waits id,
        );
        pulls = λ id h.
            ground
              (arith, get-put s.next id (new_session tag timeout) s.heap, o.pulls id, o.fresh id);
        stored =
            λ id h. ground (arith, get-put s.next id (new_session tag timeout) s.heap, o.stored id);
        apart = λ id h.
            ground (arith, elem-snoc id s.next s.queue, o.apart id, o.stored id, o.fresh id);
        unique =
            Unique-snoc s.next s.queue o.unique (ground (arith, o.waits s.next, o.fresh s.next));
      };
      takes = λ id rest e. record {
        fresh = o.fresh;
        stored = λ j h. ground (arith, get-put id j pulling s.tasks, o.stored j, o.waits id);
        waits = λ j h. ground (arith, o.waits j);
        pulls = λ j h. ground (arith, get-put id j pulling s.tasks, o.pulls j, o.waits id);
        apart = λ j h. ground (arith, get-put id j pulling s.tasks, o.apart j, o.unique);
        unique = ground (arith, o.unique);
      };
      settles = λ id how ses busy stored. record {
        fresh = λ j h. ground (arith, get-put id j (settle how ses) s.heap, o.fresh j);
        stored = λ j h. ground (
          arith,
          get-put id j completing s.tasks,
          get-put id j (settle how ses) s.heap,
          o.stored j,
        );
        waits = λ j h. ground (arith, get-put id j (settle how ses) s.heap, o.waits j, o.apart id);
        pulls = λ j h. ground (
          arith,
          get-put id j completing s.tasks,
          get-put id j (settle how ses) s.heap,
          o.pulls j,
        );
        apart = λ j h. ground (arith, get-put id j completing s.tasks, o.apart j, o.apart id);
        unique = o.unique;
      };
      forgets = λ id ses busy stored. record {
        fresh = o.fresh;
        stored = λ j h. ground (arith, get-delete id j s.tasks, o.stored j);
        waits = o.waits;
        pulls = λ j h. ground (arith, get-delete id j s.tasks, o.pulls j);
        apart = λ j h. ground (arith, get-delete id j s.tasks, o.apart j);
        unique = o.unique;
      };
      closes = λ cancelled closed. record {
        fresh = o.fresh;
        stored = o.stored;
        waits = o.waits;
        pulls = o.pulls;
        apart = o.apart;
        unique = o.unique;
      };
    }

    closed-Keeps :
        (id : ℕ) (e : Option (SessionError E))
        → ClosedWith id e s
        → Keeps Keyed (λ t. Once t × ClosedWith id e t) s
    closed-Keeps id e (ses, found, over, result) = record {
      same = (o, (ses, found, over, result));
      enqueues = λ image tag timeout keyed free room. (
        Once-Keeps.enqueues image tag timeout keyed free room,
        (
          ses,
          ground (arith, get-put s.next id (new_session tag timeout) s.heap, o.fresh id),
          over,
          result,
        ),
      );
      takes = λ j rest q. (Once-Keeps.takes j rest q, (ses, found, over, result));
      settles = λ j how other busy stored. (
        Once-Keeps.settles j how other busy stored,
        (ses, ground (arith, get-put j id (settle how other) s.heap, o.pulls j), over, result),
      );
      forgets = λ j other busy stored.
          (Once-Keeps.forgets j other busy stored, (ses, found, over, result));
      closes = λ cancelled closed. (Once-Keeps.closes cancelled closed, (ses, found, over, result));
    }

  -- Whatever the order of the steps, a session whose channel is closed keeps its result.
  pub Reach-closed :
      (Keyed : Text → Text → Type 0) (s s' : Synchronizer E) (id : ℕ) (e : Option (SessionError E))
      → Once s
      → ClosedWith id e s
      → Reach Keyed s s'
      → Once s' × ClosedWith id e s'
  Reach-closed Keyed s s' id e o c r =
      Reach-rule {P = λ t. Once t × ClosedWith id e t} (λ t p. closed-Keeps Keyed t p.0 id e p.1)
        (o, c) r

  pub Reach-Once :
      (Keyed : Text → Text → Type 0) (s s' : Synchronizer E) → Once s → Reach Keyed s s' → Once s'
  Reach-Once Keyed s s' o r = Reach-rule {P = Once} (Once-Keeps Keyed) o r

  pub start-Once : (depth : ℕ) (s : Synchronizer E) → start_async_puller depth ≡ some s → Once s
  unfolding start_async_puller get
  start-Once depth s e = elim (Bool-cases (ltb depth 50)) [
    | inl low ↦ absurd (cc (rw low at e))
    | inr high ↦ subst Once (some-injective _ s (rw high at e)) (record {
      fresh = λ id h. ground arith;
      stored = λ id h. ground arith;
      waits = λ id h. ground arith;
      pulls = λ id h. ground arith;
      apart = λ id h. ground arith;
      unique = tt;
    })
  ]

  -- From the start of the puller loop on, whatever the keys of the requests and the order of the
  -- steps: where a goroutine leaves `Pull`, its session's channel is still open, so that `close`
  -- does not panic.
  pub closes_once :
      (Keyed : Text → Text → Type 0) (depth : ℕ) (s s' s'' : Synchronizer E) (id : ℕ)
      (how : PullEnd E)
      → start_async_puller depth ≡ some s
      → Reach Keyed s s'
      → finish id how s' ≡ some s''
      → undone id s' ≡ true
  unfolding finish
  closes_once Keyed depth s s' s'' id how begins r e =
      finish-undone id how s' s'' (get id s'.tasks) (get id s'.heap)
        (Reach-Once Keyed s s' (start-Once depth s begins) r) refl e

  wait-closed :
      (id : ℕ) (e : Option (SessionError E)) (ses : PullSession E) (s : Synchronizer E)
      → ClosedWith id e s
      → get id s.heap ≡ some ses
      → wait_for_pull ses false ≡ session_over e ∷ []
  unfolding wait_for_pull
  wait-closed id e ses s (one, found, over, result) h =
      let same : one ≡ ses = some-injective one ses (sym found ∙ h) in
      subst (λ x. wait_for_pull x false ≡ session_over e ∷ []) same (rw (over, result) refl)

  -- Once a session is closed, every later wait for it that is within its caller's time returns the
  -- result that the session was closed with, whatever the keys of the requests and the order of the
  -- steps between.
  pub waits_agree :
      (Keyed : Text → Text → Type 0) (depth : ℕ) (s t u : Synchronizer E) (id : ℕ)
      (before after : PullSession E)
      → start_async_puller depth ≡ some s
      → Reach Keyed s t
      → get id t.heap ≡ some before
      → before.done ≡ true
      → Reach Keyed t u
      → get id u.heap ≡ some after
      → wait_for_pull after false ≡ session_over before.failure ∷ []
  waits_agree Keyed depth s t u id before after begins r found over more h =
      wait-closed id before.failure after u
        (Reach-closed Keyed t u id before.failure
          (Reach-Once Keyed s t (start-Once depth s begins) r) (before, found, over, refl) more).1
        h
