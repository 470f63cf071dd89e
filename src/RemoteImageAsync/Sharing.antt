-- ===== src/RemoteImageAsync/Sharing.antt =====
-- Requests that use the puller's name of the image as their key share one session for each image.
use container_image_csi_driv.Base.{
  ℕ, ◌<◌, ◌≤◌, ◌≡◌, refl, sym, subst, Bool, true, false, not, ◌||◌, List, [], ◌∷◌, Option, none,
  some, arith, some-injective, ltb, inl, inr, Bool-cases, none, length, nat_eq, ltb, nat_beq,
  if◌then◌else◌, length, length-append, elem, Unique, elem-snoc, Unique-snoc,
}
use container_image_csi_driv.Text.{Text, Text-eq, text_eq_iff}
use container_image_csi_driv.Dict.{get, has, get-put, get-delete}
use container_image_csi_driv.Exec.{ok}
use container_image_csi_driv.RemoteImageAsync.{
  start_async_puller, start_pull, Synchronizer, PullSession, PullEnd, shut_down, timed_out,
  completed, pulling, completing, new_session, settle, enqueued, taken, settled, forgotten,
}
use container_image_csi_driv.RemoteImageAsync.Steps.{Reach, Keeps, Reach-rule}

module _ {E : Type 0} where
  -- The session waits in the channel or has a goroutine.
  abbrev pub active : ℕ → Synchronizer E → Bool
  active id s = elem id s.queue || has id s.tasks

  abbrev pub tag_of : ℕ → Synchronizer E → Option Text
  tag_of id s = elim (get id s.heap) [ none ↦ none | some ses ↦ some ses.image_with_tag ]

  abbrev pub undone : ℕ → Synchronizer E → Bool
  undone id s = elim (get id s.heap) [ none ↦ false | some ses ↦ not ses.done ]

  pub record Inv (s : Synchronizer E) : Type 0 where
    pub fresh : (id : ℕ) → has id s.heap ≡ true → id < s.next
    pub stored : (id : ℕ) → active id s ≡ true → has id s.heap ≡ true
    pub live : (id : ℕ) → undone id s ≡ true → active id s ≡ true
    pub registered :
        (id : ℕ) (tag : Text)
        → active id s ≡ true
        → tag_of id s ≡ some tag
        → get tag s.session_map ≡ some id
    pub named :
        (image : Text) (id : ℕ) → get image s.session_map ≡ some id → tag_of id s ≡ some image
    pub apart : (id : ℕ) → elem id s.queue ≡ true → has id s.tasks ≡ false
    pub over : (id : ℕ) → get id s.tasks ≡ some completing → undone id s ≡ false
    pub unique : Unique s.queue
    pub bounded : length s.queue ≤ s.depth

  pub settle-done : (how : PullEnd E) (ses : PullSession E) → (settle how ses).done ≡ true
  unfolding settle
  settle-done shut_down ses = refl
  settle-done timed_out ses = refl
  settle-done (completed e) ses = refl

  pub settle-tag :
      (how : PullEnd E) (ses : PullSession E) → (settle how ses).image_with_tag ≡ ses.image_with_tag
  unfolding settle
  settle-tag shut_down ses = refl
  settle-tag timed_out ses = refl
  settle-tag (completed e) ses = refl

  module _ (s : Synchronizer E) (i : Inv s) where
    module _ (tag : Text) (timeout : ℕ) where
      abbrev added : Synchronizer E
      added = enqueued tag tag timeout s

      get-added :
          (id : ℕ)
          → get id added.heap
            ≡ (if nat_beq s.next id then some (new_session tag timeout) else get id s.heap)
      get-added id = get-put s.next id (new_session tag timeout) s.heap

      new_inactive : active s.next s ≡ false
      new_inactive = ground (arith, i.stored s.next, i.fresh s.next)

      active-added : (id : ℕ) → active id added ≡ (active id s || nat_beq s.next id)
      active-added id = ground (arith, elem-snoc id s.next s.queue)

      enqueued-Inv : get tag s.session_map ≡ none → ltb (length s.queue) s.depth ≡ true → Inv added
      enqueued-Inv free room = record {
        fresh = λ id h. ground (arith, get-added id, i.fresh id);
        stored = λ id h. ground (arith, get-added id, active-added id, i.stored id);
        live = λ id h. ground (arith, get-added id, active-added id, i.live id);
        registered = λ id t a h. ground (
          arith,
          get-added id,
          active-added id,
          i.registered id t,
          get-put tag t s.next s.session_map,
          text_eq_iff tag t,
        );
        named = λ image id h. ground (
          arith,
          get-added id,
          get-put tag image s.next s.session_map,
          i.named image id,
          text_eq_iff tag image,
          i.fresh id,
        );
        apart = λ id h. ground (arith, new_inactive, elem-snoc id s.next s.queue, i.apart id);
        over = λ id h. ground (arith, get-added id, new_inactive, i.over id);
        unique = Unique-snoc s.next s.queue i.unique (ground (arith, new_inactive));
        bounded = ground (arith, length-append s.queue (s.next ∷ []));
      }

    take-Inv : (id : ℕ) (rest : List ℕ) → s.queue ≡ id ∷ rest → Inv (taken id rest s)
    take-Inv id rest e = record {
      fresh = i.fresh;
      stored = λ j h. ground (arith, get-put id j pulling s.tasks, i.stored j);
      live = λ j h. ground (arith, get-put id j pulling s.tasks, i.live j);
      registered = λ j t a h. ground (arith, get-put id j pulling s.tasks, i.registered j t);
      named = i.named;
      apart = λ j h. ground (arith, get-put id j pulling s.tasks, i.apart j, i.unique);
      over = λ j h. ground (arith, get-put id j pulling s.tasks, i.over j);
      unique = ground (arith, i.unique);
      bounded = ground (arith, i.bounded);
    }

    settled-Inv :
        (id : ℕ) (how : PullEnd E) (ses : PullSession E)
        → get id s.tasks ≡ some pulling
        → get id s.heap ≡ some ses
        → Inv (settled id how ses s)
    settled-Inv id how ses busy stored = record {
      fresh = λ j h. ground (arith, get-put id j (settle how ses) s.heap, i.fresh j);
      stored = λ j h. ground (
        arith,
        get-put id j completing s.tasks,
        get-put id j (settle how ses) s.heap,
        i.stored j,
      );
      live = λ j h.
          ground (
            arith,
            get-put id j completing s.tasks,
            get-put id j (settle how ses) s.heap,
            i.live j,
          );
      registered = λ j t a h. ground (
        arith,
        settle-tag how ses,
        get-put id j completing s.tasks,
        get-put id j (settle how ses) s.heap,
        i.registered j t,
      );
      named = λ image j h.
          ground (arith, settle-tag how ses, get-put id j (settle how ses) s.heap, i.named image j);
      apart = λ j h. ground (arith, get-put id j completing s.tasks, i.apart j, i.apart id);
      over = λ j h. ground (
        arith,
        settle-done how ses,
        get-put id j completing s.tasks,
        get-put id j (settle how ses) s.heap,
        i.over j,
      );
      unique = i.unique;
      bounded = i.bounded;
    }

    completed-Inv :
        (id : ℕ) (ses : PullSession E)
        → get id s.tasks ≡ some completing
        → get id s.heap ≡ some ses
        → Inv (forgotten id ses s)
    completed-Inv id ses busy stored = record {
      fresh = i.fresh;
      stored = λ j h. ground (arith, get-delete id j s.tasks, i.stored j);
      live = λ j h. ground (arith, get-delete id j s.tasks, i.live j, i.over id);
      registered = λ j t a h. ground (
        arith,
        get-delete id j s.tasks,
        get-delete ses.image_with_tag t s.session_map,
        i.registered j t,
        i.registered id t,
        i.apart id,
        text_eq_iff ses.image_with_tag t,
      );
      named = λ image j h.
          ground (arith, get-delete ses.image_with_tag image s.session_map, i.named image j);
      apart = λ j h. ground (arith, get-delete id j s.tasks, i.apart j);
      over = λ j h. ground (arith, get-delete id j s.tasks, i.over j);
      unique = i.unique;
      bounded = i.bounded;
    }

    Inv-Keeps : Keeps (λ image tag. image ≡ tag) Inv s
    Inv-Keeps = record {
      same = i;
      enqueues = λ image tag timeout keyed free room.
          subst (λ key. Inv (enqueued key tag timeout s)) (sym keyed)
            (enqueued-Inv tag timeout (rw keyed at free) room);
      takes = take-Inv;
      settles = settled-Inv;
      forgets = completed-Inv;
      closes = λ cancelled closed. record {
        fresh = i.fresh;
        stored = i.stored;
        live = i.live;
        registered = i.registered;
        named = i.named;
        apart = i.apart;
        over = i.over;
        unique = i.unique;
        bounded = i.bounded;
      };
    }

  -- Every sequence of steps of requests, of the loop and of goroutines, in which a request's key is
  -- its puller's name of the image, keeps the invariant.
  pub Reach-Inv : (s s' : Synchronizer E) → Inv s → Reach (λ image tag. image ≡ tag) s s' → Inv s'
  Reach-Inv s s' i r = Reach-rule {P = Inv} Inv-Keeps i r

  pub start-Inv : (depth : ℕ) (s : Synchronizer E) → start_async_puller depth ≡ some s → Inv s
  unfolding start_async_puller get
  start-Inv depth s e = elim (Bool-cases (ltb depth 50)) [
    | inl low ↦ absurd (cc (rw low at e))
    | inr high ↦ subst Inv (some-injective _ s (rw high at e)) (record {
      fresh = λ id h. ground arith;
      stored = λ id h. ground arith;
      live = λ id h. ground arith;
      registered = λ id tag a h. ground arith;
      named = λ image id h. ground arith;
      apart = λ id h. ground arith;
      over = λ id h. ground arith;
      unique = tt;
      bounded = ground arith;
    })
  ]

  -- From the start of the puller loop on, where every request's key is its puller's name of the
  -- image: two sessions for one image are never open at the same time, whatever the order of the
  -- steps.
  pub single_flight :
      (depth : ℕ) (s s' : Synchronizer E) (one other : ℕ) (tag : Text)
      → start_async_puller depth ≡ some s
      → Reach (λ image tag. image ≡ tag) s s'
      → undone one s' ≡ true
      → undone other s' ≡ true
      → tag_of one s' ≡ some tag
      → tag_of other s' ≡ some tag
      → one ≡ other
  single_flight depth s s' one other tag begins r u v h k =
      let j = Reach-Inv s s' (start-Inv depth s begins) r in
      ground (arith, j.live one, j.live other, j.registered one tag, j.registered other tag)

  -- From the start on, with the same keys, a request for an image whose session is open gets that
  -- session: nothing is added to the channel.
  shares_session :
      (depth : ℕ) (s s' : Synchronizer E) (id : ℕ) (tag : Text) (timeout : ℕ)
      → start_async_puller depth ≡ some s
      → Reach (λ image tag. image ≡ tag) s s'
      → undone id s' ≡ true
      → tag_of id s' ≡ some tag
      → start_pull tag tag timeout s' ≡ (ok id, s')
  unfolding start_pull
  shares_session depth s s' id tag timeout begins r u h =
      let j = Reach-Inv s s' (start-Inv depth s begins) r in
      rw (start_pull, j.registered id tag (j.live id u) h) refl
