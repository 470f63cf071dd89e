-- ===== src/RemoteImageAsync/Draining/Kept.antt =====
-- Which sessions are in the map, the channel and the loop's goroutines, whatever the requests' keys.
use container_image_csi_driv.Base.{
  ℕ, ◌<◌, ◌≡◌, subst, true, false, List, ◌∷◌, some, arith, some-injective, ltb, inl, inr,
  Bool-cases, elem-snoc, nat_eq,
}
use container_image_csi_driv.Text.{Text, Text-eq, text_eq_iff}
use container_image_csi_driv.Dict.{get, has, get-put, get-delete}
use container_image_csi_driv.RemoteImageAsync.{
  start_async_puller, Synchronizer, pulling, completing, new_session, settle, taken, settled,
  forgotten, enqueued, PullSession, PullEnd,
}
use container_image_csi_driv.RemoteImageAsync.Steps.{Keeps}
use container_image_csi_driv.RemoteImageAsync.Sharing.{
  active, tag_of, undone, settle-done, settle-tag,
}

module _ {E : Type 0} where
  -- `held`: what is in the map under its session's own name has not been forgotten yet.
  pub record Tracked (s : Synchronizer E) : Type 0 where
    pub fresh : (id : ℕ) → has id s.heap ≡ true → id < s.next
    pub known : (image : Text) (id : ℕ) → get image s.session_map ≡ some id → id < s.next
    pub stored : (id : ℕ) → active id s ≡ true → has id s.heap ≡ true
    pub live : (id : ℕ) → undone id s ≡ true → active id s ≡ true
    pub over : (id : ℕ) → get id s.tasks ≡ some completing → undone id s ≡ false
    pub held :
        (image : Text) (id : ℕ)
        → get image s.session_map ≡ some id
        → tag_of id s ≡ some image
        → active id s ≡ true

  module _ (s : Synchronizer E) (i : Tracked s) where
    enqueued-Tracked : (image tag : Text) (timeout : ℕ) → Tracked (enqueued image tag timeout s)
    enqueued-Tracked image tag timeout =
        let heap = λ (id : ℕ). get-put s.next id (new_session tag timeout) s.heap in
        let queue = λ (id : ℕ). elem-snoc id s.next s.queue in
        let map = λ (key : Text). get-put image key s.next s.session_map in
        record {
          fresh = λ id h. ground (arith, heap id, i.fresh id);
          known = λ key id h. ground (arith, map key, i.known key id);
          stored = λ id h. ground (arith, heap id, queue id, i.stored id);
          live = λ id h. ground (arith, heap id, queue id, i.live id);
          over = λ id h. ground (arith, heap id, i.stored id, i.fresh id, i.over id);
          held = λ key id h t.
              ground (arith, heap id, queue id, map key, i.known key id, i.held key id);
        }

    taken-Tracked : (id : ℕ) (rest : List ℕ) → s.queue ≡ id ∷ rest → Tracked (taken id rest s)
    taken-Tracked id rest e =
        let tasks = λ (j : ℕ). get-put id j pulling s.tasks in
        record {
          fresh = i.fresh;
          known = i.known;
          stored = λ j h. ground (arith, tasks j, i.stored j);
          live = λ j h. ground (arith, tasks j, i.live j);
          over = λ j h. ground (arith, tasks j, i.over j);
          held = λ key j h t. ground (arith, tasks j, i.held key j);
        }

    settled-Tracked :
        (id : ℕ) (how : PullEnd E) (ses : PullSession E)
        → get id s.tasks ≡ some pulling
        → get id s.heap ≡ some ses
        → Tracked (settled id how ses s)
    settled-Tracked id how ses busy stored =
        let tasks = λ (j : ℕ). get-put id j completing s.tasks in
        let heap = λ (j : ℕ). get-put id j (settle how ses) s.heap in
        record {
          fresh = λ j h. ground (arith, heap j, i.fresh j);
          known = i.known;
          stored = λ j h. ground (arith, tasks j, heap j, i.stored j);
          live = λ j h. ground (arith, tasks j, heap j, i.live j);
          over = λ j h. ground (arith, settle-done how ses, tasks j, heap j, i.over j);
          held = λ key j h t. ground (arith, settle-tag how ses, tasks j, heap j, i.held key j);
        }

    forgotten-Tracked :
        (id : ℕ) (ses : PullSession E)
        → get id s.tasks ≡ some completing
        → get id s.heap ≡ some ses
        → Tracked (forgotten id ses s)
    forgotten-Tracked id ses busy stored =
        let tasks = λ (j : ℕ). get-delete id j s.tasks in
        let map = λ (key : Text). get-delete ses.image_with_tag key s.session_map in
        record {
          fresh = i.fresh;
          known = λ key j h. ground (arith, map key, i.known key j);
          stored = λ j h. ground (arith, tasks j, i.stored j);
          live = λ j h. ground (arith, tasks j, i.live j, i.over id);
          over = λ j h. ground (arith, tasks j, i.over j);
          held = λ key j h t.
              ground (arith, tasks j, map key, text_eq_iff ses.image_with_tag key, i.held key j);
        }

    pub Tracked-Keeps : (Keyed : Text → Text → Type 0) → Keeps Keyed Tracked s
    Tracked-Keeps Keyed = record {
      same = i;
      enqueues = λ image tag timeout keyed free room. enqueued-Tracked image tag timeout;
      takes = taken-Tracked;
      settles = settled-Tracked;
      forgets = forgotten-Tracked;
      closes = λ cancelled closed. record {
        fresh = i.fresh;
        known = i.known;
        stored = i.stored;
        live = i.live;
        over = i.over;
        held = i.held;
      };
    }

  pub start-Tracked :
      (depth : ℕ) (s : Synchronizer E) → start_async_puller depth ≡ some s → Tracked s
  unfolding start_async_puller get
  start-Tracked depth s e = elim (Bool-cases (ltb depth 50)) [
    | inl low ↦ absurd (cc (rw low at e))
    | inr high ↦ subst Tracked (some-injective _ s (rw high at e)) (record {
      fresh = λ id h. ground arith;
      known = λ image id h. ground arith;
      stored = λ id h. ground arith;
      live = λ id h. ground arith;
      over = λ id h. ground arith;
      held = λ image id h t. ground arith;
    })
  ]
