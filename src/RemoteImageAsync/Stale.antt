-- ===== src/RemoteImageAsync/Stale.antt =====
-- A request whose key is not its puller's name of the image: the entry of the session map that
-- StartPull makes under the key is not the one that the end of the session deletes.
use container_image_csi_driv.Base.{
  ℕ, ◌≡◌, ◌≢◌, refl, Option, some, arith, inl, inr, subst, some-injective, ltb, Bool-cases, nat_eq,
}
use container_image_csi_driv.Text.{Text, Text-eq, text_eq_iff}
use container_image_csi_driv.Dict.{get, get-put, get-delete}
use container_image_csi_driv.Exec.{ok}
use container_image_csi_driv.RemoteImageAsync.{
  start_async_puller, start_pull, Synchronizer, SessionError, new_session, settle,
}
use container_image_csi_driv.RemoteImageAsync.Steps.{Reach, Keeps, Reach-rule}
use container_image_csi_driv.RemoteImageAsync.Sharing.{tag_of, settle-tag}
use container_image_csi_driv.RemoteImageAsync.Sealed.{
  ClosedWith, Reach-Once, Reach-closed, start-Once,
}

-- Requests whose puller has another name for the image.
abbrev pub Unnamed : Text → Text → Text → Type 0
Unnamed image key tag = tag ≢ image

module _ {E : Type 0} (image : Text) where
  -- No session has the key as its puller's name.
  abbrev Nameless : Synchronizer E → Type 0
  Nameless s = (j : ℕ) → tag_of j s ≢ some image

  -- The key leads to `id`.
  abbrev Held : ℕ → Synchronizer E → Type 0
  Held id s = (get image s.session_map ≡ some id) × Nameless s

  module _ (s : Synchronizer E) (h : Nameless s) where
    Nameless-Keeps : Keeps (Unnamed image) Nameless s
    Nameless-Keeps = record {
      same = h;
      enqueues = λ key tag timeout keyed free room j e.
          ground (arith, keyed, get-put s.next j (new_session tag timeout) s.heap, h j);
      takes = λ j rest q. h;
      settles = λ j how ses busy stored k e.
          ground (arith, settle-tag how ses, get-put j k (settle how ses) s.heap, h j, h k);
      forgets = λ j ses busy stored. h;
      closes = λ cancelled closed. h;
    }

  module _ (id : ℕ) (s : Synchronizer E) (h : Held id s) where
    Held-Keeps : Keeps (Unnamed image) (Held id) s
    Held-Keeps =
        let k = Nameless-Keeps s h.1 in
        record {
          same = h;
          enqueues = λ key tag timeout keyed free room. (
            ground (arith, get-put key image s.next s.session_map, text_eq_iff key image, h.0),
            k.enqueues key tag timeout keyed free room,
          );
          takes = λ j rest q. h;
          settles = λ j how ses busy stored. (h.0, k.settles j how ses busy stored);
          forgets = λ j ses busy stored. (
            ground (
              arith,
              get-delete ses.image_with_tag image s.session_map,
              text_eq_iff ses.image_with_tag image,
              h.1 j,
              h.0,
            ),
            h.1,
          );
          closes = λ cancelled closed. h;
        }

  start-Nameless : (depth : ℕ) (s : Synchronizer E) → start_async_puller depth ≡ some s → Nameless s
  unfolding start_async_puller get
  start-Nameless depth s begins = elim (Bool-cases (ltb depth 50)) [
    | inl low ↦ absurd (cc (rw low at begins))
    | inr high ↦ subst Nameless (some-injective _ s (rw high at begins)) (λ j e. cc e)
  ]

  -- From the start on, where no request's puller gives its image the name `image`: a request with
  -- the key `image` whose session was closed with a result, an error included, gets that closed
  -- session and its result again from every later request, for as long as the loop runs.
  pub stale_session :
      (depth : ℕ) (s t u : Synchronizer E) (id : ℕ) (e : Option (SessionError E)) (tag : Text)
      (timeout : ℕ)
      → start_async_puller depth ≡ some s
      → Reach (Unnamed image) s t
      → get image t.session_map ≡ some id
      → ClosedWith id e t
      → Reach (Unnamed image) t u
      → (start_pull image tag timeout u ≡ (ok id, u)) × ClosedWith id e u
  unfolding start_pull
  stale_session depth s t u id e tag timeout begins r found c more =
      let once = Reach-Once (Unnamed image) s t (start-Once depth s begins) r in
      let nameless = Reach-rule {P = Nameless} Nameless-Keeps (start-Nameless depth s begins) r in
      let held = Reach-rule {P = Held id} (Held-Keeps id) (found, nameless) more in
      (rw (start_pull, held.0) refl, (Reach-closed (Unnamed image) t u id e once c more).1)
