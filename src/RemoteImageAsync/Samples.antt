-- ===== src/RemoteImageAsync/Samples.antt =====
-- Runs of the puller loop.
use container_image_csi_driv.Base.{
  ℕ, ◌≤◌, ◌⊎◌, ◌≡◌, refl, Option, none, some, true, false, nat_eq, ◌∷◌, [],
}
use container_image_csi_driv.Text.{Text, Text-eq, codes, ne_of_text_eq, text_eq}
use container_image_csi_driv.Dict.{get, put, delete}
use container_image_csi_driv.Exec.{ok}
use container_image_csi_driv.RemoteImageAsync.{
  PullSession, Synchronizer, pull_error, session_over, completed, start_async_puller, start_pull,
  receive, finish, complete, wait_for_pull, settle,
}
use container_image_csi_driv.RemoteImageAsync.Steps.{
  Reach, here, next, starts, receives, finishes, completes,
}
use container_image_csi_driv.RemoteImageAsync.Sharing.{single_flight, undone}
use container_image_csi_driv.RemoteImageAsync.Sealed.{closes_once, waits_agree, ClosedWith}
use container_image_csi_driv.RemoteImageAsync.Stale.{stale_session}
use container_image_csi_driv.RemoteImageAsync.Draining.{
  Run, rest, more, Work, takes, rounds, work_left, Drained, drains,
}

-- The errors are numbers here.
abbrev nginx : Text
nginx = codes "nginx"

abbrev full_nginx : Text
full_nginx = codes "docker.io/library/nginx:latest"

abbrev state_of : Option (Synchronizer ℕ) → Synchronizer ℕ
state_of none = record {
  heap = [];
  next = 0;
  session_map = [];
  queue = [];
  depth = 0;
  cancelled = false;
  closed = false;
  tasks = [];
}
state_of (some s) = s

abbrev started : Synchronizer ℕ
started = state_of (start_async_puller 50)

abbrev failed_pull : PullSession ℕ
failed_pull = record {
  image_with_tag = full_nginx;
  timeout = 60;
  done = true;
  is_timed_out = false;
  failure = some (pull_error 7);
}

-- The first request under the key, its pull, the pull's end with error 7, and the clean-up.
module _ (key : Text) where
  abbrev requested : Synchronizer ℕ
  requested = (start_pull key full_nginx 60 started).1

  abbrev received : Synchronizer ℕ
  received = state_of (receive requested)

  abbrev finished : Synchronizer ℕ
  finished = state_of (finish 0 (completed (some 7)) received)

  abbrev cleaned_up : Synchronizer ℕ
  cleaned_up = state_of (complete 0 finished)

  module _ {Keyed : Text → Text → Type 0} (keyed : Keyed key full_nginx) where
    to_requested : Reach Keyed started requested
    unfolding start_async_puller start_pull get put
    to_requested = next here (starts key full_nginx 60 0 keyed refl)

    to_received : Reach Keyed started received
    unfolding start_async_puller start_pull receive get put
    to_received = next to_requested (receives refl)

    to_finished : Reach Keyed started finished
    unfolding start_async_puller start_pull receive finish settle get put
    to_finished = next to_received (finishes 0 (completed (some 7)) refl refl)

single_flight_example : ◌≡◌ {A = ℕ} 0 0
unfolding start_async_puller start_pull receive get put text_eq
single_flight_example =
    single_flight 50 started (received full_nginx) 0 0 full_nginx refl (to_received full_nginx refl)
      refl refl refl refl

closes_once_example : undone 0 (received nginx) ≡ true
unfolding start_async_puller start_pull receive finish settle get put text_eq
closes_once_example =
    closes_once (λ _ _. Unit {0}) 50 started (received nginx) (finished nginx) 0
      (completed (some 7)) refl (to_received nginx tt) refl

waits_agree_example : wait_for_pull failed_pull false ≡ session_over (some (pull_error 7)) ∷ []
unfolding start_async_puller start_pull receive finish complete settle get put delete text_eq
waits_agree_example =
    waits_agree (λ _ _. Unit {0}) 50 started (finished nginx) (cleaned_up nginx) 0 failed_pull
      failed_pull refl (to_finished nginx tt) refl refl (next here (completes 0 refl)) refl

-- The error 7 of the first pull comes back although the session was cleaned up.
stale_session_example :
    (start_pull nginx full_nginx 60 (cleaned_up nginx) ≡ (ok 0, cleaned_up nginx))
    × ClosedWith 0 (some (pull_error 7)) (cleaned_up nginx)
unfolding start_async_puller start_pull receive finish complete settle get put delete text_eq
stale_session_example =
    stale_session nginx 50 started (finished nginx) (cleaned_up nginx) 0 (some (pull_error 7))
      full_nginx 60 refl (to_finished nginx (λ e. ne_of_text_eq full_nginx nginx refl e)) refl
      (failed_pull, refl, refl, refl) (next here (completes 0 refl))

one_round : Run (requested nginx) (received nginx)
unfolding start_async_puller start_pull receive get put text_eq
one_round = more rest (takes refl)

drains_example :
    (rounds one_round ≤ work_left (requested nginx))
    × (Drained (received nginx) ⊎ ((u : Synchronizer ℕ) × Work (received nginx) u))
unfolding start_async_puller
drains_example =
    drains (λ image tag. Unit {0}) 50 started (requested nginx) (received nginx) one_round refl
      (to_requested nginx tt)
