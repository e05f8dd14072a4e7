-- ===== src/Guard/Tests.antt =====
-- Runs of the guard, and its theorems at concrete inputs.
use spark_controlplane.Prelude.{◌≡◌, ◌↔◌, inl, inr, arith, refl, true, none, some, [], ltb→lt}
use spark_controlplane.Text.{codes}
use spark_controlplane.Dict.{set}
use spark_controlplane.Sessions.{cutoff, revoke_user}
use spark_controlplane.Sessions.Restart.{run, start}
use spark_controlplane.Auth.Samples.{
  settings, Cookie, crypto, portal, minted, portal-Agrees, events,
}
use spark_controlplane.Apikeys.{wire_bytes}
use spark_controlplane.Guard.{Scope, http, websocket, guard, passed_on, closed_4401, unauthorized}
use spark_controlplane.Guard.Passage.{IsPrivate, Passes, guard-iff-Passes, guard-revoke_user}

-- The socket of the status page, with a session of Bob's.
abbrev socket : Scope Cookie
socket = record {
  type = websocket;
  path = codes "/api/status/ws";
  authorization = [];
  token = some (some minted);
}

abbrev scrape : Scope Cookie
scrape = record {
  type = http;
  path = codes "/metrics";
  authorization = codes "Bearer s3cret";
  token = none;
}

socket-IsPrivate : IsPrivate socket
socket-IsPrivate = record {
  guarded = λ e. ground arith;
  is_api = (codes "/status/ws", refl);
  not_open = λ e. elim e [
    | inl (inl (inl e)) ↦ ground arith
    | inl (inl (inr e)) ↦ ground arith
    | inl (inr (rest, e)) ↦ ground arith
    | inr (rest, e) ↦ ground arith
  ];
}

scraped : guard crypto settings (some (codes "s3cret")) portal.memory 0 scrape ≡ passed_on
unfolding guard wire_bytes
scraped = refl

refused : guard crypto settings none portal.memory 0 scrape ≡ unauthorized
unfolding guard
refused = refl

guard-iff-Passes_example :
    (guard crypto settings none portal.memory 50_000_000 socket ≡ passed_on)
    ↔ Passes crypto settings none portal.memory 50_000_000 socket
guard-iff-Passes_example = guard-iff-Passes crypto settings none portal.memory 50_000_000 socket

guard-revoke_user_example :
    guard crypto settings none
      (run events (revoke_user true 200_000_000 201_000_000 "bob" "left" portal).1).memory
      400_000_000
      socket
    ≡ closed_4401
unfolding cutoff start set
guard-revoke_user_example =
    guard-revoke_user crypto settings none socket portal (some minted) "bob" "j1" minted 200_000_000
      201_000_000 "left" events 400_000_000 socket-IsPrivate refl refl refl refl refl portal-Agrees
      (ltb→lt minted.iat (cutoff 200_000_000 "bob" portal.memory) refl) refl (refl, (refl, tt))
