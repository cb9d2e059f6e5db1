-- ===== src/Worker/Stops.antt =====
-- The end of the loop of `execute` of include/IOWorker.h by an exception of a handshake.
use lapp_s.Common.{
  ℕ, ◌≤◌, true, false, some, none, List, [], ◌∷◌, ◌≡◌, ◌≢◌, refl, ap, ◌∙◌, length, numbers, lookup,
  byte_at, if◌then◌else◌,
}
use lapp_s.Http.{clear, in_target, in_version}
use lapp_s.Http.Collect.{All}
use lapp_s.Http.Request.{Header, WellFormed, collected}
use lapp_s.Http.RoundTrip.{get_request}
use lapp_s.Registry.{find_by_target}
use lapp_s.Socket.{Socket, Phase}
use lapp_s.Handshake.{Config, asks_upgrade, handshake, buffered}
use lapp_s.Handshake
use lapp_s.Handshake.Outcomes.{handshake-unknown_target}
use lapp_s.Worker.{
  Worker, Event, turned, raised, on_handshake, on_connection, read_buffer, process_io,
  process_event, process_events, on_phase, count_message, delete_connection,
}

module _ (to_upper : List ℕ → List ℕ) (sha1_digest base64_encode : List ℕ → List ℕ)
    (config : Config) (w : Worker) (e : Event) (s : Socket) (input : e.is_error ≡ false)
    (there : lookup numbers e.fd w.connections ≡ some s) (fresh : s.phase ≡ Phase.handshake) where
  process_event-throws :
      handshake to_upper sha1_digest base64_encode config s e.peer w.registry w.request_parser
          w.header_buffer
        ≡ Handshake.throws
      → process_event to_upper sha1_digest base64_encode config w e
        ≡ raised (record w { header_buffer = read_buffer w.header_buffer e.peer.received })
  unfolding process_event process_io
  process_event-throws out =
      let q = record w { header_buffer = read_buffer w.header_buffer e.peer.received } in
      ap
        (λ b.
          if b
          then turned (delete_connection w e.fd)
          else count_message (process_io to_upper sha1_digest base64_encode config w e))
        input
      ∙ (ap (λ o. count_message (on_connection to_upper sha1_digest base64_encode config w e o))
            there
          ∙ (ap (λ p. count_message (on_phase to_upper sha1_digest base64_encode config w e s p))
                fresh
              ∙ ap (λ h. count_message (on_handshake q e.fd h)) out))

  -- An input event on a connection in the handshake phase, with a well-formed request that fits
  -- the buffer, of 168 bytes at least, and asks for the upgrade, whose target is not registered,
  -- stops the worker: the events behind it are not looked at, and the loop does not run again.
  pub process_events-unknown_target :
      (es : List Event) (target version : List ℕ) (h : Header) (hs : List Header)
      → All in_target target
      → All in_version version
      → WellFormed (h ∷ hs)
      → byte_at h.0 0 ≢ b'\t'
      → 168 ≤ length w.header_buffer
      → length (get_request target version (h ∷ hs)) ≤ length w.header_buffer
      → e.peer.received ≡ some (get_request target version (h ∷ hs))
      → asks_upgrade to_upper (record (clear w.request_parser) {
        request_target = target;
        http_version = version;
        headers = collected [] (h ∷ hs);
      })
        ≡ true
      → find_by_target w.registry target ≡ none
      → process_events to_upper sha1_digest base64_encode config (e ∷ es) w
        ≡ turned (record w {
          header_buffer = buffered w.header_buffer (get_request target version (h ∷ hs));
          may_run = false;
        })
  unfolding process_events
  process_events-unknown_target es target version h hs targeted versioned wf no_tab least fits came
        asked absent =
      let out =
        handshake-unknown_target to_upper sha1_digest base64_encode config s e.peer fresh target
          version h hs targeted versioned wf no_tab w.header_buffer least fits came w.registry
          w.request_parser asked absent in
      rw (process_event-throws out) (rw came refl)
