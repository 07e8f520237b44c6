-- ===== src/Bridge/Control/Startup/Waits.antt =====
-- The bridge waits for the offloading manager and then has what it needs to reach it.
use ros2_modular_edge_offloa.Common.{
  ◌≤◌, take_all, suc, ◌≡◌, refl, ap, Option, some, List, [], ◌∷◌, ◌++◌, map, Bytes, All, length,
}
use ros2_modular_edge_offloa.Discovery.Protocol.{
  RegistrationResponse, registration_response, success,
}
use ros2_modular_edge_offloa.Discovery.Protocol.Encode.{encode_message}
use ros2_modular_edge_offloa.Discovery.Protocol.Response.{Clean, IsWait, decode_message-response}
use ros2_modular_edge_offloa.Bridge.Config.{ConfigJson}
use ros2_modular_edge_offloa.Bridge.Control.Startup.{
  Startup, Answer, answered, response_buffer_size, again, leave_with, register_round, take_response,
  perform_discovery_registration,
}

-- The response fits the buffer that it is read into.
abbrev pub IsShort : RegistrationResponse → Type 0
IsShort r = length (encode_message (registration_response r)) ≤ response_buffer_size

abbrev pub reply : RegistrationResponse → Answer
reply r = answered (encode_message (registration_response r))

round_wait : (r : RegistrationResponse) → IsWait r → IsShort r → register_round (reply r) ≡ again
unfolding register_round
round_wait r (w, c) short =
    rw
      (
        take_all response_buffer_size (encode_message (registration_response r)) short,
        decode_message-response r c,
        w,
      )
      refl

round_success :
    (r : RegistrationResponse)
    → r.response_code ≡ success
    → Clean r
    → IsShort r
    → register_round (reply r) ≡ leave_with r
unfolding register_round
round_success r s c short =
    rw
      (
        take_all response_buffer_size (encode_message (registration_response r)) short,
        decode_message-response r c,
        s,
      )
      refl

-- As long as the service answers WAIT the bridge asks again, once for each answer; at the first SUCCESS it takes
-- that response, and its result is that of take_response; if every response has numbers in range and no `;` in its
-- texts, its last text is not empty, and it is no longer than the buffer of 2048 bytes.
pub registration_waits :
    (parse : Bytes → Option ConfigJson) (s : Startup) (ws : List RegistrationResponse)
    (r : RegistrationResponse) (later : List Answer)
    → All (λ w. IsWait w × IsShort w) ws
    → r.response_code ≡ success
    → Clean r
    → IsShort r
    → let done = perform_discovery_registration parse s (map reply ws ++ reply r ∷ later) in
      let taken = take_response parse s r in
      (done.0 ≡ taken.0) × (done.1 ≡ some taken.1) × (length done.2 ≡ suc (length ws))
unfolding perform_discovery_registration
registration_waits parse s [] r later all ok c short =
    rw (perform_discovery_registration, round_success r ok c short) (refl, refl, refl)
registration_waits parse s (w ∷ ws) r later ((first, small), all) ok c short =
    let (a, b, n) = registration_waits parse s ws r later all ok c short in
    rw (perform_discovery_registration, round_wait w first small) (a, b, ap suc n)
