-- ===== src/Gateway/Discovery/Waits.antt =====
-- The gateway waits for a bridge and then tells the controller where it is.
use ros2_modular_edge_offloa.Common.{
  ◌≤◌, take_all, take, ◌∙◌, suc, true, ◌≡◌, refl, arith, ap, some, List, [], ◌∷◌, ◌++◌, map, Bytes,
  All, Lacks, length,
}
use ros2_modular_edge_offloa.Common.Int.{ℤ}
use ros2_modular_edge_offloa.Discovery.Protocol.{
  RegistrationResponse, registration_response, success,
}
use ros2_modular_edge_offloa.Discovery.Protocol.Encode.{encode_message}
use ros2_modular_edge_offloa.Discovery.Protocol.Response.{Clean, IsWait, decode_message-response}
use ros2_modular_edge_offloa.Gateway.Discovery.{
  DiscoveryClient, Answer, answered, again, ends, success_cb, bridge_port, c_text, response_size,
  register_round, register_loop,
}

abbrev pub reply : RegistrationResponse → Answer
reply r = answered (encode_message (registration_response r))

-- The response fits the buffer that it is read into.
abbrev pub IsShort : RegistrationResponse → Type 0
IsShort r = length (encode_message (registration_response r)) ≤ response_size

-- The text has no byte 0.
abbrev pub IsText : RegistrationResponse → Type 0
IsText r = Lacks 0 (encode_message (registration_response r))

c_text-Lacks : (bs : Bytes) → Lacks 0 bs → c_text bs ≡ bs
unfolding c_text
c_text-Lacks [] l = refl
c_text-Lacks (b ∷ bs) (n, l) = ground (arith, c_text-Lacks bs l, n)

whole :
    (r : RegistrationResponse)
    → IsText r
    → IsShort r
    → c_text (take response_size (encode_message (registration_response r)))
      ≡ encode_message (registration_response r)
whole r z short =
    ap c_text (take_all response_size (encode_message (registration_response r)) short)
    ∙ c_text-Lacks (encode_message (registration_response r)) z

round_wait :
    (r : RegistrationResponse) → IsWait r → IsText r → IsShort r → register_round (reply r) ≡ again
unfolding register_round
round_wait r (w, c) z short = rw (whole r z short, decode_message-response r c, w) refl

round_success :
    (r : RegistrationResponse) (port : ℤ)
    → r.response_code ≡ success
    → bridge_port r.connection_target_port ≡ some port
    → Clean r
    → IsText r
    → IsShort r
    → register_round (reply r)
      ≡ ends true (success_cb r.connection_target_address port r.config_json)
unfolding register_round
round_success r port s p c z short = rw (whole r z short, decode_message-response r c, s, p) refl

-- As long as the service answers WAIT the gateway asks again, once for each answer; at the first SUCCESS it is
-- registered, and the controller is told the address, the port and the configuration of that response, and nothing
-- else; if its port is empty or a number that stoi takes, and every response has numbers in range, no `;` in its
-- texts, a last text that is not empty, no byte 0, and no more than 8191 bytes.
pub register_loop_waits :
    (c : DiscoveryClient) (ws : List RegistrationResponse) (r : RegistrationResponse) (port : ℤ)
    (later : List Answer)
    → All (λ w. IsWait w × IsText w × IsShort w) ws
    → r.response_code ≡ success
    → bridge_port r.connection_target_port ≡ some port
    → Clean r
    → IsText r
    → IsShort r
    → let done = register_loop c (map reply ws ++ reply r ∷ later) in
      (done.0.registered ≡ true)
      × (done.1 ≡ success_cb r.connection_target_address port r.config_json ∷ [])
      × (length done.2 ≡ suc (length ws))
unfolding register_loop
register_loop_waits c [] r port later all ok p clean z short =
    rw (register_loop, round_success r port ok p clean z short) (refl, refl, refl)
register_loop_waits c (w ∷ ws) r port later ((first, text, small), all) ok p clean z short =
    let (a, b, n) = register_loop_waits c ws r port later all ok p clean z short in
    rw (register_loop, round_wait w first text small) (a, b, ap suc n)
