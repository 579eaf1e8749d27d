-- ===== src/Runs/EchoedRuns.antt =====
-- What the echo server has done, on the plain connection.
use easy_usb.Base.{◌≡◌, refl, ℕ, List, ◌∷◌, Option, err, replicate}
use easy_usb.Bytes.Words.{u32_of}
use easy_usb.PlainBytes.{plain_bytes}
use easy_usb.PlainTcp.{Pipe, plain_tcp}
use easy_usb.Codec.{invalid_command}
use easy_usb.Codec.Fields.{decode_basic}
use easy_usb.Codec.Header.{decode_header, decode_command}
use easy_usb.Server.{serve_urb_echo, echo_payload_len, read_echo_payload}
use easy_usb.Server.Echoed.{Echoes, serve_urb_echo-Echoes}
use easy_usb.Server.Failing.{serve_urb_echo-err}
use easy_usb.Runs.Fixtures.{make_control_cmd_submit}
use easy_usb.Runs.Serving.{client_wrote}
use easy_usb.Runs.EchoRuns.{submit_server, submit_served}

serve_urb_echo-Echoes_example :
    (p : Option (List ℕ)) × Echoes plain_tcp submit_server
      (serve_urb_echo plain_tcp submit_server).0
      (make_control_cmd_submit, p)
serve_urb_echo-Echoes_example =
    serve_urb_echo-Echoes plain_tcp submit_server make_control_cmd_submit submit_served.result

-- The command of the test `serve_urb_echo_rejects_unknown_command`, behind which nothing follows.
abbrev dead : Pipe
dead = client_wrote (0 ∷ 0 ∷ 0xde ∷ 0xad ∷ replicate 44 0) refl

serve_urb_echo-dead : (serve_urb_echo plain_tcp dead).1 ≡ err (invalid_command 0xdead)
unfolding serve_urb_echo echo_payload_len read_echo_payload decode_header u32_of decode_basic
    decode_command
serve_urb_echo-dead = refl

serve_urb_echo-err_example : (serve_urb_echo plain_tcp dead).0.sent ≡ dead.sent
serve_urb_echo-err_example =
    serve_urb_echo-err plain_tcp dead (invalid_command 0xdead) tt serve_urb_echo-dead
