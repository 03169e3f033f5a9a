-- ===== src/Tests/Wire.antt =====
-- The wire protocol at concrete packages.
use wisdb.Transporter.{WireProtocoler, panic, receive, panic, receive, ok, data_of, encode, decode}
use wisdb.Transporter.Framing.{decode-encode_request}
use wisdb.Utils.IntEncoding.{of_bytes}
use wisdb.Base.{false, true, List, ℕ, ◌∷◌, [], ◌≡◌, arith, refl}

abbrev client_side : WireProtocoler
client_side = record { next_id = 6; is_server = false; last_request_id = 0 }

abbrev server_side : WireProtocoler
server_side = record { next_id = 0; is_server = true; last_request_id = 7 }

decode-encode_request_example :
    (frame : List ℕ) × (encode client_side (data_of (1 ∷ 2 ∷ []))
      ≡ (ok frame, record client_side { next_id = 7 }))
    × (decode server_side frame
        ≡ ok (data_of (1 ∷ 2 ∷ []), record server_side { last_request_id = 7 }))
decode-encode_request_example =
    decode-encode_request client_side server_side (1 ∷ 2 ∷ []) refl (omega arith)

-- A request whose length field is 2^32 - 1.
abbrev long_body : List ℕ
long_body = 87 ∷ 73 ∷ 83 ∷ 68 ∷ 1 ∷ 1 ∷ 0 ∷ 0 ∷ 0 ∷ 1 ∷ 255 ∷ 255 ∷ 255 ∷ 255 ∷ 5 ∷ []

long_body_panics : decode server_side long_body ≡ panic
unfolding decode of_bytes
long_body_panics = refl

-- A frame is taken off a stream and the next one is left on it.
stream_received :
    receive (87 ∷ 73 ∷ 83 ∷ 68 ∷ 1 ∷ 1 ∷ 0 ∷ 0 ∷ 0 ∷ 1 ∷ 0 ∷ 0 ∷ 0 ∷ 1 ∷ 5 ∷ 87 ∷ [])
    ≡ ok (87 ∷ 73 ∷ 83 ∷ 68 ∷ 1 ∷ 1 ∷ 0 ∷ 0 ∷ 0 ∷ 1 ∷ 0 ∷ 0 ∷ 0 ∷ 1 ∷ 5 ∷ [], 87 ∷ [])
unfolding receive of_bytes
stream_received = refl
