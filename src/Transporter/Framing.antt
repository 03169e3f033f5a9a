-- ===== src/Transporter/Framing.antt =====
-- A package that is sent is received.
use wisdb.Transporter.{
  WireProtocoler, Package, Wire, ok, data_of, err_of, encode, encode_request, encode_response,
  decode, byte_at, framed, body, uint32_at, put_at, payload_of, flag_of, package_of, wire_magic,
}
use wisdb.Utils.IntEncoding.RoundTrip.{of_bytes-to_bytes, of_bytes-take}
use wisdb.Utils.IntEncoding.{to_bytes, get_uint32}
use wisdb.Base.{suc, ℕ, List, replicate, ◌++◌, ◌∷◌, length, ◌≡◌, copy_at, set, ◌+◌}
use wisdb.Base.{arith, ap, copy_all, ◌∙◌, ◌<◌, sym, length-replicate, ◌^◌, ◌%◌, slice}
use wisdb.Base.{Option, refl, none, some, copy, take-all, copy_nil, ◌-◌, false, true}
use wisdb.Base.{Bool, if◌then◌else◌}

abbrev pub request_frame : ℕ → List ℕ → List ℕ
request_frame id payload =
    to_bytes 4 wire_magic ++ (1 ∷ 1 ∷ (to_bytes 4 id ++ (to_bytes 4 (length payload) ++ payload)))

abbrev pub response_frame : ℕ → ℕ → List ℕ → List ℕ
response_frame id flag payload =
    to_bytes 4 wire_magic
    ++ (1 ∷ 2 ∷ (to_bytes 4 id ++ (flag ∷ (to_bytes 4 (length payload) ++ payload))))

abbrev zeros : ℕ → List ℕ
zeros n = 0 ∷ 0 ∷ 0 ∷ 0 ∷ 0 ∷ 0 ∷ 0 ∷ 0 ∷ 0 ∷ 0 ∷ 0 ∷ 0 ∷ 0 ∷ 0 ∷ replicate n 0

fourteen : (n : ℕ) → replicate (14 + n) 0 ≡ zeros n
fourteen n = ap (λ k. replicate k 0) more
  where
    more :
        14 + n ≡ suc (suc (suc (suc (suc (suc (suc (suc (suc (suc (suc (suc (suc (suc n)))))))))))))
    more = omega arith

written :
    (id len n : ℕ) (payload : List ℕ)
    → length payload ≡ n
    → copy_at
        (put_at (put_at (set (set (put_at (zeros n) 0 wire_magic) 4 1) 5 1) 6 id) 10 len)
        14
        payload
      ≡ to_bytes 4 wire_magic ++ (1 ∷ 1 ∷ (to_bytes 4 id ++ (to_bytes 4 len ++ payload)))
unfolding to_bytes
written id len n payload e =
    ap
      (λ l.
        to_bytes 4 wire_magic ++ (1 ∷ 1 ∷ (to_bytes 4 id ++ (to_bytes 4 len ++ copy l payload))))
      (copy_nil (replicate n 0))
    ∙ ap (λ l. to_bytes 4 wire_magic ++ (1 ∷ 1 ∷ (to_bytes 4 id ++ (to_bytes 4 len ++ l))))
        (copy_all (replicate n 0) payload (e ∙ sym (length-replicate {A = ℕ} n 0)))

written_response :
    (id flag len n : ℕ) (payload : List ℕ)
    → length payload ≡ n
    → copy_at
        (put_at
          (set (put_at (set (set (put_at (0 ∷ zeros n) 0 wire_magic) 4 1) 5 2) 6 id) 10 flag)
          11
          len)
        15
        payload
      ≡ to_bytes 4 wire_magic ++ (1 ∷ 2 ∷ (to_bytes 4 id ++ (flag ∷ (to_bytes 4 len ++ payload))))
unfolding to_bytes
written_response id flag len n payload e =
    ap
      (λ l.
        to_bytes 4 wire_magic
        ++ (1 ∷ 2 ∷ (to_bytes 4 id ++ (flag ∷ (to_bytes 4 len ++ copy l payload)))))
      (copy_nil (replicate n 0))
    ∙ ap (λ l. to_bytes 4 wire_magic ++ (1 ∷ 2 ∷ (to_bytes 4 id ++ (flag ∷ (to_bytes 4 len ++ l)))))
        (copy_all (replicate n 0) payload (e ∙ sym (length-replicate {A = ℕ} n 0)))

fifteen : (n : ℕ) → replicate (15 + n) 0 ≡ 0 ∷ zeros n
fifteen n = ap (λ k. replicate k 0) (more) ∙ ap (λ l. 0 ∷ l) (fourteen n)
  where
    more : 15 + n ≡ suc (14 + n)
    more = omega arith

in_range : (n : ℕ) → n < 2 ^ 32 → n % 2 ^ 32 ≡ n
in_range n h = omega arith

framed_fits : (header n : ℕ) (l : List ℕ) → framed header (header + n) l ≡ ok l
framed_fits header n l = ground arith

body_read :
    (header n : ℕ) (bytes : List ℕ)
    → length bytes ≡ header + n
    → header + n < 2 ^ 32
    → body header n bytes ≡ ok (slice header n bytes)
body_read header n bytes e h =
    let shorter : header + n - header ≡ n = omega arith in
    rw (e, in_range (header + n) h, shorter) (ground arith)

uint32_at-to_bytes : (n : ℕ) (rest : List ℕ) → n < 2 ^ 32 → uint32_at (to_bytes 4 n ++ rest) 0 ≡ n
unfolding get_uint32
uint32_at-to_bytes n rest h =
    ap (λ (o : Option ℕ). elim o as (λ _. ℕ) [ none ↦ 0 | some k ↦ k ])
      (sym (of_bytes-take 4 0 (to_bytes 4 n ++ rest)) ∙ of_bytes-to_bytes 4 n rest (omega arith))

decode_from :
    (p : WireProtocoler) (frame : List ℕ) (n id : ℕ) (payload : List ℕ)
    → length frame ≡ 14 + n
    → byte_at frame 5 ≡ 1
    → uint32_at frame 6 ≡ id
    → uint32_at frame 10 ≡ n
    → slice 14 n frame ≡ payload
    → 14 + n < 2 ^ 32
    → decode p frame ≡ ok (data_of payload, record p { last_request_id = id })
unfolding decode
decode_from p frame n id payload size type id_read len_read payload_read small =
    rw (type, id_read, len_read, body_read 14 n frame size small, payload_read, size) (ground arith)

decode_response_from :
    (p : WireProtocoler) (frame : List ℕ) (n flag : ℕ) (payload : List ℕ)
    → length frame ≡ 15 + n
    → byte_at frame 5 ≡ 2
    → byte_at frame 10 ≡ flag
    → uint32_at frame 11 ≡ n
    → slice 15 n frame ≡ payload
    → 15 + n < 2 ^ 32
    → decode p frame ≡ ok (package_of flag payload, p)
unfolding decode
decode_response_from p frame n flag payload size type flag_read len_read payload_read small =
    rw (type, flag_read, len_read, body_read 15 n frame size small, payload_read, size)
      (ground arith)

package_of-flag_of : (pkg : Package) → package_of (flag_of pkg) (payload_of pkg) ≡ pkg
package_of-flag_of (data_of l) = refl
package_of-flag_of (err_of l) = refl

module _ (payload : List ℕ) (small : length payload + 15 < 2 ^ 32) where
  encode_request-frame :
      (p : WireProtocoler)
      → encode_request p payload ≡ (
        ok (request_frame ((p.next_id + 1) % 2 ^ 32) payload),
        record p { next_id = (p.next_id + 1) % 2 ^ 32 },
      )
  unfolding encode_request
  encode_request-frame p =
      let id = (p.next_id + 1) % 2 ^ 32 in
      rw
        (
          in_range (length payload) (omega arith),
          in_range (14 + length payload) (omega arith),
          fourteen (length payload),
          written id (length payload) (length payload) payload refl,
          framed_fits 14 (length payload) (request_frame id payload),
        )
        refl

  request-length : (id : ℕ) → length (request_frame id payload) ≡ 14 + length payload
  unfolding to_bytes
  request-length id = omega arith

  decode-request :
      (p : WireProtocoler) (id : ℕ)
      → id < 2 ^ 32
      → decode p (request_frame id payload)
        ≡ ok (data_of payload, record p { last_request_id = id })
  decode-request p id h =
      decode_from p (request_frame id payload) (length payload) id payload (request-length id)
        (unfold to_bytes in refl)
        (unfold to_bytes in uint32_at-to_bytes id (to_bytes 4 (length payload) ++ payload) h)
        (unfold to_bytes in uint32_at-to_bytes (length payload) payload (omega arith))
        (unfold to_bytes in take-all (length payload) payload (omega arith)) (omega arith)

  response-length : (id flag : ℕ) → length (response_frame id flag payload) ≡ 15 + length payload
  unfolding to_bytes
  response-length id flag = omega arith

  decode-response :
      (p : WireProtocoler) (id flag : ℕ)
      → decode p (response_frame id flag payload) ≡ ok (package_of flag payload, p)
  decode-response p id flag =
      decode_response_from p (response_frame id flag payload) (length payload) flag payload
        (response-length id flag) (unfold to_bytes in refl) (unfold to_bytes in refl)
        (unfold to_bytes in uint32_at-to_bytes (length payload) payload (omega arith))
        (unfold to_bytes in take-all (length payload) payload (omega arith)) (omega arith)

choose_false : {A : Type 0} (x : A) {y : A} {b : Bool} → b ≡ false → (if b then x else y) ≡ y
choose_false x h = rw h refl

choose_true : {A : Type 0} {x : A} (y : A) {b : Bool} → b ≡ true → (if b then x else y) ≡ x
choose_true y h = rw h refl

encode_response-frame :
    (p : WireProtocoler) (pkg : Package)
    → length (payload_of pkg) + 15 < 2 ^ 32
    → encode_response p pkg ≡ ok (response_frame p.last_request_id (flag_of pkg) (payload_of pkg))
unfolding encode_response
encode_response-frame p pkg small =
    let payload = payload_of pkg in
    let n = length payload in
    rw
      (
        in_range n (omega arith),
        in_range (15 + n) (omega arith),
        fifteen n,
        written_response p.last_request_id (flag_of pkg) n n payload refl,
        framed_fits 15 n (response_frame p.last_request_id (flag_of pkg) payload),
      )
      refl

-- A client's request of less than 2^32 - 15 bytes is encoded as a frame which a protocoler decodes to
-- the same data; the client's counter and the request id that the decoder keeps are both one more
-- than the counter was, as 32-bit integers.
pub decode-encode_request :
    (client server : WireProtocoler) (payload : List ℕ)
    → client.is_server ≡ false
    → length payload + 15 < 2 ^ 32
    → (frame : List ℕ) × (encode client (data_of payload)
        ≡ (ok frame, record client { next_id = (client.next_id + 1) % 2 ^ 32 }))
      × (decode server frame
          ≡ ok (data_of payload, record server { last_request_id = (client.next_id + 1) % 2 ^ 32 }))
unfolding encode
decode-encode_request client server payload side small = (
  request_frame ((client.next_id + 1) % 2 ^ 32) payload,
  choose_false _ side ∙ encode_request-frame payload small client,
  decode-request payload small server ((client.next_id + 1) % 2 ^ 32) (omega arith),
)

-- A server's response, data or an error, of less than 2^32 - 15 bytes is encoded as a frame which a
-- protocoler decodes to the same data or error, and neither protocoler changes.
decode-encode_response :
    (client server : WireProtocoler) (pkg : Package)
    → server.is_server ≡ true
    → length (payload_of pkg) + 15 < 2 ^ 32
    → (frame : List ℕ) × (encode server pkg ≡ (ok frame, server))
      × (decode client frame ≡ ok (pkg, client))
unfolding encode
decode-encode_response client server pkg side small =
    let payload = payload_of pkg in
    let frame = response_frame server.last_request_id (flag_of pkg) payload in
    (
      frame,
      choose_true _ side
          ∙ ap (λ (f : Wire (List ℕ)). (f, server)) (encode_response-frame server pkg small),
      decode-response payload small client server.last_request_id (flag_of pkg)
          ∙ ap (λ (q : Package). ok (q, client)) (package_of-flag_of pkg),
    )
