-- ===== src/Transporter.antt =====
-- src/main/transporter: packages as frames of the wire protocol, and frames on a stream of bytes. A
-- panic of the source, a slice out of its bounds, is `panic`.
pub mod Framing
use wisdb.Utils.IntEncoding.{to_bytes, get_uint32, put_uint32}
use wisdb.Base.{ℕ, List, Bool, if◌then◌else◌, ◌+◌, length, [], slice, get_elem?}
use wisdb.Base.{Option, none, leb, ◌%◌, ◌==◌, some, ltb, ◌^◌, take, not, replicate}
use wisdb.Base.{◌-◌, drop, copy_at, set}

abbrev pub wire_magic : ℕ
wire_magic = 1464423236

abbrev pub wire_version : ℕ
wire_version = 1

abbrev pub wire_type_request : ℕ
wire_type_request = 1

abbrev pub wire_type_response : ℕ
wire_type_response = 2

abbrev pub wire_flag_ok : ℕ
wire_flag_ok = 0

abbrev pub wire_flag_error : ℕ
wire_flag_error = 1

abbrev pub wire_req_header_len : ℕ
wire_req_header_len = 14

abbrev pub wire_resp_header_len : ℕ
wire_resp_header_len = 15

-- Data, or an error by its text.
pub data Package : Type 0 where
  data_of : List ℕ → Package
  err_of : List ℕ → Package

pub data Wire {ℓ} (A : Type ℓ) : Type ℓ where
  ok : A → Wire A
  invalid_pkg_data bad_magic bad_version bad_type read_failed panic : Wire A

pub record WireProtocoler : Type 0 where
  pub next_id : ℕ
  pub is_server : Bool
  pub last_request_id : ℕ

-- binary.BigEndian.PutUint32(frame[off:off+4], v), in a frame that holds it
abbrev pub put_at : List ℕ → ℕ → ℕ → List ℕ
put_at frame off v = copy_at frame off (to_bytes 4 v)

-- A frame that holds its header, or a panic.
abbrev pub framed : ℕ → ℕ → List ℕ → Wire (List ℕ)
framed header len frame = if leb header len then ok frame else panic

unfoldable pub encode_request : WireProtocoler → List ℕ → Wire (List ℕ) × WireProtocoler
encode_request p payload =
    let req_id = (p.next_id + 1) % 2 ^ 32 in
    let body_len = length payload % 2 ^ 32 in
    let len = (wire_req_header_len + body_len) % 2 ^ 32 in
    let frame = put_at (replicate len 0) 0 wire_magic in
    let frame = set (set frame 4 wire_version) 5 wire_type_request in
    let frame = put_at (put_at frame 6 req_id) 10 body_len in
    (framed wire_req_header_len len (copy_at frame 14 payload), record p { next_id = req_id })

abbrev pub payload_of : Package → List ℕ
payload_of (data_of l) = l
payload_of (err_of l) = l

abbrev pub flag_of : Package → ℕ
flag_of (data_of l) = wire_flag_ok
flag_of (err_of l) = wire_flag_error

unfoldable pub encode_response : WireProtocoler → Package → Wire (List ℕ)
encode_response p pkg =
    let payload = payload_of pkg in
    let body_len = length payload % 2 ^ 32 in
    let len = (wire_resp_header_len + body_len) % 2 ^ 32 in
    let frame = put_at (replicate len 0) 0 wire_magic in
    let frame = set (set frame 4 wire_version) 5 wire_type_response in
    let frame = set (put_at frame 6 p.last_request_id) 10 (flag_of pkg) in
    framed wire_resp_header_len len (copy_at (put_at frame 11 body_len) 15 payload)

-- A client sends a package's data; the error of a package is not encoded.
abbrev pub request_data : Package → List ℕ
request_data (data_of l) = l
request_data (err_of l) = []

unfoldable pub encode : WireProtocoler → Package → Wire (List ℕ) × WireProtocoler
unfolding encode_request encode_response
encode p pkg =
    if p.is_server then (encode_response p pkg, p) else encode_request p (request_data pkg)

-- data[header : header+bodyLen], where the header is there.
abbrev pub body : ℕ → ℕ → List ℕ → Wire (List ℕ)
body header body_len bytes =
    let end = (header + body_len) % 2 ^ 32 in
    if ltb (length bytes % 2 ^ 32) end
    then invalid_pkg_data
    else if leb header end
    then ok (slice header (end - header) bytes)
    else panic

abbrev pub package_of : ℕ → List ℕ → Package
package_of flag payload = if flag == wire_flag_error then err_of payload else data_of payload

abbrev pub map_wire : {A B : Type 0} → (A → B) → Wire A → Wire B
map_wire f (ok a) = ok (f a)
map_wire f invalid_pkg_data = invalid_pkg_data
map_wire f bad_magic = bad_magic
map_wire f bad_version = bad_version
map_wire f bad_type = bad_type
map_wire f read_failed = read_failed
map_wire f panic = panic

-- An integer in the frame.
abbrev pub uint32_at : List ℕ → ℕ → ℕ
uint32_at bytes off = elim (get_uint32 (slice off 4 bytes)) [ none ↦ 0 | some n ↦ n ]

abbrev pub byte_at : List ℕ → ℕ → ℕ
byte_at bytes i = elim (get_elem? bytes i) [ none ↦ 0 | some b ↦ b ]

unfoldable pub decode : WireProtocoler → List ℕ → Wire (Package × WireProtocoler)
unfolding get_uint32
decode p bytes =
    if ltb (length bytes) 6
    then invalid_pkg_data
    else if byte_at bytes 5 == wire_type_request
    then (if ltb (length bytes) wire_req_header_len
        then invalid_pkg_data
        else map_wire
            (λ payload. (data_of payload, record p { last_request_id = uint32_at bytes 6 }))
            (body wire_req_header_len (uint32_at bytes 10) bytes))
    else if byte_at bytes 5 == wire_type_response
    then (if ltb (length bytes) wire_resp_header_len
        then invalid_pkg_data
        else map_wire (λ payload. (package_of (byte_at bytes 10) payload, p))
            (body wire_resp_header_len (uint32_at bytes 11) bytes))
    else bad_type

-- io.ReadFull for the next bytes of the stream.
abbrev pub read_full : ℕ → List ℕ → Option (List ℕ × List ℕ)
read_full n s = if leb n (length s) then some (take n s, drop n s) else none

-- What stands behind the six bytes of the prefix: the other bytes of the header, with the length at
-- an offset, and the body.
abbrev pub receive_rest : ℕ → ℕ → List ℕ → List ℕ → Wire (List ℕ × List ℕ)
receive_rest n off prefix s = elim (read_full n s) [
  | none ↦ read_failed
  | some (rest, s') ↦
      let body_len = uint32_at rest off in
      elim (read_full body_len s') [
        | none ↦ read_failed
        | some (bytes, s'') ↦
            let len = (6 + n + body_len) % 2 ^ 32 in
            let frame = copy_at (copy_at (replicate len 0) 0 prefix) 6 rest in
            map_wire (λ f. (f, s'')) (framed (6 + n) len (copy_at frame (6 + n) bytes))
      ]
]

-- A frame, and what is left of the stream.
unfoldable pub receive : List ℕ → Wire (List ℕ × List ℕ)
unfolding get_uint32
receive s = elim (read_full 6 s) [
  | none ↦ read_failed
  | some (prefix, s') ↦
      if not (uint32_at prefix 0 == wire_magic)
      then bad_magic
      else if not (byte_at prefix 4 == wire_version)
      then bad_version
      else if byte_at prefix 5 == wire_type_request
      then receive_rest 8 4 prefix s'
      else if byte_at prefix 5 == wire_type_response
      then receive_rest 9 5 prefix s'
      else bad_type
]
