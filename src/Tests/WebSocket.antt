-- ===== src/Tests/WebSocket.antt =====
-- Runs of app/ws_shim.c against a relay, and instances of its theorems.
use whitenoise_linux.Base.{
  List, [], ◌∷◌, ◌++◌, Bytes, true, false, none, some, codes, same_bytes, length, ◌≡◌, refl, arith,
  inl, inr,
}
use whitenoise_linux.WebSocket.Socket.{Event, chunk, again, recv_all, taken, wait, send_all, stream}
use whitenoise_linux.WebSocket.Frame.{
  and_then, big_endian, read_number, read_size, read_mask, read_header, apply_mask, drain,
  read_payload, recv_frame, message, recv_turns, recv_message,
}
use whitenoise_linux.WebSocket.SendText.{Piece, encode, text_header, send_text}
use whitenoise_linux.WebSocket.Bounds.{Fits, recv_message-Fits}
use whitenoise_linux.WebSocket.Messages.{IsMessage, encode_all, payloads, recv_message-payloads}
use whitenoise_linux.WebSocket.Query.{
  compact, ws_compact_json, starts_with, fetched, took_message, collect,
}
use whitenoise_linux.WebSocket.Lines.{Final}
use whitenoise_linux.WebSocket.Fetch.{
  after_scheme, host_of, slash_on, handshake, read_response, Connection, after_response, upgrade,
  query_at, ws_query, wn_ws_fetch_many,
}
use whitenoise_linux.WebSocket.Whole.{wn_ws_fetch_many-Final}

-- Five bytes in three pieces.
abbrev pieces : List Event
pieces = chunk (1 ∷ 2 ∷ []) ∷ again true ∷ chunk (3 ∷ []) ∷ chunk (4 ∷ 5 ∷ []) ∷ []

read_four : recv_all pieces 4 ≡ some (1 ∷ 2 ∷ 3 ∷ 4 ∷ [], chunk (5 ∷ []) ∷ [])
unfolding recv_all
read_four = refl

-- "Hi" in two frames, the second masked.
abbrev greeting : List Piece
greeting =
    record { last = false; op = 1; mask = none; body = codes "H" }
    ∷ record { last = true; op = 0; mask = some (1 ∷ 2 ∷ 3 ∷ 4 ∷ []); body = codes "i" }
    ∷ []

greeting-IsMessage : IsMessage greeting
greeting-IsMessage = (
  (record { op_fits = omega arith; size_fits = omega arith; mask_fits = tt }, inl refl),
  refl,
  ((record { op_fits = omega arith; size_fits = omega arith; mask_fits = refl }, inr refl), refl),
)

abbrev greeting_bytes : Bytes
greeting_bytes = 1 ∷ 1 ∷ 72 ∷ 128 ∷ 129 ∷ 1 ∷ 2 ∷ 3 ∷ 4 ∷ 104 ∷ []

greeting_wire : stream (chunk greeting_bytes ∷ []) ≡ encode_all greeting ++ []
unfolding encode apply_mask stream
greeting_wire = refl

recv_message-payloads_example :
    (left : List Event) × (recv_message 2 16 (chunk greeting_bytes ∷ [])
      ≡ message (payloads greeting) left)
    × (stream left ≡ [])
recv_message-payloads_example =
    recv_message-payloads greeting 2 16 (chunk greeting_bytes ∷ []) [] greeting-IsMessage
      (omega arith) (omega arith) greeting_wire

recv_message-Fits_example :
    Fits 16
      (length (stream (chunk greeting_bytes ∷ [])))
      (recv_message 11 16 (chunk greeting_bytes ∷ []))
unfolding stream
recv_message-Fits_example = recv_message-Fits 11 16 (chunk greeting_bytes ∷ []) (omega arith)

-- A ping is drained and forgets what was held.
abbrev ping : Piece
ping = record { last = true; op = 9; mask = none; body = codes "p" }

ping_wire : stream (chunk (137 ∷ 1 ∷ 112 ∷ []) ∷ []) ≡ encode ping ++ []
unfolding encode stream
ping_wire = refl

-- A text that is sent in two pieces and read in one.
abbrev mask_bytes_of : Bytes
mask_bytes_of = 1 ∷ 2 ∷ 3 ∷ 4 ∷ []

sent_text :
    (send_text mask_bytes_of true (codes "Hi") (taken 3 ∷ wait true ∷ taken 9 ∷ taken 9 ∷ [])).1
    ≡ true
unfolding send_text text_header send_all apply_mask
sent_text = refl

sent_wire :
    stream (chunk (129 ∷ 130 ∷ 1 ∷ 2 ∷ 3 ∷ 4 ∷ 73 ∷ 107 ∷ []) ∷ [])
    ≡ (send_text mask_bytes_of true (codes "Hi") (taken 3 ∷ wait true ∷ taken 9 ∷ taken 9 ∷ [])).0
      ++ []
unfolding send_text text_header send_all apply_mask stream
sent_wire = refl

compacted : ws_compact_json (codes "[ \"a b\" ]") ≡ codes "[\"a b\"]"
unfolding ws_compact_json compact
compacted = refl

-- A relay that answers with one event and EOSE.
abbrev relay : Connection
relay = record {
  connected = true;
  key = codes "k";
  mask = mask_bytes_of;
  memory = true;
  sends = taken 2000 ∷ taken 2000 ∷ taken 2000 ∷ [];
  events =
      chunk (codes "HTTP/1.1 101 X\r\n\r\n")
      ∷ chunk (129 ∷ 12 ∷ codes "[ \"EVENT\",1]")
      ∷ again true
      ∷ chunk (129 ∷ 8 ∷ codes "[\"EOSE\"]")
      ∷ [];
}

fetched_one :
    wn_ws_fetch_many relay 60 100 5 (codes "wss://r/x") (codes "[]")
    ≡ fetched (some 12) (codes "[\"EVENT\",1]\n")
unfolding wn_ws_fetch_many ws_query after_scheme host_of slash_on handshake read_response
    after_response upgrade query_at starts_with same_bytes send_text text_header send_all recv_all
    and_then big_endian read_number read_size read_mask read_header apply_mask drain read_payload
    recv_frame recv_turns recv_message took_message collect ws_compact_json compact
fetched_one = refl

wn_ws_fetch_many-Final_example :
    Final 100 5 (wn_ws_fetch_many relay 60 100 5 (codes "wss://r/x") (codes "[]"))
unfolding stream
wn_ws_fetch_many-Final_example =
    wn_ws_fetch_many-Final relay 60 100 5 (codes "wss://r/x") (codes "[]") (omega arith)

response_read :
    read_response 20 [] (chunk (codes "X\r\n\r\nY") ∷ [])
    ≡ some (codes "X\r\n\r\n", chunk (codes "Y") ∷ [])
unfolding read_response recv_all same_bytes
response_read = refl
