-- ===== src/WebSocket/Fetch.antt =====
-- wn_ws_fetch and wn_ws_fetch_many of app/ws_shim.c: ws_query around its loop, and sticker_write.
use whitenoise_linux.Base.{
  ℕ, zero, suc, ◌+◌, ◌-◌, ◌*◌, ◌/◌, ◌^◌, List, [], ◌∷◌, ◌++◌, Bytes, Bool, not, ◌&&◌, ◌||◌, Option,
  none, some, ltb, leb, ◌==◌, if◌then◌else◌, codes, same_bytes, length, take, drop, write_at,
}
use whitenoise_linux.WebSocket.Socket.{Event, recv_all, Sent, send_all}
use whitenoise_linux.WebSocket.SendText.{send_text}
use whitenoise_linux.WebSocket.Query.{
  Format, single_event, event_lines, starts_with, Fetched, fetched, collect, first_result,
}

-- strstr(url, "://") and the three bytes behind it.
unfoldable pub after_scheme : Bytes → Option Bytes
after_scheme [] = none
after_scheme (c ∷ cs) =
    let rest = after_scheme cs in
    if starts_with (codes "://") (c ∷ cs) then some (drop 3 (c ∷ cs)) else rest

-- The bytes before the first slash, and those from it on.
unfoldable pub host_of : Bytes → Bytes
host_of [] = []
host_of (c ∷ cs) = if c == 47 then [] else c ∷ host_of cs

unfoldable pub slash_on : Bytes → Bytes
slash_on [] = []
slash_on (c ∷ cs) = if c == 47 then c ∷ cs else slash_on cs

abbrev pub path_of : Bytes → Bytes
path_of rest = if length (slash_on rest) == 0 then codes "/" else slash_on rest

-- The upgrade request.
unfoldable pub handshake : Bytes → Bytes → Bytes → Bytes
handshake path host key =
    codes "GET "
    ++ (path
        ++ (codes " HTTP/1.1\r\nHost: "
            ++ (host
                ++ (codes "\r\nUpgrade: websocket\r\nConnection: Upgrade\r\nSec-WebSocket-Key: "
                    ++ (key ++ codes "\r\nSec-WebSocket-Version: 13\r\n\r\n")))))

abbrev pub blank_line : Bytes
blank_line = codes "\r\n\r\n"

-- The loop that reads the answer byte by byte up to its blank line; `space` is what is left of the
-- 4095 bytes that may be read, `resp` the bytes read.
unfoldable pub read_response : ℕ → Bytes → List Event → Option (Bytes × List Event)
read_response zero resp es = none
read_response (suc space) resp es = elim (recv_all es 1) [
  | none ↦ none
  | some (d, left) ↦
      let resp' = resp ++ d in
      let rest = read_response space resp' left in
      if leb 4 (length resp') && same_bytes (drop (length resp' - 4) resp') blank_line
      then some (resp', left)
      else rest
]

-- What the system does for a query: whether libcurl is set up, the proxy is and the connection
-- stands; the key of ws_key and the four bytes of the mask, from rand(); malloc in send_text; and
-- the answers of the socket.
pub record Connection : Type 0 where
  pub connected : Bool
  pub key : Bytes
  pub mask : Bytes
  pub memory : Bool
  pub sends : List Sent
  pub events : List Event

abbrev pub int_max : ℕ
int_max = 2 ^ 31 - 1

-- The guard of ws_query.
abbrev pub query_refused : ℕ → ℕ → Bool
query_refused capacity max_events = capacity == 0 || ltb int_max capacity || max_events == 0

abbrev pub minus_one : Fetched
minus_one = fetched none []

module _ (c : Connection) (format : Format) (max_events capacity steps : ℕ) where
  -- From the answer of the relay on.
  unfoldable pub after_response : Bytes → List Sent → Option (Bytes × List Event) → Fetched
  after_response req sends none = minus_one
  after_response req sends (some (resp, left)) =
      if starts_with (codes "HTTP/1.1 101") resp
      then if (send_text c.mask c.memory req sends).1
        then collect format max_events capacity steps steps [] 0 (first_result format) left
        else minus_one
      else minus_one

  -- On a connection that stands.
  unfoldable pub upgrade : Bytes → Bytes → Bytes → Fetched
  upgrade path host req =
      let hs = handshake path host c.key in
      let sent = send_all c.sends hs in
      if leb 1536 (length hs) || not sent.1
      then minus_one
      else after_response req sent.2 (read_response 4095 [] c.events)

  unfoldable pub query_at : Option Bytes → Bytes → Fetched
  query_at none req = minus_one
  query_at (some rest) req =
      if length (host_of rest) == 0 || ltb 250 (length (host_of rest)) || not c.connected
      then minus_one
      else upgrade (path_of rest) (host_of rest) req

  -- ws_query; each of its loops may take `steps` turns.
  unfoldable pub ws_query : Bytes → Bytes → Fetched
  ws_query url req =
      if query_refused capacity max_events then minus_one else query_at (after_scheme url) req

-- wn_ws_fetch and wn_ws_fetch_many
unfoldable pub wn_ws_fetch : Connection → ℕ → ℕ → Bytes → Bytes → Fetched
wn_ws_fetch c steps capacity url req = ws_query c single_event 1 capacity steps url req

unfoldable pub wn_ws_fetch_many : Connection → ℕ → ℕ → ℕ → Bytes → Bytes → Fetched
wn_ws_fetch_many c steps capacity max_events url req =
    ws_query c event_lines max_events capacity steps url req

-- sticker_write, on the buffer's memory and its `len`: the bytes that it takes, and the buffer.
unfoldable pub sticker_write : Bytes → ℕ → Bytes → ℕ → ℕ → ℕ × Bytes × ℕ
sticker_write memory len bytes size count =
    if not (size == 0) && ltb ((length memory - len) / size) count
    then (0, memory, len)
    else (size * count, write_at memory len (take (size * count) bytes), len + size * count)
