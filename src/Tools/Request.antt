-- ===== src/Tools/Request.antt =====
-- A request on its way to the tool broker (app/tool_broker.c): the checks and the payload of
-- open_request, and what serve_request makes of it up to the start of the tool.
pub mod Packed
pub mod Admitted
pub mod Proxied
pub mod Sent
pub mod Agreement
pub mod Checked
use whitenoise_linux.Base.Results.{
  Result, ok, err, ◌>>=◌, ◌>>◌, guard, or_error, enoent, eio, e2big, einval,
}
use whitenoise_linux.Base.{
  ℕ, zero, suc, ◌+◌, ◌-◌, ◌^◌, ◌*◌, List, [], ◌∷◌, ◌++◌, Bytes, Bool, true, false, not, Option,
  none, some, ltb, leb, ◌==◌, ◌&&◌, ◌||◌, if◌then◌else◌, codes, length, take, ◌≡◌, refl,
}
use whitenoise_linux.Broker.Strings.{strnlen, split}
use whitenoise_linux.Broker.Channel.{Channel, Turn, transfer, write_turns}
use whitenoise_linux.Decoder.Wire.{put, u32}
use whitenoise_linux.Tools.Environment.{arg_limit, same_start, proxy_size, curl_environment}

abbrev pub arg_count : ℕ
arg_count = 64

abbrev pub output_limit : ℕ
output_limit = 128 * (1024 * 1024)

-- enum wn_tool_operation
abbrev pub tool_curl : ℕ
tool_curl = 1

abbrev pub tool_notify : ℕ
tool_notify = 2

abbrev pub tool_open_dialog : ℕ
tool_open_dialog = 3

abbrev pub tool_save_dialog : ℕ
tool_save_dialog = 4

-- struct request: four 32-bit words.
pub record Request : Type 0 where
  pub operation : ℕ
  pub count : ℕ
  pub bytes : ℕ
  pub proxy_bytes : ℕ

-- The struct as it travels, in the order of its memory, which is little-endian.
unfoldable pub request_out : Request → Bytes
request_out r = put r.operation ++ (put r.count ++ (put r.bytes ++ put r.proxy_bytes))

unfoldable pub request_in : Bytes → Request
request_in d = record {
  operation = u32 d 0;
  count = u32 d 4;
  bytes = u32 d 8;
  proxy_bytes = u32 d 12;
}

abbrev pub scheme : Bytes
scheme = codes "socks5h://"

-- The first loop of open_request: a NULL argument, one that does not end within the limit or that
-- the block has no room for, or the block so far with it. An argument is its bytes, without the NUL.
unfoldable pub pack : Bytes → List (Option Bytes) → Result Bytes
pack payload [] = ok payload
pack payload (none ∷ arguments) = err einval
pack payload (some s ∷ arguments) =
    let n = strnlen (s ++ 0 ∷ []) arg_limit in
    if n == arg_limit || ltb (arg_limit - length payload) (n + 1)
    then err e2big
    else pack (payload ++ take (n + 1) (s ++ 0 ∷ [])) arguments

-- proxy_bytes, which is 0 for NULL and for the empty string.
unfoldable pub proxy_length : Option Bytes → ℕ
proxy_length none = 0
proxy_length (some []) = 0
proxy_length (some (c ∷ p)) = strnlen (c ∷ (p ++ 0 ∷ [])) proxy_size + 1

-- The text of the proxy, empty where none is given.
abbrev pub text_of : Option Bytes → Bytes
text_of none = []
text_of (some p) = p

-- The bytes that `proxy` points to.
abbrev pub pointed : Option Bytes → Bytes
pointed none = []
pointed (some p) = p ++ 0 ∷ []

-- open_request up to its socketpair: an error, or the request, its payload and its proxy.
unfoldable pub checked_request :
    ℕ → List (Option Bytes) → Option Bytes → Result (Request × Bytes × Bytes)
unfolding pack proxy_length
checked_request operation arguments proxy = do
  guard (leb (length arguments) arg_count) e2big
  let proxy_bytes = proxy_length proxy
  guard (not (ltb proxy_size proxy_bytes || not (proxy_bytes == 0) && not (operation == tool_curl)))
      einval
  guard
      (not (
        not (proxy_bytes == 0)
        && (ltb proxy_bytes 11 || not (same_start (text_of proxy) scheme 9))))
      einval
  payload ← pack [] arguments
  let request : Request = record {
    operation = operation;
    count = length arguments;
    bytes = length payload;
    proxy_bytes = proxy_bytes;
  }
  ok (request, payload, take proxy_bytes (pointed proxy))

-- What the system answers to open_request: the errno of socketpair and of fcntl, whether the broker
-- is connected and took the other end of the channel, and the answers of write.
pub record Opening : Type 0 where
  pub pair_error : Option ℕ
  pub flag_error : Option ℕ
  pub handed_over : Bool
  pub turns : List Turn

-- What open_request returns, the bytes that it has written to its end of the channel, and the ends
-- (0 is its own) that it has closed of those that it opened.
pub record Opened : Type 0 where
  pub error : ℕ
  pub sent : Bytes
  pub opened : List ℕ
  pub closed : List ℕ

abbrev pub refused : ℕ → Opened
refused e = record { error = e; sent = []; opened = []; closed = [] }

abbrev pub both : List ℕ
both = 0 ∷ 1 ∷ []

-- The three writes, one behind the other; `||` stops at the first that fails.
unfoldable pub send_request : List Turn → Bytes → Opened
send_request turns message =
    let (whole, out) = write_turns turns message in
    if whole
    then record { error = 0; sent = out; opened = both; closed = 1 ∷ [] }
    else record { error = eio; sent = out; opened = both; closed = 1 ∷ 0 ∷ [] }

abbrev pub flagged : Opening → Option ℕ → Bytes → Opened
flagged o (some e) message = record { error = e; sent = []; opened = both; closed = both }
flagged o none message =
    if o.handed_over
    then send_request o.turns message
    else record { error = eio; sent = []; opened = both; closed = 1 ∷ 0 ∷ [] }

abbrev pub paired : Opening → Option ℕ → Bytes → Opened
paired o (some e) message = refused e
paired o none message = flagged o o.flag_error message

abbrev pub open_checked : Opening → Result (Request × Bytes × Bytes) → Opened
open_checked o (err e) = refused e
open_checked o (ok (request, payload, proxy)) =
    paired o o.pair_error (request_out request ++ (payload ++ proxy))

unfoldable pub open_request : Opening → ℕ → List (Option Bytes) → Option Bytes → Opened
unfolding checked_request send_request
open_request o operation arguments proxy =
    open_checked o (checked_request operation arguments proxy)

-- What wn_tools_start has frozen before the broker serves: `tools`, an empty text where there is no
-- such program, and `tool_environment`.
pub record Broker : Type 0 where
  pub tools : ℕ → Bytes
  pub environment : List Bytes

-- What serve_request runs: the operation, the path and the arguments, and the environment.
pub record Run : Type 0 where
  pub operation : ℕ
  pub argv : List Bytes
  pub environment : List Bytes

-- The first condition of serve_request, between its reads.
unfoldable pub within_limits : Request → Bool
within_limits r = not (
    ltb r.operation tool_curl
    || ltb tool_save_dialog r.operation
    || ltb arg_count r.count
    || ltb arg_limit r.bytes
    || ltb proxy_size r.proxy_bytes
    || not (r.proxy_bytes == 0) && not (r.operation == tool_curl))

-- The text that `proxy` holds, if it is one that is accepted.
unfoldable pub proxy_accepted : ℕ → Bytes → Bool
proxy_accepted proxy_bytes proxy = not (
    ltb proxy_bytes 11
    || not (strnlen proxy proxy_bytes == proxy_bytes - 1)
    || not (same_start (take (proxy_bytes - 1) proxy) scheme 9))

unfoldable pub child_environment : Broker → ℕ → Bytes → Result (List Bytes)
unfolding proxy_accepted
child_environment b proxy_bytes proxy =
    if proxy_bytes == 0
    then ok b.environment
    else if proxy_accepted proxy_bytes proxy
    then ok (curl_environment b.environment (take (proxy_bytes - 1) proxy))
    else err einval

unfoldable pub argv_of : Broker → Request → List Bytes → Option (List Bytes × Bytes) → Result Run
argv_of b r environment none = err einval
argv_of b r environment (some (arguments, left)) =
    if length left == 0
    then ok (record {
      operation = r.operation;
      argv = b.tools r.operation ∷ arguments;
      environment = environment;
    })
    else err einval

-- serve_request up to its pipes: the error of its response, or what it runs.
unfoldable pub admit : Broker → Channel → Result Run
unfolding within_limits child_environment argv_of
admit b c = do
  (header, c₁) ← or_error einval (transfer c 16)
  let r = request_in header
  guard (within_limits r) einval
  (arguments, c₂) ← or_error einval (transfer c₁ r.bytes)
  (proxy, c₃) ← or_error einval (transfer c₂ r.proxy_bytes)
  environment ← child_environment b r.proxy_bytes proxy
  guard (not (length (b.tools r.operation) == 0)) enoent
  argv_of b r environment (split r.count arguments)
