-- ===== src/Lib.antt =====
-- Models and theorems for the C code of White Noise for Linux: the bounded transport between the
-- interface and its sandboxed decoders, the archive helper, the FBX helper, the one-shot
-- websocket client, the policy of the AppImage updater, the proxy of every request and the
-- memory shared with helpers, the input of the speech helper, the two brokers that run programs for
-- the sandboxed interface, the location helper, and the rules of the sandbox.
--
-- Decoder models app/decoder_ipc.c and app/decoder_ipc.h, the interface's side of a decoder. A
-- request is a header of 32-bit words and the file's bytes; the reply is a header, for a PDF a page
-- count, and a payload.
--   * Decoder/Wire: wn_image_put, wn_image_u32 and the limits of decoder_ipc.h.
--   * Decoder/Reply: `struct image_reply`, image_buffer, decoder_header, image_received and
--     image_complete. A pointer is an optional sequence of bytes; recv() into the place that
--     image_buffer returned is `store`. Header, Filled, Arrive, Limits and Keeps hold its theorems.
--   * Decoder/Transfer: decoder_transfer, turn by turn. A Round holds what the system answers in one
--     turn: the clock, recv, send, poll, waitpid and shutdown; what poll answers and how long it takes
--     depend on the timeout it is given (poll_timeout). The loop runs over a list of rounds; it
--     needs no fuel, since a list that ends leaves it running (`go`). Its deadline is in Deadline.
--   * Decoder/Process: decoder_stop, as the list of the system calls that it makes.
--   * Decoder/Build and Decoder/Requests: wn_image_decode, wn_math_render, wn_archive_read,
--     wn_pdf_render and wn_mesh_decode, with image_run between them and the transfer. malloc is a
--     parameter that may fail; that its blocks have the size asked for is a hypothesis, GivesSize.
--   * Decoder/Session: wn_model_start, wn_model_exchange and wn_model_close.
--   * Decoder/Start: decoder_start and image_high_fd, as the descriptors that they open and close; the
--     requests take their result as an argument.
-- image_spawn (fork, close_range, execve) appears as its result only.
-- The Windows branches are not modelled. A float of wn_math_render is its bit pattern.
--
-- WebSocket models app/ws_shim.c. libcurl's answers are lists, one entry for each curl_easy_recv or
-- curl_easy_send; a list that ends is a socket that stays silent until the deadline.
--   * WebSocket/Socket: recv_all and send_all. `stream` is the bytes that can still be read.
--   * WebSocket/Frame: recv_message, frame by frame. Its loop has as many turns as it is given; Bounds
--     shows that one more than the bytes that can be read is enough.
--   * WebSocket/SendText: send_text, and the frames of RFC 6455 (Piece, encode); RoundTrip and Messages
--     read them back.
--   * WebSocket/Query, Compact, Lines and Collect: ws_compact_json and the loop of ws_query.
--     WebSocket/Fetch and Whole: the address, the upgrade, ws_query as a whole, and sticker_write.
-- The options set on libcurl, ws_key's random bytes and the debug output are not modelled.
--
-- Archive models app/archive.c, the helper on the other end of wn_archive_read. libarchive is a list of
-- entries, each with the answers of archive_read_data. Archive/Output: arc_reserve, whose loop has as
-- many turns as bytes are needed, which is enough; Archive/Read: arc_record, arc_extract, arc_read and
-- the reply; Archive/Bounds and Archive/Accepted: what the helper answers and that the parent, Decoder,
-- accepts it. Configuring libarchive (arc_filters, arc_locale) is not modelled.
--
-- Update models app/appimage_update_policy.h: Update/Version is wn_appimage_version, Update/Newer
-- wn_appimage_newer and its order, Update/Reads the texts that are read. Update/Directory is wn_appimage_private_directory
-- of app/appimage_update_directory.h, where lstat and realpath are arguments. wn_appimage_test_feed is not
-- modelled.
--
-- Proxy models app/proxy_credentials.h (Proxy/Credentials, Proxy/Scalars) and app/network_proxy.h
-- (Proxy/Options, Proxy/Closed). The environment variables are arguments; curl_easy_setopt is a
-- parameter that accepts or refuses a setting.
--
-- SharedMemory models wn_ipc_read and wn_ipc_write of app/helper_ipc.c on the bytes of the mapping. The
-- compare-and-exchange of the header word is a list of attempts, each with what others stored. Creating
-- the mapping, wn_helper_guard and wn_model_lock are system calls and not modelled.
--
-- Fbx models app/fbx_helper.c: Fbx/Writer its Writer, Fbx/Metadata metadata, Fbx/Measure, Passes and
-- Whole the agreement of its two passes. What the parser found is a record (Scene) whose arrays are as
-- long as its counts say; a float is its bits and whether it is finite. The loop of main is not modelled.
--
-- Speech models audio_read and audio_seek of app/speech_decode.h, the input that FFmpeg reads through.
--
-- Broker models what app/tool_broker.c and app/helper_broker.c both use: Broker/Strings is strnlen and
-- the cutting of a block of terminated strings, Broker/Channel a socket as the bytes that arrive on it,
-- and the writes to it, one answer of the system for each turn. A channel that is `IsPatient` gives
-- enough turns.
--
-- Tools models app/tool_broker.c, which runs curl, notify-send and zenity for the sandboxed interface.
--   * Tools/Environment: freeze_environment and the proxy of curl.
--   * Tools/Request: open_request, and serve_request up to the start of the tool (admit). Packed,
--     Checked, Sent and Agreement are about the two ends, Admitted about any bytes that come;
--     Proxied says what a proxy's variable is.
--   * Tools/Pump: the loop of serve_request that collects the output, over what poll and read answer.
--   * Tools/Reply: the end of serve_request with its three writes (answer), wn_tools_run and
--     wn_tools_submit_notification; Received reads back what was written.
--   * Tools/Dialog: wn_tools_dialog and dialog_worker; the steps between them are a relation in Workers.
-- Numbers in a struct are little-endian, as on the machines it is built for, and an errno has the number
-- that Linux gives it. wn_tools_start and wn_tools_stop, passing the channel over the broker's socket,
-- the fork, and what is written to stderr are not modelled.
--
-- Helpers models app/helper_broker.c, which starts the sandboxed helpers.
--   * Helpers/Freeze: wn_helpers_freeze; realpath is an argument, and so are the environment's values.
--   * Helpers/Request: the block of wn_helper_execve, and serve_request up to its pipe (admit).
--   * Helpers/Channel: send_channel and receive_channel, by the descriptors that they open and close.
--   * Helpers/Transfer: the transfer with a deadline.
--   * Helpers/Jobs: the launcher's loop and its table of processes.
--   * Helpers/Supervise: serve_request behind its fork, as the list of what it does to the helper.
-- A list of rounds or turns that ends before the loop does leaves it waiting. wn_helpers_start,
-- wn_helpers_stop, socket_pair, the end of wn_helper_execve and execute_helper are not modelled.
--
-- Location models app/location.c, the helper that asks the desktop portal for one position: one function
-- for each callback, and in Location/Events the main loop, which is a history of events in any order
-- (run), with the call to D-Bus that is not answered yet. A double is its 64 bits. GLib's hash table is
-- a list of rows; freeing memory and the options of the calls are not modelled.
--
-- Sandbox models app/main_sandbox.c, as far as it decides what the confined interface may see:
-- Sandbox/Rules is within, add and writable over the table of rules, and the grants of
-- wn_main_sandbox_prepare, one behind the other, with realpath's answer for each; Sandbox/Downloads
-- reads user-dirs.dirs, cut into lines as fgets does with its array, and in Scan reads the escapes.
-- PATH_MAX is 4096. directory, the checks of
-- owners and links (trusted_rule), the copies of authority files, and entering the policy are not
-- modelled.
--
-- Base holds the shared helpers: Boolean tests, lists and bytes over the native numbers, and in
-- Results the results with an errno. Tests holds
-- concrete runs and the instances of the theorems.
pub mod Base
pub mod Archive
pub mod Broker
pub mod Decoder
pub mod Fbx
pub mod Helpers
pub mod Location
pub mod Proxy
pub mod Sandbox
pub mod SharedMemory
pub mod Speech
pub mod Tools
pub mod Update
pub mod WebSocket
pub mod Tests
