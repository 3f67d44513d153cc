-- ===== src/Tests/Decoder.antt =====
-- Runs of app/decoder_ipc.c against a helper that answers well, and instances of its theorems.
use whitenoise_linux.Base.Int.{pos}
use whitenoise_linux.Base.{
  ◌+◌, ℕ, ◌≤◌, [], ◌∷◌, ◌++◌, Bytes, true, false, Option, none, some, codes, same_bytes, length,
  take, drop, replicate, length-replicate, ◌≡◌, refl, sym, ap, ◌∙◌, arith, ◌⊎◌, inl, ◌↔◌, ◌<◌,
}
use mathlib.Core.Option.{some-injective}
use whitenoise_linux.Decoder.Reply.Limits.{limits}
use whitenoise_linux.Decoder.Transfer.Pieces.{request_bytes}
use whitenoise_linux.Decoder.Start.{
  Start, opens, closes, image_high_fd, finish, decoder_start, opens_of, closes_of, holds, socket_of,
  decoder_start_balanced,
}
use whitenoise_linux.Decoder.Wire.{put, u32}
use whitenoise_linux.Decoder.Reply.{
  image, list_all, one_entry, image_buffer, store, decoder_header, page_counted, image_received,
  image_complete,
}
use whitenoise_linux.Decoder.Reply.Header.{
  decoder_header_accepts, IsGood, parsed, ready as is_ready, block,
}
use whitenoise_linux.Decoder.Reply.Filled.{Filled, at_header, Fits, image_buffer-Fits}
use whitenoise_linux.Decoder.Reply.Arrive.{GivesSize, arrive}
use whitenoise_linux.Decoder.Reply.Keeps.{arrive-Filled, IsWhole}
use whitenoise_linux.Decoder.Transfer.{
  got, blocked, wrote, full, exited, ready, Round, Request, Transfer, stop, on_time, turn, turns,
  decoder_transfer, start,
}
use whitenoise_linux.Decoder.Transfer.Sound.{decoder_transfer-IsWhole}
use whitenoise_linux.Decoder.Build.{
  Run, archive_cap, has_zero, image_request, image_reply, archive_request, pdf_request,
  math_request,
}
use whitenoise_linux.Decoder.Requests.{
  image_run, wn_image_decode, wn_math_render, wn_archive_read, wn_pdf_render,
}
use whitenoise_linux.Decoder.Requests.Outcome.{IsFresh-blank, Failed, IsPicture}
use whitenoise_linux.Decoder.Requests.Picture.{wn_image_decode-IsPicture}
use whitenoise_linux.Decoder.Requests.Payload.{CountFits, wn_archive_read_payload}
use whitenoise_linux.Decoder.Session.{
  Session, Answers, Ask, Answer, model_request, after_transfer, exchange_at, wn_model_exchange,
}
use whitenoise_linux.Decoder.Session.Exchange.{Ended, wn_model_exchange-Ended}

-- An allocator that always has memory.
abbrev zeros : ℕ → Option Bytes
zeros n = some (replicate n 0)

zeros-GivesSize : GivesSize zeros
zeros-GivesSize n b e = ap length (sym (some-injective _ _ e)) ∙ length-replicate n 0

-- A turn in which the socket can be read, and one in which it can be written.
abbrev base_round : Round
base_round = record {
  now = some 0;
  peek = blocked;
  wait = exited 0;
  poll = λ _. ready false false false;
  spends = λ _. 0;
  recv = blocked;
  send = full;
  shut = true;
}

abbrev sends : ℕ → Round
sends n = record base_round { poll = λ _. ready false true false; send = wrote n }

abbrev gives : Bytes → Round
gives d = record base_round { poll = λ _. ready true false false; recv = got d }

-- A helper that takes the request, answers and ends well.
abbrev good_run : Bytes → Bytes → Run
good_run head body = record {
  clock = some 0;
  started = true;
  peek = blocked;
  rounds =
      sends 10
      ∷ sends 100
      ∷ sends 100
      ∷ gives (take 7 head)
      ∷ gives (drop 7 head)
      ∷ gives body
      ∷ gives []
      ∷ base_round
      ∷ [];
}

-- A picture of one pixel.
abbrev picture : Bytes
picture = codes "WNO1" ++ (put 1 ++ (put 1 ++ put 4))

decoded :
    wn_image_decode zeros
      (good_run picture (1 ∷ 2 ∷ 3 ∷ 4 ∷ []))
      true
      (some (codes "/h"))
      (some (5 ∷ 6 ∷ []))
      (pos 2)
      (pos 8)
      64
    ≡ some (some (1 ∷ 2 ∷ 3 ∷ 4 ∷ []), 1, 1)
unfolding wn_image_decode image_run image_request decoder_transfer turns turn on_time image_buffer
    store put u32 image_received decoder_header image_complete same_bytes
decoded = refl

wn_image_decode-IsPicture_example :
    Failed (some (1 ∷ 2 ∷ 3 ∷ 4 ∷ [])) 1 1 ⊎ IsPicture 8 8 64 1 1 (some (1 ∷ 2 ∷ 3 ∷ 4 ∷ []))
wn_image_decode-IsPicture_example =
    wn_image_decode-IsPicture zeros zeros-GivesSize (good_run picture (1 ∷ 2 ∷ 3 ∷ 4 ∷ [])) true
      (some (codes "/h")) (some (5 ∷ 6 ∷ [])) (pos 2) (pos 8) 64 _ 1 1 decoded

-- A formula of one pixel.
abbrev formula : Bytes
formula = codes "MAO1" ++ (put 1 ++ (put 1 ++ put 4))

rendered :
    wn_math_render zeros
      (good_run formula (1 ∷ 2 ∷ 3 ∷ 4 ∷ []))
      true
      (some (codes "/h"))
      (some (codes "x"))
      (pos 1)
      1090519040
      true
      0
      8
      64
    ≡ some (some (1 ∷ 2 ∷ 3 ∷ 4 ∷ []), 1, 1)
unfolding wn_math_render image_run math_request decoder_transfer turns turn on_time image_buffer
    store put u32 image_received decoder_header image_complete same_bytes has_zero
rendered = refl

-- An archive whose second entry has three bytes.
abbrev entry : Bytes
entry = codes "ARO1" ++ (put 0 ++ (put 1 ++ put 3))

read :
    wn_archive_read zeros
      (good_run entry (7 ∷ 8 ∷ 9 ∷ []))
      true
      (some (codes "/h"))
      (some (codes "PK"))
      (pos 2)
      one_entry
      1
    ≡ some (some (7 ∷ 8 ∷ 9 ∷ []), 0, 3)
unfolding wn_archive_read image_run archive_request decoder_transfer turns turn on_time image_buffer
    store put u32 image_received decoder_header image_complete same_bytes
read = refl

wn_archive_read_payload_example :
    Failed (some (7 ∷ 8 ∷ 9 ∷ [])) 0 3
    ⊎ ((b : Bytes) × (◌≡◌ {A = Option Bytes} (some (7 ∷ 8 ∷ 9 ∷ [])) (some b))
        × (3 ≤ length b)
        × (3 ≤ archive_cap one_entry)
        × CountFits one_entry 0 3)
wn_archive_read_payload_example =
    wn_archive_read_payload zeros zeros-GivesSize (good_run entry (7 ∷ 8 ∷ 9 ∷ [])) true
      (some (codes "/h")) (some (codes "PK")) (pos 2) one_entry 1 _ 0 3 read

-- A document of three pages, whose second page is one pixel.
abbrev page_run : Run
page_run = good_run (codes "PDO1" ++ (put 1 ++ (put 1 ++ put 8))) (put 3)

paged :
    wn_pdf_render zeros
      (record page_run {
        rounds =
            sends 20
            ∷ sends 100
            ∷ gives (codes "PDO1" ++ (put 1 ++ (put 1 ++ put 8)))
            ∷ gives (put 3)
            ∷ gives (1 ∷ 2 ∷ [])
            ∷ gives (3 ∷ 4 ∷ [])
            ∷ gives []
            ∷ base_round
            ∷ [];
      })
      true
      (some (codes "/h"))
      (some (codes "%PDF"))
      (pos 4)
      1
      8
      0
    ≡ some (some (1 ∷ 2 ∷ 3 ∷ 4 ∷ []), 3, 1, 1)
unfolding wn_pdf_render image_run pdf_request decoder_transfer turns turn on_time image_buffer store
    put u32 image_received decoder_header page_counted image_complete same_bytes
paged = refl

-- One transfer of a session that has answered nothing yet.
abbrev scene : Answers
scene = record {
  clock = some 0;
  peek = blocked;
  rounds =
      sends 16
      ∷ sends 100
      ∷ gives (codes "FBO1" ++ (put 0 ++ (put 1 ++ put 2)))
      ∷ gives (4 ∷ 5 ∷ [])
      ∷ base_round
      ∷ [];
}

abbrev open_ask : Ask
open_ask = record {
  operation = 0;
  content = some (9 ∷ []);
  size = 1;
  output = none;
  capacity = 0;
  has_length = true;
}

abbrev running : Session
running = record {
  process = record { child = some 77; socket = some 5; reaped = false };
  active = true;
  sequence = 0;
}

abbrev replied_to : Answer
replied_to = record {
  payload = some (4 ∷ 5 ∷ []);
  length = 2;
  wire = codes "FBI1" ++ (put 0 ++ (put 1 ++ (put 1 ++ (9 ∷ []))));
}

exchanged :
    wn_model_exchange zeros scene running open_ask
    ≡ some (record running { sequence = 1 }, replied_to)
unfolding wn_model_exchange exchange_at after_transfer model_request decoder_transfer turns turn
    on_time image_buffer store put u32 image_received decoder_header image_complete same_bytes
exchanged = refl

wn_model_exchange-Ended_example :
    Ended running open_ask (record running { sequence = 1 }) replied_to
wn_model_exchange-Ended_example =
    wn_model_exchange-Ended zeros zeros-GivesSize scene running (record running { sequence = 1 })
      open_ask replied_to (inl refl) (omega arith) exchanged

-- The transfer of the picture, by itself.
abbrev picture_request : Request
picture_request = record {
  header = codes "WNI1" ++ (put 2 ++ (put 8 ++ put 64));
  content = 5 ∷ 6 ∷ [];
  finish = true;
  deadline = 10000;
}

abbrev whole_transfer : Transfer
whole_transfer = record {
  reply = record (image_reply (pos 8) 64) {
    header = picture;
    received = 20;
    bytes = 4;
    width = 1;
    height = 1;
    pixels = some (1 ∷ 2 ∷ 3 ∷ 4 ∷ []);
  };
  sent = 18;
  eof = true;
  reaped = true;
  status = some 0;
  wire = codes "WNI1" ++ (put 2 ++ (put 8 ++ (put 64 ++ (5 ∷ 6 ∷ []))));
  arrived = picture ++ (1 ∷ 2 ∷ 3 ∷ 4 ∷ []);
}

transferred :
    decoder_transfer zeros picture_request blocked
      (good_run picture (1 ∷ 2 ∷ 3 ∷ 4 ∷ [])).rounds
      (start (image_reply (pos 8) 64))
    ≡ stop whole_transfer true
unfolding decoder_transfer turns turn on_time image_buffer store put u32 image_received
    decoder_header image_complete same_bytes
transferred = refl

decoder_transfer-IsWhole_example :
    (b : Bytes) × IsWhole image whole_transfer.reply whole_transfer.arrived b
    × (limits whole_transfer.reply ≡ limits (image_reply (pos 8) 64))
    × (whole_transfer.wire ≡ request_bytes picture_request)
    × (picture_request.finish ≡ true
        → (whole_transfer.reaped ≡ true) × (whole_transfer.status ≡ some 0))
decoder_transfer-IsWhole_example =
    decoder_transfer-IsWhole zeros zeros-GivesSize picture_request image (image_reply (pos 8) 64)
      blocked (good_run picture (1 ∷ 2 ∷ 3 ∷ 4 ∷ [])).rounds whole_transfer
      (IsFresh-blank image 8 64 list_all 0 0 (omega arith) (omega arith)) transferred

image_buffer-Fits_example :
    Fits
      (image_buffer (image_reply (pos 8) 64)).0
      (image_buffer (image_reply (pos 8) 64)).1
      (image_reply (pos 8) 64)
    × (0 < (image_buffer (image_reply (pos 8) 64)).1)
image_buffer-Fits_example =
    image_buffer-Fits image (image_reply (pos 8) 64) []
      (at_header (IsFresh-blank image 8 64 list_all 0 0 (omega arith) (omega arith)))

arrive-Filled_example : Filled image (arrive zeros (image_reply (pos 8) 64) (87 ∷ [])).0 (87 ∷ [])
unfolding image_buffer image_received store
arrive-Filled_example =
    arrive-Filled zeros zeros-GivesSize image (image_reply (pos 8) 64) [] (87 ∷ [])
      (at_header (IsFresh-blank image 8 64 list_all 0 0 (omega arith) (omega arith))) (omega arith)
      (omega arith) refl

decoder_header_accepts_example :
    ((decoder_header zeros (record (image_reply (pos 8) 64) { header = picture })).1 ≡ true) ↔ (
      IsGood image (parsed image (record (image_reply (pos 8) 64) { header = picture }))
      × (is_ready image (
            block image zeros (parsed image (record (image_reply (pos 8) 64) { header = picture })))
          ≡ true))
decoder_header_accepts_example =
    decoder_header_accepts zeros (record (image_reply (pos 8) 64) { header = picture })
      (omega arith)

-- A turn in which poll waits for all the time that it may, and the next one, at the deadline.
abbrev silent : Round
silent = record base_round { spends = λ timeout. timeout }

abbrev last : Round
last = record base_round { now = some picture_request.deadline }

-- The descriptors of a start whose socket pair is 0 and 7, and whose child cannot be spawned.
abbrev failing_start : Start
failing_start = record {
  pair = some (0, 7);
  parent_copy = some 9;
  child_copy = none;
  null_copy = none;
  null = some 8;
  nonblocking = true;
  child = none;
}

all_closed :
    decoder_start failing_start
    ≡ (none, opens 0 ∷ opens 7 ∷ opens 9 ∷ closes 0 ∷ opens 8 ∷ closes 9 ∷ closes 7 ∷ closes 8 ∷ [])
unfolding decoder_start image_high_fd finish
all_closed = refl

decoder_start_balanced_example :
    opens_of 9 (decoder_start failing_start).1
    ≡ closes_of 9 (decoder_start failing_start).1
      + holds 9 (socket_of (decoder_start failing_start).0)
decoder_start_balanced_example = decoder_start_balanced failing_start 9
