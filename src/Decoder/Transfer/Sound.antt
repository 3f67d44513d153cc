-- ===== src/Decoder/Transfer/Sound.antt =====
-- What a successful decoder_transfer of app/decoder_ipc.c has sent and received.
use whitenoise_linux.Base.{
  ℕ, List, [], ◌∷◌, Bytes, true, false, Option, none, some, leb, if◌then◌else◌, ◌≡◌, refl, ◌∙◌,
  arith, length-append, take_all,
}
use whitenoise_linux.Decoder.Reply.{Kind, Reply}
use whitenoise_linux.Decoder.Reply.Filled.{AtHeader, at_header}
use whitenoise_linux.Decoder.Reply.Limits.{Limits, limits}
use whitenoise_linux.Decoder.Reply.Arrive.{GivesSize}
use whitenoise_linux.Decoder.Reply.Keeps.{IsWhole, image_complete-IsWhole}
use whitenoise_linux.Decoder.Transfer.{
  Recv, got, blocked, interrupted, broken, Round, Request, Transfer, Next, stop, go, on_time, turn,
  turns, decoder_transfer, start,
}
use whitenoise_linux.Decoder.Transfer.Pieces.{
  Keeps, Keeps-if, on_time-Keeps, Going, Done, request_bytes,
}

module _ (malloc : ℕ → Option Bytes) (gives : GivesSize malloc) (q : Request) (k : Kind)
    (l : Limits) where
  turn-Keeps : (r : Round) (t : Transfer) → Going q k l t → Keeps q k l (turn malloc q r t)
  unfolding turn
  turn-Keeps r t v = in_time r.now
    where
      in_time :
          (n : Option ℕ)
          → Keeps q k l (elim n [
            | none ↦ stop t false
            | some now ↦ if leb q.deadline now then stop t false else on_time malloc q r now t
          ])
      in_time none = tt
      in_time (some now) =
          Keeps-if q k l (leb q.deadline now) (stop t false) (on_time malloc q r now t) tt
            (on_time-Keeps malloc gives q k l r now t v)

  turns-Keeps : (rs : List Round) (t : Transfer) → Going q k l t → Keeps q k l (turns malloc q rs t)
  unfolding turns
  turns-Keeps [] t v = v
  turns-Keeps (r ∷ rs) t v = next (λ t'. turns-Keeps rs t') (turn malloc q r t) (turn-Keeps r t v)
    where
      next :
          ((t' : Transfer) → Going q k l t' → Keeps q k l (turns malloc q rs t'))
          → (x : Next) → Keeps q k l x
          → Keeps q k l (elim x [ stop t' b ↦ stop t' b | go t' ↦ turns malloc q rs t' ])
      next later (stop t' true) h = h
      next later (stop t' false) h = tt
      next later (go t') h = later t' h

-- A reply that nothing has been read into, with limits that a request may have.
abbrev pub IsFresh : Kind → Reply → Type 0
IsFresh k r = AtHeader k r []

-- When a transfer succeeds, the helper was sent the whole request and nothing else, its reply is
-- whole and in place, and a one-shot helper ended with status 0.
pub decoder_transfer-IsWhole :
    (malloc : ℕ → Option Bytes)
    → GivesSize malloc
    → (q : Request) (k : Kind) (r : Reply) (peek : Recv) (rs : List Round) (t : Transfer)
    → IsFresh k r
    → decoder_transfer malloc q peek rs (start r) ≡ stop t true
    → (b : Bytes) × IsWhole k t.reply t.arrived b
      × (limits t.reply ≡ limits r)
      × (t.wire ≡ request_bytes q)
      × (q.finish ≡ true → (t.reaped ≡ true) × (t.status ≡ some 0))
unfolding decoder_transfer
decoder_transfer-IsWhole malloc gives q k r peek rs t fresh e =
    let (v, d) = finished peek e in
    let (b, whole) = image_complete-IsWhole k t.reply t.arrived v.filled d.complete in
    (
      b,
      whole,
      v.same,
      v.wire_is
          ∙ take_all t.sent (request_bytes q)
              (omega (arith, d.all_sent, length-append q.header q.content)),
      d.well,
    )
  where
    begun : Going q k (limits r) (start r)
    begun = record { filled = at_header fresh; same = refl; wire_is = refl; within = omega arith }

    kept : turns malloc q rs (start r) ≡ stop t true → Going q k (limits r) t × Done q t
    kept e = rw e at (turns-Keeps malloc gives q k (limits r) rs (start r) begun)

    finished :
        (peek : Recv)
        → decoder_transfer malloc q peek rs (start r) ≡ stop t true
        → Going q k (limits r) t × Done q t
    finished (got d) e = cc
    finished broken e = cc
    finished blocked e = kept e
    finished interrupted e = kept e
