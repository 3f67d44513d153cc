-- ===== src/Decoder/Transfer/Pieces.antt =====
-- The branches of one turn of decoder_transfer of app/decoder_ipc.c keep what has been sent and
-- received.
use mathlib.Core.Bool.{false≢true}
use whitenoise_linux.Base.{
  ℕ, ◌+◌, ◌-◌, ◌≤◌, ◌++◌, Bytes, Bool, true, false, not, ◌&&◌, ◌||◌, Option, some, ltb, ◌==◌,
  if◌then◌else◌, length, take, drop, ◌≡◌, refl, sym, ap, ◌∙◌, arith, Bool-cases, take-append-drop,
  append_assoc, drop-append_le, drop-append_ge, take-append_next, length-append, length-take,
  length-drop, inl, inr,
}
use whitenoise_linux.Decoder.Reply.{Kind, image_buffer, image_complete}
use whitenoise_linux.Decoder.Reply.Filled.{Filled}
use whitenoise_linux.Decoder.Reply.Limits.{Limits, limits, limits-arrive}
use whitenoise_linux.Decoder.Reply.Arrive.{arrive, GivesSize}
use whitenoise_linux.Decoder.Reply.Keeps.{arrive-Filled}
use whitenoise_linux.Decoder.Transfer.{
  Recv, got, blocked, interrupted, broken, Send, wrote, full, refused, Wait, alive, exited, killed,
  again, no_child, error, Poll, ready, timed_out, disturbed, failed, Round, Request, Transfer, Next,
  stop, go, total, offered, ended, waited, receive, received, transmit, send_next, polled, on_time,
}

-- All that the request consists of.
abbrev pub request_bytes : Request → Bytes
request_bytes q = q.header ++ q.content

-- The socket has taken a prefix of the request, and what it gave stands in the reply.
pub record Going (q : Request) (k : Kind) (l : Limits) (t : Transfer) : Type 0 where
  pub filled : Filled k t.reply t.arrived
  pub same : limits t.reply ≡ l
  pub wire_is : t.wire ≡ take t.sent (request_bytes q)
  pub within : t.sent ≤ total q

-- The whole request is out and the reply complete; a one-shot helper has ended with status 0.
pub record Done (q : Request) (t : Transfer) : Type 0 where
  pub all_sent : t.sent ≡ total q
  pub complete : image_complete t.reply ≡ true
  pub well : q.finish ≡ true → (t.reaped ≡ true) × (t.status ≡ some 0)

abbrev pub Keeps : Request → Kind → Limits → Next → Type 0
Keeps q k l (go t) = Going q k l t
Keeps q k l (stop t true) = Going q k l t × Done q t
Keeps q k l (stop t false) = Unit {0}

pub Keeps-if :
    (q : Request) (k : Kind) (l : Limits) (b : Bool) (x y : Next)
    → Keeps q k l x
    → Keeps q k l y
    → Keeps q k l (if b then x else y)
Keeps-if q k l true x y hx hy = hx
Keeps-if q k l false x y hx hy = hy

-- What send() is offered follows what it has taken.
offered_next :
    (q : Request) (sent n : ℕ)
    → sent ≤ total q
    → (rest : Bytes) × (drop sent (request_bytes q) ≡ take n (offered q sent) ++ rest)
offered_next q sent n h = elim (Bool-cases (ltb sent (length q.header))) [
  | inl e ↦
      let l = drop sent q.header in
      (
        drop n l ++ q.content,
        rw e (
            drop-append_le sent q.header q.content (ground arith)
            ∙ ap (λ (t : Bytes). t ++ q.content) (sym (take-append-drop n l))
            ∙ append_assoc (take n l) (drop n l) q.content),
      )
  | inr e ↦
      let l = drop (sent - length q.header) q.content in
      (
        drop n (take 65536 l) ++ drop 65536 l,
        rw e (
            drop-append_ge sent q.header q.content (ground arith)
            ∙ sym (take-append-drop 65536 l)
            ∙ ap (λ (t : Bytes). t ++ drop 65536 l) (sym (take-append-drop n (take 65536 l)))
            ∙ append_assoc (take n (take 65536 l)) (drop n (take 65536 l)) (drop 65536 l)),
      )
]

module _ (malloc : ℕ → Option Bytes) (gives : GivesSize malloc) (q : Request) (k : Kind)
    (l : Limits) where
  sends :
      (t : Transfer) (n : ℕ)
      → Going q k l t
      → let d = take n (offered q t.sent) in
        Going q k l (record t { sent = t.sent + length d; wire = t.wire ++ d })
  sends t n v =
      let d = take n (offered q t.sent) in
      let (rest, e) = offered_next q t.sent n v.within in
      record {
        filled = v.filled;
        same = v.same;
        wire_is =
            ap (λ (w : Bytes). w ++ d) v.wire_is
            ∙ take-append_next t.sent (request_bytes q) d rest e;
        within = omega (
          arith,
          v.within,
          ap length e,
          length-append d rest,
          length-drop t.sent (request_bytes q),
          length-append q.header q.content,
        );
      }

  received-Keeps :
      (t : Transfer) (d : Bytes)
      → length d ≤ (image_buffer t.reply).1
      → Going q k l t
      → Keeps q k l (received malloc q t d)
  unfolding received
  received-Keeps t d h v = elim (Bool-cases (length d == 0)) [
    | inl nothing ↦ rw nothing (
        Keeps-if q k l (not q.finish || not (image_complete t.reply) || not (t.sent == total q))
          (stop (record t { eof = true }) false) (go (record t { eof = true })) tt
          (record { filled = v.filled; same = v.same; wire_is = v.wire_is; within = v.within }))
    | inr more ↦ elim (Bool-cases (arrive malloc t.reply d).1) [
      | inl e ↦
          rw (more, e)
            (record {
              filled = arrive-Filled malloc gives k t.reply t.arrived d v.filled (ground arith) h e;
              same = limits-arrive malloc t.reply d ∙ v.same;
              wire_is = v.wire_is;
              within = v.within;
            })
      | inr e ↦ rw (more, e) tt
    ]
  ]

  receive-Keeps : (t : Transfer) (a : Recv) → Going q k l t → Keeps q k l (receive malloc q t a)
  unfolding receive
  receive-Keeps t (got d) v =
      received-Keeps t (take (image_buffer t.reply).1 d)
        (omega (arith, length-take (image_buffer t.reply).1 d)) v
  receive-Keeps t blocked v = v
  receive-Keeps t interrupted v = v
  receive-Keeps t broken v = tt

  transmit-Keeps :
      (t : Transfer) (a : Send) (shut : Bool)
      → Going q k l t
      → Keeps q k l (transmit malloc q t a shut)
  unfolding transmit
  transmit-Keeps t (wrote n) shut v =
      let d = take n (offered q t.sent) in
      let t' = record t { sent = t.sent + length d; wire = t.wire ++ d } in
      let last = q.finish && t'.sent == total q && not shut in
      Keeps-if q k l (length d == 0) (stop t false) (if last then stop t' false else go t') tt
        (Keeps-if q k l last (stop t' false) (go t') tt (sends t n v))
  transmit-Keeps t full shut v = v
  transmit-Keeps t refused shut v = tt

  send_next-Keeps :
      (r : Round) (writable : Bool) (x : Next)
      → Keeps q k l x
      → Keeps q k l (send_next malloc q r writable x)
  unfolding send_next
  send_next-Keeps r writable (stop t true) v = v
  send_next-Keeps r writable (stop t false) v = tt
  send_next-Keeps r writable (go t) v =
      Keeps-if q k l (writable && ltb t.sent (total q)) (transmit malloc q t r.send r.shut) (go t)
        (transmit-Keeps t r.send r.shut v) v

  polled-Keeps :
      (r : Round) (t : Transfer) (a : Poll) → Going q k l t → Keeps q k l (polled malloc q r t a)
  unfolding polled
  polled-Keeps r t (ready readable writable invalid) v =
      let x = if readable then receive malloc q t r.recv else go t in
      Keeps-if q k l invalid (stop t false) (send_next malloc q r writable x) tt (
        send_next-Keeps r writable x
          (Keeps-if q k l readable (receive malloc q t r.recv) (go t) (receive-Keeps t r.recv v) v))
  polled-Keeps r t timed_out v = tt
  polled-Keeps r t disturbed v = v
  polled-Keeps r t failed v = tt

  ended-Keeps :
      (t : Transfer) (a : Recv)
      → q.finish ≡ false
      → t.sent ≡ total q
      → image_complete t.reply ≡ true
      → Going q k l t
      → Keeps q k l (ended t a)
  unfolding ended
  ended-Keeps t (got d) f e c v = tt
  ended-Keeps t blocked f e c v =
      (v, record { all_sent = e; complete = c; well = λ h. absurd (false≢true (sym f ∙ h)) })
  ended-Keeps t interrupted f e c v = v
  ended-Keeps t broken f e c v = tt

  waited-Keeps : (t : Transfer) (a : Wait) → Going q k l t → Keeps q k l (waited q t a)
  unfolding waited
  waited-Keeps t (exited code) v =
      elim (Bool-cases (t.sent == total q && image_complete t.reply && code == 0)) [
        | inl e ↦ rw e (
          record { filled = v.filled; same = v.same; wire_is = v.wire_is; within = v.within },
          record {
            all_sent = ground arith;
            complete = ground arith;
            well = λ h. (refl, ground arith);
          },
        )
        | inr e ↦ rw e tt
      ]
  waited-Keeps t alive v = v
  waited-Keeps t killed v = tt
  waited-Keeps t again v = v
  waited-Keeps t no_child v = tt
  waited-Keeps t error v = tt

  pub on_time-Keeps :
      (r : Round) (now : ℕ) (t : Transfer) → Going q k l t → Keeps q k l (on_time malloc q r now t)
  unfolding on_time
  on_time-Keeps r now t v =
      elim (Bool-cases (not q.finish && t.sent == total q && image_complete t.reply)) [
        | inl e ↦ rw e (ended-Keeps t r.peek (ground arith) (ground arith) (ground arith) v)
        | inr e ↦ rw e (
            Keeps-if q k l t.eof (waited q t r.wait)
              (polled malloc q r t (r.poll (q.deadline - now))) (waited-Keeps t r.wait v)
              (polled-Keeps r t (r.poll (q.deadline - now)) v))
      ]
