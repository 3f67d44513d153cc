-- ===== src/Decoder/Session/Exchange.antt =====
-- What wn_model_exchange of app/decoder_ipc.c leaves and returns.
use whitenoise_linux.Base.{
  ℕ, ◌+◌, ◌≤◌, ◌<◌, [], ◌++◌, Bytes, true, false, ◌||◌, Option, none, some, codes, length, take,
  drop, ◌≡◌, refl, ap, ◌∙◌, ap₂, arith, ◌⊎◌, inl, inr, Bool-cases, subst,
}
use mathlib.Core.Option.{some-injective}
use whitenoise_linux.Decoder.Wire.{model_output_max, u32_mod}
use whitenoise_linux.Decoder.Reply.{model, Reply}
use whitenoise_linux.Decoder.Reply.Header.{IsOpaque}
use whitenoise_linux.Decoder.Reply.Filled.{Lent}
use whitenoise_linux.Decoder.Reply.Arrive.{GivesSize}
use whitenoise_linux.Decoder.Reply.Limits.{Limits}
use whitenoise_linux.Decoder.Transfer.{Request, Transfer, Next, stop, go, decoder_transfer, start}
use whitenoise_linux.Decoder.Transfer.Sound.{IsFresh, decoder_transfer-IsWhole}
use whitenoise_linux.Decoder.Process.{decoder_stop-empty}
use whitenoise_linux.Decoder.Session.{
  Session, Answers, Ask, Answer, nothing, give_up, model_request, model_cap, model_reply,
  content_of, model_refused, after_transfer, exchange_at, wn_model_exchange,
}

-- The caller's array, where there is one, is as large as the caller says.
abbrev pub HasRoom : Ask → Type 0
HasRoom a = (a.output ≡ none) ⊎ ((b : Bytes) × (a.output ≡ some b) × (a.capacity ≤ length b))

-- The exchange was answered by this request's reply.
pub record Replied (s : Session) (a : Ask) (s' : Session) (x : Answer) : Type 0 where
  pub lives : s'.active ≡ true
  pub same_process : s'.process ≡ s.process
  pub next : s'.sequence ≡ s.sequence + 1
  pub in_word : s'.sequence < u32_mod
  pub sent : x.wire ≡ model_request a s'.sequence ++ content_of a
  pub reply : Reply
  pub words : IsOpaque (codes "FBO1") a.operation s'.sequence reply
  pub block : Bytes
  pub payload : x.payload ≡ some block
  pub size : x.length ≡ reply.bytes
  pub fits : x.length ≤ model_cap a
  pub arrived : Bytes
  pub header_is : reply.header ≡ take 16 arrived
  pub payload_is : take x.length block ≡ drop 16 arrived

-- The session is over: its process is stopped and nothing is returned.
pub record GivenUp (s' : Session) (x : Answer) : Type 0 where
  pub over : s'.active ≡ false
  pub no_child : s'.process.child ≡ none
  pub no_socket : s'.process.socket ≡ none
  pub no_payload : x.payload ≡ none
  pub no_length : x.length ≡ 0

-- The three ways in which an exchange ends.
pub data Ended (s : Session) (a : Ask) (s' : Session) (x : Answer) : Type 0 where
  was_over : s.active ≡ false → s' ≡ s → x ≡ nothing [] → Ended s a s' x
  given_up : GivenUp s' x → Ended s a s' x
  replied : Replied s a s' x → Ended s a s' x

HasRoom-Lent : (a : Ask) (sequence : ℕ) → HasRoom a → Lent model (model_reply a sequence)
HasRoom-Lent a sequence (inl e) = inl (rw e refl)
HasRoom-Lent a sequence (inr (b, e, h)) = inr (b, e, ground arith)

cap_small : (a : Ask) → model_cap a ≤ model_output_max
cap_small a = ground arith

model_reply-IsFresh : (a : Ask) (sequence : ℕ) → HasRoom a → IsFresh model (model_reply a sequence)
model_reply-IsFresh a sequence room = record {
  kind_is = refl;
  counted = refl;
  short = omega arith;
  no_bytes = refl;
  small = omega arith;
  cap_small = cap_small a;
  header_size = refl;
  page_size = refl;
  prefix = refl;
  lent = HasRoom-Lent a sequence room;
}

give_up-GivenUp : (s : Session) (w : Bytes) → GivenUp (give_up s) (nothing w)
give_up-GivenUp s w = record {
  over = refl;
  no_child = (decoder_stop-empty s.process).0;
  no_socket = (decoder_stop-empty s.process).1;
  no_payload = refl;
  no_length = refl;
}

gave_up :
    (s s' : Session) (w : Bytes) (x : Answer)
    → ◌≡◌ {A = Option (Session × Answer)} (some (give_up s, nothing w)) (some (s', x))
    → GivenUp s' x
gave_up s s' w x e =
    subst (λ (p : Session × Answer). GivenUp p.0 p.1) (some-injective _ _ e) (give_up-GivenUp s w)

-- The transfer of an exchange succeeded, or the session is given up.
after_transfer_cases :
    (s s' : Session) (n : Next) (x : Answer)
    → after_transfer s n ≡ some (s', x)
    → GivenUp s' x
      ⊎ ((t : Transfer) × (n ≡ stop t true)
          × (s' ≡ s)
          × (x ≡ record { payload = t.reply.pixels; length = t.reply.bytes; wire = t.wire }))
unfolding after_transfer
after_transfer_cases s s' (stop t true) x e = inr (t, refl, ground arith, ground arith)
after_transfer_cases s s' (stop t false) x e = inl (
    gave_up (record s { process = record s.process { reaped = t.reaped || s.process.reaped } }) s'
      t.wire x e)
after_transfer_cases s s' (go t) x e = cc

module _ (malloc : ℕ → Option Bytes) (gives : GivesSize malloc) (answers : Answers) where
  transfer-Replied :
      (s s' : Session) (a : Ask) (x : Answer) (q : Request) (t : Transfer)
      → HasRoom a
      → s.active ≡ true
      → s.sequence + 1 < u32_mod
      → q.header ≡ model_request a (s.sequence + 1)
      → q.content ≡ content_of a
      → decoder_transfer malloc q answers.peek answers.rounds
          (start (model_reply a (s.sequence + 1)))
        ≡ stop t true
      → s' ≡ record s { sequence = s.sequence + 1 }
      → x ≡ record { payload = t.reply.pixels; length = t.reply.bytes; wire = t.wire }
      → Replied s a s' x
  transfer-Replied s s' a x q t room active small qh qc run se xe =
      let (b, whole, same, wire, _) =
        decoder_transfer-IsWhole malloc gives q model _ answers.peek answers.rounds t
          (model_reply-IsFresh a (s.sequence + 1) room) run in
      rw (se, xe)
        (record {
          lives = active;
          same_process = refl;
          next = refl;
          in_word = small;
          sent = wire ∙ ap₂ (λ (h c : Bytes). h ++ c) qh qc;
          reply = t.reply;
          words =
              rw (← ap (λ (l : Limits). l.index) same, ← ap (λ (l : Limits). l.sequence) same)
                whole.accepted;
          block = b;
          payload = whole.pixels_are;
          size = refl;
          fits = rw (← ap (λ (l : Limits). l.cap) same) whole.accepted.fits;
          arrived = t.arrived;
          header_is = whole.header_is;
          payload_is = ap (λ (n : ℕ). take n b) (omega arith) ∙ whole.payload;
        })

  exchange_at-Ended :
      (s s' : Session) (a : Ask) (x : Answer) (clock : Option ℕ)
      → HasRoom a
      → s.active ≡ true
      → s.sequence < u32_mod
      → exchange_at malloc answers s a clock ≡ some (s', x)
      → GivenUp s' x ⊎ Replied s a s' x
  unfolding exchange_at
  exchange_at-Ended s s' a x none room active small e = inl (gave_up s s' [] x e)
  exchange_at-Ended s s' a x (some now) room active small e =
      elim (Bool-cases (model_refused s a)) [
        | inl bad ↦ inl (gave_up s s' [] x (rw bad at e))
        | inr fine ↦ elim (after_transfer_cases _ s' _ x (rw fine at e)) [
          | inl over ↦ inl over
          | inr (t, ran, se, xe) ↦
              inr (transfer-Replied s s' a x _ t room active (below fine) refl refl ran se xe)
        ]
      ]
    where
      below : model_refused s a ≡ false → s.sequence + 1 < u32_mod
      below e = ground arith

  -- An exchange that ends was not made, since the session was over, which stays as it is and sends
  -- nothing; or it gives the session up, with no payload and the process stopped; or it has used the
  -- next sequence number, which fits a word, sent exactly this request, and returns the payload of a
  -- reply that names the operation and that number.
  pub wn_model_exchange-Ended :
      (s s' : Session) (a : Ask) (x : Answer)
      → HasRoom a
      → s.sequence < u32_mod
      → wn_model_exchange malloc answers s a ≡ some (s', x)
      → Ended s a s' x
  unfolding wn_model_exchange
  wn_model_exchange-Ended s s' a x room small e = elim (Bool-cases s.active) [
    | inl active ↦
        elim (exchange_at-Ended s s' a x answers.clock room active small (ground (arith, e))) [
          | inl over ↦ given_up over
          | inr good ↦ replied good
        ]
    | inr over ↦ was_over over (ground arith) (ground arith)
  ]
