-- ===== src/Decoder/Process.antt =====
-- `struct decoder_process` of app/decoder_ipc.c, in its POSIX form, and decoder_stop. A PID or a
-- descriptor of -1 is `none`.
use whitenoise_linux.Base.{
  ℕ, List, [], ◌∷◌, ◌++◌, Bool, true, false, Option, none, some, ◌≡◌, refl, ◌⊎◌, inl, inr,
}

pub record Process : Type 0 where
  pub child : Option ℕ
  pub socket : Option ℕ
  pub reaped : Bool

-- The system calls that decoder_stop makes.
pub data Call : Type 0 where
  closes : ℕ → Call
  kills_group kills waits_for : ℕ → Call

close_socket : Option ℕ → List Call
close_socket none = []
close_socket (some fd) = closes fd ∷ []

end_child : Option ℕ → Bool → List Call
end_child none reaped = []
end_child (some pid) true = []
end_child (some pid) false = kills_group pid ∷ kills pid ∷ waits_for pid ∷ []

unfoldable pub decoder_stop : Process → Process × List Call
unfolding close_socket end_child
decoder_stop p =
    (record p { child = none; socket = none }, close_socket p.socket ++ end_child p.child p.reaped)

-- A stopped process has neither a child nor a socket.
pub decoder_stop-empty :
    (p : Process) → ((decoder_stop p).0.child ≡ none) × ((decoder_stop p).0.socket ≡ none)
unfolding decoder_stop
decoder_stop-empty p = (refl, refl)

-- The calls send a signal to the process or the group of `pid`.
abbrev pub Signals : ℕ → List Call → Type 0
Signals pid [] = ⊥
Signals pid (closes fd ∷ cs) = Signals pid cs
Signals pid (kills_group p ∷ cs) = (p ≡ pid) ⊎ Signals pid cs
Signals pid (kills p ∷ cs) = (p ≡ pid) ⊎ Signals pid cs
Signals pid (waits_for p ∷ cs) = Signals pid cs

close_socket-Signals :
    (pid : ℕ) (socket : Option ℕ) (cs : List Call)
    → Signals pid (close_socket socket ++ cs)
    → Signals pid cs
unfolding close_socket
close_socket-Signals pid none cs h = h
close_socket-Signals pid (some fd) cs h = h

end_child-Signals :
    (child : Option ℕ) (reaped : Bool) (pid : ℕ)
    → Signals pid (end_child child reaped)
    → (child ≡ some pid) × (reaped ≡ false)
unfolding end_child
end_child-Signals none reaped pid h = absurd h
end_child-Signals (some c) true pid h = absurd h
end_child-Signals (some c) false pid (inl e) = (rw e refl, refl)
end_child-Signals (some c) false pid (inr (inl e)) = (rw e refl, refl)
end_child-Signals (some c) false pid (inr (inr h)) = absurd h

-- Stopping a process signals only the child that it holds and that has not been waited for: a PID
-- that the system may have given to another process is never signalled.
pub decoder_stop-Signals :
    (p : Process) (pid : ℕ)
    → Signals pid (decoder_stop p).1
    → (p.child ≡ some pid) × (p.reaped ≡ false)
unfolding decoder_stop
decoder_stop-Signals p pid h =
    end_child-Signals p.child p.reaped pid (close_socket-Signals pid p.socket _ h)

-- A process that has been stopped is not touched by stopping it again.
pub decoder_stop-twice : (p : Process) → decoder_stop (decoder_stop p).0 ≡ ((decoder_stop p).0, [])
unfolding decoder_stop
decoder_stop-twice p = refl
