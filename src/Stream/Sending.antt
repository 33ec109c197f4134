-- ===== src/Stream/Sending.antt =====
-- `xstream_send_timeout` of xstream.c: what has been sent when it returns or waits.
use auks.Base.{
  ℕ, suc, ◌≤◌, ◌≡◌, refl, sym, ap, ◌∙◌, inl, inr, Bool, true, false, List, [], ◌∷◌, All, ◌++◌,
  append_assoc, append-nil, arith, length, length-drop, take-append-drop, Bool-cases, ◌==◌,
}
use auks.Base.Lists.{take, drop}
use auks.Base.Results.{Res, ok, err, fault, Error}
use auks.Stream.{
  Io, moved, nothing, interrupted, would_block, broken, Poll, idle, poll_interrupted, poll_failed,
  ready, Round, System, Socket, Progress, waiting, returned, put_bytes, set_flag, polled, send_loop,
  send_rounds, reset, send_timeout,
}

-- Some first bytes of `bytes` were sent, and no others.
pub record SendsPart (bytes : List ℕ) (s new : Socket) : Type 0 where
  pub done : List ℕ
  pub rest : List ℕ
  pub whole : done ++ rest ≡ bytes
  pub outgoing : new.outgoing ≡ s.outgoing ++ done
  pub incoming : new.incoming ≡ s.incoming

-- A call that sends: all the bytes, or a first part of them where it waits or fails. Once it has
-- returned, the mode of the socket is `flag`.
abbrev pub Sends : List ℕ → Bool → Socket → Res Socket (Progress (Unit {0})) → Type 0
Sends bytes flag s (ok (returned _) new) =
    (new.outgoing ≡ s.outgoing ++ bytes) × (new.incoming ≡ s.incoming) × (new.nonblock ≡ flag)
Sends bytes flag s (ok waiting new) = SendsPart bytes s new
Sends bytes flag s (err e new) = SendsPart bytes s new × (new.nonblock ≡ flag)
Sends bytes flag s fault = ⊥

none_sent : (bytes : List ℕ) (s : Socket) → SendsPart bytes s s
none_sent bytes s = record {
  done = [];
  rest = bytes;
  whole = refl;
  outgoing = sym (append-nil s.outgoing);
  incoming = refl;
}

more_sent :
    (a b : List ℕ) (s new : Socket) → SendsPart b (put_bytes a s) new → SendsPart (a ++ b) s new
unfolding put_bytes
more_sent a b s new p = record {
  done = a ++ p.done;
  rest = p.rest;
  whole = append_assoc a p.done p.rest ∙ ap (λ l. a ++ l) p.whole;
  outgoing = p.outgoing ∙ append_assoc s.outgoing a p.done;
  incoming = p.incoming;
}

-- What follows the sending of a first piece.
more_Sends :
    (a b : List ℕ) (flag : Bool) (s : Socket) (r : Res Socket (Progress (Unit {0})))
    → Sends b flag (put_bytes a s) r
    → Sends (a ++ b) flag s r
unfolding put_bytes
more_Sends a b flag s (ok (returned _) new) (out, inc, mode) =
    (out ∙ append_assoc s.outgoing a b, inc, mode)
more_Sends a b flag s (ok waiting new) p = more_sent a b s new p
more_Sends a b flag s (err e new) (p, mode) = (more_sent a b s new p, mode)
more_Sends a b flag s fault d = d

moved_Sends :
    (n x : ℕ) (left : List ℕ) (s : Socket) (r : Res Socket (Progress (Unit {0})))
    → Sends (drop n left) s.nonblock (put_bytes (x ∷ take n left) s) r
    → Sends (x ∷ left) s.nonblock s r
moved_Sends n x left s r h =
    let whole : (x ∷ take n left) ++ drop n left ≡ x ∷ left =
      ap {B = List ℕ} (λ l. x ∷ l) (take-append-drop n left) in
    rw (← whole) (more_Sends (x ∷ take n left) (drop n left) s.nonblock s r h)

send_loop-Sends :
    (script : List Io) (bytes : List ℕ) (s : Socket)
    → Sends bytes s.nonblock s (send_loop script bytes s)
unfolding send_loop put_bytes
send_loop-Sends [] [] s = (sym (append-nil s.outgoing), refl, refl)
send_loop-Sends (io ∷ script) [] s = (sym (append-nil s.outgoing), refl, refl)
send_loop-Sends [] (x ∷ left) s = none_sent (x ∷ left) s
send_loop-Sends (moved n ∷ script) (x ∷ left) s =
    moved_Sends n x left s _ (send_loop-Sends script (drop n left) (put_bytes (x ∷ take n left) s))
send_loop-Sends (nothing ∷ script) (x ∷ left) s = (none_sent (x ∷ left) s, refl)
send_loop-Sends (interrupted ∷ script) (x ∷ left) s = send_loop-Sends script (x ∷ left) s
send_loop-Sends (would_block ∷ script) (x ∷ left) s = send_loop-Sends script (x ∷ left) s
send_loop-Sends (broken ∷ script) (x ∷ left) s = (none_sent (x ∷ left) s, refl)

-- A round of the loop with a timeout, where what follows it sends.
polled-Sends :
    (late : Bool) (poll : Poll) (io : Io) (e : Error) (bytes : List ℕ) (s : Socket)
    (again : Unit {0} → Res Socket (Progress (Unit {0})))
    (next : ℕ → Res Socket (Progress (Unit {0})))
    → Sends bytes s.nonblock s (again tt)
    → ((n : ℕ) → Sends bytes s.nonblock s (next n))
    → Sends bytes s.nonblock s (polled late poll io e s again next)
unfolding polled
polled-Sends true poll io e bytes s again next h k = (none_sent bytes s, refl)
polled-Sends false idle io e bytes s again next h k = h
polled-Sends false poll_interrupted io e bytes s again next h k = h
polled-Sends false poll_failed io e bytes s again next h k = (none_sent bytes s, refl)
polled-Sends false ready (moved n) e bytes s again next h k = k n
polled-Sends false ready nothing e bytes s again next h k = (none_sent bytes s, refl)
polled-Sends false ready interrupted e bytes s again next h k = (none_sent bytes s, refl)
polled-Sends false ready would_block e bytes s again next h k = (none_sent bytes s, refl)
polled-Sends false ready broken e bytes s again next h k = (none_sent bytes s, refl)

send_rounds-Sends :
    (timeout : ℕ) (script : List Round) (bytes : List ℕ) (s : Socket)
    → Sends bytes s.nonblock s (send_rounds timeout script bytes s)
unfolding send_rounds put_bytes
send_rounds-Sends timeout [] [] s = (sym (append-nil s.outgoing), refl, refl)
send_rounds-Sends timeout (round ∷ script) [] s = (sym (append-nil s.outgoing), refl, refl)
send_rounds-Sends timeout [] (x ∷ left) s = none_sent (x ∷ left) s
send_rounds-Sends timeout (round ∷ script) (x ∷ left) s =
    polled-Sends _ round.poll round.io _ (x ∷ left) s _ _
      (send_rounds-Sends timeout script (x ∷ left) s)
      λ n.
        moved_Sends n x left s _
          (send_rounds-Sends timeout script (drop n left) (put_bytes (x ∷ take n left) s))

reset-Sends :
    (bytes : List ℕ) (s : Socket) (r : Res Socket (Progress (Unit {0})))
    → Sends bytes true (set_flag true s) r
    → Sends bytes s.nonblock s (reset s.nonblock r)
unfolding reset set_flag
reset-Sends bytes s (ok (returned _) new) (out, inc, mode) = (out, inc, refl)
reset-Sends bytes s (ok waiting new) p = record {
  done = p.done;
  rest = p.rest;
  whole = p.whole;
  outgoing = p.outgoing;
  incoming = p.incoming;
}
reset-Sends bytes s (err e new) (p, _) = (
  record {
    done = p.done;
    rest = p.rest;
    whole = p.whole;
    outgoing = p.outgoing;
    incoming = p.incoming;
  },
  refl,
)
reset-Sends bytes s fault d = d

pub send_timeout-Sends :
    (sys : System) (timeout : ℕ) (bytes : List ℕ) (s : Socket)
    → Sends bytes s.nonblock s (send_timeout sys timeout bytes s)
unfolding send_timeout set_flag
send_timeout-Sends sys timeout bytes s = elim (Bool-cases (timeout == 0)) [
  | inl forever ↦ rw forever (send_loop-Sends sys.calls bytes s)
  | inr limited ↦ elim (Bool-cases sys.can_set) [
    | inl set ↦
        rw (limited, set)
          (reset-Sends bytes s _ (send_rounds-Sends timeout sys.rounds bytes (set_flag true s)))
    | inr unset ↦ rw (limited, unset) (none_sent bytes s, refl)
  ]
]

-- How many calls of `write` or `read` move something.
abbrev pub moves : List Io → ℕ
moves [] = 0
moves (moved n ∷ script) = suc (moves script)
moves (_ ∷ script) = moves script

-- A call that does not end the loop.
abbrev pub GoesOn : Io → Type 0
GoesOn (moved n) = Unit {0}
GoesOn interrupted = Unit {0}
GoesOn would_block = Unit {0}
GoesOn nothing = ⊥
GoesOn broken = ⊥

abbrev pub Returns : {A : Type 0} → Res Socket (Progress A) → Type 0
Returns (ok (returned a) s) = Unit {0}
Returns (ok waiting s) = ⊥
Returns (err e s) = ⊥
Returns fault = ⊥

-- With no timeout the loop ends, all sent, once as many calls have moved something as there are bytes.
pub send_loop-Returns :
    (script : List Io) (bytes : List ℕ) (s : Socket)
    → All GoesOn script
    → length bytes ≤ moves script
    → Returns (send_loop script bytes s)
unfolding send_loop put_bytes
send_loop-Returns [] [] s g h = tt
send_loop-Returns (io ∷ script) [] s g h = tt
send_loop-Returns [] (x ∷ left) s g h = elim h [ ]
send_loop-Returns (moved n ∷ script) (x ∷ left) s (_, g) h =
    send_loop-Returns script (drop n left) _ g (omega (arith, length-drop n left))
send_loop-Returns (nothing ∷ script) (x ∷ left) s (g, _) h = absurd g
send_loop-Returns (interrupted ∷ script) (x ∷ left) s (_, g) h =
    send_loop-Returns script (x ∷ left) s g h
send_loop-Returns (would_block ∷ script) (x ∷ left) s (_, g) h =
    send_loop-Returns script (x ∷ left) s g h
send_loop-Returns (broken ∷ script) (x ∷ left) s (g, _) h = absurd g
