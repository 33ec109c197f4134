-- ===== src/Stream/Delivery.antt =====
-- Messages of xstream.c over a connection that goes on: they are sent, and they are received.
use auks.Base.{
  ℕ, ◌≤◌, ◌<◌, ◌^◌, ◌≡◌, sym, ap, ◌∙◌, subst, true, List, [], All, ◌++◌, append_assoc, arith,
  length, length-append,
}
use auks.Base.Words.{htonl, ntohl, ntohl-htonl, length-htonl}
use auks.Base.Results.{Res, ok, err, fault}
use auks.Base.Memory.{Allocator, has_memory}
use auks.Stream.{
  System, Socket, Progress, waiting, returned, send_timeout, send, receive_timeout, receive,
  then_go, send_msg_timeout, send_msg, receive_body, receive_msg_timeout, receive_msg,
}
use auks.Stream.Sending.{Sends, moves, GoesOn, Returns, send_loop-Returns}
use auks.Stream.Receiving.{Receives, receive_timeout-Receives, receive_loop-Returns}
use auks.Stream.Messages.{
  frame, Arrives, next_Arrives, send_msg_timeout-Sends, receive_msg_timeout-Arrives,
}

-- No call of the system ends the loop, and as many as there are bytes move something.
pub record IsLive (sys : System) (n : ℕ) : Type 0 where
  pub goes_on : All GoesOn sys.calls
  pub enough : n ≤ moves sys.calls

send_timeout-Returns :
    (sys : System) (bytes : List ℕ) (s : Socket)
    → IsLive sys (length bytes)
    → Returns (send_timeout sys 0 bytes s)
unfolding send_timeout
send_timeout-Returns sys bytes s v = send_loop-Returns sys.calls bytes s v.goes_on v.enough

receive_timeout-Returns :
    (sys : System) (want : ℕ) (s : Socket)
    → IsLive sys want
    → want ≤ length s.incoming
    → Returns (receive_timeout sys 0 want s)
unfolding receive_timeout
receive_timeout-Returns sys want s v h =
    receive_loop-Returns sys.calls want [] s v.goes_on v.enough h

send_msg-Returns :
    (first second : System) (bytes : List ℕ) (s : Socket)
    → IsLive first 4
    → IsLive second (length bytes)
    → Returns (send_msg first second bytes s)
unfolding send_msg send_msg_timeout send
send_msg-Returns first second bytes s v w = go (send_timeout first 0 (htonl (length bytes)) s) (
    send_timeout-Returns first (htonl (length bytes)) s
      (subst (IsLive first) (sym (length-htonl (length bytes))) v))
  where
    go :
        (r : Res Socket (Progress (Unit {0})))
        → Returns r
        → Returns (then_go r λ _. send_timeout second 0 bytes)
    go (ok (returned _) mid) h = send_timeout-Returns second bytes mid w
    go (ok waiting mid) h = h
    go (err e mid) h = h
    go fault h = h

-- A call that sent all of a message.
abbrev pub Sent : List ℕ → Socket → Res Socket (Progress (Unit {0})) → Type 0
Sent bytes s (ok (returned _) new) = new.outgoing ≡ s.outgoing ++ frame bytes
Sent bytes s (ok waiting new) = ⊥
Sent bytes s (err e new) = ⊥
Sent bytes s fault = ⊥

-- A call that received all of a message.
abbrev pub Received : List ℕ → List ℕ → Res Socket (Progress (List ℕ)) → Type 0
Received bytes rest (ok (returned b) new) = (b ≡ bytes) × (new.incoming ≡ rest)
Received bytes rest (ok waiting new) = ⊥
Received bytes rest (err e new) = ⊥
Received bytes rest fault = ⊥

all-Sent :
    (bytes : List ℕ) (s : Socket) (r : Res Socket (Progress (Unit {0})))
    → Sends (frame bytes) s.nonblock s r
    → Returns r
    → Sent bytes s r
all-Sent bytes s (ok (returned _) new) (out, _, _) h = out
all-Sent bytes s (ok waiting new) p h = h
all-Sent bytes s (err e new) p h = h
all-Sent bytes s fault d h = d

all-Received :
    (bytes rest : List ℕ) (r : Res Socket (Progress (List ℕ)))
    → Arrives bytes rest r
    → Returns r
    → Received bytes rest r
all-Received bytes rest (ok (returned b) new) a h = a
all-Received bytes rest (ok waiting new) a h = h
all-Received bytes rest (err e new) a h = h
all-Received bytes rest fault a h = h

module _ ⦃mem : Allocator⦄ where
  receive_msg-Returns :
      (first second : System) (bytes rest : List ℕ) (s : Socket)
      → IsLive first 4
      → IsLive second (length bytes)
      → length bytes < 2 ^ 32
      → has_memory (length bytes) ≡ true
      → s.incoming ≡ htonl (length bytes) ++ (bytes ++ rest)
      → Returns (receive_msg first second s)
  unfolding receive_msg receive_msg_timeout receive_body receive
  receive_msg-Returns first second bytes rest s v w small memory come =
      let four : 4 ≤ length s.incoming = omega (
        arith,
        ap length come,
        length-append (htonl (length bytes)) (bytes ++ rest),
        length-htonl (length bytes),
      ) in
      go (receive_timeout first 0 4 s)
        (next_Arrives (htonl (length bytes)) (bytes ++ rest) _ s _ come (
          subst (λ k. Receives k [] s.nonblock s (receive_timeout first 0 4 s))
            (sym (length-htonl (length bytes))) (receive_timeout-Receives first 0 4 s)))
        (receive_timeout-Returns first 4 s v four)
    where
      go :
          (r : Res Socket (Progress (List ℕ)))
          → Arrives (htonl (length bytes)) (bytes ++ rest) r
          → Returns r
          → Returns (then_go r λ nlength. receive_body second (ntohl nlength))
      go (ok (returned b) mid) (same, left) h =
          rw (same, ntohl-htonl (length bytes) small, memory)
            (receive_timeout-Returns second (length bytes) mid w
              (omega (arith, ap length left, length-append bytes rest)))
      go (ok waiting mid) a h = h
      go (err e mid) a h = h
      go fault a h = h

  -- A message of less than 2 ^ 32 bytes is sent whole by one side and received whole by the other,
  -- with nothing of what follows it, however the system cuts it: if on each side as many calls
  -- move something as there are bytes, and none fails but with EINTR or EAGAIN. There is no
  -- timeout, and the receiver has memory for it.
  pub receive_msg-send_msg :
      (first second third fourth : System) (bytes rest : List ℕ) (a b : Socket)
      → IsLive first 4
      → IsLive second (length bytes)
      → IsLive third 4
      → IsLive fourth (length bytes)
      → length bytes < 2 ^ 32
      → has_memory (length bytes) ≡ true
      → b.incoming ≡ frame bytes ++ rest
      → Sent bytes a (send_msg first second bytes a)
        × Received bytes rest (receive_msg third fourth b)
  unfolding send_msg receive_msg
  receive_msg-send_msg first second third fourth bytes rest a b v w x y small memory come = (
    all-Sent bytes a _ (send_msg_timeout-Sends first second 0 bytes a)
        (send_msg-Returns first second bytes a v w),
    all-Received bytes rest _ (receive_msg_timeout-Arrives third fourth 0 bytes rest b small come) (
        receive_msg-Returns third fourth bytes rest b x y small memory
          (come ∙ append_assoc (htonl (length bytes)) bytes rest)),
  )
