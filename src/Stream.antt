-- ===== src/Stream.antt =====
-- src/api/xternal/xstream.c: bytes and messages over a socket, in the pieces that the system takes and
-- gives.
pub mod Sending
pub mod Receiving
pub mod Messages
pub mod Delivery
use auks.Base.{
  ℕ, zero, suc, ◌+◌, ◌*◌, ◌/◌, ◌-◌, Bool, true, false, Option, none, some, List, [], ◌∷◌, ◌++◌,
  length, leb, ◌==◌, if◌then◌else◌,
}
use auks.Base.Lists.{take, drop}
use auks.Base.Words.{htonl, ntohl}
use auks.Base.Results.{
  Res, ok, err, fault, Act, Error, and_then, error, xerror_memory, xerror_stream_setsockopt,
  xerror_stream_timeout, xerror_stream_poll_error, xerror_stream_socket_closed,
}
use auks.Base.Memory.{Allocator, has_memory}

-- A call of `read` or `write`: one byte and as many more are moved, or all that can be; or none is;
-- or the call fails with EINTR, with EAGAIN, or otherwise.
pub data Io : Type 0 where
  moved : ℕ → Io
  nothing interrupted would_block broken : Io

-- A call of `poll`: a time out, EINTR or EAGAIN, another failure, or an event.
pub data Poll : Type 0 where
  idle poll_interrupted poll_failed ready : Poll

-- A round of a loop with a timeout: the seconds since its start, and the two calls.
pub record Round : Type 0 where
  pub seconds : ℕ
  pub poll : Poll
  pub io : Io

-- What the system does in one call of this file: whether it sets the flags of the socket, and the
-- calls of the loop, with a timeout or without.
pub record System : Type 0 where
  pub can_set : Bool
  pub rounds : List Round
  pub calls : List Io

-- The socket: O_NONBLOCK, the bytes that were sent, and those that will come.
pub record Socket : Type 0 where
  pub nonblock : Bool
  pub outgoing : List ℕ
  pub incoming : List ℕ

-- A call has returned, or it goes on when the system has no more to tell.
pub data Progress (A : Type 0) : Type 0 where
  waiting : Progress A
  returned : A → Progress A

put_bytes : List ℕ → Socket → Socket
put_bytes bytes s = record s { outgoing = s.outgoing ++ bytes }

set_flag : Bool → Socket → Socket
set_flag flag s = record s { nonblock = flag }

-- Whether no time is left; the microseconds are not read.
is_late : ℕ → ℕ → Bool
is_late timeout seconds = leb timeout (seconds * 1000 + seconds / 1000)

-- The loop of `xstream_send_timeout` with no timeout.
pub send_loop : List Io → List ℕ → Act Socket (Progress (Unit {0}))
unfolding put_bytes
send_loop script [] s = ok (returned tt) s
send_loop [] (b ∷ left) s = ok waiting s
send_loop (moved n ∷ script) (b ∷ left) s =
    send_loop script (drop n left) (put_bytes (b ∷ take n left) s)
send_loop (nothing ∷ script) (b ∷ left) s = err error s
send_loop (interrupted ∷ script) (b ∷ left) s = send_loop script (b ∷ left) s
send_loop (would_block ∷ script) (b ∷ left) s = send_loop script (b ∷ left) s
send_loop (broken ∷ script) (b ∷ left) s = err error s

-- A round with a timeout: it is too late; or `poll` comes back with no event, or fails; or the call
-- that follows an event moves some bytes, or fails, where 0 is reported as `closed`.
pub polled :
    {A : Type 0}
    → Bool
    → Poll
    → Io
    → Error
    → Socket
    → (Unit {0} → Res Socket A)
    → (ℕ → Res Socket A)
    → Res Socket A
polled true poll io closed s again next = err xerror_stream_timeout s
polled false idle io closed s again next = again tt
polled false poll_interrupted io closed s again next = again tt
polled false poll_failed io closed s again next = err xerror_stream_poll_error s
polled false ready (moved n) closed s again next = next n
polled false ready nothing closed s again next = err closed s
polled false ready interrupted closed s again next = err error s
polled false ready would_block closed s again next = err error s
polled false ready broken closed s again next = err error s

-- The loop with a timeout.
pub send_rounds : ℕ → List Round → List ℕ → Act Socket (Progress (Unit {0}))
unfolding put_bytes is_late polled
send_rounds timeout script [] s = ok (returned tt) s
send_rounds timeout [] (b ∷ left) s = ok waiting s
send_rounds timeout (round ∷ script) (b ∷ left) s =
    polled (is_late timeout round.seconds) round.poll round.io error s
      (λ _. send_rounds timeout script (b ∷ left) s)
      (λ n. send_rounds timeout script (drop n left) (put_bytes (b ∷ take n left) s))

-- The flags are set as they were.
reset : Bool → Res Socket (Progress (Unit {0})) → Res Socket (Progress (Unit {0}))
unfolding set_flag
reset flag (ok waiting s) = ok waiting s
reset flag (ok (returned u) s) = ok (returned u) (set_flag flag s)
reset flag (err e s) = err e (set_flag flag s)
reset flag fault = fault

-- `xstream_send_timeout`, with a timeout in milliseconds that is not negative.
pub send_timeout : System → ℕ → List ℕ → Act Socket (Progress (Unit {0}))
unfolding send_loop send_rounds reset
send_timeout sys timeout bytes s =
    if timeout == 0
    then send_loop sys.calls bytes s
    else if sys.can_set
    then reset s.nonblock (send_rounds timeout sys.rounds bytes (set_flag true s))
    else err xerror_stream_setsockopt s

-- `xstream_send`
pub send : System → List ℕ → Act Socket (Progress (Unit {0}))
unfolding send_timeout
send sys bytes = send_timeout sys 0 bytes

-- The bytes that a `read` gives which asks for one and `more`: those that are there, or none yet.
piece : ℕ → ℕ → Socket → List ℕ
piece n more s = take (if leb n more then suc n else suc more) s.incoming

drop_bytes : ℕ → Socket → Socket
drop_bytes n s = record s { incoming = drop n s.incoming }

-- The loop of `xstream_receive_timeout` with no timeout, with so many bytes left and those read.
pub receive_loop : List Io → ℕ → List ℕ → Act Socket (Progress (List ℕ))
unfolding piece drop_bytes
receive_loop script zero got s = ok (returned got) s
receive_loop [] (suc more) got s = ok waiting s
receive_loop (moved n ∷ script) (suc more) got s =
    let read = piece n more s in
    receive_loop script (suc more - length read) (got ++ read) (drop_bytes (length read) s)
receive_loop (nothing ∷ script) (suc more) got s = err xerror_stream_socket_closed s
receive_loop (interrupted ∷ script) (suc more) got s = receive_loop script (suc more) got s
receive_loop (would_block ∷ script) (suc more) got s = receive_loop script (suc more) got s
receive_loop (broken ∷ script) (suc more) got s = err error s

-- The same with a timeout.
pub receive_rounds : ℕ → List Round → ℕ → List ℕ → Act Socket (Progress (List ℕ))
unfolding piece drop_bytes is_late polled
receive_rounds timeout script zero got s = ok (returned got) s
receive_rounds timeout [] (suc more) got s = ok waiting s
receive_rounds timeout (round ∷ script) (suc more) got s =
    polled (is_late timeout round.seconds) round.poll round.io xerror_stream_socket_closed s
      (λ _. receive_rounds timeout script (suc more) got s)
      (λ n.
        let read = piece n more s in
        receive_rounds timeout script (suc more - length read) (got ++ read)
          (drop_bytes (length read) s))

-- `xstream_receive_timeout`, which leaves the socket in the mode that it has set.
pub receive_timeout : System → ℕ → ℕ → Act Socket (Progress (List ℕ))
unfolding receive_loop receive_rounds set_flag
receive_timeout sys timeout length s =
    if timeout == 0
    then receive_loop sys.calls length [] s
    else if sys.can_set
    then receive_rounds timeout sys.rounds length [] (set_flag true s)
    else err xerror_stream_setsockopt s

-- `xstream_receive`
pub receive : System → ℕ → Act Socket (Progress (List ℕ))
unfolding receive_timeout
receive sys length = receive_timeout sys 0 length

-- The next call, once the one before has returned.
abbrev pub then_go :
    {A B : Type 0}
    → Res Socket (Progress A)
    → (A → Act Socket (Progress B))
    → Res Socket (Progress B)
then_go (ok waiting s) next = ok waiting s
then_go (ok (returned a) s) next = next a s
then_go (err e s) next = err e s
then_go fault next = fault

-- `xstream_send_msg_timeout`; the timeout is for the length alone.
pub send_msg_timeout : System → System → ℕ → List ℕ → Act Socket (Progress (Unit {0}))
send_msg_timeout first second timeout bytes s =
    then_go (send_timeout first timeout (htonl (length bytes)) s) λ _. send second bytes

-- `xstream_send_msg`
pub send_msg : System → System → List ℕ → Act Socket (Progress (Unit {0}))
unfolding send_msg_timeout
send_msg first second bytes = send_msg_timeout first second 0 bytes

module _ ⦃mem : Allocator⦄ where
  receive_body : System → ℕ → Act Socket (Progress (List ℕ))
  receive_body second mlen s =
      if has_memory mlen then receive second mlen s else err xerror_memory s

  -- `xstream_receive_msg_timeout`
  pub receive_msg_timeout : System → System → ℕ → Act Socket (Progress (List ℕ))
  unfolding receive_body
  receive_msg_timeout first second timeout s =
      then_go (receive_timeout first timeout 4 s) λ nlength. receive_body second (ntohl nlength)

  -- `xstream_receive_msg`
  pub receive_msg : System → System → Act Socket (Progress (List ℕ))
  unfolding receive_msg_timeout
  receive_msg first second = receive_msg_timeout first second 0
