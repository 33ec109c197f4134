-- ===== src/Examples/Streams.antt =====
-- A message of two bytes over a connection that moves one byte at a time.
use auks.Base.{ℕ, ◌<◌, refl, true, false, List, [], ◌∷◌, ◌++◌, arith}
use auks.Stream.{
  System, Socket, moved, interrupted, would_block, ready, Round, send_msg, send_msg_timeout,
  receive_msg, receive_msg_timeout,
}
use auks.Stream.Sending.{Sends}
use auks.Stream.Messages.{frame, Arrives, send_msg_timeout-Sends, receive_msg_timeout-Arrives}
use auks.Stream.Delivery.{IsLive, Sent, Received, receive_msg-send_msg}
use auks.Examples.Values.{heap, heap-HasMemory}

abbrev round : ℕ → Round
round n = record { seconds = 0; poll = ready; io = moved n }

abbrev slow : System
slow = record {
  can_set = true;
  rounds = round 0 ∷ round 2 ∷ round 0 ∷ [];
  calls = moved 0 ∷ interrupted ∷ moved 0 ∷ would_block ∷ moved 0 ∷ moved 0 ∷ [];
}

abbrev bytes : List ℕ
bytes = 7 ∷ 8 ∷ []

abbrev sender : Socket
sender = record { nonblock = false; outgoing = []; incoming = [] }

abbrev receiver : Socket
receiver = record { nonblock = false; outgoing = []; incoming = frame bytes ++ (9 ∷ []) }

slow-IsLive : (n : ℕ) → n < 5 → IsLive slow n
slow-IsLive n h = record { goes_on = (tt, (tt, (tt, (tt, (tt, (tt, tt)))))); enough = omega arith }

send_msg_timeout-Sends_example :
    Sends (frame bytes) false sender (send_msg_timeout slow slow 1000 bytes sender)
send_msg_timeout-Sends_example = send_msg_timeout-Sends slow slow 1000 bytes sender

receive_msg_timeout-Arrives_example :
    Arrives bytes (9 ∷ []) (receive_msg_timeout slow slow 1000 receiver)
receive_msg_timeout-Arrives_example =
    receive_msg_timeout-Arrives slow slow 1000 bytes (9 ∷ []) receiver (omega arith) refl

receive_msg-send_msg_example :
    Sent bytes sender (send_msg slow slow bytes sender)
    × Received bytes (9 ∷ []) (receive_msg slow slow receiver)
receive_msg-send_msg_example =
    receive_msg-send_msg slow slow slow slow bytes (9 ∷ []) sender receiver
      (slow-IsLive 4 (omega arith)) (slow-IsLive 2 (omega arith)) (slow-IsLive 4 (omega arith))
      (slow-IsLive 2 (omega arith)) (omega arith) (heap-HasMemory 2 (omega arith)) refl
