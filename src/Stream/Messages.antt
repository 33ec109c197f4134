-- ===== src/Stream/Messages.antt =====
-- Messages of xstream.c: a length in network order, and as many bytes.
use auks.Base.{
  ℕ, ◌<◌, ◌^◌, ◌≡◌, sym, ap, ◌∙◌, subst, inl, inr, Bool, List, [], ◌++◌, append_assoc, length,
  take-length-append, drop-length-append, Bool-cases,
}
use auks.Base.Lists.{take, drop}
use auks.Base.Words.{htonl, ntohl, ntohl-htonl, length-htonl}
use auks.Base.Results.{Res, ok, err, fault}
use auks.Base.Memory.{Allocator, has_memory}
use auks.Stream.{
  System, Socket, Progress, waiting, returned, send, receive_timeout, receive, then_go,
  send_msg_timeout, receive_body, receive_msg_timeout,
}
use auks.Stream.Sending.{SendsPart, Sends, send_timeout-Sends}
use auks.Stream.Receiving.{Receives, left_mode, receive_timeout-Receives}

-- The bytes of a message on the wire.
abbrev pub frame : List ℕ → List ℕ
frame bytes = htonl (length bytes) ++ bytes

-- Two pieces of the same length in front are the same, and so is what follows.
append_cancel :
    (xs ys as' bs : List ℕ) → xs ++ as' ≡ ys ++ bs → length xs ≡ length ys → (xs ≡ ys) × (as' ≡ bs)
append_cancel xs ys as' bs e l = (
  sym (take-length-append xs as')
      ∙ ap (λ k. take k (xs ++ as')) l
      ∙ ap (take (length ys)) e
      ∙ take-length-append ys bs,
  sym (drop-length-append xs as')
      ∙ ap (λ k. drop k (xs ++ as')) l
      ∙ ap (drop (length ys)) e
      ∙ drop-length-append ys bs,
)

then_Sends :
    (a b : List ℕ) (flag : Bool) (s mid : Socket) (r : Res Socket (Progress (Unit {0})))
    → (mid.outgoing ≡ s.outgoing ++ a) × (mid.incoming ≡ s.incoming) × (mid.nonblock ≡ flag)
    → Sends b mid.nonblock mid r
    → Sends (a ++ b) flag s r
then_Sends a b flag s mid (ok (returned _) new) (out, inc, mode) (o, i, m) =
    (o ∙ ap (λ l. l ++ b) out ∙ append_assoc s.outgoing a b, i ∙ inc, m ∙ mode)
then_Sends a b flag s mid (ok waiting new) (out, inc, mode) p = record {
  done = a ++ p.done;
  rest = p.rest;
  whole = append_assoc a p.done p.rest ∙ ap (λ l. a ++ l) p.whole;
  outgoing = p.outgoing ∙ ap (λ l. l ++ p.done) out ∙ append_assoc s.outgoing a p.done;
  incoming = p.incoming ∙ inc;
}
then_Sends a b flag s mid (err e new) (out, inc, mode) (p, m) = (
  record {
    done = a ++ p.done;
    rest = p.rest;
    whole = append_assoc a p.done p.rest ∙ ap (λ l. a ++ l) p.whole;
    outgoing = p.outgoing ∙ ap (λ l. l ++ p.done) out ∙ append_assoc s.outgoing a p.done;
    incoming = p.incoming ∙ inc;
  },
  m ∙ mode,
)
then_Sends a b flag s mid fault h d = d

part_first : (a b : List ℕ) (s new : Socket) → SendsPart a s new → SendsPart (a ++ b) s new
part_first a b s new p = record {
  done = p.done;
  rest = p.rest ++ b;
  whole = sym (append_assoc p.done p.rest b) ∙ ap (λ l. l ++ b) p.whole;
  outgoing = p.outgoing;
  incoming = p.incoming;
}

-- However the system cuts it, a message goes out as its length in network order and its bytes: all
-- of this where the call succeeds, and some first bytes of it where the call fails or is not over.
-- What was sent before and what will come stay, and so does the mode of the socket once the call
-- has returned.
pub send_msg_timeout-Sends :
    (first second : System) (timeout : ℕ) (bytes : List ℕ) (s : Socket)
    → Sends (frame bytes) s.nonblock s (send_msg_timeout first second timeout bytes s)
unfolding send_msg_timeout send
send_msg_timeout-Sends first second timeout bytes s =
    go _ (send_timeout-Sends first timeout (htonl (length bytes)) s)
  where
    go :
        (r : Res Socket (Progress (Unit {0})))
        → Sends (htonl (length bytes)) s.nonblock s r
        → Sends (frame bytes) s.nonblock s (then_go r λ _. send second bytes)
    go (ok (returned _) mid) h =
        then_Sends (htonl (length bytes)) bytes s.nonblock s mid _ h
          (send_timeout-Sends second 0 bytes mid)
    go (ok waiting new) p = part_first (htonl (length bytes)) bytes s new p
    go (err e new) (p, mode) = (part_first (htonl (length bytes)) bytes s new p, mode)
    go fault d = d

-- A message that was received, with what follows it left to come; or the call fails or is not over.
abbrev pub Arrives : List ℕ → List ℕ → Res Socket (Progress (List ℕ)) → Type 0
Arrives bytes rest (ok (returned b) new) = (b ≡ bytes) × (new.incoming ≡ rest)
Arrives bytes rest (ok waiting new) = Unit {0}
Arrives bytes rest (err e new) = Unit {0}
Arrives bytes rest fault = ⊥

-- The next bytes are these.
pub next_Arrives :
    (bytes rest : List ℕ) (flag : Bool) (s : Socket) (r : Res Socket (Progress (List ℕ)))
    → s.incoming ≡ bytes ++ rest
    → Receives (length bytes) [] flag s r
    → Arrives bytes rest r
next_Arrives bytes rest flag s (ok (returned b) new) come (next, e, l, t) =
    let (same, left) = append_cancel next bytes new.incoming rest (sym t.incoming ∙ come) l in
    (e ∙ same, left)
next_Arrives bytes rest flag s (ok waiting new) come h = tt
next_Arrives bytes rest flag s (err e new) come h = tt
next_Arrives bytes rest flag s fault come d = d

module _ ⦃mem : Allocator⦄ where
  body_Arrives :
      (second : System) (bytes rest : List ℕ) (s : Socket)
      → s.incoming ≡ bytes ++ rest
      → Arrives bytes rest (receive_body second (length bytes) s)
  unfolding receive_body receive
  body_Arrives second bytes rest s come = elim (Bool-cases (has_memory (length bytes))) [
    | inl m ↦
        rw m
          (next_Arrives bytes rest _ s _ come (receive_timeout-Receives second 0 (length bytes) s))
    | inr m ↦ rw m tt
  ]

  -- However the system cuts it, a message of less than 2 ^ 32 bytes that comes in is received
  -- whole, and nothing of what follows it, if the call succeeds.
  pub receive_msg_timeout-Arrives :
      (first second : System) (timeout : ℕ) (bytes rest : List ℕ) (s : Socket)
      → length bytes < 2 ^ 32
      → s.incoming ≡ frame bytes ++ rest
      → Arrives bytes rest (receive_msg_timeout first second timeout s)
  unfolding receive_msg_timeout
  receive_msg_timeout-Arrives first second timeout bytes rest s small come = go _ (
      next_Arrives (htonl (length bytes)) (bytes ++ rest) _ s _
        (come ∙ append_assoc (htonl (length bytes)) bytes rest)
        (subst
          (λ k. Receives k [] (left_mode first timeout s) s (receive_timeout first timeout 4 s))
          (sym (length-htonl (length bytes))) (receive_timeout-Receives first timeout 4 s)))
    where
      go :
          (r : Res Socket (Progress (List ℕ)))
          → Arrives (htonl (length bytes)) (bytes ++ rest) r
          → Arrives bytes rest (then_go r λ nlength. receive_body second (ntohl nlength))
      go (ok (returned b) mid) (same, left) =
          rw (same, ntohl-htonl (length bytes) small) (body_Arrives second bytes rest mid left)
      go (ok waiting new) h = tt
      go (err e new) h = tt
      go fault d = d
