-- ===== src/Stream/Receiving.antt =====
-- `xstream_receive_timeout` of xstream.c: what has been received when it returns or waits.
use auks.Base.{
  ℕ, zero, suc, ◌-◌, ◌≤◌, ◌<◌, ◌≡◌, refl, sym, ap, ◌∙◌, inl, inr, Bool, true, false, List, [], ◌∷◌,
  All, ◌++◌, append_assoc, append-nil, arith, length, length-append, length-drop, Bool-cases, leb,
  ◌==◌, if◌then◌else◌,
}
use auks.Base.Lists.{take, drop}
use auks.Base.Results.{Res, ok, err, fault, Error}
use auks.Stream.{
  Io, moved, nothing, interrupted, would_block, broken, Poll, idle, poll_interrupted, poll_failed,
  ready, Round, System, Socket, Progress, waiting, returned, set_flag, polled, piece, drop_bytes,
  receive_loop, receive_rounds, receive_timeout,
}
use auks.Stream.Sending.{moves, GoesOn, Returns}

-- These bytes have been taken from those that come; `flag` is the mode of the socket.
pub record Takes (bytes : List ℕ) (flag : Bool) (s new : Socket) : Type 0 where
  pub incoming : s.incoming ≡ bytes ++ new.incoming
  pub outgoing : new.outgoing ≡ s.outgoing
  pub nonblock : new.nonblock ≡ flag

-- A call that was given `got` before and is to receive so many bytes more: it returns just the next
-- ones; where it waits or fails, it has taken some of them.
abbrev pub Receives : ℕ → List ℕ → Bool → Socket → Res Socket (Progress (List ℕ)) → Type 0
Receives want got flag s (ok (returned bytes) new) =
    (next : List ℕ) × (bytes ≡ got ++ next) × (length next ≡ want) × Takes next flag s new
Receives want got flag s (ok waiting new) =
    (next : List ℕ) × (length next ≤ want) × Takes next flag s new
Receives want got flag s (err e new) =
    (next : List ℕ) × (length next ≤ want) × Takes next flag s new
Receives want got flag s fault = ⊥

nothing_taken : (s : Socket) → Takes [] s.nonblock s s
nothing_taken s = record { incoming = refl; outgoing = refl; nonblock = refl }

take-drop : (n : ℕ) (xs : List ℕ) → take n xs ++ drop (length (take n xs)) xs ≡ xs
unfolding take drop
take-drop zero xs = refl
take-drop (suc n) [] = refl
take-drop (suc n) (x ∷ xs) = ap {B = List ℕ} (λ l. x ∷ l) (take-drop n xs)

length-take_le : (n : ℕ) (xs : List ℕ) → length (take n xs) ≤ n
unfolding take
length-take_le zero xs = omega arith
length-take_le (suc n) [] = omega arith
length-take_le (suc n) (x ∷ xs) = omega (arith, length-take_le n xs)

length-piece : (n more : ℕ) (s : Socket) → length (piece n more s) ≤ suc more
unfolding piece
length-piece n more s = elim (Bool-cases (leb n more)) [
  | inl few ↦
      rw few (let h : n ≤ more = ground arith in omega (arith, length-take_le (suc n) s.incoming))
  | inr many ↦ rw many (length-take_le (suc more) s.incoming)
]

more_taken :
    (n more : ℕ) (next : List ℕ) (flag : Bool) (s new : Socket)
    → Takes next flag (drop_bytes (length (piece n more s)) s) new
    → Takes (piece n more s ++ next) flag s new
unfolding drop_bytes piece
more_taken n more next flag s new t = record {
  incoming =
      sym (take-drop (if leb n more then suc n else suc more) s.incoming)
      ∙ ap (λ l. piece n more s ++ l) t.incoming
      ∙ sym (append_assoc (piece n more s) next new.incoming);
  outgoing = t.outgoing;
  nonblock = t.nonblock;
}

moved_Receives :
    (n more : ℕ) (got : List ℕ) (flag : Bool) (s : Socket) (r : Res Socket (Progress (List ℕ)))
    → Receives
        (suc more - length (piece n more s))
        (got ++ piece n more s)
        flag
        (drop_bytes (length (piece n more s)) s)
        r
    → Receives (suc more) got flag s r
moved_Receives n more got flag s (ok (returned bytes) new) (next, e, l, t) = (
  piece n more s ++ next,
  e ∙ append_assoc got (piece n more s) next,
  omega (arith, length-append (piece n more s) next, length-piece n more s),
  more_taken n more next flag s new t,
)
moved_Receives n more got flag s (ok waiting new) (next, l, t) = (
  piece n more s ++ next,
  omega (arith, length-append (piece n more s) next, length-piece n more s),
  more_taken n more next flag s new t,
)
moved_Receives n more got flag s (err e new) (next, l, t) = (
  piece n more s ++ next,
  omega (arith, length-append (piece n more s) next, length-piece n more s),
  more_taken n more next flag s new t,
)
moved_Receives n more got flag s fault d = d

receive_loop-Receives :
    (script : List Io) (want : ℕ) (got : List ℕ) (s : Socket)
    → Receives want got s.nonblock s (receive_loop script want got s)
unfolding receive_loop drop_bytes
receive_loop-Receives [] zero got s = ([], sym (append-nil got), refl, nothing_taken s)
receive_loop-Receives (io ∷ script) zero got s = ([], sym (append-nil got), refl, nothing_taken s)
receive_loop-Receives [] (suc more) got s = ([], omega arith, nothing_taken s)
receive_loop-Receives (moved n ∷ script) (suc more) got s =
    moved_Receives n more got s.nonblock s _ (
      receive_loop-Receives script (suc more - length (piece n more s)) (got ++ piece n more s)
        (drop_bytes (length (piece n more s)) s))
receive_loop-Receives (nothing ∷ script) (suc more) got s = ([], omega arith, nothing_taken s)
receive_loop-Receives (interrupted ∷ script) (suc more) got s =
    receive_loop-Receives script (suc more) got s
receive_loop-Receives (would_block ∷ script) (suc more) got s =
    receive_loop-Receives script (suc more) got s
receive_loop-Receives (broken ∷ script) (suc more) got s = ([], omega arith, nothing_taken s)

failed_Receives :
    (want : ℕ) (got : List ℕ) (s : Socket) (e : Error) → Receives want got s.nonblock s (err e s)
failed_Receives want got s e = ([], omega arith, nothing_taken s)

polled-Receives :
    (late : Bool) (poll : Poll) (io : Io) (e : Error) (want : ℕ) (got : List ℕ) (s : Socket)
    (again : Unit {0} → Res Socket (Progress (List ℕ))) (next : ℕ → Res Socket (Progress (List ℕ)))
    → Receives want got s.nonblock s (again tt)
    → ((n : ℕ) → Receives want got s.nonblock s (next n))
    → Receives want got s.nonblock s (polled late poll io e s again next)
unfolding polled
polled-Receives true poll io e want got s again next h k = failed_Receives want got s e
polled-Receives false idle io e want got s again next h k = h
polled-Receives false poll_interrupted io e want got s again next h k = h
polled-Receives false poll_failed io e want got s again next h k = failed_Receives want got s e
polled-Receives false ready (moved n) e want got s again next h k = k n
polled-Receives false ready nothing e want got s again next h k = failed_Receives want got s e
polled-Receives false ready interrupted e want got s again next h k = failed_Receives want got s e
polled-Receives false ready would_block e want got s again next h k = failed_Receives want got s e
polled-Receives false ready broken e want got s again next h k = failed_Receives want got s e

receive_rounds-Receives :
    (timeout : ℕ) (script : List Round) (want : ℕ) (got : List ℕ) (s : Socket)
    → Receives want got s.nonblock s (receive_rounds timeout script want got s)
unfolding receive_rounds drop_bytes
receive_rounds-Receives timeout [] zero got s = ([], sym (append-nil got), refl, nothing_taken s)
receive_rounds-Receives timeout (round ∷ script) zero got s =
    ([], sym (append-nil got), refl, nothing_taken s)
receive_rounds-Receives timeout [] (suc more) got s = ([], omega arith, nothing_taken s)
receive_rounds-Receives timeout (round ∷ script) (suc more) got s =
    polled-Receives _ round.poll round.io _ (suc more) got s _ _
      (receive_rounds-Receives timeout script (suc more) got s)
      λ n. moved_Receives n more got s.nonblock s _ (
        receive_rounds-Receives timeout script (suc more - length (piece n more s))
          (got ++ piece n more s) (drop_bytes (length (piece n more s)) s))

-- The mode of the socket after a call with a timeout.
abbrev pub left_mode : System → ℕ → Socket → Bool
left_mode sys timeout s =
    if timeout == 0 then s.nonblock else if sys.can_set then true else s.nonblock

under_flag :
    (want : ℕ) (s : Socket) (r : Res Socket (Progress (List ℕ)))
    → Receives want [] true (set_flag true s) r
    → Receives want [] true s r
unfolding set_flag
under_flag want s (ok (returned bytes) new) (next, e, l, t) =
    (next, e, l, record { incoming = t.incoming; outgoing = t.outgoing; nonblock = t.nonblock })
under_flag want s (ok waiting new) (next, l, t) =
    (next, l, record { incoming = t.incoming; outgoing = t.outgoing; nonblock = t.nonblock })
under_flag want s (err e new) (next, l, t) =
    (next, l, record { incoming = t.incoming; outgoing = t.outgoing; nonblock = t.nonblock })
under_flag want s fault d = d

pub receive_timeout-Receives :
    (sys : System) (timeout want : ℕ) (s : Socket)
    → Receives want [] (left_mode sys timeout s) s (receive_timeout sys timeout want s)
unfolding receive_timeout set_flag
receive_timeout-Receives sys timeout want s = elim (Bool-cases (timeout == 0)) [
  | inl forever ↦ rw forever (receive_loop-Receives sys.calls want [] s)
  | inr limited ↦ elim (Bool-cases sys.can_set) [
    | inl set ↦
        rw (limited, set)
          (under_flag want s _
            (receive_rounds-Receives timeout sys.rounds want [] (set_flag true s)))
    | inr unset ↦ rw (limited, unset) ([], omega arith, nothing_taken s)
  ]
]

length-piece_positive :
    (n more : ℕ) (s : Socket) → 0 < length s.incoming → 0 < length (piece n more s)
unfolding piece take
length-piece_positive n more s h = go s.incoming h (leb n more)
  where
    go :
        (xs : List ℕ)
        → 0 < length xs
        → (few : Bool) → 0 < length (take (if few then suc n else suc more) xs)
    go [] l few = absurd (omega arith)
    go (x ∷ xs) l true = omega arith
    go (x ∷ xs) l false = omega arith

-- With no timeout the loop ends, all received, once as many calls have moved something as there are
-- bytes to be received, and so many come.
pub receive_loop-Returns :
    (script : List Io) (want : ℕ) (got : List ℕ) (s : Socket)
    → All GoesOn script
    → want ≤ moves script
    → want ≤ length s.incoming
    → Returns (receive_loop script want got s)
unfolding receive_loop drop_bytes
receive_loop-Returns [] zero got s g h c = tt
receive_loop-Returns (io ∷ script) zero got s g h c = tt
receive_loop-Returns [] (suc more) got s g h c = elim h [ ]
receive_loop-Returns (moved n ∷ script) (suc more) got s (_, g) h c =
    receive_loop-Returns script _ _ _ g
      (omega (arith, length-piece_positive n more s (omega arith)))
      (omega (arith, length-drop (length (piece n more s)) s.incoming, length-piece n more s))
receive_loop-Returns (nothing ∷ script) (suc more) got s (g, _) h c = absurd g
receive_loop-Returns (interrupted ∷ script) (suc more) got s (_, g) h c =
    receive_loop-Returns script (suc more) got s g h c
receive_loop-Returns (would_block ∷ script) (suc more) got s (_, g) h c =
    receive_loop-Returns script (suc more) got s g h c
receive_loop-Returns (broken ∷ script) (suc more) got s (g, _) h c = absurd g
