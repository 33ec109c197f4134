-- ===== src/Buffer/Expand.antt =====
-- `_auks_buffer_expand` and `auks_buffer_init` of auks_buffer.c make room, and keep the contents.
use auks.Base.{
  ℕ, ◌+◌, ◌≤◌, ◌<◌, ◌^◌, ◌≡◌, refl, sym, ap, ◌∙◌, inl, inr, Option, none, some, List, [], ◌++◌,
  append_assoc, arith, length, drop, length-append, take-append-drop, ltb, Bool-cases,
}
use auks.Base.Words.{sub_size}
use auks.Base.Memory.{Allocator}
use auks.Buffer.{Buffer, grown_length, reallocated, allocated, allocate, expand, init}
use auks.Buffer.View.{Split, Leaves}

grown_enough :
    (old n : ℕ)
    → n < 2 ^ 31
    → old < 2 ^ 63
    → (old + n ≤ grown_length old n) × (grown_length old n ≤ old + n + 1024)
unfolding grown_length
grown_enough old n hn ho = ground arith

module _ ⦃mem : Allocator⦄ where
  -- A block that was moved to a larger one is a part of it.
  realloc-append :
      (old new : List ℕ) (n : ℕ)
      → mem.realloc old n ≡ some new
      → length old ≤ n
      → new ≡ old ++ drop (length old) new
  realloc-append old new n e h =
      sym (take-append-drop (length old) new)
      ∙ ap (λ k. k ++ drop (length old) new) (mem.realloc_keeps old n new e h)

  reallocated-Leaves :
      (xs ys : List ℕ) (m p room : ℕ) (r : Option (List ℕ))
      → mem.realloc (xs ++ ys) m ≡ r
      → p ≡ length xs
      → length xs + room ≤ m
      → length xs + length ys ≤ m
      → Leaves room xs
          (reallocated r (record { bytes = some (xs ++ ys); length = m; processed = p }))
  unfolding reallocated
  reallocated-Leaves xs ys m p room none e hp hr hm = inr refl
  reallocated-Leaves xs ys m p room (some new) e hp hr hm =
      let tail = drop (length (xs ++ ys)) new in
      let (size, small) = mem.realloc_size (xs ++ ys) m new e in
      let whole = realloc-append (xs ++ ys) new m e (omega (arith, length-append xs ys)) in
      let same : new ≡ xs ++ (ys ++ tail) = whole ∙ append_assoc xs ys tail in
      let split : length new ≡ length xs + length (ys ++ tail) =
        ap length same ∙ length-append xs (ys ++ tail) in
      (
        ys ++ tail,
        record { contents = ap some same; done = hp; size = omega arith; bounded = omega arith },
        omega arith,
      )

  allocated-Leaves :
      (m room : ℕ) (r : Option (List ℕ))
      → mem.malloc m ≡ r
      → room ≤ m
      → Leaves room [] (allocated r (record { bytes = none; length = m; processed = 0 }))
  unfolding allocated
  allocated-Leaves m room none e h = inl refl
  allocated-Leaves m room (some new) e h =
      let (size, small) = mem.malloc_size m new e in
      (
        new,
        record { contents = refl; done = refl; size = omega arith; bounded = omega arith },
        omega arith,
      )

  pub expand-Leaves :
      (n : ℕ) (buf : Buffer) (xs ys : List ℕ)
      → n < 2 ^ 31
      → Split buf xs ys
      → Leaves n xs (expand n buf)
  unfolding expand allocate
  expand-Leaves n buf xs ys h s = elim (Bool-cases (ltb (sub_size buf.length buf.processed) n)) [
    | inl short ↦
        let (enough, _) = grown_enough buf.length n h (omega (arith, s.size, s.bounded)) in
        rw (short, s.contents)
          (reallocated-Leaves xs ys (grown_length buf.length n) buf.processed n _ refl s.done
            (omega (arith, s.size)) (omega (arith, s.size)))
    | inr fits ↦
        rw (fits, s.contents)
          (
            ys,
            record { contents = refl; done = s.done; size = s.size; bounded = s.bounded },
            ground arith,
          )
  ]

  -- A new buffer has room for `n` bytes at least, and none before `processed`.
  pub init-Leaves : (n : ℕ) → n < 2 ^ 31 → Leaves n [] (init n)
  unfolding init expand allocate
  init-Leaves n h = elim (Bool-cases (ltb 1024 n)) [
    | inl large ↦
        let (enough, _) = grown_enough 1024 n h (omega arith) in
        rw large (allocated-Leaves (grown_length 1024 n) n _ refl (omega arith))
    | inr small ↦ rw small (allocated-Leaves 1024 n _ refl (ground arith))
  ]
