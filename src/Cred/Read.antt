-- ===== src/Cred/Read.antt =====
-- What `auks_cred_unpack` of auks_cred.c makes of the bytes that it is sent.
use auks.Base.{
  ℕ, ◌<◌, ◌^◌, ◌≡◌, refl, sym, ap, ◌∙◌, some, List, [], ◌++◌, append_assoc, append-nil, arith,
  length, drop_all, length-replicate, le→ltb_false,
}
use auks.Base.Lists.{replicate}
use auks.Base.Words.{to_int, htonl}
use auks.Base.Results.{Res, and_then, Act}
use auks.Base.Memory.{write_at, write_at-append}
use auks.Message.{Message, unpack_int, unpack_uid, unpack_data}
use auks.Buffer.{Buffer}
use auks.Buffer.View.{Split}
use auks.Message.Unpacking.{
  Delivers, after, unpack_int-Delivers, unpack_uid-Delivers, unpack_data-Delivers,
}
use auks.Cred.{Cred, CredInfo, zeroed, unpack, unpack_info, unpack_contents}
use auks.Cred.Wire.{IsValid, Fits, wire, wire_info, wire_contents}

-- Reading an integer, a uid or data, and going on with it.
module _ {B : Type 0} (P : Res Message B → Type 0) where
  abbrev Next : {A : Type 0} → (A → Act Message B) → A → ℕ → List ℕ → List ℕ → Type 0
  Next f a type xs ys = (m : Message) → m.type ≡ type → Split m.buffer xs ys → P (f a m)

  pub int_then :
      (f : ℕ → Act Message B) (i : ℕ) (msg : Message) (type : ℕ) (xs ys : List ℕ)
      → i < 2 ^ 32
      → msg.type ≡ type
      → Split msg.buffer xs (htonl i ++ ys)
      → Next f i type (xs ++ htonl i) ys
      → P (and_then (unpack_int msg) f)
  int_then f i msg type xs ys small t s =
      after P _ f i type _ ys (unpack_int-Delivers i msg type xs ys small t s)

  uid_then :
      (f : ℕ → Act Message B) (i : ℕ) (msg : Message) (type : ℕ) (xs ys : List ℕ)
      → i < 2 ^ 32
      → msg.type ≡ type
      → Split msg.buffer xs (htonl i ++ ys)
      → Next f i type (xs ++ htonl i) ys
      → P (and_then (unpack_uid msg) f)
  uid_then f i msg type xs ys small t s =
      after P _ f i type _ ys (unpack_uid-Delivers i msg type xs ys small t s)

  data_then :
      (f : List ℕ → Act Message B) (bytes : List ℕ) (n : ℕ) (msg : Message) (type : ℕ)
      (xs ys : List ℕ)
      → n ≡ length bytes
      → msg.type ≡ type
      → Split msg.buffer xs (bytes ++ ys)
      → Next f bytes type (xs ++ bytes) ys
      → P (and_then (unpack_data n msg) f)
  data_then f bytes n msg type xs ys h t s =
      after P _ f bytes type _ ys (unpack_data-Delivers bytes n msg type xs ys h t s)

-- What has been read piece by piece, in one piece.
join₄ :
    (buf : Buffer) (xs a b c d ys : List ℕ)
    → Split buf (xs ++ a ++ b ++ c ++ d) ys
    → Split buf (xs ++ (a ++ (b ++ (c ++ d)))) ys
join₄ buf xs a b c d ys s = simp (← append_assoc) s

join₈ :
    (buf : Buffer) (xs a b c d e f g h ys : List ℕ)
    → Split buf (xs ++ a ++ b ++ c ++ d ++ e ++ f ++ g ++ h) ys
    → Split buf (xs ++ (a ++ (b ++ (c ++ (d ++ (e ++ (f ++ (g ++ h)))))))) ys
join₈ buf xs a b c d e f g h ys s = simp (← append_assoc) s

write_whole : (old bytes : List ℕ) → length bytes ≡ length old → write_at old 0 bytes ≡ some bytes
write_whole old bytes e =
    write_at-append [] old bytes (omega arith)
    ∙ ap (λ k. some (bytes ++ k)) (drop_all (length bytes) old (omega arith))
    ∙ ap some (append-nil bytes)

unpack_contents_lem :
    (cred : Cred) (msg : Message) (type : ℕ) (xs ys : List ℕ)
    → IsValid cred
    → msg.type ≡ type
    → Split msg.buffer xs (wire_contents cred ++ ys)
    → Delivers cred type (xs ++ wire_contents cred) ys (unpack_contents cred.info msg)
unfolding unpack_contents wire_contents zeroed
unpack_contents_lem cred msg type xs ys v e s =
    let len : to_int cred.length ≡ cred.length = omega (arith, v.length_small) in
    let whole : Cred = record {
      info = cred.info;
      contents = cred.contents;
      length = to_int cred.length;
      max_length = 32768;
      status = cred.status;
    } in
    let same : whole ≡ cred = λ i. record {
      info = cred.info;
      contents = cred.contents;
      length = len i;
      max_length = sym v.max_length_size i;
      status = cred.status;
    } in
    let P = Delivers cred type (xs ++ wire_contents cred) ys in
    let small : to_int cred.length < 2 ^ 32 = omega arith in
    let fits = le→ltb_false 32768 (to_int cred.length) (omega (arith, v.length_small)) in
    let stored =
      write_whole (replicate 32768 0) cred.contents
        (v.contents_size ∙ sym (length-replicate 32768 0)) in
    int_then P _ 32768 msg type xs _ (omega arith) e (simp append_assoc at s) λ m t s.
      int_then P _ (to_int cred.length) m type _ _ small t s λ m t s. rw fits (
        data_then P _ cred.contents 32768 m type _ _ (sym v.contents_size) t s λ m t s. rw stored (
          int_then P _ cred.status m type _ ys v.status_small t s
            λ m t s. (same, t, join₄ m.buffer xs _ _ _ _ ys s)))

-- The call comes down to reading the data, from `ys` on.
abbrev pub Ends : CredInfo → ℕ → List ℕ → List ℕ → Res Message Cred → Type 0
Ends info type xs ys r =
    (m : Message) × (r ≡ unpack_contents info m) × (m.type ≡ type) × Split m.buffer xs ys

-- Reading the bytes of `info`, whatever stands behind them, ends where the data begins.
pub read_info :
    (info : CredInfo) (msg : Message) (type : ℕ) (xs ys : List ℕ)
    → Fits info
    → msg.type ≡ type
    → Split msg.buffer xs (wire_info info ++ ys)
    → Ends info type (xs ++ wire_info info) ys (unpack msg)
unfolding unpack unpack_info wire_info
read_info info msg type xs ys v t s =
    let uid : to_int info.uid ≡ info.uid = omega (arith, v.uid_small) in
    let starttime : to_int info.starttime ≡ info.starttime = omega (arith, v.starttime_small) in
    let endtime : to_int info.endtime ≡ info.endtime = omega (arith, v.endtime_small) in
    let renew_till : to_int info.renew_till ≡ info.renew_till = omega (arith, v.renew_till_small) in
    let s = rw (uid, starttime, endtime, renew_till) at (simp append_assoc at s) in
    let P = Ends info type (xs ++ wire_info info) ys in
    int_then P _ 129 msg type _ _ (omega arith) t s λ m t s.
      data_then P _ info.principal 129 m type _ _ (sym v.principal_size) t s λ m t s.
        uid_then P _ info.uid m type _ _ v.uid_small t s λ m t s.
          int_then P _ info.starttime m type _ _ v.starttime_small t s λ m t s.
            int_then P _ info.endtime m type _ _ v.endtime_small t s λ m t s.
              int_then P _ info.renew_till m type _ _ v.renew_till_small t s λ m t s.
                int_then P _ info.addressless m type _ _ v.addressless_small t s λ m t s.
                  int_then P _ info.crossrealm m type _ _ v.crossrealm_small t s λ m t s. (
                    m,
                    refl,
                    t,
                    rw (uid, starttime, endtime, renew_till)
                        (join₈ m.buffer xs _ _ _ _ _ _ _ _ ys s),
                  )

-- Unpacking reads a valid credential back from its wire format, whatever stands behind it, and
-- stops right there.
pub unpack_lem :
    (cred : Cred) (msg : Message) (type : ℕ) (xs ys : List ℕ)
    → IsValid cred
    → msg.type ≡ type
    → Split msg.buffer xs (wire cred ++ ys)
    → Delivers cred type (xs ++ wire cred) ys (unpack msg)
unfolding wire
unpack_lem cred msg type xs ys v t s =
    let (m, e, t, s) = read_info cred.info msg type xs _ v.fits t (rw append_assoc at s) in
    rw (e, ← append_assoc xs (wire_info cred.info) (wire_contents cred))
      (unpack_contents_lem cred m type _ ys v t s)
