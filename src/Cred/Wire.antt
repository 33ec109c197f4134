-- ===== src/Cred/Wire.antt =====
-- The wire format of a credential: what `auks_cred_pack` of auks_cred.c writes.
use auks.Base.{
  ℕ, ◌≤◌, ◌<◌, ◌^◌, ◌≡◌, sym, some, List, [], ◌++◌, append_assoc, append-nil, arith, length,
  length-append,
}
use auks.Base.Words.{to_int, htonl, length-htonl}
use auks.Base.Memory.{Allocator, read_at, read_at-append}
use auks.Message.{Message}
use auks.Message.Packing.{
  IsPacked, Packs, and_then-Packs, pack_int-Packs, pack_uid-Packs, pack_data-Packs,
}
use auks.Cred.{Cred, CredInfo, pack, pack_contents}

-- The whole principal array, and numbers that their fields of the wire format can hold.
pub record Fits (info : CredInfo) : Type 0 where
  pub principal_size : length info.principal ≡ 129
  pub uid_small : info.uid < 2 ^ 32
  pub starttime_small : info.starttime < 2 ^ 32
  pub endtime_small : info.endtime < 2 ^ 32
  pub renew_till_small : info.renew_till < 2 ^ 32
  pub addressless_small : info.addressless < 2 ^ 32
  pub crossrealm_small : info.crossrealm < 2 ^ 32

-- A credential as the daemon stores it.
pub record IsValid (cred : Cred) : Type 0 where
  pub fits : Fits cred.info
  pub open fits use *
  pub contents_size : length cred.contents ≡ 32768
  pub max_length_size : cred.max_length ≡ 32768
  pub length_small : cred.length ≤ 32768
  pub status_small : cred.status < 2 ^ 32

-- The bytes of the data, from its two lengths on.
unfoldable pub wire_contents : Cred → List ℕ
wire_contents cred =
    htonl 32768 ++ (htonl (to_int cred.length) ++ (cred.contents ++ htonl cred.status))

-- The bytes of `info`.
unfoldable pub wire_info : CredInfo → List ℕ
wire_info info =
    htonl 129
    ++ (info.principal
        ++ (htonl (to_int info.uid)
            ++ (htonl (to_int info.starttime)
                ++ (htonl (to_int info.endtime)
                    ++ (htonl (to_int info.renew_till)
                        ++ (htonl info.addressless ++ htonl info.crossrealm))))))

-- The bytes of a credential.
unfoldable pub wire : Cred → List ℕ
wire cred = wire_info cred.info ++ wire_contents cred

read_whole : (bytes : List ℕ) (n : ℕ) → n ≡ length bytes → read_at bytes 0 n ≡ some bytes
read_whole bytes n e = rw e (rw append-nil at (read_at-append [] bytes []))

module _ ⦃mem : Allocator⦄ where
  pack_contents-Packs :
      (cred : Cred) (msg : Message) (type : ℕ) (xs : List ℕ)
      → IsValid cred
      → IsPacked msg type xs
      → Packs type (xs ++ wire_contents cred) (pack_contents cred msg)
  unfolding pack_contents wire_contents
  pack_contents-Packs cred msg type xs v p =
      rw (v.max_length_size, read_whole cred.contents 32768 (sym v.contents_size))
        (simp (← append_assoc) (
          and_then-Packs _ _ type _ _ (pack_int-Packs 32768 msg type xs p) λ m p.
            and_then-Packs _ _ type _ _ (pack_int-Packs (to_int cred.length) m type _ p) λ m p.
              and_then-Packs _ _ type _ _ (pack_data-Packs cred.contents m type _ (omega arith) p)
                λ m p. pack_int-Packs cred.status m type _ p))

  -- Packing a valid credential appends its wire format to the message, or memory runs out; nothing
  -- is accessed out of bounds.
  pub pack-Packs :
      (cred : Cred) (msg : Message) (type : ℕ) (xs : List ℕ)
      → IsValid cred
      → IsPacked msg type xs
      → Packs type (xs ++ wire cred) (pack cred msg)
  unfolding pack wire wire_info
  pack-Packs cred msg type xs v p =
      let info = cred.info in
      simp (← append_assoc) (
        and_then-Packs _ _ type _ _ (pack_int-Packs 129 msg type xs p) λ m p.
          and_then-Packs _ _ type _ _ (pack_data-Packs info.principal m type _ (omega arith) p)
            λ m p. and_then-Packs _ _ type _ _ (pack_uid-Packs info.uid m type _ p) λ m p.
              and_then-Packs _ _ type _ _ (pack_int-Packs (to_int info.starttime) m type _ p) λ m p.
                and_then-Packs _ _ type _ _ (pack_int-Packs (to_int info.endtime) m type _ p) λ m p.
                  and_then-Packs _ _ type _ _ (pack_int-Packs (to_int info.renew_till) m type _ p)
                    λ m p.
                      and_then-Packs _ _ type _ _ (pack_int-Packs info.addressless m type _ p)
                        λ m p.
                          and_then-Packs _ _ type _ _ (pack_int-Packs info.crossrealm m type _ p)
                            λ m p. pack_contents-Packs cred m type _ v p)

pub length-wire_info : (info : CredInfo) → Fits info → length (wire_info info) ≡ 157
unfolding wire_info
length-wire_info info v = simp (length-append, length-htonl, v.principal_size)

pub length-wire : (cred : Cred) → IsValid cred → length (wire cred) ≡ 32937
unfolding wire wire_contents
length-wire cred v =
    simp (length-append, length-wire_info cred.info v.fits, length-htonl, v.contents_size)
