-- ===== src/Cred/Init/Accepted.antt =====
-- What `auks_cred_init` of auks_cred.c accepts, and what it makes of it.
use auks.Base.{
  ℕ, ◌≤◌, ◌<◌, ◌^◌, ◌≡◌, ◌≢◌, refl, sym, ap, ◌∙◌, Bool, true, false, not, Option, none, some, List,
  [], ◌∷◌, ◌++◌, append_assoc, arith, length, length-append, length-drop, ltb, le→leb,
  if◌then◌else◌,
}
use auks.Base.Lists.{take, drop, replicate, take-length-append}
use auks.Base.Words.{to_int}
use auks.Base.Results.{
  Res, ok, err, fault, Error, and_then, guard, or_fail, or_fault, cred_init_krb_ctx_init,
  cred_init_krb_auth_ctx_init, cred_init_krb_rd_buffer, cred_init_getpwnam,
  cred_init_buffer_too_large, cred_init_krb_rd_princ, cred_init_krb_princ_too_long,
  cred_init_krb_princ_to_uname,
}
use auks.Base.Memory.{write_at, write_at-append}
use auks.Cred.{Cred, CredInfo, invalid_uid, invalid_time}
use auks.Cred
use auks.Cred.Init.{
  Krb, KrbCred, Passwd, missing, failed, entry, set_principal, set_contents, blank, uid_of, adjust,
  info_of, set_info, freed, read, decode, init,
}

-- The two arrays of the structure.
pub record HasArrays (cred : Cred) : Type 0 where
  pub principal_size : length cred.info.principal ≡ 129
  pub contents_size : length cred.contents ≡ 32768

-- The credential describes the ticket in the data: its client, whose local user has the uid, and
-- whether the ticket is bound to addresses; and it holds the data.
pub record Accepted (krb : Krb) (bytes : List ℕ) (cred : Cred) : Type 0 where
  pub first : KrbCred
  pub others : List KrbCred
  pub principal : List ℕ
  pub username : List ℕ
  pub decoded : krb.rd_cred bytes ≡ some (first ∷ others)
  pub named : krb.unparse first.client ≡ some principal
  pub localname : krb.aname_to_localname first.client ≡ some username
  pub known : krb.getpwnam username ≡ entry cred.info.uid
  pub stored : (rest : List ℕ) × (cred.info.principal ≡ principal ++ (0 ∷ rest))
  pub addressless : cred.info.addressless ≡ (if first.has_addresses then 0 else 1)
  pub size : cred.length ≡ length bytes
  pub contents : take cred.length cred.contents ≡ bytes

-- Nothing of a credential is left.
pub record IsCleared (cred : Cred) : Type 0 where
  pub principal : cred.info.principal ≡ replicate 129 0
  pub uid : cred.info.uid ≡ invalid_uid
  pub times :
      (cred.info.starttime ≡ invalid_time)
      × (cred.info.endtime ≡ invalid_time)
      × (cred.info.renew_till ≡ invalid_time)
  pub addressless : cred.info.addressless ≡ 1
  pub crossrealm : cred.info.crossrealm ≡ 0
  pub contents : cred.contents ≡ replicate 32768 0
  pub size : cred.length ≡ 0

-- The client of the ticket in the data has no entry among the users.
pub record HasNoUser (krb : Krb) (bytes : List ℕ) : Type 0 where
  pub first : KrbCred
  pub others : List KrbCred
  pub username : List ℕ
  pub decoded : krb.rd_cred bytes ≡ some (first ∷ others)
  pub localname : krb.aname_to_localname first.client ≡ some username
  pub unknown : krb.getpwnam username ≡ missing

-- The reason of an error: the data are too large, or a call of the Kerberos library fails, or the name
-- of the client is too long, or it has no local user, or getpwnam_r fails.
pub data Fails (krb : Krb) (bytes : List ℕ) : Error → Type 0 where
  too_large : 32768 < length bytes → Fails krb bytes cred_init_buffer_too_large
  no_context : krb.init_context ≡ false → Fails krb bytes cred_init_krb_ctx_init
  no_auth_context : krb.auth_con_init ≡ false → Fails krb bytes cred_init_krb_auth_ctx_init
  not_read : krb.rd_cred bytes ≡ none → Fails krb bytes cred_init_krb_rd_buffer
  not_named :
      (first : KrbCred) (others : List KrbCred)
      → krb.rd_cred bytes ≡ some (first ∷ others)
      → krb.unparse first.client ≡ none
      → Fails krb bytes cred_init_krb_rd_princ
  too_long :
      (first : KrbCred) (others : List KrbCred) (principal : List ℕ)
      → krb.rd_cred bytes ≡ some (first ∷ others)
      → krb.unparse first.client ≡ some principal
      → 128 < length principal
      → Fails krb bytes cred_init_krb_princ_too_long
  not_local :
      (first : KrbCred) (others : List KrbCred)
      → krb.rd_cred bytes ≡ some (first ∷ others)
      → krb.aname_to_localname first.client ≡ none
      → Fails krb bytes cred_init_krb_princ_to_uname
  not_looked_up :
      (first : KrbCred) (others : List KrbCred) (username : List ℕ)
      → krb.rd_cred bytes ≡ some (first ∷ others)
      → krb.aname_to_localname first.client ≡ some username
      → krb.getpwnam username ≡ failed
      → Fails krb bytes cred_init_getpwnam

-- It is accepted, or the credential is cleared; or it is that of no user, whose uid is then read
-- from a structure that nothing was written to.
abbrev pub Accepts : Krb → List ℕ → Res Cred (Unit {0}) → Type 0
Accepts krb bytes (ok _ cred) = Accepted krb bytes cred
Accepts krb bytes (err e cred) = Fails krb bytes e × IsCleared cred
Accepts krb bytes fault = HasNoUser krb bytes

-- Writing at the front of an array.
write_front :
    (xs bs : List ℕ) → length bs ≤ length xs → write_at xs 0 bs ≡ some (bs ++ drop (length bs) xs)
write_front xs bs h = write_at-append [] xs bs h

length-front :
    (xs bs : List ℕ) → length bs ≤ length xs → length (bs ++ drop (length bs) xs) ≡ length xs
length-front xs bs h =
    omega (arith, length-append bs (drop (length bs) xs), length-drop (length bs) xs)

write_second : (x y : ℕ) (zs : List ℕ) → write_at (x ∷ y ∷ zs) 1 (0 ∷ []) ≡ some (x ∷ 0 ∷ zs)
unfolding write_at take drop
write_second x y zs = let fits : 2 ≤ length (x ∷ y ∷ zs) = omega arith in rw (le→leb _ _ fits)

adjust_keeps :
    (cs : List KrbCred) (info : CredInfo)
    → ((adjust cs info).uid ≡ info.uid)
      × ((adjust cs info).principal ≡ info.principal)
      × ((adjust cs info).addressless ≡ info.addressless)
unfolding adjust
adjust_keeps [] info = (refl, refl, refl)
adjust_keeps (c ∷ cs) info = adjust_keeps cs _

module _ (krb : Krb) (bytes : List ℕ) where
  -- The next step, behind one that may fail.
  abbrev P : Res Cred (Unit {0}) → Type 0
  P r = Accepts krb bytes (freed r)

  failed_P : (e : Error) (cred : Cred) → Fails krb bytes e → P (err e cred)
  unfolding freed Cred.free_contents
  failed_P e cred why = (
    why,
    record {
      principal = refl;
      uid = refl;
      times = (refl, refl, refl);
      addressless = refl;
      crossrealm = refl;
      contents = refl;
      size = refl;
    },
  )

  guard_then :
      (b : Bool) (e : Error) (cred : Cred) (f : Cred → Res Cred (Unit {0}))
      → (b ≡ false → Fails krb bytes e)
      → (b ≡ true → P (f cred))
      → P (and_then (guard b e cred) (λ _. f))
  guard_then true e cred f why k = k refl
  guard_then false e cred f why k = failed_P e cred (why refl)

  fail_then :
      {A : Type 0} (o : Option A) (e : Error) (cred : Cred) (f : A → Cred → Res Cred (Unit {0}))
      → (o ≡ none → Fails krb bytes e)
      → ((a : A) → o ≡ some a → P (f a cred))
      → P (and_then (or_fail o e cred) f)
  fail_then none e cred f why k = failed_P e cred (why refl)
  fail_then (some a) e cred f why k = k a refl

  uid_then :
      (p : Passwd) (cred : Cred) (f : ℕ → Cred → Res Cred (Unit {0}))
      → (p ≡ failed → Fails krb bytes cred_init_getpwnam)
      → (p ≡ missing → HasNoUser krb bytes)
      → ((uid : ℕ) → p ≡ entry uid → P (f uid cred))
      → P (and_then (uid_of p cred) f)
  unfolding uid_of freed
  uid_then failed cred f why total k = failed_P cred_init_getpwnam cred (why refl)
  uid_then missing cred f why total k = total refl
  uid_then (entry uid) cred f why total k = k uid refl

  principal_then :
      (Q : Res Cred (Unit {0}) → Type 0) (bs : List ℕ) (cred : Cred)
      (f : Cred → Res Cred (Unit {0}))
      → HasArrays cred
      → length bs ≤ 129
      → ((new : Cred)
          → HasArrays new
          → ((rest : List ℕ) × (new.info.principal ≡ bs ++ rest))
          → new.info.addressless ≡ cred.info.addressless
          → Q (f new))
      → Q (and_then (set_principal bs cred) (λ _. f))
  unfolding set_principal
  principal_then Q bs cred f a h k =
      let fits : length bs ≤ length cred.info.principal = omega (arith, a.principal_size) in
      rw (write_front cred.info.principal bs fits) (
        k _
          (record {
            principal_size = length-front cred.info.principal bs fits ∙ a.principal_size;
            contents_size = a.contents_size;
          })
          (_, refl) refl)

  second_then :
      (Q : Res Cred (Unit {0}) → Type 0) (cred : Cred)
      → HasArrays cred
      → ((new : Cred) → HasArrays new → new.info ≡ cred.info → Q (ok tt new))
      → Q (set_contents 1 (0 ∷ []) cred)
  unfolding set_contents
  second_then Q cred a k = go cred.contents refl
    where
      go :
          (xs : List ℕ)
          → cred.contents ≡ xs
          → Q (
              and_then
                (or_fault (write_at xs 1 (0 ∷ [])) cred)
                λ new cred. ok tt (record cred { contents = new }))
      go [] e = absurd (omega (arith, ap length e, a.contents_size))
      go (x ∷ []) e = absurd (omega (arith, ap length e, a.contents_size))
      go (x ∷ y ∷ zs) e = rw (write_second x y zs) (
          k _
            (record {
              principal_size = a.principal_size;
              contents_size = sym (ap length e) ∙ a.contents_size;
            })
            refl)

  blank_then :
      (cred : Cred) (f : Cred → Res Cred (Unit {0}))
      → HasArrays cred
      → ((new : Cred) → HasArrays new → new.info.addressless ≡ 1 → P (f new))
      → P (and_then (blank cred) (λ _. f))
  unfolding blank
  blank_then cred f a k =
      let Q : Res Cred (Unit {0}) → Type 0 = λ r. P (and_then r (λ _. f)) in
      principal_then Q (0 ∷ []) _ _
        (record { principal_size = a.principal_size; contents_size = a.contents_size })
        (omega arith)
        λ new a _ one.
          second_then Q new a λ last a same. k last a (ap (λ i. i.addressless) same ∙ one)

  -- The ticket is read, and its client is known.
  ended :
      (first : KrbCred) (rest : List KrbCred) (principal username : List ℕ) (uid : ℕ) (cred : Cred)
      → length bytes ≤ 32768
      → HasArrays cred
      → cred.info.addressless ≡ 1
      → ((tail : List ℕ) × (cred.info.principal ≡ (principal ++ (0 ∷ [])) ++ tail))
      → krb.rd_cred bytes ≡ some (first ∷ rest)
      → krb.unparse first.client ≡ some principal
      → krb.aname_to_localname first.client ≡ some username
      → krb.getpwnam username ≡ entry uid
      → P (and_then (set_info uid first rest (length bytes) cred) (λ _. set_contents 0 bytes))
  unfolding set_info set_contents info_of freed
  ended first rest principal username uid cred small a one (tail, stored) e₁ e₂ e₃ e₄ =
      let fits : length bytes ≤ length cred.contents = omega (arith, a.contents_size) in
      let (same_uid, same_principal, same_addressless) = adjust_keeps rest _ in
      rw (write_front cred.contents bytes fits) (record {
        first = first;
        others = rest;
        principal = principal;
        username = username;
        decoded = e₁;
        named = e₂;
        localname = e₃;
        known = e₄ ∙ ap entry (sym same_uid);
        stored = (tail, same_principal ∙ stored ∙ append_assoc principal (0 ∷ []) tail);
        addressless = ap (λ n. if first.has_addresses then 0 else n) (same_addressless ∙ one);
        size = omega arith;
        contents =
            ap (λ n. take n (bytes ++ drop (length bytes) cred.contents)) (omega arith)
            ∙ take-length-append bytes (drop (length bytes) cred.contents);
      })

  read_P :
      (creds : List KrbCred) (cred : Cred)
      → krb.rd_cred bytes ≡ some creds
      → creds ≢ []
      → length bytes ≤ 32768
      → HasArrays cred
      → cred.info.addressless ≡ 1
      → P (read krb bytes (length bytes) creds cred)
  unfolding read
  read_P [] cred e some_cred small a one = absurd (some_cred refl)
  read_P (first ∷ rest) cred e some_cred small a one =
      fail_then _ _ cred _ (not_named first rest e) λ principal e₂.
        guard_then (not (ltb 128 (length principal))) _ cred _
          (λ long. too_long first rest principal e e₂ (ground arith))
          λ short.
            let bound : length principal ≤ 128 = ground arith in
            principal_then P (principal ++ (0 ∷ [])) cred _ a
              (omega (arith, length-append principal (0 ∷ [])))
              λ new a stored same. fail_then _ _ new _ (not_local first rest e) λ username e₃.
                uid_then _ new _ (not_looked_up first rest username e e₃)
                  (λ unknown. record {
                    first = first;
                    others = rest;
                    username = username;
                    decoded = e;
                    localname = e₃;
                    unknown = unknown;
                  })
                  λ uid e₄.
                    ended first rest principal username uid new small a (same ∙ one) stored e e₂ e₃
                      e₄

  -- auks_cred_init on data of less than 2 ^ 32 bytes either gives the credential of the ticket in
  -- the data, with the name of its client, the uid of its local user, whether it is bound to
  -- addresses, and the data itself; or an error, for a reason that is there (the data are too
  -- large, a call of the Kerberos library or getpwnam_r fails, the name of the client is too
  -- long), and a credential with all its fields cleared. It never writes outside of the two
  -- arrays. It is undefined only where getpwnam_r returns 0 without an entry. The structure has
  -- its two arrays and krb5_rd_cred gives one ticket at least.
  pub init-Accepts :
      (cred : Cred)
      → length bytes < 2 ^ 32
      → krb.rd_cred bytes ≢ some []
      → HasArrays cred
      → Accepts krb bytes (init krb (some (some bytes)) (length bytes) cred)
  unfolding init decode
  init-Accepts cred small nonempty a = blank_then cred _ a λ new a one.
      guard_then (not (ltb 32768 (to_int (length bytes)))) _ new _
        (λ large. too_large (ground arith))
        λ short.
          guard_then krb.init_context cred_init_krb_ctx_init new
            (λ c.
              and_then (guard krb.auth_con_init cred_init_krb_auth_ctx_init c)
                (λ _. decode krb bytes (length bytes)))
            no_context
            λ _.
              guard_then krb.auth_con_init cred_init_krb_auth_ctx_init new
                (decode krb bytes (length bytes)) no_auth_context
                λ _.
                  fail_then (krb.rd_cred bytes) cred_init_krb_rd_buffer new
                    (read krb bytes (length bytes)) not_read
                    λ creds e.
                      read_P creds new e (λ empty. nonempty (e ∙ ap some empty)) (ground arith) a
                        one
