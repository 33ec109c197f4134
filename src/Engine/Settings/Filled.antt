-- ===== src/Engine/Settings/Filled.antt =====
-- The texts of an engine of src/api/auks/auks_engine.c and the test that they are all there.
use auks.Base.{
  ℕ, ◌+◌, ◌≡◌, refl, sym, true, Option, none, some, List, length, Bool-cases, and_iff, inl, inr,
  true-false,
}
use auks.Base.Memory.{Allocator, has_memory}
use auks.Base.Text.{c_str}
use auks.Engine.{Engine, Server, is_some, init_strdup, is_complete, address_of}

-- The address of a server, which is its host where none is given.
unfoldable pub address_or_host : Server → Option (List ℕ)
address_or_host s = elim s.address [ none ↦ s.host | some a ↦ some a ]

-- A text, and its copy.
abbrev pub Copies : Option (List ℕ) → Option (List ℕ) → Type 0
Copies o copy = (t : List ℕ) × (o ≡ some t) × (copy ≡ some (c_str t))

module _ ⦃mem : Allocator⦄ where
  pub init_strdup-Copies :
      (o : Option (List ℕ)) → is_some (init_strdup o) ≡ true → Copies o (init_strdup o)
  unfolding init_strdup
  init_strdup-Copies none h = cc
  init_strdup-Copies (some s) h = elim (Bool-cases (has_memory (length (c_str s) + 1))) [
    | inl room ↦ rw room (s, refl, refl)
    | inr full ↦ let h' = rw full at h in absurd (true-false (sym h'))
  ]

  pub address_of-host : (s : Server) → address_of s ≡ init_strdup (address_or_host s)
  unfolding address_of address_or_host
  address_of-host s = go s.address refl
    where
      go : (o : Option (List ℕ)) → s.address ≡ o → address_of s ≡ init_strdup (address_or_host s)
      go none e = rw e refl
      go (some a) e = rw e refl

  pub record IsFilled (e : Engine) : Type 0 where
    pub primary_hostname : is_some e.primary_hostname ≡ true
    pub primary_address : is_some e.primary_address ≡ true
    pub primary_port : is_some e.primary_port ≡ true
    pub primary_principal : is_some e.primary_principal ≡ true
    pub secondary_hostname : is_some e.secondary_hostname ≡ true
    pub secondary_address : is_some e.secondary_address ≡ true
    pub secondary_port : is_some e.secondary_port ≡ true
    pub secondary_principal : is_some e.secondary_principal ≡ true
    pub cross_realm : is_some e.cross_realm ≡ true
    pub logfile : is_some e.logfile ≡ true
    pub debugfile : is_some e.debugfile ≡ true
    pub renewer_logfile : is_some e.renewer_logfile ≡ true
    pub renewer_debugfile : is_some e.renewer_debugfile ≡ true

  pub complete-Filled : (e : Engine) → is_complete e ≡ true → IsFilled e
  unfolding is_complete
  complete-Filled e h =
      let (h, m) = (and_iff _ _).0 h in
      let (h, l) = (and_iff _ _).0 h in
      let (h, k) = (and_iff _ _).0 h in
      let (h, j) = (and_iff _ _).0 h in
      let (h, i) = (and_iff _ _).0 h in
      let (h, g) = (and_iff _ _).0 h in
      let (h, f) = (and_iff _ _).0 h in
      let (h, d) = (and_iff _ _).0 h in
      let (h, c) = (and_iff _ _).0 h in
      let (h, b) = (and_iff _ _).0 h in
      let (h, a) = (and_iff _ _).0 h in
      let (h, z) = (and_iff _ _).0 h in
      record {
        primary_hostname = h;
        primary_address = z;
        primary_port = a;
        primary_principal = b;
        secondary_hostname = c;
        secondary_address = d;
        secondary_port = f;
        secondary_principal = g;
        cross_realm = i;
        logfile = j;
        debugfile = k;
        renewer_logfile = l;
        renewer_debugfile = m;
      }

  pub filled_complete : (e : Engine) → IsFilled e → is_complete e ≡ true
  unfolding is_complete
  filled_complete e f =
      rw
        (
          f.primary_hostname, f.primary_address, f.primary_port, f.primary_principal,
          f.secondary_hostname, f.secondary_address, f.secondary_port, f.secondary_principal,
          f.cross_realm, f.logfile, f.debugfile, f.renewer_logfile, f.renewer_debugfile,
        )
        refl
