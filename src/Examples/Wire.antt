-- ===== src/Examples/Wire.antt =====
-- Buffers, messages and credentials on the wire.
use auks.Base.{
  ℕ, ◌+◌, ◌-◌, ◌^◌, ◌<◌, ◌≤◌, ◌≡◌, ◌↔◌, refl, none, some, List, [], ◌∷◌, ◌++◌, arith, length,
  length-append,
}
use auks.Base.Words.{htonl, length-htonl}
use auks.Base.Results.{fault}
use auks.Buffer.{Buffer, load, pack_data, unpack_data}
use auks.Buffer.View.{Split, Writes}
use auks.Buffer.Pack.{Loads, pack_data-Writes, load-Loads}
use auks.Buffer.Unpack.{ReadsUpTo, unpack_data_total}
use auks.Message
use auks.Message.{Message}
use auks.Message.Packing.{Packs}
use auks.Message.Unpacking.{Receives, load-Receives}
use auks.Cred.{pack, unpack, renew_test}
use auks.Cred.Wire.{wire, wire_info, pack-Packs, length-wire, length-wire_info}
use auks.Cred.Read.{unpack_lem}
use auks.Cred.RoundTrip.{Arrives, send, receive-send}
use auks.Cred.Wrap.{unpack_negative}
use auks.Cred.Lifetime.{IsTimed, renew_test_iff}
use auks.Message.Unpacking.{Delivers}
use auks.Examples.Values.{heap, info, cred, info-Fits, cred-IsValid}

-- Five bytes, of which two are read.
abbrev buffer : Buffer
buffer = record { bytes = some (1 ∷ 2 ∷ 3 ∷ 4 ∷ 5 ∷ []); length = 5; processed = 2 }

buffer-Split : Split buffer (1 ∷ 2 ∷ []) (3 ∷ 4 ∷ 5 ∷ [])
buffer-Split = record { contents = refl; done = refl; size = refl; bounded = omega arith }

unpack_data_total_example : ReadsUpTo 3 (1 ∷ 2 ∷ []) (3 ∷ 4 ∷ 5 ∷ []) buffer (unpack_data 3 buffer)
unpack_data_total_example =
    unpack_data_total 3 buffer (1 ∷ 2 ∷ []) (3 ∷ 4 ∷ 5 ∷ []) (omega arith) buffer-Split

pack_data-Writes_example :
    Writes (1 ∷ 2 ∷ 9 ∷ 9 ∷ 9 ∷ 9 ∷ []) (pack_data (9 ∷ 9 ∷ 9 ∷ 9 ∷ []) buffer)
pack_data-Writes_example =
    pack_data-Writes (9 ∷ 9 ∷ 9 ∷ 9 ∷ []) buffer (1 ∷ 2 ∷ []) (3 ∷ 4 ∷ 5 ∷ []) (omega arith)
      buffer-Split

load-Loads_example : Loads (7 ∷ 8 ∷ []) (load (7 ∷ 8 ∷ []))
load-Loads_example = load-Loads (7 ∷ 8 ∷ []) (omega arith)

-- A request for the credential of the user 1000.
load-Receives_example : Receives 3 (htonl 1000) (Message.load (htonl 3 ++ htonl 1000))
load-Receives_example =
    load-Receives 3 (htonl 1000) (omega arith) (omega (arith, length-htonl 1000))

abbrev started : Message
started = record {
  type = 24;
  buffer = record { bytes = some (htonl 24); length = 4; processed = 4 };
}

started-Split : Split started.buffer (htonl 24) []
unfolding htonl
started-Split = record { contents = refl; done = refl; size = refl; bounded = omega arith }

pack-Packs_example : Packs 24 (htonl 24 ++ wire cred) (pack cred started)
pack-Packs_example = pack-Packs cred started 24 (htonl 24) cred-IsValid (refl, ([], started-Split))

abbrev arrived : Message
arrived = record {
  type = 24;
  buffer = record {
    bytes = some (wire cred ++ []);
    length = length (wire cred ++ []);
    processed = 0;
  };
}

arrived-Split : Split arrived.buffer [] (wire cred ++ [])
arrived-Split = record {
  contents = refl;
  done = refl;
  size = omega arith;
  bounded = omega (arith, length-wire cred cred-IsValid, length-append (wire cred) []);
}

unpack_lem_example : Delivers cred 24 ([] ++ wire cred) [] (unpack arrived)
unpack_lem_example = unpack_lem cred arrived 24 [] [] cred-IsValid refl arrived-Split

receive-send_example : Arrives 24 cred (send 24 cred)
receive-send_example = receive-send 24 cred (omega arith) cred-IsValid

-- The same up to the maximal length, which is -100.
abbrev forged_bytes : List ℕ
forged_bytes = wire_info info ++ (htonl (2 ^ 32 - 100) ++ (htonl 700 ++ []))

abbrev forged : Message
forged = record {
  type = 24;
  buffer = record { bytes = some forged_bytes; length = length forged_bytes; processed = 0 };
}

forged-Split : Split forged.buffer [] forged_bytes
forged-Split = record {
  contents = refl;
  done = refl;
  size = omega arith;
  bounded = omega (
    arith,
    length-append (wire_info info) (htonl (2 ^ 32 - 100) ++ (htonl 700 ++ [])),
    length-append (htonl (2 ^ 32 - 100)) (htonl 700 ++ []),
    length-append (htonl 700) [],
    length-htonl (2 ^ 32 - 100),
    length-htonl 700,
    length-wire_info info info-Fits,
  );
}

unpack_negative_example : unpack forged ≡ fault
unpack_negative_example =
    unpack_negative info (2 ^ 32 - 100) 700 forged [] [] info-Fits (omega arith) (omega arith)
      (omega arith) (omega arith) forged-Split

cred-IsTimed : IsTimed cred 300 4800
cred-IsTimed = record {
  ordered = omega arith;
  endtime_small = omega arith;
  minlifetime_small = omega arith;
  now_small = omega arith;
}

renew_test_iff_example :
    (renew_test cred 300 4800 ≡ none) ↔ ((4800 ≤ 5000) × (5000 ≤ 4800 + 300) × (1000 + 300 < 5000))
renew_test_iff_example = renew_test_iff cred 300 4800 cred-IsTimed
