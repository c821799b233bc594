-- ===== src/Sync/Admission/Tests.antt =====
-- A device that guesses three codes, and one that pairs.
use bushido.Prelude.{ℕ, ◌≡◌, ◌≢◌, refl, ap, [], ◌∷◌, Bytes, codes, false, arith}
use bushido.Sync.Pairing.{PairResult}
use bushido.Sync.Incoming.{PairedDevice}
use bushido.Sync.Admission.{PairingState, too_many, admitted, admit, attempt}
use bushido.Sync.Admission.Laws.{attempts-limited}

abbrev tablet : PairedDevice
tablet = record {
  device_id = codes "t";
  name = codes "Tablet";
  noise_public_key = 3 ∷ [];
  fingerprint = codes "f";
}

abbrev idle : PairingState
idle = record {
  failed_attempts = [];
  pairing_active = false;
  pairing_code_sender = false;
  paired_devices = tablet ∷ record tablet { device_id = codes "p" } ∷ [];
}

abbrev phone : PairResult
phone = record {
  device_id = codes "p";
  device_name = codes "Phone";
  noise_public_key = 5 ∷ [];
  fingerprint = codes "g";
}

abbrev first : Bytes → ℕ
first [] = 0
first (b ∷ bytes) = b

differ : codes "t" ≢ codes "p"
differ e = let letters : ◌≡◌ {A = ℕ} 116 112 = ap first e in omega arith

attempts-limited_example :
    ((admit (codes "p") 330 (
        attempt
          (codes "p")
          50
          60
          "e"
          (attempt (codes "p") 30 40 "e" (attempt (codes "p") 10 20 "e" idle)))).0
      ≡ too_many)
    × ((admit (codes "t") 330 (
          attempt
            (codes "p")
            50
            60
            "e"
            (attempt (codes "p") 30 40 "e" (attempt (codes "p") 10 20 "e" idle)))).0
        ≡ admitted)
attempts-limited_example =
    attempts-limited (codes "p") (codes "t") 10 20 30 40 50 60 330 "e" idle differ refl refl refl
      (omega arith) (omega arith) (omega arith)
