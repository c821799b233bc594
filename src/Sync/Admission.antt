-- ===== src/Sync/Admission.antt =====
-- Who may pair, in src-tauri/src/sync/mod.rs: the limits of `handle_incoming_pair`, what it notes of
-- an attempt, and the list of paired devices. A time is in seconds on the clock of `Instant`.
pub mod Laws
mod Tests
use Prim.Native.String.{String}
use bushido.Prelude.{
  ℕ, ◌+◌, ◌-◌, Bool, true, false, not, ◌&&◌, List, [], ◌∷◌, ◌++◌, Bytes, codes, leb, ltb, Option,
  none, some, Result, ok, err, if◌then◌else◌,
}
use bushido.Prelude.Table.{Eq, list_eq, list_beq, lookup, insert, erase}
use bushido.Sync.Pairing.{PairResult}
use bushido.Sync.Incoming.{PairedDevice}

-- The fields of `SyncState` that pairing uses; of the sender of the code, whether there is one.
pub record PairingState : Type 0 where
  pub failed_attempts : List (Bytes × (ℕ × ℕ))
  pub pairing_active : Bool
  pub pairing_code_sender : Bool
  pub paired_devices : List PairedDevice

abbrev pub elapsed : ℕ → ℕ → ℕ
elapsed now since = now - since

abbrev pub limited : ℕ → Option (ℕ × ℕ) → Bool
limited now none = false
limited now (some (count, since)) = leb 3 count && ltb (elapsed now since) 300

abbrev pub expired : ℕ → Option (ℕ × ℕ) → Bool
expired now none = false
expired now (some (count, since)) =
    not (leb 3 count && ltb (elapsed now since) 300) && leb 300 (elapsed now since)

-- The attempts after the check of the limit.
abbrev pub pruned : Bytes → ℕ → List (Bytes × (ℕ × ℕ)) → List (Bytes × (ℕ × ℕ))
pruned id now attempts = if expired now (lookup id attempts) then erase id attempts else attempts

-- How a request is met: with a refusal, or with the wait for the user's code.
pub data Admission : Type 0 where
  too_many already_pairing admitted : Admission

unfoldable pub admit : Bytes → ℕ → PairingState → Admission × PairingState
admit id now s =
    let s' = record s { failed_attempts = pruned id now s.failed_attempts } in
    if limited now (lookup id s.failed_attempts)
    then (too_many, s')
    else (if s.pairing_active
        then (already_pairing, s')
        else (admitted, record s' { pairing_active = true; pairing_code_sender = true }))

abbrev pub cleanup_pairing : PairingState → PairingState
cleanup_pairing s = record s { pairing_active = false; pairing_code_sender = false }

-- `devices.retain(|d| d.device_id != id)`
pub without : Bytes → List PairedDevice → List PairedDevice
without id [] = []
without id (d ∷ devices) =
    let rest = without id devices in if list_beq d.device_id id then rest else d ∷ rest

abbrev pub device_of : PairResult → PairedDevice
device_of r = record {
  device_id = r.device_id;
  name = r.device_name;
  noise_public_key = r.noise_public_key;
  fingerprint = r.fingerprint;
}

unfoldable pub store_paired_device : PairResult → PairingState → PairingState
unfolding without
store_paired_device r s = record s {
  paired_devices = without r.device_id s.paired_devices ++ (device_of r ∷ []);
}

unfoldable pub remove_device : Bytes → PairingState → PairingState
unfolding without
remove_device id s = record s { paired_devices = without id s.paired_devices }

abbrev pub count_of : Option (ℕ × ℕ) → ℕ
count_of none = 0
count_of (some (count, since)) = count

abbrev pub failed_once_more : Bytes → ℕ → PairingState → PairingState
failed_once_more id now s = record s {
  failed_attempts = insert id (count_of (lookup id s.failed_attempts) + 1, now) s.failed_attempts;
}

-- The end of an admitted request: no code within the time, or what `run_responder` returned.
unfoldable pub conclude_pair : Bytes → ℕ → Option (Result PairResult) → PairingState → PairingState
unfolding store_paired_device
conclude_pair id now none s = cleanup_pairing s
conclude_pair id now (some (ok r)) s = cleanup_pairing (store_paired_device r s)
conclude_pair id now (some (err e)) s = cleanup_pairing (failed_once_more id now s)

-- A request whose pairing fails, if it is admitted at all: when it comes, and when it fails.
abbrev pub after_admission : Bytes → ℕ → String → Admission × PairingState → PairingState
after_admission id now e (too_many, s) = s
after_admission id now e (already_pairing, s) = s
after_admission id now e (admitted, s) = conclude_pair id now (some (err e)) s

unfoldable pub attempt : Bytes → ℕ → ℕ → String → PairingState → PairingState
attempt id came failed e s = after_admission id failed e (admit id came s)
