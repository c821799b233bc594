-- ===== src/Sync/Admission/Laws.antt =====
-- What the limits on pairing promise, and the list of paired devices, in src-tauri/src/sync/mod.rs.
use Prim.Native.String.{String}
use bushido.Prelude.{
  ℕ, ◌+◌, ◌-◌, ◌<◌, ◌≡◌, ◌≢◌, refl, sym, ap, ◌∙◌, inl, inr, false, List, [], ◌∷◌, ◌++◌, Bytes,
  lt→ltb, Option, none, some, ok, if◌then◌else◌, Bool-cases, arith,
}
use bushido.Prelude.Table.{list_eq, list_beq, list_beq_iff, list_beq-false, lookup, lookup-insert}
use bushido.Sync.Pairing.{PairResult}
use bushido.Sync.Incoming.{PairedDevice, find_device}
use bushido.Sync.Admission.{
  PairingState, limited, too_many, admitted, admit, without, device_of, store_paired_device,
  conclude_pair, expired, count_of, attempt,
}

find-without :
    (id : Bytes) (devices : List PairedDevice) → find_device id (without id devices) ≡ none
unfolding without
find-without id [] = refl
find-without id (d ∷ devices) = elim (Bool-cases (list_beq d.device_id id)) [
  | inl same ↦ rw same (find-without id devices)
  | inr other ↦ rw other (rw other (find-without id devices))
]

find-without_other :
    (id other : Bytes) (devices : List PairedDevice)
    → list_beq id other ≡ false
    → find_device other (without id devices) ≡ find_device other devices
unfolding without
find-without_other id other [] ne = refl
find-without_other id other (d ∷ devices) ne = elim (Bool-cases (list_beq d.device_id id)) [
  | inl same ↦
      let gone : list_beq d.device_id other ≡ false =
        ap (λ x. list_beq x other) ((list_beq_iff d.device_id id).0 same) ∙ ne in
      rw same (rw gone (find-without_other id other devices ne))
  | inr kept ↦ elim (Bool-cases (list_beq d.device_id other)) [
    | inl here ↦ rw kept (rw here refl)
    | inr on ↦ rw kept (rw on (find-without_other id other devices ne))
  ]
]

or_last : Bytes → PairedDevice → Option PairedDevice → Option PairedDevice
or_last id d none = if list_beq d.device_id id then some d else none
or_last id d (some e) = some e

find-append :
    (id : Bytes) (d : PairedDevice) (devices : List PairedDevice)
    → find_device id (devices ++ (d ∷ [])) ≡ or_last id d (find_device id devices)
unfolding or_last
find-append id d [] = refl
find-append id d (e ∷ devices) = elim (Bool-cases (list_beq e.device_id id)) [
  | inl here ↦ rw here refl
  | inr on ↦ rw on (find-append id d devices)
]

or_last-other :
    (id : Bytes) (d : PairedDevice) (o : Option PairedDevice)
    → list_beq d.device_id id ≡ false
    → or_last id d o ≡ o
unfolding or_last
or_last-other id d none ne = rw ne refl
or_last-other id d (some e) ne = refl

-- A pairing that has succeeded: its device is found by its id, with the key of the pairing, and every
-- other device is found as before.
pub conclude_pair-finds :
    (id other : Bytes) (now : ℕ) (r : PairResult) (s : PairingState)
    → other ≢ r.device_id
    → let devices = (conclude_pair id now (some (ok r)) s).paired_devices in
      (find_device r.device_id devices ≡ some (device_of r))
      × (find_device other devices ≡ find_device other s.paired_devices)
unfolding conclude_pair store_paired_device or_last
conclude_pair-finds id other now r s ne =
    let gone = find-without r.device_id s.paired_devices in
    let mine = (list_beq_iff r.device_id r.device_id).1 refl in
    let apart = list_beq-false r.device_id other (λ e. ne (sym e)) in
    (
      find-append r.device_id (device_of r) (without r.device_id s.paired_devices)
          ∙ rw gone (rw mine refl),
      find-append other (device_of r) (without r.device_id s.paired_devices)
          ∙ or_last-other other (device_of r) _ apart
          ∙ find-without_other r.device_id other s.paired_devices apart,
    )

attempt-counts :
    (id : Bytes) (came failed : ℕ) (e : String) (s : PairingState) (entry : Option (ℕ × ℕ))
    → lookup id s.failed_attempts ≡ entry
    → expired came entry ≡ false
    → limited came entry ≡ false
    → s.pairing_active ≡ false
    → let s' = attempt id came failed e s in
      (lookup id s'.failed_attempts ≡ some (count_of entry + 1, failed))
      × (s'.pairing_active ≡ false)
      × ((other : Bytes)
          → list_beq id other ≡ false
          → lookup other s'.failed_attempts ≡ lookup other s.failed_attempts)
unfolding attempt admit conclude_pair
attempt-counts id came failed e s entry has young few idle =
    let mine = (list_beq_iff id id).1 refl in
    rw has (
      rw (young, few)
        (rw idle (
          rw has (
            lookup-insert id id _ s.failed_attempts ∙ rw mine refl,
            refl,
            λ other ne. lookup-insert id other _ s.failed_attempts ∙ rw ne refl,
          ))))

-- A device that has not failed before fails three times, each new request coming less than 300 seconds
-- after the failure before: for 300 seconds from the last failure it is refused. A request under
-- another id that has not failed is admitted at once.
pub attempts-limited :
    (id other : Bytes) (a1 f1 a2 f2 a3 f3 now : ℕ) (e : String) (s : PairingState)
    → other ≢ id
    → lookup id s.failed_attempts ≡ none
    → lookup other s.failed_attempts ≡ none
    → s.pairing_active ≡ false
    → a2 - f1 < 300
    → a3 - f2 < 300
    → now - f3 < 300
    → let s3 = attempt id a3 f3 e (attempt id a2 f2 e (attempt id a1 f1 e s)) in
      ((admit id now s3).0 ≡ too_many) × ((admit other now s3).0 ≡ admitted)
unfolding admit
attempts-limited id other a1 f1 a2 f2 a3 f3 now e s ne new unknown idle soon2 soon3 soon =
    let apart = list_beq-false id other (λ p. ne (sym p)) in
    let (c1, i1, o1) = attempt-counts id a1 f1 e s none new refl refl idle in
    let s1 = attempt id a1 f1 e s in
    let (c2, i2, o2) =
      attempt-counts id a2 f2 e s1 (some (1, f1)) c1 (ground arith) (ground arith) i1 in
    let s2 = attempt id a2 f2 e s1 in
    let (c3, i3, o3) =
      attempt-counts id a3 f3 e s2 (some (2, f2)) c2 (ground arith) (ground arith) i2 in
    let same : lookup other (attempt id a3 f3 e s2).failed_attempts ≡ none =
      o3 other apart ∙ o2 other apart ∙ o1 other apart ∙ unknown in
    (rw c3 (rw (lt→ltb (now - f3) 300 soon) refl), rw same (rw i3 refl))
