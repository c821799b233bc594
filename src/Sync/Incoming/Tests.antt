-- ===== src/Sync/Incoming/Tests.antt =====
-- Two devices whose documents count the changes of each, as a pair of numbers.
use bushido.Prelude.{
  ℕ, zero, suc, max, ◌++◌, ◌≡◌, refl, ap, subst, true, List, [], ◌∷◌, Bytes, codes, Option, none,
  some, Result, ok, err, arith,
}
use bushido.Sync.Talk.{Talk, fault}
use bushido.Sync.Talk.Tcp.{converse}
use bushido.Sync.Talk.Pair.{Side, on_left, on_right, schedule, rounds}
use bushido.Sync.Talk.Limits.{Fits, is_sent, is_taken}
use bushido.Sync.Protocol.{
  SyncMessage, Format, sync_request, send_tab, ping, sync_accept, send_tab_ack,
}
use bushido.Sync.Document.{copy_done, Loro, SyncDoc, import_delta}
use bushido.Sync.Engine.{Lz4, updates_for}
use bushido.Sync.Engine.Changes.{SyncLaws}
use bushido.Sync.Engine.Recovery.{IsKept, IsBackedUp, import_delta-recoverable}
use bushido.Sync.Incoming.{
  PairedDevice, tab, TabReceived, tab_received, find_device, handle_incoming_sync,
}
use bushido.Sync.Incoming.Converge.{
  meeting, limited_meeting, IsSynced, ended, sync-converges, sync-panics,
}
use bushido.Sync.Incoming.Guards.{handle_incoming_sync-paired}

abbrev joined : ℕ × ℕ → ℕ × ℕ → ℕ × ℕ
joined (m, n) (k, l) = (max m k, max n l)

abbrev exported : ℕ × ℕ → Bytes
exported (zero, zero) = []
exported (m, n) = m ∷ n ∷ []

abbrev import_counts : Bytes → ℕ × ℕ → Result (Unit {0}) × (ℕ × ℕ)
import_counts (m ∷ n ∷ []) d = (ok tt, joined d (m, n))
import_counts [] d = (ok tt, d)
import_counts other d = (err "import", d)

abbrev decode_counts : Bytes → Result (ℕ × ℕ)
decode_counts (m ∷ n ∷ []) = ok (m, n)
decode_counts other = err "decode vv"

abbrev counting : (ℕ × ℕ → Bytes) → Loro
counting json = record {
  Doc = ℕ × ℕ;
  VersionVector = ℕ × ℕ;
  oplog_vv = λ d. d;
  default_vv = (0, 0);
  encode_vv = λ v. v.0 ∷ v.1 ∷ [];
  decode_vv = decode_counts;
  export_updates = λ v d. ok (exported d);
  snapshot = λ d. ok (exported d);
  import = import_counts;
  bookmarks_json = json;
}

abbrev raw : Lz4
raw = record { compress = λ b. b; decompress = λ b. ok b }

pair_eq : {a b c d : ℕ} → a ≡ c → b ≡ d → ◌≡◌ {A = ℕ × ℕ} (a, b) (c, d)
pair_eq p q = cc

abbrev ok_value : Result Bytes → Bytes
ok_value (ok b) = b
ok_value (err e) = []

imports-exported : (d e : ℕ × ℕ) → import_counts (exported d) e ≡ (ok tt, joined e d)
imports-exported (zero, zero) (k, l) = ap (λ d. (ok tt, d)) (pair_eq (omega arith) (omega arith))
imports-exported (zero, suc n) e = refl
imports-exported (suc m, n) e = refl

brings :
    (d e : ℕ × ℕ) (b : Bytes)
    → ok (exported d) ≡ ok b
    → (e' : ℕ × ℕ) × (import_counts b e ≡ (ok tt, e')) × (e' ≡ joined e d)
brings d e b same = (
  joined e d,
  subst (λ c. import_counts c e ≡ (ok tt, joined e d)) (ap ok_value same) (imports-exported d e),
  refl,
)

nothing-joined : (d x : ℕ × ℕ) → ok (exported d) ≡ ok [] → joined x d ≡ x
nothing-joined (zero, zero) (k, l) e = pair_eq (omega arith) (omega arith)
nothing-joined (zero, suc n) x e = cc
nothing-joined (suc m, n) x e = cc

counting-SyncLaws : (json : ℕ × ℕ → Bytes) → SyncLaws (counting json) raw
counting-SyncLaws json = record {
  decompress-compress = λ b. refl;
  decode-encode = λ v. refl;
  Changes = ℕ × ℕ;
  changes = λ d. d;
  join = joined;
  join_comm = λ x y. pair_eq (omega arith) (omega arith);
  join_assoc = λ x y z. pair_eq (omega arith) (omega arith);
  join_idem = λ x. pair_eq (omega arith) (omega arith);
  exports = λ v d. (exported d, refl);
  snapshots = λ d. (exported d, refl);
  import-delta = brings;
  import-all = brings;
  no_updates = nothing-joined;
}

abbrev silent : ℕ × ℕ → Bytes
silent d = []

abbrev desk_doc : (json : ℕ × ℕ → Bytes) → SyncDoc (counting json)
desk_doc json = record {
  doc = (2, 0);
  file = some (9 ∷ []);
  bak = none;
  disk = record { writes = true; renames = true; copies = copy_done };
}

abbrev laptop_doc : (json : ℕ × ℕ → Bytes) → SyncDoc (counting json)
laptop_doc json = record (desk_doc json) { doc = (0, 3); file = none }

abbrev desk : PairedDevice
desk = record {
  device_id = codes "d1";
  name = codes "Desk";
  noise_public_key = 1 ∷ 2 ∷ [];
  fingerprint = codes "f1";
}

abbrev phone : PairedDevice
phone = record desk { device_id = codes "p1"; name = codes "Phone" }

abbrev no_pairing : Bytes → Bytes → Talk (Unit {0})
no_pairing id name = fault "not in this test"

abbrev same_case : Bytes → Bytes
same_case text = text

abbrev some_moves : List Side
some_moves = on_right ∷ on_left ∷ on_left ∷ on_right ∷ []

-- Messages that are encoded as one byte, which is small.
abbrev one_byte : Format
one_byte = record { encode = λ m. ok (0 ∷ []); decode = λ bytes. err "not in this test" }

small : (m : SyncMessage) → Fits one_byte m
unfolding is_sent is_taken
small (sync_request id) = (refl, refl)
small sync_accept = (refl, refl)
small other = (refl, refl)

sync-converges_example :
    IsSynced same_case
      (counting silent)
      raw
      no_pairing
      (counting-SyncLaws silent)
      (desk_doc silent)
      (laptop_doc silent)
      (schedule (rounds 16) (
        schedule some_moves (
          limited_meeting same_case
            (counting silent)
            raw
            no_pairing
            one_byte
            (codes "d1")
            (7 ∷ [])
            (desk_doc silent)
            (laptop_doc silent)
            desk
            (phone ∷ desk ∷ []))))
sync-converges_example =
    sync-converges same_case (counting silent) raw no_pairing (counting-SyncLaws silent) one_byte
      (codes "d1") (7 ∷ []) (desk_doc silent) (laptop_doc silent) desk (phone ∷ desk ∷ [])
      some_moves refl (refl, refl) (refl, refl) refl refl (λ d e. refl)
      (small _, small _, small _, small _, small _, small _) (λ s e. small _)

abbrev repeat : ℕ → ℕ → Bytes
repeat b zero = []
repeat b (suc n) = b ∷ repeat b n

-- 199 letters and an é.
abbrev accented : ℕ × ℕ → Bytes
accented d = repeat 97 199 ++ (195 ∷ 169 ∷ [])

sync-panics_example :
    schedule (rounds 11) (
      schedule some_moves (
        meeting same_case
          (counting accented)
          raw
          no_pairing
          (codes "d1")
          (7 ∷ [])
          (desk_doc accented)
          (laptop_doc accented)
          desk
          (phone ∷ desk ∷ [])))
    ≡ ended same_case
        (counting accented)
        raw
        no_pairing
        (fault "recv changes")
        (fault "byte index is not a char boundary")
unfolding updates_for
sync-panics_example =
    sync-panics same_case (counting accented) raw no_pairing (counting-SyncLaws accented)
      (codes "d1") (7 ∷ []) (2 ∷ 0 ∷ []) (desk_doc accented) (laptop_doc accented) desk
      (phone ∷ desk ∷ []) some_moves refl refl refl

import_delta-recoverable_example :
    IsKept
      (counting silent)
      (desk_doc silent)
      (import_delta (counting silent) raw.decompress (4 ∷ 5 ∷ []) (desk_doc silent)).1
    × IsBackedUp
        (counting silent)
        (desk_doc silent)
        (import_delta (counting silent) raw.decompress (4 ∷ 5 ∷ []) (desk_doc silent)).1
import_delta-recoverable_example =
    import_delta-recoverable (counting silent) raw.decompress (4 ∷ 5 ∷ []) (desk_doc silent)

abbrev shown : TabReceived
shown = record {
  from_device = codes "Desk";
  from_device_id = codes "d1";
  url = codes "https://a.b";
  title = codes "x&lt;y";
}

handle_incoming_sync-paired_example :
    (peer : PairedDevice) × (find_device (codes "d1") (phone ∷ desk ∷ []) ≡ some peer)
    × (◌≡◌ {A = Result (Option Bytes)} (ok (some (1 ∷ 2 ∷ []))) (ok (some peer.noise_public_key)))
unfolding converse handle_incoming_sync
handle_incoming_sync-paired_example =
    handle_incoming_sync-paired same_case (counting silent) raw (ok (some (1 ∷ 2 ∷ []))) none
      (phone ∷ desk ∷ []) (codes "d1")
      (send_tab (codes "d1") (codes "Desk") (codes "https://a.b") (codes "x<y") ∷ ping ∷ [])
      (ping ∷ []) (sync_accept ∷ send_tab_ack ∷ [])
      (tab (tab_received same_case (codes "d1") (codes "Desk") (codes "https://a.b") (codes "x<y")))
      refl
