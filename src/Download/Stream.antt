-- ===== src/Download/Stream.antt =====
-- The download on a single stream, `dl_task` of src-tauri/src/downloads.rs, with the commands on its
-- item. An event is a turn of the task's `select!` or a command; a list of events is one interleaving.
-- What is written to the buffer of the writer is taken as written, until the buffer is flushed: a
-- flush that fails, whose error the task ignores, leaves another file. The pace of the limiter and the times between the reports
-- are in the events. A command to resume comes after the task before it has returned.
pub mod Written
pub mod Opening
pub mod Steps
pub mod Whole
pub mod Cookies
mod Tests
use bushido.Prelude.{
  ℕ, ◌+◌, Bool, true, false, not, ◌&&◌, List, [], ◌∷◌, Bytes, codes, length, take, drop, ltb, ◌==◌,
  Option, none, some, Result, ok, err, if◌then◌else◌,
}
use bushido.Download.Item.{
  DlItem, Manifest, manifest_of, is_paused, paused_item, resumed_item, failed_item, completed_item,
}
use bushido.Download.Transfer.{seek_write}

-- What a server answers to a GET: the status, the header `content-length` and the bytes of the body.
pub record Response : Type 0 where
  pub status : ℕ
  pub content_length : Option ℕ
  pub body : Bytes

-- A server, by the cookies and the start of the range that a request has; an error is that of `send`.
abbrev pub Host : Type 0
Host = Option Bytes → Option ℕ → Result Response

-- The task is in its loop, or has returned.
pub data Turn : Type 0 where
  streaming returned : Turn

-- The entry of the item, its file and its manifest; where the task is, what the server has still to
-- send, and the task's `received`; `told` after the cancel signal was sent to it.
pub record Stream : Type 0 where
  pub item : Option DlItem
  pub file : ℕ → Option ℕ
  pub manifest : Option Manifest
  pub cookies : Option Bytes
  pub turn : Turn
  pub coming : Bytes
  pub received : ℕ
  pub told : Bool

-- `if let Some(item) = downloads.get_mut(&id)`
abbrev pub on_item : (DlItem → DlItem) → Option DlItem → Option DlItem
on_item f none = none
on_item f (some i) = some (f i)

-- `fail`, and the task's return.
abbrev pub fail_with : Bytes → Stream → Stream
fail_with e s = record s { item = on_item (failed_item e) s.item; turn = returned }

-- The header `Range`.
abbrev pub range_of : Option DlItem → ℕ → Option ℕ
range_of none offset = none
range_of (some i) offset = if ltb 0 offset && i.supports_range then some offset else none

abbrev pub actual_offset : ℕ → ℕ → ℕ
actual_offset resume_offset status =
    if ltb 0 resume_offset && (status == 200) then 0 else resume_offset

-- The total, where none is known.
abbrev pub with_total : Option ℕ → ℕ → DlItem → Option ℕ → Option ℕ
with_total content_length actual i (some total) = some total
with_total none actual i none = none
with_total (some len) actual i none = some (len + actual)

-- The file, opened at an offset or created.
abbrev pub opened : ℕ → (ℕ → Option ℕ) → ℕ → Option ℕ
opened actual file = if ltb 0 actual then file else (λ o. none)

abbrev pub on_response : Bool → ℕ → Response → Stream → Stream
on_response opens actual r s =
    let s' = record s {
      item =
          on_item
            (λ i. record i { total_bytes = with_total r.content_length actual i i.total_bytes })
            s.item;
    } in
    if opens
    then record s' {
      file = opened actual s.file;
      turn = streaming;
      coming = r.body;
      received = actual;
    }
    else fail_with (codes "open") s'

abbrev pub on_reply : Bool → ℕ → Result Response → Stream → Stream
on_reply opens resume_offset (err e) s = fail_with (codes "send") s
on_reply opens resume_offset (ok r) s = on_response opens (actual_offset resume_offset r.status) r s

-- The task up to its loop; `opens` where the file is opened or created.
unfoldable pub begin : Host → Bool → ℕ → Stream → Stream
begin host opens resume_offset s =
    on_reply opens resume_offset (host s.cookies (range_of s.item resume_offset))
      (record s { told = false })

-- What becomes of the buffer when it is flushed or, at a return, dropped: all of it is in the file, or
-- the file is left as it is given.
pub data Flush : Type 0 where
  flushed : Flush
  lost : (ℕ → Option ℕ) → Flush

abbrev pub after_flush : Flush → Stream → Stream
after_flush flushed s = s
after_flush (lost left) s = record s { file = left }

pub data Event : Type 0 where
  -- The next bytes; the speed, where it is shown; whether a manifest is due.
  chunk : ℕ → Option ℕ → Bool → Event
  write_error broken ended stop : Flush → Event
  pause cancel : Event
  resume : Host → Bool → Event

abbrev pub shown : Option ℕ → ℕ → DlItem → DlItem
shown none received i = i
shown (some speed) received i = record i { received_bytes = received; speed = speed }

abbrev pub saved : Bool → ℕ → Option Bytes → Option DlItem → Option Manifest → Option Manifest
saved false received cookies item manifest = manifest
saved true received cookies none manifest = manifest
saved true received cookies (some i) manifest = some (manifest_of i received cookies)

abbrev pub receive : ℕ → Option ℕ → Bool → Stream → Stream
receive n speed due s =
    let bytes = take n s.coming in
    let received = s.received + length bytes in
    let item = on_item (shown speed received) s.item in
    record s {
      item = item;
      file = seek_write s.file s.received bytes;
      manifest = saved due received s.cookies item s.manifest;
      coming = drop n s.coming;
      received = received;
    }

-- The end of the stream, whatever was still to come.
abbrev pub complete : Stream → Stream
complete s = record s {
  item = on_item (completed_item s.received) s.item;
  manifest = none;
  turn = returned;
}

abbrev pub while_streaming : Turn → (Stream → Stream) → Stream → Stream
while_streaming streaming f s = f s
while_streaming returned f s = s

-- `pause`, which writes a manifest where there is none.
abbrev pub first_manifest : Option Manifest → DlItem → Option Manifest
first_manifest (some m) i = some m
first_manifest none i = some (manifest_of i i.received_bytes none)

abbrev pub pause_item : Option DlItem → Stream → Stream
pause_item none s = record s { told = true }
pause_item (some i) s = record s {
  item = some (paused_item i);
  manifest = first_manifest s.manifest i;
  told = true;
}

-- The cookies with which `resume` goes on.
abbrev pub manifest_cookies : Option Manifest → Option Bytes
manifest_cookies none = none
manifest_cookies (some m) = m.cookies

-- `resume` of an item with no segments.
abbrev pub resume_item : Host → Bool → Turn → Option DlItem → Stream → Stream
resume_item host opens streaming item s = s
resume_item host opens returned none s = s
resume_item host opens returned (some i) s =
    if is_paused i.state && i.supports_range
    then begin host opens i.received_bytes
        (record s { item = some (resumed_item i); cookies = manifest_cookies s.manifest })
    else s

unfoldable pub step : Event → Stream → Stream
step (chunk n speed due) s = while_streaming s.turn (receive n speed due) s
step (write_error flush) s =
    while_streaming s.turn (λ u. fail_with (codes "write error") (after_flush flush u)) s
step (broken flush) s =
    while_streaming s.turn (λ u. fail_with (codes "stream") (after_flush flush u)) s
step (ended flush) s = while_streaming s.turn (λ u. complete (after_flush flush u)) s
step (stop flush) s =
    while_streaming s.turn
      (λ u. if u.told then record (after_flush flush u) { turn = returned } else u) s
step pause s = pause_item s.item s
step cancel s = record s { item = none; file = λ o. none; manifest = none; told = true }
step (resume host opens) s = resume_item host opens s.turn s.item s

unfoldable pub run : List Event → Stream → Stream
run [] s = s
run (e ∷ es) s = run es (step e s)

-- An item before its task.
abbrev pub at_rest : DlItem → Option Bytes → Stream
at_rest item cookies = record {
  item = some item;
  file = λ o. none;
  manifest = none;
  cookies = cookies;
  turn = returned;
  coming = [];
  received = 0;
  told = false;
}

-- A download that `start` has begun.
abbrev pub started : DlItem → Option Bytes → Host → Bool → Stream
started item cookies host opens = begin host opens 0 (at_rest item cookies)
