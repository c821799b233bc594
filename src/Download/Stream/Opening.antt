-- ===== src/Download/Stream/Opening.antt =====
-- The invariant of a single-stream download of src-tauri/src/downloads.rs, from its request on.
use Prim.Native.String.{String}
use bushido.Prelude.{
  codes, ℕ, ◌≤◌, ◌≡◌, ◌≢◌, refl, sym, subst, ◌⊎◌, inl, inr, Bool, true, false, List, [], ◌∷◌, Bytes,
  length, drop, ltb, ◌==◌, ==_iff, Option, none, some, ok, err, Bool-cases, Result-cases, arith,
}
use bushido.Download.Item.{DlItem, completed}
use bushido.Download.Stream.{
  Response, Host, streaming, returned, Stream, begin, opened, on_reply, on_response, range_of,
  actual_offset, Event, resume, fail_with, write_error, broken, ended, stop, chunk, pause, cancel,
  flushed, step,
}
use bushido.Download.Stream.Written.{IsPrefix, IsPrefix-less, none-IsPrefix}

-- The answer of a server that has a content: to every request the whole with status 200, or, if it
-- answers to ranges, to one for a range that part of the content with another status.
unfoldable pub IsAnswer : Bytes → Bool → Option ℕ → Response → Type 0
IsAnswer content false range r = (r.status ≡ 200) × (r.body ≡ content)
IsAnswer content true none r = (r.status ≡ 200) × (r.body ≡ content)
IsAnswer content true (some o) r = (r.status ≢ 200) × (r.body ≡ drop o content)

module _ (content : Bytes) (ranges : Bool) where
  -- A server that has the content, whose requests may fail.
  abbrev pub IsHost : Host → Type 0
  IsHost host =
      (cookies : Option Bytes) (range : Option ℕ) (r : Response)
      → host cookies range ≡ ok r
      → IsAnswer content ranges range r

  -- What is assumed of a turn: every flush succeeds, a stream ends after the whole body, and a task
  -- begins with such a server.
  abbrev pub IsServed : Stream → Event → Type 0
  IsServed s (resume host opens) = IsHost host
  IsServed s (write_error flush) = flush ≡ flushed
  IsServed s (broken flush) = flush ≡ flushed
  IsServed s (ended flush) = (flush ≡ flushed) × (s.coming ≡ [])
  IsServed s (stop flush) = flush ≡ flushed
  IsServed s (chunk n speed due) = Unit {0}
  IsServed s pause = Unit {0}
  IsServed s cancel = Unit {0}

  abbrev pub IsServedRun : List Event → Stream → Type 0
  IsServedRun [] s = Unit {0}
  IsServedRun (e ∷ es) s = IsServed s e × IsServedRun es (step e s)

  pub record IsGood (s : Stream) (i : DlItem) : Type 0 where
    pub written : IsPrefix content s.received s.file
    pub bound : s.received ≤ length content
    pub comes : s.turn ≡ streaming → s.coming ≡ drop s.received content
    pub behind : ranges ≡ true → i.received_bytes ≤ s.received
    pub finished : i.state ≡ completed → (s.turn ≡ returned) × (s.received ≡ length content)

  abbrev pub IsValid : Stream → Option DlItem → Type 0
  IsValid s none = Unit {0}
  IsValid s (some i) = IsGood s i

  -- What the task sets out from: the file, and the item that it reads.
  pub record IsReady (s : Stream) (i : DlItem) (offset : ℕ) : Type 0 where
    pub written : IsPrefix content s.received s.file
    pub bound : s.received ≤ length content
    pub behind : ranges ≡ true → i.received_bytes ≤ s.received
    pub at_offset : offset ≡ i.received_bytes
    pub ranged : (offset ≡ 0) ⊎ (i.supports_range ≡ true)
    pub item_open : i.state ≢ completed

  failed-IsGood :
      (e : Bytes) (s : Stream) (i : DlItem) (offset : ℕ)
      → IsReady s i offset
      → s.item ≡ some i
      → IsValid (fail_with e s) (fail_with e s).item
  failed-IsGood e s i offset ready same = rw same record {
    written = ready.written;
    bound = ready.bound;
    comes = λ t. cc;
    behind = ready.behind;
    finished = λ f. cc;
  }

  -- The file and the body once the response is there.
  abbrev IsOpened : Response → Stream → DlItem → ℕ → Type 0
  IsOpened r s i a =
      IsPrefix content a (opened a s.file)
      × (a ≤ length content)
      × (r.body ≡ drop a content)
      × (ranges ≡ true → i.received_bytes ≤ a)

  fresh-IsOpened :
      (r : Response) (s : Stream) (i : DlItem)
      → (ranges ≡ true → i.received_bytes ≤ 0)
      → r.body ≡ content
      → IsOpened r s i 0
  fresh-IsOpened r s i behind body = (none-IsPrefix content, omega arith, body, behind)

  whole-answer :
      (b : Bool) (r : Response) → IsAnswer content b none r → (r.status ≡ 200) × (r.body ≡ content)
  unfolding IsAnswer
  whole-answer false r answer = answer
  whole-answer true r answer = answer

  resumed-IsOpened :
      (r : Response) (s : Stream) (i : DlItem) (offset : ℕ)
      → IsReady s i offset
      → ltb 0 offset ≡ true
      → (b : Bool) → ranges ≡ b
      → IsAnswer content b (some offset) r
      → IsOpened r s i (actual_offset offset r.status)
  unfolding IsAnswer
  resumed-IsOpened r s i offset ready later false none_ranges (status, body) =
      rw (later, (==_iff r.status 200).1 status) (fresh-IsOpened r s i (λ e. cc) body)
  resumed-IsOpened r s i offset ready later true with_ranges (status, body) =
      let other : (r.status == 200) ≡ false = ground arith in
      let reach = ready.behind with_ranges in
      let at = ready.at_offset in
      rw (later, other)
        (rw later (
          IsPrefix-less content s.received offset s.file (omega (arith, at)) ready.written,
          omega (arith, at, ready.bound),
          body,
          λ e. omega (arith, at),
        ))

  response-IsOpened :
      (r : Response) (s : Stream) (i : DlItem) (offset : ℕ)
      → IsReady s i offset
      → IsAnswer content ranges (range_of (some i) offset) r
      → IsOpened r s i (actual_offset offset r.status)
  response-IsOpened r s i offset ready answer = go (Bool-cases (ltb 0 offset)) ready.ranged answer
    where
      go :
          (ltb 0 offset ≡ true) ⊎ (ltb 0 offset ≡ false)
          → (offset ≡ 0) ⊎ (i.supports_range ≡ true)
          → IsAnswer content ranges (range_of (some i) offset) r
          → IsOpened r s i (actual_offset offset r.status)
      go (inl later) (inl none_yet) answer = absurd (ground arith)
      go (inl later) (inr ranged) answer =
          resumed-IsOpened r s i offset ready later ranges refl (rw (later, ranged) at answer)
      go (inr fresh) side answer =
          let zero_offset : offset ≡ 0 = ground arith in
          let (status, body) = whole-answer ranges r (rw fresh at answer) in
          rw (fresh) (
            subst (IsOpened r s i) (sym zero_offset)
              (fresh-IsOpened r s i (λ e. omega (arith, ready.at_offset)) body))

  response-IsValid :
      (opens : Bool) (r : Response) (s : Stream) (i : DlItem) (offset : ℕ)
      → s.item ≡ some i
      → IsReady s i offset
      → IsAnswer content ranges (range_of (some i) offset) r
      → let t = on_response opens (actual_offset offset r.status) r s in IsValid t t.item
  response-IsValid false r s i offset same ready answer = rw same record {
    written = ready.written;
    bound = ready.bound;
    comes = λ t. cc;
    behind = ready.behind;
    finished = λ f. cc;
  }
  response-IsValid true r s i offset same ready answer =
      let (prefix, bound, body, behind) = response-IsOpened r s i offset ready answer in
      rw same record {
        written = prefix;
        bound = bound;
        comes = λ t. body;
        behind = behind;
        finished = λ f. absurd (ready.item_open f);
      }

  pub begin-IsValid :
      (host : Host) (opens : Bool) (s : Stream) (i : DlItem) (offset : ℕ)
      → IsHost host
      → IsReady s i offset
      → let t = begin host opens offset (record s { item = some i }) in IsValid t t.item
  unfolding begin
  begin-IsValid host opens s i offset served ready =
      go (Result-cases (host s.cookies (range_of (some i) offset)))
    where
      s' : Stream
      s' = record s { item = some i; told = false }

      ready' : IsReady s' i offset
      ready' = record {
        written = ready.written;
        bound = ready.bound;
        behind = ready.behind;
        at_offset = ready.at_offset;
        ranged = ready.ranged;
        item_open = ready.item_open;
      }

      go :
          ((r : Response) × (host s.cookies (range_of (some i) offset) ≡ ok r))
            ⊎ ((e : String) × (host s.cookies (range_of (some i) offset) ≡ err e))
          → let t = on_reply opens offset (host s.cookies (range_of (some i) offset)) s' in
            IsValid t t.item
      go (inl (r, e)) = rw e (
          response-IsValid opens r s' i offset refl ready'
            (served s.cookies (range_of (some i) offset) r e))
      go (inr (x, e)) = rw e (failed-IsGood (codes "send") s' i offset ready' refl)
