-- ===== src/Download/Stream/Whole.antt =====
-- What a single-stream download of src-tauri/src/downloads.rs ends in.
use bushido.Prelude.{
  ℕ, ◌≡◌, refl, sym, subst, ◌∙◌, inl, inr, Bool, List, [], ◌∷◌, Bytes, length, ltb, ltb→lt,
  not-ltb→le, get_elem?, Option, some, Bool-cases, arith,
}
use bushido.Download.Item.{DlItem, completed, IsFresh}
use bushido.Download.Stream.{Host, Stream, Event, step, run, started, at_rest}
use bushido.Download.Stream.Written.{none-IsPrefix, get-beyond}
use bushido.Download.Stream.Opening.{IsHost, IsServedRun, IsGood, IsValid, IsReady, begin-IsValid}
use bushido.Download.Stream.Steps.{step-IsValid}

module _ (content : Bytes) (ranges : Bool) where
  run-IsValid :
      (es : List Event) (s : Stream)
      → IsServedRun content ranges es s
      → IsValid content ranges s s.item
      → IsValid content ranges (run es s) (run es s).item
  unfolding run
  run-IsValid [] s served valid = valid
  run-IsValid (e ∷ es) s (first, rest) valid =
      run-IsValid es (step e s) rest (step-IsValid content ranges e s first valid)

  -- A fresh download of a server that has one content, which it sends as a whole with the status 200
  -- or, to a request for a range where it answers to ranges, in part with another status, and a
  -- sequence of turns of the task and of the commands pause, resume and cancel, in which requests and
  -- writes may fail and streams may break, but every flush of the writer's buffer succeeds and a
  -- stream that ends has sent its whole body: a download that is completed has a file with the bytes
  -- of the content and no others.
  pub completed_stream-Written :
      (i j : DlItem) (cookies : Option Bytes) (host : Host) (opens : Bool) (es : List Event)
      → IsFresh i
      → IsHost content ranges host
      → IsServedRun content ranges es (started i cookies host opens)
      → (run es (started i cookies host opens)).item ≡ some j
      → j.state ≡ completed
      → (o : ℕ) → (run es (started i cookies host opens)).file o ≡ get_elem? content o
  completed_stream-Written i j cookies host opens es (none_yet, going) served all e done_ o =
      let ready : IsReady content ranges (at_rest i cookies) i 0 = record {
        written = none-IsPrefix content;
        bound = omega arith;
        behind = λ e. omega (arith, none_yet);
        at_offset = sym none_yet;
        ranged = inl refl;
        item_open = λ f. cc;
      } in
      let begun = begin-IsValid content ranges host opens (at_rest i cookies) i 0 served ready in
      let good : IsGood content ranges (run es (started i cookies host opens)) j =
        subst (IsValid content ranges (run es (started i cookies host opens))) e
          (run-IsValid es (started i cookies host opens) all begun) in
      let whole = (good.finished done_).1 in
      elim (Bool-cases (ltb o (length content))) [
        | inl lt ↦ good.written.0 o (rw whole (ltb→lt o (length content) lt))
        | inr ge ↦
            let beyond = get-beyond content o (not-ltb→le o (length content) ge) in
            elim (good.written.1 o) [ inl gone ↦ gone ∙ sym beyond | inr same ↦ same ]
      ]
