-- ===== src/Download/Stream/Steps.antt =====
-- The turns of a single-stream download of src-tauri/src/downloads.rs keep its invariant.
use bushido.Prelude.{
  ℕ, ◌+◌, ◌≤◌, ◌≡◌, refl, sym, ap, subst, ◌∙◌, ◌⊎◌, inl, inr, Bool, true, false, ◌&&◌, [], Bytes,
  length, length-drop, take, drop, Option, none, some, if◌then◌else◌, Bool-cases, arith,
}
use bushido.Download.Item.{DlItem, is_paused, resumed_item}
use bushido.Download.Stream.{
  Host, Turn, streaming, returned, Stream, Event, chunk, write_error, broken, ended, stop, pause,
  cancel, resume, step, receive, complete, while_streaming, pause_item, resume_item, fail_with,
  on_item, shown, manifest_cookies,
}
use bushido.Download.Stream.Written.{
  IsPart, taken-IsPart, taken-fits, seek_write-IsPrefix, rest-coming,
}
use bushido.Download.Stream.Opening.{IsHost, IsServed, IsGood, IsValid, begin-IsValid}

module _ (content : Bytes) (ranges : Bool) where
  -- The steps of the task.
  receive-IsGood :
      (n : ℕ) (speed : Option ℕ) (due : Bool) (s : Stream) (i j : DlItem)
      → s.turn ≡ streaming
      → IsGood content ranges s i
      → j.state ≡ i.state
      → (ranges ≡ true → j.received_bytes ≤ s.received + length (take n s.coming))
      → IsGood content ranges (receive n speed due s) j
  receive-IsGood n speed due s i j on good same behind =
      let comes = good.comes on in
      let whole : IsPart content s.received (take n s.coming) =
        rw comes (taken-IsPart content s.received n) in
      record {
        written =
            seek_write-IsPrefix content s.file s.received (take n s.coming) whole good.written;
        bound = rw comes (taken-fits content s.received n good.bound);
        comes = λ t. rw comes (rest-coming content s.received n);
        behind = behind;
        finished = λ f. let g = good.finished (sym same ∙ f) in cc;
      }

  receive-IsValid :
      (n : ℕ) (speed : Option ℕ) (due : Bool) (s : Stream) (o : Option DlItem)
      → s.item ≡ o
      → s.turn ≡ streaming
      → IsValid content ranges s o
      → IsValid content ranges (receive n speed due s) (receive n speed due s).item
  receive-IsValid n speed due s none same on valid = rw same tt
  receive-IsValid n none due s (some i) same on good =
      subst
        (λ x.
          IsValid content ranges (receive n none due s)
            (on_item (shown none (s.received + length (take n s.coming))) x))
        (sym same)
        (receive-IsGood n none due s i i on good refl (λ e. let b = good.behind e in omega arith))
  receive-IsValid n (some speed) due s (some i) same on good =
      subst
        (λ x.
          IsValid content ranges (receive n (some speed) due s)
            (on_item (shown (some speed) (s.received + length (take n s.coming))) x))
        (sym same) (receive-IsGood n (some speed) due s i _ on good refl (λ e. omega arith))

  complete-IsValid :
      (s : Stream) (o : Option DlItem)
      → s.item ≡ o
      → s.coming ≡ []
      → s.turn ≡ streaming
      → IsValid content ranges s o
      → IsValid content ranges (complete s) (complete s).item
  complete-IsValid s none same comes on valid = rw same tt
  complete-IsValid s (some i) same comes on good =
      let left : length (drop s.received content) ≡ 0 = ap length (sym (good.comes on) ∙ comes) in
      let all : s.received ≡ length content =
        omega (arith, left, length-drop s.received content, good.bound) in
      rw same record {
        written = good.written;
        bound = good.bound;
        comes = λ t. cc;
        behind = λ e. omega arith;
        finished = λ f. (refl, all);
      }

  fail-IsValid :
      (e : Bytes) (s : Stream) (o : Option DlItem)
      → s.item ≡ o
      → IsValid content ranges s o
      → IsValid content ranges (fail_with e s) (fail_with e s).item
  fail-IsValid e s none same valid = rw same tt
  fail-IsValid e s (some i) same good = rw same record {
    written = good.written;
    bound = good.bound;
    comes = λ t. cc;
    behind = good.behind;
    finished = λ f. cc;
  }

  stop-IsValid :
      (s : Stream) (o : Option DlItem) (told : Bool)
      → s.item ≡ o
      → IsValid content ranges s o
      → s.turn ≡ streaming
      → let t = (if told then record s { turn = returned } else s) in
        IsValid content ranges t t.item
  stop-IsValid s o false same valid on = subst (IsValid content ranges s) (sym same) valid
  stop-IsValid s none true same valid on = rw same tt
  stop-IsValid s (some i) true same good on = rw same record {
    written = good.written;
    bound = good.bound;
    comes = λ t. cc;
    behind = good.behind;
    finished = λ f. (refl, (good.finished f).1);
  }

  while_streaming-IsValid :
      (f : Stream → Stream) (s : Stream) (turn : Turn)
      → s.turn ≡ turn
      → IsValid content ranges s s.item
      → (s.turn ≡ streaming → IsValid content ranges (f s) (f s).item)
      → let t = while_streaming turn f s in IsValid content ranges t t.item
  while_streaming-IsValid f s streaming e valid next = next e
  while_streaming-IsValid f s returned e valid next = valid

  pause-IsValid :
      (s : Stream) (o : Option DlItem)
      → s.item ≡ o
      → IsValid content ranges s o
      → IsValid content ranges (pause_item o s) (pause_item o s).item
  pause-IsValid s none same valid = rw same tt
  pause-IsValid s (some i) same good = record {
    written = good.written;
    bound = good.bound;
    comes = good.comes;
    behind = good.behind;
    finished = λ f. cc;
  }

  resume-IsValid :
      (host : Host) (opens : Bool) (turn : Turn) (s : Stream) (o : Option DlItem)
      → IsHost content ranges host
      → s.item ≡ o
      → IsValid content ranges s o
      → let t = resume_item host opens turn o s in IsValid content ranges t t.item
  resume-IsValid host opens streaming s o served same valid =
      subst (IsValid content ranges s) (sym same) valid
  resume-IsValid host opens returned s none served same valid =
      subst (IsValid content ranges s) (sym same) valid
  resume-IsValid host opens returned s (some i) served same good =
      go (Bool-cases (is_paused i.state && i.supports_range))
    where
      go :
          ((is_paused i.state && i.supports_range) ≡ true)
            ⊎ ((is_paused i.state && i.supports_range) ≡ false)
          → let t = resume_item host opens returned (some i) s in IsValid content ranges t t.item
      go (inl e) =
          let ranged : i.supports_range ≡ true = ground arith in
          rw e (
            begin-IsValid content ranges host opens
              (record s { item = some (resumed_item i); cookies = manifest_cookies s.manifest })
              (resumed_item i) i.received_bytes served
              record {
                written = good.written;
                bound = good.bound;
                behind = good.behind;
                at_offset = refl;
                ranged = inr ranged;
                item_open = λ f. cc;
              })
      go (inr e) = rw e (subst (IsValid content ranges s) (sym same) good)

  pub step-IsValid :
      (e : Event) (s : Stream)
      → IsServed content ranges s e
      → IsValid content ranges s s.item
      → IsValid content ranges (step e s) (step e s).item
  unfolding step
  step-IsValid (chunk n speed due) s served valid =
      while_streaming-IsValid (receive n speed due) s s.turn refl valid
        (λ on. receive-IsValid n speed due s s.item refl on valid)
  step-IsValid (write_error flush) s served valid =
      rw served
        (while_streaming-IsValid _ s s.turn refl valid (λ on. fail-IsValid _ s s.item refl valid))
  step-IsValid (broken flush) s served valid =
      rw served
        (while_streaming-IsValid _ s s.turn refl valid (λ on. fail-IsValid _ s s.item refl valid))
  step-IsValid (ended flush) s (served, all) valid = rw served (
      while_streaming-IsValid _ s s.turn refl valid
        (λ on. complete-IsValid s s.item refl all on valid))
  step-IsValid (stop flush) s served valid = rw served (
      while_streaming-IsValid _ s s.turn refl valid
        (λ on. stop-IsValid s s.item s.told refl valid on))
  step-IsValid pause s served valid = pause-IsValid s s.item refl valid
  step-IsValid cancel s served valid = tt
  step-IsValid (resume host opens) s served valid =
      resume-IsValid host opens s.turn s s.item served refl valid
