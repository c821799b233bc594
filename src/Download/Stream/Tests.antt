-- ===== src/Download/Stream/Tests.antt =====
-- A file of four bytes, from a server that answers to ranges.
use bushido.Prelude.{
  ℕ, ◌≡◌, refl, ap, subst, true, false, List, [], ◌∷◌, Bytes, codes, drop, Option, none, some,
  Result, ok, err, arith,
}
use bushido.Download.Item.{DlItem, downloading, completed}
use bushido.Download.Stream.{
  Response, Host, begin, Event, chunk, ended, stop, flushed, pause, resume, step, run, started,
}
use bushido.Download.Stream.Opening.{IsAnswer, IsHost, IsServedRun}
use bushido.Download.Stream.Whole.{completed_stream-Written}

abbrev content : Bytes
content = 5 ∷ 6 ∷ 7 ∷ 8 ∷ []

abbrev answer_to : Option ℕ → Response
answer_to none = record { status = 200; content_length = some 4; body = content }
answer_to (some o) = record { status = 206; content_length = none; body = drop o content }

abbrev ranging : Host
ranging cookies range = ok (answer_to range)

abbrev item : DlItem
item = record {
  id = codes "i";
  url = codes "u";
  file_path = codes "f";
  file_name = codes "f";
  mime_type = [];
  total_bytes = none;
  received_bytes = 0;
  state = downloading;
  speed = 0;
  error = none;
  created_at = 0;
  supports_range = true;
  segments = 0;
  priority = 0;
}

abbrev ok_response : Result Response → Response
ok_response (ok r) = r
ok_response (err e) = answer_to none

answer_to-IsAnswer : (range : Option ℕ) → IsAnswer content true range (answer_to range)
unfolding IsAnswer
answer_to-IsAnswer none = (refl, refl)
answer_to-IsAnswer (some o) = (λ e. omega arith, refl)

ranging-IsHost : IsHost content true ranging
ranging-IsHost cookies range r e =
    subst (IsAnswer content true range) (ap ok_response e) (answer_to-IsAnswer range)

-- Three bytes, of which two are shown, then a pause; the download goes on at the third.
abbrev events : List Event
events =
    chunk 2 (some 9) false
    ∷ chunk 1 none true
    ∷ pause
    ∷ stop flushed
    ∷ resume ranging true
    ∷ chunk 9 none false
    ∷ ended flushed
    ∷ []

abbrev finished : DlItem
finished = record item { total_bytes = some 4; received_bytes = 4; state = completed }

events-IsServedRun : IsServedRun content true events (started item none ranging true)
unfolding step begin
events-IsServedRun = (tt, (tt, (tt, (refl, (ranging-IsHost, (tt, ((refl, refl), tt)))))))

completed_stream-Written_example : (run events (started item none ranging true)).file 3 ≡ some 8
unfolding run step begin
completed_stream-Written_example =
    completed_stream-Written content true item finished none ranging true events (refl, refl)
      ranging-IsHost events-IsServedRun refl refl 3
