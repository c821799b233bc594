-- ===== src/Download/Stream/Cookies.antt =====
-- The cookies of a download that is paused, in src-tauri/src/downloads.rs.
use bushido.Prelude.{ℕ, ◌≡◌, refl, Bool, true, false, [], ◌∷◌, none, some, Result, ok, err}
use bushido.Download.Item.{DlItem}
use bushido.Download.Stream.{
  Response, Host, streaming, flushed, Stream, begin, on_reply, pause, stop, resume, step, run,
}

on_reply-cookies :
    (opens : Bool) (offset : ℕ) (r : Result Response) (s : Stream)
    → (on_reply opens offset r s).cookies ≡ s.cookies
on_reply-cookies opens offset (err e) s = refl
on_reply-cookies true offset (ok r) s = refl
on_reply-cookies false offset (ok r) s = refl

begin-cookies :
    (host : Host) (opens : Bool) (offset : ℕ) (s : Stream)
    → (begin host opens offset s).cookies ≡ s.cookies
unfolding begin
begin-cookies host opens offset s = on_reply-cookies opens offset _ _

-- A download at work that supports ranges and has no manifest yet, as in its first seconds, is paused
-- and, once its task has stopped, resumed: it goes on without the cookies that it had.
pub pause-loses_cookies :
    (s : Stream) (i : DlItem) (host : Host) (opens : Bool)
    → s.item ≡ some i
    → s.turn ≡ streaming
    → s.manifest ≡ none
    → i.supports_range ≡ true
    → (run (pause ∷ stop flushed ∷ resume host opens ∷ []) s).cookies ≡ none
unfolding run step
pause-loses_cookies s i host opens here on new ranged =
    rw (here, new) (rw on (rw ranged (begin-cookies host opens _ _)))
