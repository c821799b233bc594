-- ===== src/Download/Commands/Tests.antt =====
-- A report that is downloaded into the folder of its type.
use bushido.Prelude.{
  ℕ, ◌≡◌, ◌≢◌, refl, ap, List, [], ◌∷◌, ◌++◌, Bytes, codes, true, none, some, arith,
}
use bushido.Prelude.Table.{lookup, list_eq}
use bushido.Download.FileName.{candidate, first_free, dedup_filename}
use bushido.Download.Item.{DlItem, IsFresh}
use bushido.Download.Commands.{
  Texts, MimeRoute, Head, Manager, free_name, new_item, start, pause, load_pending,
}
use bushido.Download.Commands.Laws.{IsIn, restored, pause-load_pending, IsPlaced, start-IsPlaced}

abbrev plain : Texts
plain = record {
  file_name = λ n. some n;
  extension = λ n. some (codes "pdf");
  stem = λ n. n;
  join = λ dir n. dir ++ codes "/" ++ n;
  to_lowercase = λ t. t;
  trim = λ t. t;
  parse = λ t. some 7;
}

abbrev no_head : Head
no_head = record {
  content_type = none;
  content_length = some (codes "7");
  accept_ranges = some (codes "bytes");
}

abbrev routes : List MimeRoute
routes =
    record { mime_prefix = codes "image/"; folder = codes "p" }
    ∷ record { mime_prefix = codes "application/"; folder = codes "d" }
    ∷ []

abbrev empty : Manager
empty = record { downloads = []; cancel_tx = []; manifests = []; files = []; writes = true }

abbrev report : DlItem
report = new_item plain (codes "i") (codes "u") (codes "r") (codes "x") routes no_head 5 []

-- Its task has made the file.
abbrev under_way : Manager
under_way =
    record (start plain (codes "i") (codes "u") (codes "r") (codes "x") routes no_head 5 empty).1 {
      files = [] ∷ report.file_path ∷ [];
    }

abbrev first : Bytes → ℕ
first [] = 0
first (b ∷ bytes) = b

differ : codes "j" ≢ codes "i"
differ e = let letters : ◌≡◌ {A = ℕ} 106 105 = ap first e in omega arith

-- The folder has a file of the name.
abbrev with_file : Manager
with_file = record empty { files = codes "d/r" ∷ [] }

start-IsPlaced_example :
    let i =
      (start plain
        (codes "i")
        (codes "u")
        (codes "r")
        (codes "x")
        routes
        no_head
        5
        with_file).0.0 in
    let m' =
      (start plain (codes "i") (codes "u") (codes "r") (codes "x") routes no_head 5 with_file).1 in
    (lookup (codes "i") m'.downloads ≡ some i)
    × (lookup (codes "i") m'.cancel_tx ≡ some tt)
    × IsFresh i
    × IsPlaced plain (codes "r") routes (codes "x") with_file.files i
    × (lookup (codes "j") m'.downloads ≡ lookup (codes "j") with_file.downloads)
start-IsPlaced_example =
    start-IsPlaced plain (codes "i") (codes "j") (codes "u") (codes "r") (codes "x") routes no_head
      5 with_file differ

renamed :
    (new_item plain
      (codes "i")
      (codes "u")
      (codes "r")
      (codes "x")
      routes
      no_head
      5
      with_file.files).file_path
    ≡ codes "d/r (1).pdf"
unfolding new_item free_name dedup_filename first_free candidate
renamed = refl

pause-load_pending_example : IsIn (restored report) (load_pending (pause (codes "i") under_way).1)
unfolding start new_item free_name dedup_filename
pause-load_pending_example =
    pause-load_pending (codes "i") report under_way refl refl refl refl refl
