-- ===== src/Download/FileName/Tests.antt =====
-- Names for downloads.
use bushido.Prelude.{◌≡◌, refl, Bool, false, ◌||◌, some, Bytes, codes}
use bushido.Prelude.Table.{list_beq}
use bushido.Download.FileName.{candidate}

abbrev two_files : Bytes → Bool
two_files name = list_beq name (codes "a.pdf") || list_beq name (codes "a (1).pdf")

free : two_files (candidate two_files (codes "a") (some (codes "pdf")) 2) ≡ false
unfolding candidate
free = refl
