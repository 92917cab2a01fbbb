-- ===== src/Disk.antt =====
-- The files that a run reads and writes: a list of paths with their contents, the newest first.
-- Directories are not kept: whether one can be made is the host's answer.
pub mod Reading
pub mod Responses
use sqlc_gen_unison.Base.{
  ◌≡◌, refl, Bool, true, false, not, Option, some, List, [], ◌∷◌, Text, text_eq, text_eq_iff,
  text_eq_refl, ◌≢◌, if◌then◌else◌, arith,
}
use sqlc_gen_unison.Options.{map_get}
use sqlc_gen_unison.Paths.{join_path, is_below}
use sqlc_gen_unison.Gogen.Files.{File}

abbrev pub Disk : Type 0
Disk = List (Text × Text)

abbrev pub write : Text → Text → Disk → Disk
write path contents disk = (path, contents) ∷ disk

unfoldable pub read : Text → Disk → Option Text
unfolding map_get
read path disk = map_get path disk

-- The files of one response, each under the directory.
unfoldable pub write_files : Text → List File → Disk → Disk
unfolding join_path
write_files dir [] disk = disk
write_files dir (f ∷ fs) disk = write_files dir fs (write (join_path dir f.name) f.contents disk)

-- `os.RemoveAll`, where it succeeds.
unfoldable pub remove_all : Text → Disk → Disk
unfolding is_below
remove_all dir [] = []
remove_all dir ((path, contents) ∷ disk) =
    let rest = remove_all dir disk in if is_below dir path then rest else (path, contents) ∷ rest
