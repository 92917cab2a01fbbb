-- ===== src/Disk/Responses.antt =====
-- The files of a response on the disk: each is read back, and those that were there are kept where
-- the contents of equal names agree.
use mathlib.Core.List.{append_cancel_left}
use sqlc_gen_unison.Base.{
  ◌≡◌, sym, ap, subst, ◌∙◌, inl, inr, some, List, [], ◌∷◌, ◌++◌, Text, codes, text_eq, text_eq_iff,
  All, All-map, Bool-cases, arith,
}
use sqlc_gen_unison.Paths.{join_path}
use sqlc_gen_unison.Paths.Relative.{IsName}
use sqlc_gen_unison.Paths.Below.{IsDirectory, join_path-name}
use sqlc_gen_unison.Gogen.Files.{File}
use sqlc_gen_unison.Gogen.Files.Agreement.{Agrees, Agree}
use sqlc_gen_unison.Disk.{Disk, write, read, write_files}
use sqlc_gen_unison.Disk.Reading.{read-write, read-write_other}

module _ (place : Text) (dir : IsDirectory place) where
  -- The file is on the disk, under the directory.
  abbrev pub Has : Disk → File → Type 0
  Has disk f = read (join_path place f.name) disk ≡ some f.contents

  abbrev pub IsPlain : File → Type 0
  IsPlain f = IsName f.name

  join_path-injective :
      (f g : File)
      → IsPlain f
      → IsPlain g
      → join_path place g.name ≡ join_path place f.name
      → f.name ≡ g.name
  join_path-injective f g m n h = sym (
      append_cancel_left (place ++ codes "/") g.name f.name
        (sym (join_path-name place g.name dir n) ∙ h ∙ join_path-name place f.name dir m))

  Has-write_files :
      (f : File) (gs : List File) (disk : Disk)
      → IsPlain f
      → All IsPlain gs
      → All (Agrees f) gs
      → Has disk f
      → Has (write_files place gs disk) f
  unfolding write_files
  Has-write_files f [] disk m ns rest h = h
  Has-write_files f (g ∷ gs) disk m (n, ns) (a, rest) h =
      Has-write_files f gs (write (join_path place g.name) g.contents disk) m ns rest
        (elim (Bool-cases (text_eq (join_path place g.name) (join_path place f.name))) [
          | inl e ↦
              let same : join_path place g.name ≡ join_path place f.name = (text_eq_iff _ _).0 e in
              subst (λ p. read p (write (join_path place g.name) g.contents disk) ≡ some f.contents)
                same
                (read-write (join_path place g.name) g.contents disk
                  ∙ ap some (sym (a (join_path-injective f g m n same))))
          | inr e ↦
              read-write_other (join_path place f.name) (join_path place g.name) g.contents disk
                (λ q. ground (arith, text_eq_iff (join_path place g.name) (join_path place f.name)))
              ∙ h
        ])

  pub write_files-Has :
      (fs : List File) (disk : Disk)
      → All IsPlain fs
      → Agree fs fs
      → All (Has (write_files place fs disk)) fs
  unfolding write_files
  write_files-Has [] disk ns rest = tt
  write_files-Has (f ∷ fs) disk (n, ns) ((_, a), rest) = (
    Has-write_files f fs (write (join_path place f.name) f.contents disk) n ns a
        (read-write (join_path place f.name) f.contents disk),
    write_files-Has fs (write (join_path place f.name) f.contents disk) ns
        (All-map (λ g (x, xs). xs) fs rest),
  )

  pub write_files-keeps :
      (fs gs : List File) (disk : Disk)
      → All IsPlain fs
      → All IsPlain gs
      → Agree fs gs
      → All (Has disk) fs
      → All (Has (write_files place gs disk)) fs
  write_files-keeps [] gs disk ms ns rest h = tt
  write_files-keeps (f ∷ fs) gs disk (m, ms) ns (a, rest) (h, hs) =
      (Has-write_files f gs disk m ns a h, write_files-keeps fs gs disk ms ns rest hs)
