-- ===== src/Disk/Reading.antt =====
-- What is read back from a disk after it is written, or after a directory is removed.
use sqlc_gen_unison.Base.{
  ◌≡◌, ◌≢◌, refl, sym, ap, ◌∙◌, inl, inr, true, false, none, some, [], ◌∷◌, Text, text_eq,
  text_eq_iff, text_eq_refl, arith, Bool-cases,
}
use sqlc_gen_unison.Options.{map_get}
use sqlc_gen_unison.Paths.{is_below}
use sqlc_gen_unison.Disk.{Disk, write, read, remove_all}

pub read-write :
    (path contents : Text) (disk : Disk) → read path (write path contents disk) ≡ some contents
unfolding read
read-write path contents disk = ground (arith, text_eq_refl path)

pub read-write_other :
    (path other contents : Text) (disk : Disk)
    → other ≢ path
    → read path (write other contents disk) ≡ read path disk
unfolding read
read-write_other path other contents disk h =
    ground (arith, text_eq_iff other path, text_eq_iff path other)

is_below-apart : (dir key path : Text) → is_below dir key ≢ is_below dir path → key ≢ path
is_below-apart dir key path h e = h (ap (is_below dir) e)

pub is_below-ne :
    (dir key path : Text) → is_below dir key ≡ true → is_below dir path ≡ false → key ≢ path
is_below-ne dir key path h k = is_below-apart dir key path (λ e. ground arith)

pub read-remove_all :
    (dir path : Text) (disk : Disk)
    → is_below dir path ≡ true
    → read path (remove_all dir disk) ≡ none
unfolding read remove_all
read-remove_all dir path [] h = refl
read-remove_all dir path ((key, v) ∷ disk) h = elim (Bool-cases (is_below dir key)) [
  | inl e ↦ rw e (read-remove_all dir path disk h)
  | inr e ↦ rw e (
      read-write_other path key v (remove_all dir disk)
        (is_below-apart dir key path (λ q. ground arith))
      ∙ read-remove_all dir path disk h)
]

pub read-remove_all_other :
    (dir path : Text) (disk : Disk)
    → is_below dir path ≡ false
    → read path (remove_all dir disk) ≡ read path disk
unfolding read remove_all
read-remove_all_other dir path [] h = refl
read-remove_all_other dir path ((key, v) ∷ disk) h = elim (Bool-cases (is_below dir key)) [
  | inl e ↦
      rw (remove_all, e)
        (read-remove_all_other dir path disk h
          ∙ sym
              (read-write_other path key v disk (is_below-apart dir key path (λ q. ground arith))))
  | inr e ↦ elim (Bool-cases (text_eq key path)) [
    | inl f ↦ rw (remove_all, e, read, map_get, f) refl
    | inr f ↦ rw (remove_all, e, read, map_get, f) (read-remove_all_other dir path disk h)
  ]
]
