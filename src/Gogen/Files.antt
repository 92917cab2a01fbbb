-- ===== src/Gogen/Files.antt =====
-- internal/emit/gogen/emit.go, `Emit`: the four files of a package. The formatter `go/format` is a
-- parameter: `none` where it reports an error.
pub mod Shared
pub mod Agreement
pub mod Known
pub mod Errors
use sqlc_gen_unison.Base.{
  Option, none, some, List, [], ◌∷◌, ◌++◌, Text, codes, Result, ok, err, ◌>>=◌, map_err,
}
use sqlc_gen_unison.Ir.{Package}
use sqlc_gen_unison.Strings.{to_lower}
use sqlc_gen_unison.Gogen.Types.{EmitError, in_part, unparsable}
use sqlc_gen_unison.Gogen.Database.{emit_db}
use sqlc_gen_unison.Gogen.Interface.{emit_types, emit_querier}
use sqlc_gen_unison.Gogen.Queries.{emit_queries}

pub record File : Type 0 where
  pub name : Text
  pub contents : Text

unfoldable pub queries_filename : Text → Text
queries_filename dialect = codes "queries_" ++ to_lower dialect ++ codes "_generated.go"

module _ (format : Text → Option Text) where
  unfoldable pub finish : Text → Result EmitError Text → Result EmitError File
  finish name source = do
    text ← map_err (in_part name) source
    elim (format text) [
      | none ↦ err (in_part name (unparsable text))
      | some formatted ↦ ok (record { name = name; contents = formatted })
    ]

  unfoldable pub emit : Package → Result EmitError (List File)
  unfolding finish
  emit pkg = do
    db ← finish (codes "db_generated.go") (ok (emit_db pkg))
    types ← finish (codes "types_generated.go") (emit_types pkg)
    querier ← finish (codes "querier_generated.go") (emit_querier pkg)
    queries ← finish (queries_filename pkg.dialect) (emit_queries pkg)
    ok (db ∷ types ∷ querier ∷ queries ∷ [])
