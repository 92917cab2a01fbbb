-- ===== src/Gogen/Queries/Methods.antt =====
-- internal/emit/gogen/queries.go: one query's method, and what its placeholders bind.
use sqlc_gen_unison.Base.{
  ℕ, zero, suc, ◌+◌, ◌/◌, ◌%◌, Bool, not, ◌||◌, List, [], ◌∷◌, ◌++◌, map, Text, codes, text_eq,
  if◌then◌else◌, ◌==◌, ltb, length, any, Result, ok, err, ◌>>=◌,
}
use sqlc_gen_unison.Ir.{
  Field, command_exec, command_one, command_many, command_exec_rows, command_exec_result,
  command_invalid, command_name, Query, Arg, Statement, Package,
}
use sqlc_gen_unison.Strings.{join}
use sqlc_gen_unison.Gogen.Names.{exported_name, unexported_name}
use sqlc_gen_unison.Gogen.Imports.{ImportSet, add, quoted}
use sqlc_gen_unison.Gogen.Types.{EmitError, no_command, Rendered}
use sqlc_gen_unison.Gogen.Interface.{method_signature}
use sqlc_gen_unison.Gogen.Times.{TimeBinders, time_binders, binder_for, bind_value, bind_element}
use sqlc_gen_unison.Gogen.Templates.Methods.{exec_rows_body, one_body, many_body}

abbrev pub expands_arg : Arg → Bool
expands_arg a = not (text_eq a.expand [])

unfoldable pub expands : List Arg → Bool
unfolding any
expands args = any expands_arg args

abbrev pub arg_field : Text → Text
arg_field name = codes "arg." ++ exported_name name

unfoldable pub bind_args_from : TimeBinders → List Arg → Text
bind_args_from binders [] = []
bind_args_from binders (a ∷ args) =
    codes ",\n\t\t"
    ++ bind_value (arg_field a.name) (binder_for binders a.name)
    ++ bind_args_from binders args

unfoldable pub bind_args : TimeBinders → List Arg → Text
unfolding bind_args_from
bind_args binders args =
    if length args == 0 then [] else bind_args_from binders args ++ codes ",\n\t"

unfoldable pub scan_targets : List Field → Text
scan_targets columns =
    codes "\n\t\t"
    ++ join (map (λ c. codes "&i." ++ exported_name c.name) columns) (codes ",\n\t\t")
    ++ codes ",\n\t"

-- `%d`, on the digits that are left and those that are written; a number has fewer digits than `fuel`.
unfoldable pub digits_from : ℕ → ℕ → Text → Text
digits_from zero n written = written
digits_from (suc fuel) n written =
    let written' = (b'0' + n % 10) ∷ written in
    let more = digits_from fuel (n / 10) written' in if ltb n 10 then written' else more

unfoldable pub decimal : ℕ → Text
unfolding digits_from
decimal n = digits_from (suc n) n []

-- The variable `fixed` of the loop, and the variable `terms`.
unfoldable pub fixed_args : List Arg → ℕ
fixed_args [] = 0
fixed_args (a ∷ args) = if expands_arg a then fixed_args args else suc (fixed_args args)

unfoldable pub length_terms : List Arg → List Text
length_terms [] = []
length_terms (a ∷ args) =
    if expands_arg a
    then (codes "len(arg." ++ exported_name a.name ++ codes ")") ∷ length_terms args
    else length_terms args

unfoldable pub capacity : List Arg → Text
unfolding fixed_args length_terms
capacity args =
    join
      (if ltb 0 (fixed_args args) || (length (length_terms args) == 0)
        then decimal (fixed_args args) ∷ length_terms args
        else length_terms args)
      (codes "+")

unfoldable pub append_arg : TimeBinders → Arg → Text
append_arg binders a =
    let field = arg_field a.name in
    if expands_arg a
    then codes "\tquery = strings.Replace(query, "
      ++ quoted a.expand
      ++ codes ", slicePlaceholders("
      ++ quoted a.placeholder
      ++ codes ", len("
      ++ field
      ++ codes ")), 1)\n\n"
      ++ codes "\tfor _, v := range "
      ++ field
      ++ codes " {\n\t\targs = append(args, "
      ++ bind_element (codes "v") (binder_for binders a.name)
      ++ codes ")\n\t}\n\n"
    else codes "\targs = append(args, "
      ++ bind_value field (binder_for binders a.name)
      ++ codes ")\n\n"

unfoldable pub append_args : TimeBinders → List Arg → Text
unfolding append_arg
append_args binders [] = []
append_args binders (a ∷ args) = append_arg binders a ++ append_args binders args

unfoldable pub expansion_prelude : Query → Statement → TimeBinders → Text
unfolding append_args
expansion_prelude query statement binders =
    codes "\tquery := q."
    ++ unexported_name query.name
    ++ codes "\n\n"
    ++ codes "\targs := make([]any, 0, "
    ++ capacity statement.args
    ++ codes ")\n\n"
    ++ append_args binders statement.args

-- The `switch` on the command, over the statement and the arguments as expressions.
unfoldable pub method_body : Query → Text → Text → Result EmitError Text
method_body query statement args = elim query.command [
  | command_exec ↦
      ok (
        codes "\t_, err := db.ExecContext(ctx, "
        ++ statement
        ++ args
        ++ codes ")\n\n\treturn err\n")
  | command_exec_rows ↦ ok (exec_rows_body statement args)
  | command_exec_result ↦
      ok (codes "\treturn db.ExecContext(ctx, " ++ statement ++ args ++ codes ")\n")
  | command_one ↦ ok (one_body statement args query.name (scan_targets query.columns))
  | command_many ↦ ok (many_body statement args query.name (scan_targets query.columns))
  | command_invalid ↦ err (no_command query.name)
]

unfoldable pub write_method : Package → Text → Query → Statement → ImportSet → Rendered
unfolding method_body expands
write_method pkg receiver query statement imports = do
  (signature, imports') ← method_signature query imports
  let binders = time_binders pkg query
  let expanded = expands statement.args
  body ←
      method_body query
        (if expanded then codes "query" else codes "q." ++ unexported_name query.name)
        (if expanded then codes ", args..." else bind_args binders statement.args)
  ok (
    codes "// "
        ++ query.name
        ++ codes " runs the "
        ++ command_name query.command
        ++ codes " query against "
        ++ pkg.dialect
        ++ codes ".\n"
        ++ codes "func (q *"
        ++ receiver
        ++ codes ") "
        ++ signature
        ++ codes " {\n"
        ++ (if expanded then expansion_prelude query statement binders else [])
        ++ body
        ++ codes "}\n\n",
    if expanded then add (codes "strings") imports' else imports',
  )
