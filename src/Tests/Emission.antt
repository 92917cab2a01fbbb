-- ===== src/Tests/Emission.antt =====
-- internal/emit/gogen/emit.go on concrete packages: the formatter here accepts every source as it is.
use sqlc_gen_unison.Base.{
  map, ◌≡◌, refl, inl, true, Option, some, List, [], ◌∷◌, ◌++◌, Text, codes, text_eq, any, All,
  Result, ok, err, text_mem,
}
use sqlc_gen_unison.Base.Order.{text_le, sort_by, insert_by}
use sqlc_gen_unison.Strings.{
  to_lower, lower, upper, contains, has_prefix, cut_at, cut_prefix, trim_space, trim_left,
  trim_right, is_space, replace_all, replace_from, join,
}
use sqlc_gen_unison.Options.{map_get}
use sqlc_gen_unison.Ir.{command_name, returns_rows, kind_invalid, kind_time, Field, Package}
use sqlc_gen_unison.Converge.Requests.Packages.{ArePaired, converge_package-IsPackage}
use sqlc_gen_unison.Gogen.Names.{
  initialisms, is_separator, starts_word, split_from, split_words, capitalize, spell_word,
  spell_words, make_legal, join_words, exported_name, unexported_name, dialect_name,
  dialect_receiver, dialect_constructor,
}
use sqlc_gen_unison.Gogen.Imports.{
  no_imports, quote_byte, quote_bytes, quoted, add, is_stdlib, keep, import_lines, std_paths,
  other_paths, render,
}
use sqlc_gen_unison.Gogen.Types.{
  EmitError, in_part, no_import_path, plain_type, sql_null_type, cut_last, last_element,
  render_qualified, render_plain, render_starred, render_override, element_type, go_type,
}
use sqlc_gen_unison.Gogen.Times.{
  put, binder_of, binders_from, time_binders, binder_for, bind_value, bind_element, need, need_all,
  forms_from, write_time_helpers,
}
use sqlc_gen_unison.Gogen.Times.Helpers.{IsDeclared, write_time_helpers-IsDeclared}
use sqlc_gen_unison.Gogen.Templates.Database.{
  banner, dbtx_text, prefix_text, slice_placeholders_text, new_text, new_prefix_text,
}
use sqlc_gen_unison.Gogen.Templates.Interface.{querier_text, exec_rows_note, empty_list_note}
use sqlc_gen_unison.Gogen.Templates.Methods.{
  receiver_text, assertions_text, constructor_prefix_text, exec_rows_body, one_body, many_body,
  time_text, time_ptr_text, time_null_text,
}
use sqlc_gen_unison.Gogen.Database.{
  header, has_slice_params, roster_consts, roster_items, roster_cases, new_func, emit_db,
}
use sqlc_gen_unison.Gogen.Interface.{
  write_fields, params_struct, row_struct, types_from, emit_types, method_results, method_signature,
  has_exec_rows, querier_from, emit_querier,
}
use sqlc_gen_unison.Gogen.Queries.Methods.{
  expands, bind_args_from, bind_args, scan_targets, digits_from, decimal, fixed_args, length_terms,
  capacity, append_arg, append_args, expansion_prelude, method_body, write_method,
}
use sqlc_gen_unison.Gogen.Queries.Assertions.{
  declarations, field_idents, write_fields-assertion_fields,
}
use sqlc_gen_unison.Gogen.Queries.Expansion.{emit_db-slice_placeholders}
use sqlc_gen_unison.Gogen.Queries.Literals.{read_raw, without_returns, read_raw-escape_backticks}
use sqlc_gen_unison.Gogen.Queries.{
  statement_const_name, escape_backticks, write_statement_consts, receiver_fields,
  constructor_fields, write_constructor, assertion_fields, write_shape_assertion, query_assertions,
  assertions_from, write_shape_assertions, statement_for, methods_from, query_imports, emit_queries,
}
use sqlc_gen_unison.Gogen.Files.{File, queries_filename, finish, emit}
use sqlc_gen_unison.Tests.Samples.{normal, request, store, shared_query, name_field, scalar}
use sqlc_gen_unison.Tests.Converge.{converged_package, normal_names}

abbrev pub gofmt : Text → Option Text
gofmt source = some source

abbrev pub files_of : Result EmitError (List File) → List File
files_of (ok fs) = fs
files_of (err e) = []

-- The same queries for an engine with a timestamp type.
abbrev pub mysql_store : Package
mysql_store = record store { dialect = codes "mysql"; time_layout = [] }

store-ArePaired : ArePaired store.queries store.statements
store-ArePaired =
    (converge_package-IsPackage request normal (codes "dev") store normal_names
      converged_package).paired

-- The same package with a consumer's type that lacks its import path.
abbrev bad_field : Field
bad_field = record name_field {
  type = record (scalar kind_invalid) { override = codes "uuid.UUID" };
}

read_raw-escape_backticks_example :
    read_raw 0 (escape_backticks (codes "SELECT `a`\r\n") ++ b'`' ∷ 10 ∷ codes "\n")
    ≡ some (without_returns (codes "SELECT `a`\r\n"))
read_raw-escape_backticks_example = read_raw-escape_backticks (codes "SELECT `a`\r\n") (codes "\n")

store_expands : any (λ s. expands s.args) store.statements ≡ true
unfolding any expands text_eq
store_expands = refl

emit_db-slice_placeholders_example :
    contains (emit_db store) (codes "func slicePlaceholders(") ≡ true
emit_db-slice_placeholders_example = emit_db-slice_placeholders store store-ArePaired store_expands

abbrev timed : Package
timed = record store {
  queries =
      record shared_query {
        params = record name_field { type = record (scalar kind_time) { nullable = true } } ∷ [];
      }
      ∷ [];
}

write_time_helpers-IsDeclared_example :
    All
      (λ q.
        (name : Text)
        → IsDeclared
            (write_time_helpers timed no_imports).0
            (binder_for (time_binders timed q) name))
      timed.queries
write_time_helpers-IsDeclared_example = write_time_helpers-IsDeclared timed no_imports

-- A package whose row has a consumer's type without an import path.
abbrev refused_store : Package
refused_store = record store { queries = record shared_query { columns = bad_field ∷ [] } ∷ [] }

refused_store-ArePaired : ArePaired refused_store.queries refused_store.statements
refused_store-ArePaired =
    let (query, pair, rest) = store-ArePaired in
    (
      record {
        command = query.command;
        params = query.params;
        columns = (((λ e. cc), inl (λ e. cc), refl), tt);
      },
      record {
        same_name = pair.same_name;
        bound = pair.bound;
        once = pair.once;
        expandable = pair.expandable;
      },
      rest,
    )

abbrev refusal : EmitError
refusal =
    in_part (codes "types_generated.go")
      (in_part (codes "ListUsers row") (no_import_path (codes "uuid.UUID")))

emissions :
    (emit gofmt store ≡ ok (files_of (emit gofmt store)))
    × (emit gofmt mysql_store ≡ ok (files_of (emit gofmt mysql_store)))
    × (emit gofmt refused_store ≡ err refusal)
unfolding text_eq any text_mem text_le sort_by insert_by to_lower lower upper contains has_prefix
    cut_at cut_prefix trim_space trim_left trim_right is_space replace_all replace_from join map_get
    command_name returns_rows initialisms is_separator starts_word split_from split_words capitalize
    spell_word spell_words make_legal join_words exported_name unexported_name dialect_name
    dialect_receiver dialect_constructor quote_byte quote_bytes quoted add is_stdlib keep
    import_lines std_paths other_paths render plain_type sql_null_type cut_last last_element
    render_qualified render_plain render_starred render_override element_type go_type put binder_of
    binders_from time_binders binder_for bind_value bind_element need need_all forms_from
    write_time_helpers banner dbtx_text prefix_text slice_placeholders_text new_text new_prefix_text
    querier_text exec_rows_note empty_list_note receiver_text assertions_text
    constructor_prefix_text exec_rows_body one_body many_body time_text time_ptr_text time_null_text
    header has_slice_params roster_consts roster_items roster_cases new_func emit_db write_fields
    params_struct row_struct types_from emit_types method_results method_signature has_exec_rows
    querier_from emit_querier expands bind_args_from bind_args scan_targets digits_from decimal
    fixed_args length_terms capacity append_arg append_args expansion_prelude method_body
    write_method statement_const_name escape_backticks write_statement_consts receiver_fields
    constructor_fields write_constructor assertion_fields write_shape_assertion query_assertions
    assertions_from write_shape_assertions statement_for methods_from query_imports emit_queries
    queries_filename finish emit
emissions = (refl, refl, refl)

pub emit-sqlite : emit gofmt store ≡ ok (files_of (emit gofmt store))
emit-sqlite = let (sqlite, _, _) = emissions in sqlite

pub emit-mysql : emit gofmt mysql_store ≡ ok (files_of (emit gofmt mysql_store))
emit-mysql = let (_, mysql, _) = emissions in mysql

abbrev struct_body : Text
struct_body = codes "\tName string\n\tIDs []int64\n"

write_fields-store :
    write_fields store.null_as shared_query.params no_imports ≡ ok (struct_body, no_imports)
unfolding write_fields go_type element_type plain_type text_eq exported_name split_words split_from
    starts_word is_separator join_words spell_words spell_word make_legal map_get initialisms
    to_lower lower upper capitalize
write_fields-store = refl

write_fields-assertion_fields_example :
    (decls : List (Text × Text)) × (j' : List Text) × (map (λ d. d.0) decls
      ≡ field_idents shared_query.params)
    × (struct_body ≡ declarations (codes "\t") decls)
    × (assertion_fields store.null_as shared_query.params (codes "context" ∷ [])
        ≡ ok (declarations (codes "\t\t") decls, j'))
write_fields-assertion_fields_example =
    write_fields-assertion_fields store.null_as shared_query.params no_imports
      (codes "context" ∷ []) no_imports struct_body write_fields-store
