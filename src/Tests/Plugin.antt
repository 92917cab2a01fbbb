-- ===== src/Tests/Plugin.antt =====
-- internal/generate on whole requests: the decoder and the formatter here accept everything.
use sqlc_gen_unison.Base.{
  ◌≡◌, refl, true, Option, some, List, [], ◌∷◌, Text, codes, text_eq, text_mem, any, ok, err,
}
use sqlc_gen_unison.Base.Order.{text_le, sort_by, insert_by}
use sqlc_gen_unison.Options.{Options, compact, null_style, check_overrides, normalize, parse}
use sqlc_gen_unison.Ir.{command_name, returns_rows}
use sqlc_gen_unison.Strings.{
  count, count_from, trim_prefix, trim_suffix, to_lower, lower, upper, contains, has_prefix, cut_at,
  cut_prefix, trim_space, trim_left, trim_right, is_space, replace_all, replace_from, join,
}
use sqlc_gen_unison.Gogen.Names.{
  initialisms, is_separator, starts_word, split_from, split_words, capitalize, spell_word,
  spell_words, make_legal, join_words, exported_name, unexported_name, dialect_name,
  dialect_receiver, dialect_constructor,
}
use sqlc_gen_unison.Gogen.Imports.{
  quote_byte, quote_bytes, quoted, add, is_stdlib, keep, import_lines, std_paths, other_paths,
  render,
}
use sqlc_gen_unison.Gogen.Types.{
  EmitError, in_part, no_import_path, plain_type, sql_null_type, cut_last, last_element,
  render_qualified, render_plain, render_starred, render_override, element_type, go_type,
}
use sqlc_gen_unison.Gogen.Times.{
  put, binder_of, binders_from, time_binders, binder_for, bind_value, bind_element, need, need_all,
  forms_from, write_time_helpers,
}
use sqlc_gen_unison.Gogen.Templates.Database.{
  banner, dbtx_text, prefix_text, slice_placeholders_text, new_text, new_prefix_text,
}
use sqlc_gen_unison.Gogen.Templates.Interface.{querier_text, exec_rows_note, empty_list_note}
use sqlc_gen_unison.Gogen.Templates.Methods.{
  receiver_text, assertions_text, constructor_prefix_text, exec_rows_body, one_body, many_body,
  time_text, time_ptr_text, time_null_text,
}
use sqlc_gen_unison.Gogen.Database.{
  header, has_slice_params, roster_consts, roster_items, roster_cases, new_func, emit_db,
}
use sqlc_gen_unison.Gogen.Interface.{
  write_fields, params_struct, row_struct, types_from, emit_types, method_results, method_signature,
  has_exec_rows, querier_from, emit_querier,
}
use sqlc_gen_unison.Gogen.Queries.Methods.{
  expands, bind_args_from, bind_args, scan_targets, digits_from, decimal, fixed_args, length_terms,
  capacity, append_arg, append_args, expansion_prelude, method_body, write_method,
}
use sqlc_gen_unison.Gogen.Queries.{
  statement_const_name, escape_backticks, write_statement_consts, receiver_fields,
  constructor_fields, write_constructor, assertion_fields, write_shape_assertion, query_assertions,
  assertions_from, write_shape_assertions, statement_for, methods_from, query_imports, emit_queries,
}
use sqlc_gen_unison.Gogen.Files.{File, queries_filename, finish, emit}
use sqlc_gen_unison.Gogen.Files.Shared.{shared_files}
use sqlc_gen_unison.Gogen.Files.Known.{is_known}
use sqlc_gen_unison.Options.{override_for, override_from, map_get, renames}
use sqlc_gen_unison.Converge.Prefix.{
  mark_prefixes, mark_from, enter, in_span, preceded_by_dot, is_ident_start, is_ident_part,
  ident_rest, string_literal_spans, spans_outside, spans_inside, user_tables, default_tables,
  named_tables, table_le,
}
use sqlc_gen_unison.Converge.Types.{
  engine_types, all_of, normalize_type_name, drop_length, map_type, time_layout,
}
use sqlc_gen_unison.Converge.Slices.{list_of, element_type_name, check_expansions, check_from}
use sqlc_gen_unison.Converge.Params.{converge_params, params_from, converge_param, see, bind_arg}
use sqlc_gen_unison.Converge.Columns.{converge_columns, columns_from, refuse_seen, column_type_name}
use sqlc_gen_unison.Converge.Requests.{
  parse_command, converge_query, converge_queries, converge_package, shared_of, statements_of,
  marked_text,
}
use sqlc_gen_unison.Plugin.{PluginRequest, of_emit, generate_files}
use sqlc_gen_unison.Plugin.Errors.{shared_queries, generate_files-err, generate_files-shared}
use sqlc_gen_unison.Tests.Samples.{given, normal, request, store}
use sqlc_gen_unison.Tests.Options.{normalize-given}
use sqlc_gen_unison.Tests.Converge.{converged_package}
use sqlc_gen_unison.Tests.Emission.{gofmt, files_of, mysql_store, emit-sqlite, emit-mysql}

abbrev pub decode : Text → Option Options
decode raw = some given

abbrev pub plugin_request : PluginRequest
plugin_request = record { has_settings = true; plugin_options = codes "{}"; analysis = request }

abbrev pub files : List File
files = files_of (emit gofmt store)

pub generated : generate_files decode gofmt (codes "dev") plugin_request ≡ ok files
unfolding generate_files parse
generated = rw (normalize-given, converged_package, emit-sqlite) refl

-- The same queries, analyzed for another dialect.
abbrev pub mysql_request : PluginRequest
mysql_request = record plugin_request { analysis = record request { engine = codes "mysql" } }

converged-mysql : converge_package mysql_request.analysis normal (codes "dev") ≡ ok mysql_store
unfolding converge_package converge_queries converge_query parse_command marked_text shared_of
    statements_of renames time_layout mark_prefixes mark_from enter text_mem any in_span
    preceded_by_dot is_ident_start is_ident_part ident_rest string_literal_spans spans_outside
    spans_inside user_tables default_tables named_tables table_le sort_by insert_by text_le
    check_expansions check_from count count_from has_prefix converge_params params_from
    converge_param see bind_arg list_of element_type_name converge_columns columns_from refuse_seen
    returns_rows column_type_name map_type override_for override_from map_get engine_types all_of
    normalize_type_name drop_length to_lower lower trim_space trim_left trim_right is_space
    trim_prefix trim_suffix cut_prefix cut_at text_eq
converged-mysql = refl

abbrev pub mysql_files : List File
mysql_files = files_of (emit gofmt mysql_store)

pub generated-mysql : generate_files decode gofmt (codes "dev") mysql_request ≡ ok mysql_files
unfolding generate_files parse
generated-mysql = rw (normalize-given, converged-mysql, emit-mysql) refl

pub same_queries :
    shared_queries decode gofmt (codes "dev") plugin_request
    ≡ shared_queries decode gofmt (codes "dev") mysql_request
unfolding parse
same_queries = rw (normalize-given, converged_package, converged-mysql) refl

generate_files-shared_example : shared_files files ≡ shared_files mysql_files
generate_files-shared_example =
    generate_files-shared decode gofmt (codes "dev") plugin_request mysql_request files mysql_files
      refl refl same_queries generated generated-mysql

abbrev careless : Options
careless = record given {
  type_overrides = record { column = codes "*.name"; go_type = codes "uuid.UUID" } ∷ [];
}

abbrev refusal : EmitError
refusal =
    in_part (codes "types_generated.go")
      (in_part (codes "ListUsers params") (no_import_path (codes "uuid.UUID")))

generate_files-careless :
    generate_files (λ raw. some careless) gofmt (codes "dev") plugin_request ≡ err (of_emit refusal)
unfolding generate_files parse normalize compact null_style check_overrides add all_of any
    append_arg append_args assertion_fields assertions_from assertions_text banner bind_arg
    bind_args bind_args_from bind_element bind_value binder_for binder_of binders_from capacity
    capitalize check_expansions check_from column_type_name columns_from command_name
    constructor_fields constructor_prefix_text contains converge_columns converge_package
    converge_param converge_params converge_queries converge_query count count_from cut_at cut_last
    cut_prefix dbtx_text decimal default_tables dialect_constructor dialect_name dialect_receiver
    digits_from drop_length element_type element_type_name emit emit_db emit_querier emit_queries
    emit_types empty_list_note engine_types enter escape_backticks exec_rows_body exec_rows_note
    expands expansion_prelude exported_name finish fixed_args forms_from go_type has_exec_rows
    has_prefix has_slice_params header ident_rest import_lines in_span initialisms insert_by
    is_ident_part is_ident_start is_separator is_space is_stdlib join join_words keep last_element
    length_terms list_of lower make_legal many_body map_get map_type mark_from mark_prefixes
    marked_text method_body method_results method_signature methods_from named_tables need need_all
    new_func new_prefix_text new_text normalize_type_name one_body other_paths override_for
    override_from params_from params_struct parse_command plain_type preceded_by_dot prefix_text put
    querier_from querier_text queries_filename query_assertions query_imports quote_byte quote_bytes
    quoted receiver_fields receiver_text refuse_seen renames render render_override render_plain
    render_qualified render_starred replace_all replace_from returns_rows roster_cases roster_consts
    roster_items row_struct scan_targets see shared_of slice_placeholders_text sort_by spans_inside
    spans_outside spell_word spell_words split_from split_words sql_null_type starts_word
    statement_const_name statement_for statements_of std_paths string_literal_spans table_le text_eq
    text_le text_mem time_binders time_layout time_null_text time_ptr_text time_text to_lower
    trim_left trim_prefix trim_right trim_space trim_suffix types_from unexported_name upper
    user_tables write_constructor write_fields write_method write_shape_assertion
    write_shape_assertions write_statement_consts write_time_helpers
generate_files-careless = refl

generate_files-err_example : is_known refusal ≡ true
generate_files-err_example =
    generate_files-err (λ raw. some careless) gofmt (codes "dev") plugin_request refusal
      generate_files-careless
