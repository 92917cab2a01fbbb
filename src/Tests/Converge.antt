-- ===== src/Tests/Converge.antt =====
-- internal/converge on concrete requests.
use sqlc_gen_unison.Base.{
  ◌+◌, ◌≡◌, ◌≢◌, some, Text, refl, ◌↔◌, true, false, none, List, [], ◌∷◌, map, codes, text_eq,
  text_mem, if◌then◌else◌, any, All, ok, err,
}
use sqlc_gen_unison.Base.Order.{text_le, sort_by, insert_by}
use sqlc_gen_unison.Base.Sets.{AreDistinct}
use sqlc_gen_unison.Strings.{
  to_lower, lower, trim_space, trim_left, trim_right, is_space, trim_prefix, trim_suffix,
  cut_prefix, cut_at, count, count_from, has_prefix,
}
use sqlc_gen_unison.Options.{is_incomplete, override_for, override_from, map_get, renames}
use sqlc_gen_unison.Ir.{kind_string, command_many, returns_rows}
use sqlc_gen_unison.Converge.Analysis.{Column, repeated_column}
use sqlc_gen_unison.Converge.Prefix.{
  mark_prefixes, mark_from, enter, in_span, preceded_by_dot, is_ident_start, is_ident_part,
  ident_rest, string_literal_spans, spans_outside, spans_inside, user_tables, default_tables,
  named_tables, table_le,
}
use sqlc_gen_unison.Converge.Types.{
  engine_types, all_of, normalize_type_name, drop_length, map_type, time_layout,
}
use sqlc_gen_unison.Converge.Types.Mapped.{NamesTypes, override_for-NamesTypes}
use sqlc_gen_unison.Converge.Slices.{list_of, element_type_name, check_expansions, check_from}
use sqlc_gen_unison.Converge.Slices.Sites.{IsExpandable, check_expansions_iff}
use sqlc_gen_unison.Converge.Params.{converge_params, params_from, converge_param, see, bind_arg}
use sqlc_gen_unison.Converge.Params.Bindings.{IsRenderable, Binds, IsBoundOnce}
use sqlc_gen_unison.Gogen.Types.Renders.{Renders, map_type-Renders}
use sqlc_gen_unison.Converge.Params.Fields.{converge_params-fields}
use sqlc_gen_unison.Converge.Params.Names.{
  distinct, arg_names, field_names, shared_name, converge_params-names,
}
use sqlc_gen_unison.Converge.Columns.{converge_columns, columns_from, refuse_seen, column_type_name}
use sqlc_gen_unison.Converge.Columns.Rows.{AreTyped, column_names, IsScalar, converge_columns-rows}
use sqlc_gen_unison.Converge.Requests.{
  parse_command, converge_query, converge_queries, converge_package, shared_of, statements_of,
  marked_text,
}
use sqlc_gen_unison.Converge.Requests.Packages.{IsPackage, converge_package-IsPackage}
use sqlc_gen_unison.Tests.Samples.{
  normal, name_column, ids_column, params, sql, request, scalar, name_field, ids_field, args, store,
}

normal_complete : All (λ t. is_incomplete t ≡ false) normal.type_overrides
unfolding text_eq
normal_complete = (refl, tt)

pub normal_names : NamesTypes (override_for normal)
normal_names = override_for-NamesTypes normal normal_complete

mapped_name :
    map_type (codes "users") (codes "name") (codes "TEXT") true (override_for normal)
    ≡ ok (scalar kind_string)
unfolding map_type override_for override_from map_get engine_types all_of normalize_type_name
    drop_length to_lower lower trim_space trim_left trim_right is_space trim_prefix trim_suffix
    cut_prefix cut_at text_eq
mapped_name = refl

map_type-Renders_example :
    Renders (scalar kind_string)
    × Renders (record (scalar kind_string) { slice = true })
    × (◌≢◌ {A = Text} [] [] → override_for normal (codes "users") (codes "name") ≡ some [])
    × (false ≡ true → (true ≡ false) × (override_for normal (codes "users") (codes "name") ≡ none))
map_type-Renders_example =
    map_type-Renders (codes "users") (codes "name") (codes "TEXT") true (override_for normal)
      (scalar kind_string) normal_names mapped_name

check_expansions_iff_example : (check_expansions sql args ≡ ok tt) ↔ IsExpandable sql args
check_expansions_iff_example = check_expansions_iff sql args

converged_params : converge_params normal [] params ≡ ok (name_field ∷ ids_field ∷ [], args)
unfolding converge_params params_from converge_param see bind_arg list_of element_type_name map_type
    override_for override_from map_get engine_types all_of normalize_type_name drop_length to_lower
    lower trim_space trim_left trim_right is_space trim_prefix trim_suffix cut_prefix cut_at text_eq
converged_params = refl

converge_params-fields_example :
    All IsRenderable (name_field ∷ ids_field ∷ [])
    × All (Binds (name_field ∷ ids_field ∷ [])) args
    × All (IsBoundOnce args) (name_field ∷ ids_field ∷ [])
    × All (λ f. Renders f.type) (name_field ∷ ids_field ∷ [])
converge_params-fields_example =
    converge_params-fields normal [] params (name_field ∷ ids_field ∷ []) args normal_names
      converged_params

converge_params-names_example :
    (arg_names args ≡ map (shared_name normal []) params)
    × (field_names (name_field ∷ ids_field ∷ []) ≡ distinct (arg_names args))
converge_params-names_example =
    converge_params-names normal [] params (name_field ∷ ids_field ∷ []) args converged_params

converged_columns : converge_columns normal (name_column ∷ []) command_many ≡ ok (name_field ∷ [])
unfolding converge_columns columns_from refuse_seen returns_rows column_type_name map_type
    override_for override_from map_get engine_types all_of normalize_type_name drop_length to_lower
    lower trim_space trim_left trim_right is_space trim_prefix trim_suffix cut_prefix cut_at text_eq
converged_columns = refl

converge_columns-rows_example :
    (map (λ f. f.name) (name_field ∷ [])
      ≡ (if returns_rows command_many then column_names (name_column ∷ []) else []))
    × AreTyped normal (if returns_rows command_many then name_column ∷ [] else []) (name_field ∷ [])
    × AreDistinct (map (λ f. f.name) (name_field ∷ []))
    × All IsScalar (name_field ∷ [])
    × All (λ f. Renders f.type) (name_field ∷ [])
converge_columns-rows_example =
    converge_columns-rows normal (name_column ∷ []) command_many (name_field ∷ []) normal_names
      converged_columns

abbrev twice : List Column
twice = name_column ∷ ids_column ∷ name_column ∷ []

refused_columns :
    converge_columns normal twice command_many
    ≡ err (repeated_column (codes "name") (0 + 1) (2 + 1))
unfolding converge_columns columns_from refuse_seen returns_rows column_type_name map_type
    override_for override_from map_get engine_types all_of normalize_type_name drop_length to_lower
    lower trim_space trim_left trim_right is_space trim_prefix trim_suffix cut_prefix cut_at text_eq
refused_columns = refl

pub converged_package : converge_package request normal (codes "dev") ≡ ok store
unfolding converge_package converge_queries converge_query parse_command marked_text shared_of
    statements_of renames time_layout mark_prefixes mark_from enter text_mem any in_span
    preceded_by_dot is_ident_start is_ident_part ident_rest string_literal_spans spans_outside
    spans_inside user_tables default_tables named_tables table_le sort_by insert_by text_le
    check_expansions check_from count count_from has_prefix converge_params params_from
    converge_param see bind_arg list_of element_type_name converge_columns columns_from refuse_seen
    returns_rows column_type_name map_type override_for override_from map_get engine_types all_of
    normalize_type_name drop_length to_lower lower trim_space trim_left trim_right is_space
    trim_prefix trim_suffix cut_prefix cut_at text_eq
converged_package = refl

converge_package-IsPackage_example : IsPackage request normal (codes "dev") store
converge_package-IsPackage_example =
    converge_package-IsPackage request normal (codes "dev") store normal_names converged_package
