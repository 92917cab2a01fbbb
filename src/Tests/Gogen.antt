-- ===== src/Tests/Gogen.antt =====
-- internal/emit/gogen on concrete packages.
use sqlc_gen_unison.Base.{
  List, ◌≡◌, ◌≢◌, refl, inl, true, false, [], ◌∷◌, ◌++◌, codes, text_eq, text_mem, any, err, arith,
}
use sqlc_gen_unison.Base.Sets.{SameMembers}
use sqlc_gen_unison.Strings.{
  join, to_lower, lower, trim_space, trim_left, trim_right, is_space, cut_prefix, contains,
  has_prefix,
}
use sqlc_gen_unison.Ir.{Arg, kind_invalid, FieldType}
use sqlc_gen_unison.Options.{map_get, null_pointer}
use sqlc_gen_unison.Gogen.Names.{
  exported_name, unexported_name, is_separator, split_words, split_from, starts_word, join_words,
  spell_words, spell_word, make_legal, initialisms,
}
use sqlc_gen_unison.Gogen.Names.Identifiers.{IsSqlName, IsSpelled, exported_name_doubled}
use sqlc_gen_unison.Gogen.Names.Keywords.{IsIdentifier, names-IsIdentifier}
use sqlc_gen_unison.Gogen.Queries.Methods.{fixed_args, length_terms, decimal, digits_from, capacity}
use sqlc_gen_unison.Gogen.Imports.{no_imports, render}
use sqlc_gen_unison.Gogen.Imports.Rendering.{add_all, render-add_all}
use sqlc_gen_unison.Gogen.Types.{
  no_import_path, go_type, element_type, render_override, render_starred, render_plain,
  render_qualified,
}
use sqlc_gen_unison.Gogen.Types.Total.{is_override_error, go_type-err}

sql_name : IsSqlName (codes "a_1")
unfolding is_separator
sql_name = (refl, (refl, (refl, tt)))

same_paths :
    SameMembers (codes "time" ∷ codes "fmt" ∷ codes "time" ∷ []) (codes "fmt" ∷ codes "time" ∷ [])
unfolding text_mem any
same_paths a = ground arith

names-IsIdentifier_example :
    IsIdentifier (exported_name (codes "a_1")) × IsSpelled (unexported_name (codes "a_1"))
names-IsIdentifier_example = names-IsIdentifier (codes "a_1") sql_name

-- The method of a query `Type` reads a field whose name is a keyword.
keyword_name : unexported_name (codes "Type") ≡ codes "type"
unfolding unexported_name split_words split_from starts_word is_separator join_words spell_words
    make_legal to_lower lower
keyword_name = refl

exported_name_doubled_example :
    exported_name (codes "user" ++ b'_' ∷ b'_' ∷ codes "id")
    ≡ exported_name (codes "user" ++ b'_' ∷ codes "id")
exported_name_doubled_example = exported_name_doubled (codes "user") (codes "id")

render-add_all_example :
    render (add_all (codes "time" ∷ codes "fmt" ∷ codes "time" ∷ []) no_imports)
    ≡ render (add_all (codes "fmt" ∷ codes "time" ∷ []) no_imports)
render-add_all_example =
    render-add_all (codes "time" ∷ codes "fmt" ∷ codes "time" ∷ [])
      (codes "fmt" ∷ codes "time" ∷ []) same_paths

abbrev unimported : FieldType
unimported = record {
  override = codes "uuid.UUID";
  kind = kind_invalid;
  nullable = false;
  slice = true;
}

refused_type : go_type unimported null_pointer no_imports ≡ err (no_import_path (codes "uuid.UUID"))
unfolding go_type element_type render_override render_starred render_plain render_qualified text_eq
    trim_space trim_left trim_right is_space cut_prefix contains has_prefix
refused_type = refl

go_type-err_example :
    (codes "uuid.UUID" ≢ []) × (is_override_error (no_import_path (codes "uuid.UUID")) ≡ true)
go_type-err_example =
    go_type-err unimported null_pointer no_imports (no_import_path (codes "uuid.UUID"))
      (inl (λ e. ground arith)) refused_type

abbrev mixed_args : List Arg
mixed_args =
    record { name = codes "name"; expand = []; placeholder = [] }
    ∷ record { name = codes "ids"; expand = codes "/*SLICE:ids*/?"; placeholder = codes "?" }
    ∷ []

capacity-two : capacity mixed_args ≡ codes "1+len(arg.IDs)"
unfolding capacity fixed_args length_terms decimal digits_from join text_eq exported_name
    split_words split_from starts_word is_separator join_words spell_words spell_word make_legal
    map_get initialisms to_lower lower
capacity-two = refl
