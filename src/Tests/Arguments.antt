-- ===== src/Tests/Arguments.antt =====
-- internal/emit/gogen/queries.go: the arguments of a method of two placeholders, read back.
use sqlc_gen_unison.Base.{codes, [], ◌∷◌, text_eq, arith, true, ◌≡◌, refl, none, map}
use sqlc_gen_unison.Gogen.Names.{
  exported_name, split_words, split_from, starts_word, is_separator, join_words, spell_words,
  spell_word, make_legal, initialisms, capitalize,
}
use sqlc_gen_unison.Options.{map_get}
use sqlc_gen_unison.Strings.{to_lower, lower, upper}
use sqlc_gen_unison.Base.Sets.{AreDistinct}
use sqlc_gen_unison.Ir.{Query, kind_time}
use sqlc_gen_unison.Gogen.Times.{time_binders}
use sqlc_gen_unison.Gogen.Queries.Methods.{bind_args, append_args}
use sqlc_gen_unison.Gogen.Queries.Lines.{lines}
use sqlc_gen_unison.Gogen.Queries.Appends.{one, each, read_bounds, AreSqlNames}
use sqlc_gen_unison.Gogen.Queries.Arguments.{
  read_args, expected_value, expected_bound, arguments_read,
}
use sqlc_gen_unison.Gogen.Queries.Methods.{capacity}
use sqlc_gen_unison.Gogen.Queries.Evaluated.{evaluate, appends_of, capacity-append_args}
use sqlc_gen_unison.Tests.Samples.{name_field, ids_field, scalar, store, shared_query, args}

sql_names : AreSqlNames args
unfolding is_separator
sql_names = ((refl, (refl, (refl, (refl, tt)))), ((refl, (refl, (refl, tt))), tt))

-- The query's second parameter as a nullable list of times.
abbrev timed_query : Query
timed_query = record shared_query {
  params =
      record name_field { type = record (scalar kind_time) { nullable = true } }
      ∷ record ids_field { type = record (scalar kind_time) { slice = true } }
      ∷ [];
}

distinct_names : AreDistinct (map (λ f. f.name) timed_query.params)
distinct_names = (((λ e. ground arith), tt), (tt, tt))

-- What it should bind.
timed_bounds :
    map (expected_bound store timed_query) args
    ≡ one (codes "timeTextPtr(arg.Name)") ∷ each (codes "arg.IDs") (codes "timeText(v)") ∷ []
unfolding text_eq exported_name split_words split_from starts_word is_separator join_words
    spell_words spell_word make_legal map_get initialisms to_lower lower upper capitalize
timed_bounds = refl

arguments_read_example :
    (read_args (lines (bind_args (time_binders store timed_query) args))
      ≡ map (expected_value store timed_query) args)
    × (read_bounds none (lines (append_args (time_binders store timed_query) args))
        ≡ map (expected_bound store timed_query) args)
arguments_read_example = arguments_read store timed_query args distinct_names sql_names

capacity-append_args_example :
    evaluate (λ list. 3) (capacity args)
    ≡ appends_of
        (λ list. 3)
        (read_bounds none (lines (append_args (time_binders store shared_query) args)))
capacity-append_args_example = capacity-append_args (λ list. 3) store shared_query args sql_names
