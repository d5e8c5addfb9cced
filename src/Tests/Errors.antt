-- ===== src/Tests/Errors.antt =====
-- Errors built by error.go, on the texts of cockroachdb/errors.
use kit_legacy.Base.{String, ◌≡◌, refl, some, List, [], ◌∷◌, arith, eq_iff, ◌≢◌, ◌&◌, none}
use kit_legacy.Errors.Value.{foreign}
use kit_legacy.Errors.Error.{Error, to_error, new_error, wrap, withf, text_of, is_error}
use kit_legacy.Errors.Builtin.{err_database_generic, err_database_unhealthy, err_database_timed_out}
use kit_legacy.Errors.Laws.{is_error-wrap_as_all, wrap_as_all, wrap_lem}
use kit_legacy.Tests.Libs.{plain_errors}

text_of-wrap_test :
    text_of {F = String} (wrap err_database_generic (some (foreign "no route")))
    ≡ "database failed: no route"
unfolding text_of wrap new_error
text_of-wrap_test = refl

withf_test :
    text_of {F = String} (withf err_database_unhealthy "current conns 0")
    ≡ "database unhealthy: current conns 0"
unfolding text_of withf new_error
withf_test = refl

abbrev generic : Error String
generic = err_database_generic

abbrev timed_out : Error String
timed_out = err_database_timed_out

abbrev layers : List (Error String)
layers = err_database_unhealthy ∷ generic ∷ []

is_error-wrap_as_all_example :
    is_error timed_out (wrap_as_all layers (to_error timed_out))
    ≡ is_error timed_out (to_error timed_out)
is_error-wrap_as_all_example = is_error-wrap_as_all timed_out layers timed_out

generic_named : generic.message ≢ ""
unfolding new_error
generic_named = ground (arith, eq_iff "database failed" "")

wrap_lem_test :
    (text_of (wrap generic (some (foreign "no route"))) ≡ generic.message & ": " & "no route")
    × ((wrap generic (some (foreign "no route"))).identifier ≡ generic.identifier)
    × ((wrap generic (some (foreign "no route"))).message ≡ generic.message)
    × (wrap generic none ≡ generic)
wrap_lem_test = wrap_lem generic (foreign "no route") generic_named
