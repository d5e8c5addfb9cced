-- ===== src/Errors/Builtin.antt =====
-- The builtin errors and exceptions of kit.go. Each is a function in the source, `NewError(…)` or
-- `NewException(…)`: a mention here is a call of it, which makes a new object.
use kit_legacy.Base.{pos}
use kit_legacy.Errors.Value.{ErrorsLib}
use kit_legacy.Errors.Error.{Error, new_error}
use kit_legacy.Errors.Exception.{Exception, new_exception}

module _ {F : Type 0} ⦃lib : ErrorsLib F⦄ where
  abbrev pub err_deadline_exceeded : Error F
  err_deadline_exceeded = new_error "deadline exceeded"

  abbrev pub err_logger_generic : Error F
  err_logger_generic = new_error "logger failed"

  abbrev pub err_logger_timed_out : Error F
  err_logger_timed_out = new_error "logger timed out"

  abbrev pub err_binder_generic : Error F
  err_binder_generic = new_error "binder failed"

  abbrev pub err_exception_handler_generic : Error F
  err_exception_handler_generic = new_error "error handler failed"

  abbrev pub err_migrator_generic : Error F
  err_migrator_generic = new_error "migrator failed"

  abbrev pub err_migrator_timed_out : Error F
  err_migrator_timed_out = new_error "migrator timed out"

  abbrev pub err_observer_generic : Error F
  err_observer_generic = new_error "observer failed"

  abbrev pub err_observer_timed_out : Error F
  err_observer_timed_out = new_error "observer timed out"

  abbrev pub err_serializer_generic : Error F
  err_serializer_generic = new_error "serializer failed"

  abbrev pub err_renderer_generic : Error F
  err_renderer_generic = new_error "renderer failed"

  abbrev pub err_localizer_generic : Error F
  err_localizer_generic = new_error "localizer failed"

  abbrev pub err_server_generic : Error F
  err_server_generic = new_error "server failed"

  abbrev pub err_server_timed_out : Error F
  err_server_timed_out = new_error "server timed out"

  abbrev pub err_database_generic : Error F
  err_database_generic = new_error "database failed"

  abbrev pub err_database_timed_out : Error F
  err_database_timed_out = new_error "database timed out"

  abbrev pub err_database_unhealthy : Error F
  err_database_unhealthy = new_error "database unhealthy"

  abbrev pub err_database_transaction_failed : Error F
  err_database_transaction_failed = new_error "database transaction failed"

  abbrev pub err_database_no_rows : Error F
  err_database_no_rows = new_error "database no rows in result set"

  abbrev pub err_database_integrity_violation : Error F
  err_database_integrity_violation = new_error "database integrity constraint violation"

  abbrev pub err_cache_generic : Error F
  err_cache_generic = new_error "cache failed"

  abbrev pub err_cache_timed_out : Error F
  err_cache_timed_out = new_error "cache timed out"

  abbrev pub err_cache_unhealthy : Error F
  err_cache_unhealthy = new_error "cache unhealthy"

  abbrev pub err_cache_miss : Error F
  err_cache_miss = new_error "cache key not found"

  abbrev pub err_worker_generic : Error F
  err_worker_generic = new_error "worker failed"

  abbrev pub err_worker_timed_out : Error F
  err_worker_timed_out = new_error "worker timed out"

  abbrev pub err_enqueuer_generic : Error F
  err_enqueuer_generic = new_error "enqueuer failed"

  abbrev pub err_enqueuer_timed_out : Error F
  err_enqueuer_timed_out = new_error "enqueuer timed out"

  abbrev pub exc_server_generic : Exception F
  exc_server_generic = new_exception (pos 500) "ERR_SERVER_GENERIC"

  abbrev pub exc_server_unavailable : Exception F
  exc_server_unavailable = new_exception (pos 503) "ERR_SERVER_UNAVAILABLE"

  abbrev pub exc_request_timeout : Exception F
  exc_request_timeout = new_exception (pos 504) "ERR_REQUEST_TIMEOUT"

  abbrev pub exc_client_generic : Exception F
  exc_client_generic = new_exception (pos 400) "ERR_CLIENT_GENERIC"

  abbrev pub exc_invalid_request : Exception F
  exc_invalid_request = new_exception (pos 400) "ERR_INVALID_REQUEST"

  abbrev pub exc_not_found : Exception F
  exc_not_found = new_exception (pos 404) "ERR_NOT_FOUND"

  abbrev pub exc_unauthorized : Exception F
  exc_unauthorized = new_exception (pos 401) "ERR_UNAUTHORIZED"
