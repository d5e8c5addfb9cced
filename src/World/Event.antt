-- ===== src/World/Event.antt =====
-- The calls that kit makes of other packages, each with the values that it passes and, where the
-- code looks at it, with the reply.
use kit_legacy.Base.{
  ℕ, ℤ, String, ◌&◌, Bool, true, false, ◌||◌, Option, List, [], ◌∷◌, if◌then◌else◌, leb,
}
use kit_legacy.Errors.Value.{GoError, ErrorsLib, error_text}

-- A Go value of type `any`, as far as kit looks at it: nil, an error, a string, or a value of which
-- only the text that `fmt` prints matters.
pub data Any (F : Type 0) : Type 0 where
  nil : Any F
  an_error : GoError F → Any F
  a_string : String → Any F
  other : String → Any F

-- zerolog.Level, with the level of `Log()`.
pub data ZLevel : Type 0 where
  trace debug info warn error fatal panic no_level disabled : ZLevel

-- zerolog writes the messages whose level is not below that of the logger, by this order.
abbrev pub rank : ZLevel → ℕ
rank ZLevel.trace = 0
rank ZLevel.debug = 1
rank ZLevel.info = 2
rank ZLevel.warn = 3
rank ZLevel.error = 4
rank ZLevel.fatal = 5
rank ZLevel.panic = 6
rank ZLevel.no_level = 7
rank ZLevel.disabled = 8

abbrev pub writes : ZLevel → ZLevel → Bool
writes threshold level = leb (rank threshold) (rank level)

pub data Event (F : Type 0) : Type 0 where
  -- a message given to zerolog: the logger's threshold, the level, whether the caller is added
  logged : ZLevel → ZLevel → Bool → String → Event F
  -- a message of the level info without a text given to zerolog, with its fields: the logger's threshold
  -- comes first
  logged_fields : ZLevel → List (String × String) → Event F
  -- a line printed to the console; an error printed there by `%+v`
  printed : String → Event F
  printed_verbose : GoError F → Event F
  -- logger.go: the sleep and the two `Sync` calls of `Flush`, and the close of the writer
  synced : Event F
  writer_closed : Option (GoError F) → Event F
  -- observer.go: an error reported to Sentry; the flushes of Sentry and Gilk
  captured : GoError F → Event F
  sentry_flushed : Bool → Event F
  gilk_reset : Event F
  -- the spans of Sentry, with the tag and the transaction of their scope, and the requests and queries
  -- of Gilk
  tagged transaction_set span_started : String → Event F
  span_finished : Event F
  gilk_started : String → Event F
  gilk_ended : Event F
  response_header_set : String → String → Event F
  -- a connection attempt by a constructor, by its number
  attempted : ℤ → Event F
  -- what such an attempt makes or reaches, with the reply; a global setting of another package
  opened : String → Option (GoError F) → Event F
  configured : String → Event F
  -- database.go: transactions, by the reply; statements, by whether a transaction runs them
  began : Option (GoError F) → Event F
  committed : Option (GoError F) → Event F
  rolled_back : Option (GoError F) → Event F
  queried : Bool → String → Option (GoError F) → Event F
  executed : Bool → String → Option (GoError F) → Event F
  rows_closed : Event F
  statement_closed : Event F
  pool_closed : Event F
  pinged : Option (GoError F) → Event F
  -- cache.go
  cache_set : String → ℤ → Option (GoError F) → Event F
  cache_got : String → Option (GoError F) → Event F
  cache_deleted : String → Option (GoError F) → Event F
  cache_closed : Option (GoError F) → Event F
  -- migrator.go: the channel `done`, made, closed and received from; the calls of golang-migrate
  done_made done_closed done_received stop_sent : Event F
  source_closed : Option (GoError F) → Option (GoError F) → Event F
  lock_timeout_set : Option ℤ → Event F
  version_read : Event F
  version_forced : ℤ → Option (GoError F) → Event F
  migrated : ℕ → Option (GoError F) → Event F
  -- the response that an exception handler writes
  responded_no_content : ℤ → Option (GoError F) → Event F
  responded_json : ℤ → List (String × String) → Option (GoError F) → Event F
  -- enqueuer.go and worker.go: the task given to asynq, to run or to schedule; the close of its client
  enqueued : String → Option (GoError F) → Event F
  client_closed : Option (GoError F) → Event F
  -- server.go and worker.go: what is started and stopped
  started : String → Option (GoError F) → Event F
  stopped : String → Option (GoError F) → Event F
  -- a call of a function that the caller of kit passes in
  called : Bool → Event F

-- The newest call first.
abbrev pub World : Type 0 → Type 0
World F = List (Event F)

module _ {F : Type 0} ⦃lib : ErrorsLib F⦄ where
  abbrev pub text_of_any : Any F → String
  text_of_any nil = "<nil>"
  text_of_any (an_error err) = error_text err
  text_of_any (a_string s) = s
  text_of_any (other s) = s

  abbrev pub is_string : Any F → Bool
  is_string (a_string _) = true
  is_string _ = false

  -- `fmt.Sprint`: a space goes between two operands of which neither is a string.
  unfoldable pub sprint : List (Any F) → String
  sprint [] = ""
  sprint (a ∷ []) = text_of_any a
  sprint (a ∷ b ∷ rest) =
      text_of_any a & (if is_string a || is_string b then "" else " ") & sprint (b ∷ rest)
