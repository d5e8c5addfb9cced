-- ===== src/Observe/Logger.antt =====
-- logger.go: the state of a `Logger` and its methods. A formatted message (`Infof` and the like)
-- comes as the text that `fmt.Sprintf` gives. The writer counts for whether it is the diode writer of
-- `NewLogger`; the frame that `Caller` skips to is not modelled.
use kit_legacy.Base.{
  ℤ, show_ℤ, ◌&◌, String, ◌≡◌, Bool, true, false, Option, none, some, List, [], ◌∷◌, if◌then◌else◌,
  or_default,
}
use kit_legacy.Errors.Value.{GoError, ErrorsLib}
use kit_legacy.Errors.Error.{to_error, wrap_as}
use kit_legacy.Errors.Builtin.{err_logger_generic, err_logger_timed_out}
use kit_legacy.World.Event.{Any, ZLevel, writes, Event, World, sprint}
use kit_legacy.World.Action.{
  panicked, exited, Action, Fallible, pure, panic_with, exit, emit, ask, unless_err, ◌>>=◌, ◌>>◌,
}
use kit_legacy.World.Context.{Context}
use kit_legacy.Utils.Deadline.{DeadlineLib, bounded}
use kit_legacy.Observe.Level.{
  lvl_trace, lvl_debug, lvl_info, lvl_warn, lvl_error, ◌>=◌, same_level, k_level_to_z_level,
}

pub record LoggerConfig : Type 0 where
  pub app_name : String
  pub level : ℤ
  pub skip_frame_count : Option ℤ

pub data Writer : Type 0 where
  diode other_writer : Writer

pub record Logger : Type 0 where
  pub config : LoggerConfig
  -- the level set on the zerolog logger
  pub threshold : ZLevel
  pub out : Writer
  pub prefix : String
  pub header : String
  pub level : ℤ
  pub verbose : Bool
  pub skip_frame_count : ℤ

abbrev level_field_name : String
level_field_name = "level"

abbrev message_field_name : String
message_field_name = "message"

abbrev app_field_name : String
app_field_name = "app"

abbrev timestamp_field_name : String
timestamp_field_name = "timestamp"

abbrev caller_field_name : String
caller_field_name = "caller"

abbrev default_skip_frame_count : ℤ
default_skip_frame_count = ℤ.pos 1

unfoldable pub new_logger : LoggerConfig → Logger
new_logger config =
    let skip = or_default config.skip_frame_count default_skip_frame_count in
    record {
      config = record config { skip_frame_count = some skip };
      threshold = k_level_to_z_level config.level;
      out = diode;
      prefix = config.app_name;
      header = "";
      level = config.level;
      verbose = lvl_debug >= config.level;
      skip_frame_count = skip;
    }

-- The function that the diode writer calls with the number of the messages that it dropped, up to the end of
-- the line; `file`, `line` and `now` are what the packages runtime and time reply.
unfoldable pub alert : {F : Type 0} → LoggerConfig → String → ℤ → ℤ → ℤ → Action F (Unit {0})
alert config file line now missed = emit (
    Event.printed (
      "{\""
      & level_field_name
      & "\":\"error\",\""
      & app_field_name
      & "\":\""
      & config.app_name
      & "\",\""
      & caller_field_name
      & "\":\""
      & file
      & ":"
      & show_ℤ line
      & "\",\""
      & timestamp_field_name
      & "\":"
      & show_ℤ now
      & ",\""
      & message_field_name
      & "\":\"Logger dropped "
      & show_ℤ missed
      & " messages\"}"))

unfoldable pub set_output : Logger → Writer → Logger
set_output self out = record self { out = out }

unfoldable pub set_prefix : Logger → String → Logger
set_prefix self p = record self { prefix = p }

unfoldable pub set_level : Logger → ℤ → Logger
set_level self l = record self { threshold = k_level_to_z_level l; level = l }

unfoldable pub set_header : Logger → String → Logger
set_header self h = record self { header = h }

unfoldable pub set_verbose : Logger → Bool → Logger
set_verbose self v = record self { verbose = v }

-- A trace with a message that zerolog may write by the level of the logger.
abbrev pub written_at : {F : Type 0} → ZLevel → ZLevel → String → World F → World F
written_at threshold level message w =
    if writes threshold level then Event.logged threshold level true message ∷ w else w

-- zerolog's `Fatal().Msg` ends the process with status 1, whatever the level of the logger; its
-- `Panic().Msg` panics with the message, or with the empty text where the level of the logger keeps the
-- message from being written.
pub record ZerologLib (F : Type 0) : Type 0 where
  pub fatal_msg : ZLevel → String → Action F (Unit {0})
  pub panic_msg : ZLevel → String → Action F (Unit {0})
  pub fatal_exits :
      (threshold : ZLevel) (message : String) (w : World F)
      → fatal_msg threshold message w ≡ (exited 1, written_at threshold ZLevel.fatal message w)
  pub panic_panics :
      (threshold : ZLevel) (message : String) (w : World F)
      → panic_msg threshold message w ≡ (
        panicked (Any.a_string (if writes threshold ZLevel.panic then message else "")),
        written_at threshold ZLevel.panic message w,
      )

module _ {F : Type 0} ⦃lib : ErrorsLib F⦄ where
  unfoldable pub print : Logger → List (Any F) → Action F (Unit {0})
  print self i = emit (Event.logged self.threshold ZLevel.no_level false (sprint i))

  unfoldable pub debug : Logger → List (Any F) → Action F (Unit {0})
  debug self i = emit (Event.logged self.threshold ZLevel.debug false (sprint i))

  unfoldable pub info : Logger → List (Any F) → Action F (Unit {0})
  info self i = emit (Event.logged self.threshold ZLevel.info false (sprint i))

  unfoldable pub warn : Logger → List (Any F) → Action F (Unit {0})
  warn self i = emit (Event.logged self.threshold ZLevel.warn true (sprint i))

  -- `printDebugError`: a `*Error` or `*Exception` in front is printed by what it wraps (`%+v`), on a line of
  -- its own, and the rest, if any, on another.
  rest_line : List (Any F) → Action F (Unit {0})
  rest_line [] = pure tt
  rest_line (a ∷ rest) = emit (Event.printed (sprint (a ∷ rest)))

  unfoldable pub print_debug_error : List (Any F) → Action F (Unit {0})
  unfolding rest_line
  print_debug_error (Any.an_error (GoError.error inner _ _) ∷ rest) =
      emit (Event.printed_verbose inner) >> rest_line rest
  print_debug_error (Any.an_error (GoError.exception inner _ _ _ _) ∷ rest) =
      emit (Event.printed_verbose inner) >> rest_line rest
  print_debug_error i = rest_line i

  unfoldable pub log_error : Logger → List (Any F) → Action F (Unit {0})
  log_error self i =
      if lvl_debug >= self.level
      then print_debug_error i
      else emit (Event.logged self.threshold ZLevel.error true (sprint i))

  unfoldable pub with_level : Logger → ℤ → List (Any F) → Action F (Unit {0})
  with_level self level i =
      if same_level level lvl_trace
      then print self i
      else if same_level level lvl_debug
      then debug self i
      else if same_level level lvl_info
      then info self i
      else if same_level level lvl_warn
      then warn self i
      else if same_level level lvl_error
      then log_error self i
      else pure tt

module _ {F : Type 0} ⦃lib : ErrorsLib F⦄ ⦃zerolog : ZerologLib F⦄ where
  unfoldable pub fatal : Logger → List (Any F) → Action F (Unit {0})
  fatal self i =
      if lvl_debug >= self.level
      then print_debug_error i >> exit 1
      else zerolog.fatal_msg self.threshold (sprint i)

  unfoldable pub log_panic : Logger → List (Any F) → Action F (Unit {0})
  log_panic self i =
      if lvl_debug >= self.level
      then print_debug_error i >> panic_with (Any.a_string (sprint i))
      else zerolog.panic_msg self.threshold (sprint i)

-- The formatted variants, on the formatted text.
module _ {F : Type 0} ⦃lib : ErrorsLib F⦄ where
  unfoldable pub printf : Logger → String → Action F (Unit {0})
  printf self text = emit (Event.logged self.threshold ZLevel.no_level false text)

  unfoldable pub debugf : Logger → String → Action F (Unit {0})
  debugf self text = emit (Event.logged self.threshold ZLevel.debug false text)

  unfoldable pub infof : Logger → String → Action F (Unit {0})
  infof self text = emit (Event.logged self.threshold ZLevel.info false text)

  unfoldable pub warnf : Logger → String → Action F (Unit {0})
  warnf self text = emit (Event.logged self.threshold ZLevel.warn true text)

  unfoldable pub errorf : Logger → String → Action F (Unit {0})
  errorf self text =
      if lvl_debug >= self.level
      then print_debug_error (Any.a_string text ∷ [])
      else emit (Event.logged self.threshold ZLevel.error true text)

  unfoldable pub with_levelf : Logger → ℤ → String → Action F (Unit {0})
  with_levelf self level text =
      if same_level level lvl_trace
      then printf self text
      else if same_level level lvl_debug
      then debugf self text
      else if same_level level lvl_info
      then infof self text
      else if same_level level lvl_warn
      then warnf self text
      else if same_level level lvl_error
      then errorf self text
      else pure tt

module _ {F : Type 0} ⦃lib : ErrorsLib F⦄ ⦃zerolog : ZerologLib F⦄ where
  unfoldable pub fatalf : Logger → String → Action F (Unit {0})
  fatalf self text =
      if lvl_debug >= self.level
      then print_debug_error (Any.a_string text ∷ []) >> exit 1
      else zerolog.fatal_msg self.threshold text

  unfoldable pub panicf : Logger → String → Action F (Unit {0})
  panicf self text =
      if lvl_debug >= self.level
      then print_debug_error (Any.a_string text ∷ []) >> panic_with (Any.a_string text)
      else zerolog.panic_msg self.threshold text

-- The life of the writer.
module _ {F : Type 0} ⦃lib : ErrorsLib F⦄ ⦃timer : DeadlineLib F⦄ where
  unfoldable pub flush : Logger → Context F → Fallible F
  flush self ctx =
      bounded ctx err_logger_timed_out err_logger_generic do emit Event.synced; pure none

  close_writer : Logger → (World F → Option (GoError F)) → Fallible F
  close_writer self writer_close = elim self.out [
    | other_writer ↦ panic_with (Any.a_string "logger writer is not diode")
    | diode ↦ do
      err ← ask writer_close Event.writer_closed
      unless_err err (λ e. some (to_error (wrap_as err_logger_generic (some e))))
          do info self (Any.a_string "Closed logger" ∷ []); pure none
  ]

  -- `writer_close` is what `diode.Writer.Close` replies.
  unfoldable pub close : Logger → (World F → Option (GoError F)) → Context F → Fallible F
  unfolding close_writer
  close self writer_close ctx = bounded ctx err_logger_timed_out err_logger_generic do
    info self (Any.a_string "Closing logger" ∷ [])
    err ← flush self ctx
    unless_err err (λ e. some (to_error (wrap_as err_logger_generic (some e))))
        (close_writer self writer_close)
