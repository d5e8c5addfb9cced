-- ===== src/Lib.antt =====
-- A model of kit, a Go backend kit: its error values, its helpers for deadlines and retries, its
-- logger and observer, and the components that it builds over other packages.
--
-- The parts, and the files of the repository that they model:
--
-- - Base: names of the libraries, Boolean tests, `int` as ℤ, and the texts that `%d` prints.
-- - Errors: error.go (Errors.Error), exception.go (Errors.Exception) and the builtin errors and
--   exceptions of kit.go (Errors.Builtin). A Go `error` is a value of `GoError F` (Errors.Value): a
--   `*Error`, a `*Exception`, or a foreign error in the type `F`, a parameter throughout.
-- - World: the trace of the calls that the program makes of other packages (World.Event), newest
--   first; actions over it, which return, panic, or exit (World.Action); contexts (World.Context).
-- - Utils: the methods of `Utils` in kit.go. `bounded` is `Utils.Deadline` with the switch that most
--   methods of the components end with; Utils.ByteSize prints from the float64 of a size; Utils.Env
--   holds the readers of variables, with the parts of strconv and strings that they use;
--   Utils.RandomString draws letters.
-- - Observe: the levels of kit.go, logger.go (Observe.Logger) and observer.go (Observe.Observer, with
--   `NewObserver` in Construct and the `Trace…` methods in Traces).
-- - Connect: what the constructors that connect to a service have in common. Database.Construct,
--   Cache.Construct, Migrator.Construct and Observe.Observer.Construct are the constructors over it.
-- - Database: database.go; the regular expression and the table of codes behind `_dbErrToError` in
--   Database.Classify, `Transaction` in Database.Transaction, the other methods in Database.Store.
--   Database.Transaction.Errors and its siblings say with which error a transaction fails, and when.
--   Database.Effects is an abstract store, which replays the statements of a trace, and the rules for
--   actions that only run statements; Database.Statements and Database.Atomic are about it.
--   Database.Health and Cache.Health are `Health` of each, over Utils.Deadline.Health.
-- - Cache: cache.go. Migrator: migrator.go; its operations one after another
--   (Migrator.Operation), and its channel `done` under operations that overlap (Migrator.Channel).
--   Migrator.Agreement puts an `Assert` behind an `Apply` or a `Rollback`.
-- - Localizer: localizer.go. Renderer: renderer.go, with what the walk loads in Renderer.Loading and
--   what the constructor returns in Renderer.Results. Codec: serializer.go and binder.go.
-- - ExceptionHandler: exception_handler.go.
-- - Services: the methods of enqueuer.go, server.go and worker.go that start, use and stop services,
--   their constructors (Services.Construct), what they hand on to the routers of echo and asynq
--   (Services.Routing), and `Schedule` with the logger and error handler of asynq (Services.Tasks).
-- - Middleware: middleware/recover.go, exception.go and localizer.go of the same folder
--   (Middleware.Chain), over ExceptionHandler; Middleware.Chain.Pipeline composes the first two
--   with the error handler of the server, and Middleware.Chain.Serving puts them into a server;
--   middleware/observer.go (Middleware.Observer) and secure.go (Middleware.Secure);
--   middleware/timeout.go, as turns of the handler and of the middleware (Middleware.Timeout).
-- - Tests: concrete libraries (Tests.Libs), tests, and the theorems at concrete inputs.
--
-- A method with effects is an action from the trace so far to an outcome and the longer trace. What
-- another package replies is a function of the trace, and of what it is asked, a field of an
-- environment record such as `PgxEnv`, so that a theorem holds for every behaviour of it. Laws of a
-- package that the code relies on are fields of `ErrorsLib`, `DeadlineLib`, `RetrierLib` and
-- `ZerologLib`; Tests.Libs meets them. A method that mutates its receiver gives the new value; a
-- message that `fmt.Sprintf` formats is the formatted text. An `int` is not bounded; its
-- conversions to unsigned words wrap.
--
-- `Deadline.Run` does not stop the work that it gives up on; the trace counts all that the work
-- does, also what it does after the caller has gone on. Loops are structural; `show` runs on fuel,
-- one more than the number, which has no more digits than that. The loop of `ByteSize` has 64
-- rounds of fuel, of which an `int` needs six; the spacing of its float64 is doubled ten times,
-- enough below 2^63.
--
-- In Migrator.Channel and Middleware.Timeout calls that overlap take turns in any order. In
-- Migrator.Channel a turn is a reading or a writing of the field `done` and of the channel in it;
-- what golang-migrate does between the turns is left open. In Middleware.Timeout the turns of
-- handler and middleware are explicit, and each sees the other's writes at once; `WriteHeader` of the
-- original writer may panic, and the calls that answer `ErrHandlerTimeout` are taken to be ones that it
-- accepts. In Middleware.Chain the state of the response at each moment is a parameter.
--
-- Not modelled: colours and stack traces on the console, the request and the user that a trace puts
-- on the scope of Sentry, how long anything sleeps, and `Copy` and `Equals`, which only call
-- another package. Constructors and getters that only hold or give a field are the records and
-- their fields. The pool of buffers of the time-out middleware is made anew for each request, so
-- that a buffer is never used twice. The hub of Sentry is present by the calls that are made of it.
-- The routers of echo and asynq are parameters; of echo's it is assumed that what `Pre` is given
-- runs in that order, in front of the router (`EchoLib`, which Tests.Serving meets).
pub mod Base
pub mod World
pub mod Errors
pub mod Utils
pub mod Observe
pub mod Database
pub mod Cache
pub mod Migrator
pub mod Connect
pub mod Localizer
pub mod Codec
pub mod Renderer
pub mod ExceptionHandler
pub mod Services
pub mod Middleware
pub mod Tests
