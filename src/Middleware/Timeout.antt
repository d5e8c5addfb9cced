-- ===== src/Middleware/Timeout.antt =====
-- middleware/timeout.go: the handler of a request runs beside the middleware, and both use the writer
-- of the response. `Writer` is the writer that the handler is given, `Exchange` the state that both
-- share and the methods of the middleware, `Turns` the steps of the two in any order. `Response` and
-- `Calls` are about calls one after another, `OnTime` and `InTime` about handlers that finish on time,
-- `Late` about handlers that do not, `Races` about turns of the handler around `handleTimeout`; `Kept`, `Accounts` and
-- `Reports` about what is reported.
pub mod Writer
pub mod Exchange
pub mod Turns
pub mod Response
pub mod Calls
pub mod OnTime
pub mod InTime
pub mod Late
pub mod Races
pub mod Kept
pub mod Accounts
pub mod Reports
