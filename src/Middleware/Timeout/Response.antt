-- ===== src/Middleware/Timeout/Response.antt =====
-- The response that the calls of a handler describe, and the time-out writer that keeps it.
use kit_legacy.Base.{
  ℤ, pos, String, ◌&◌, ◌≡◌, refl, ◌∙◌, sym, ap, true, false, List, [], ◌∷◌, ◌++◌, arith,
}
use kit_legacy.Middleware.Timeout.Writer.{
  Headers, Call, edit_headers, write_header, write, put, ignores, edit, put_status,
}
use kit_legacy.Middleware.Timeout.Exchange.{timeout, HandlerCtx, perform, call_response, call_all}
use kit_legacy.Middleware.Timeout.Turns.{}

-- The response that a handler's calls describe: the header map that they leave, the first status, and
-- all bodies in order.
unfoldable pub headers_of : List Call → Headers → Headers
headers_of [] headers = headers
headers_of (edit_headers change ∷ calls) headers = headers_of calls (change headers)
headers_of (write_header code ∷ calls) headers = headers_of calls headers
headers_of (write body ∷ calls) headers = headers_of calls headers

unfoldable pub status_of : List Call → ℤ
status_of [] = pos 0
status_of (write_header code ∷ calls) = code
status_of (edit_headers change ∷ calls) = status_of calls
status_of (write body ∷ calls) = status_of calls

unfoldable pub body_of : List Call → String → String
body_of [] sofar = sofar
body_of (write body ∷ calls) sofar = body_of calls (sofar & body)
body_of (write_header code ∷ calls) sofar = body_of calls sofar
body_of (edit_headers change ∷ calls) sofar = body_of calls sofar

unfoldable pub put_all : Headers → List Call
put_all [] = []
put_all ((k, v) ∷ headers) = edit_headers (put k v) ∷ put_all headers

-- Each header once, then the status, then the body.
unfoldable pub response : List Call → List Call
response calls =
    put_all (headers_of calls [])
    ++ (write_header (status_of calls) ∷ write (body_of calls "") ∷ [])

headers_of-cons :
    (call : Call) (calls : List Call) (headers : Headers)
    → headers_of (call ∷ calls) headers ≡ headers_of calls (headers_of (call ∷ []) headers)
unfolding headers_of
headers_of-cons (edit_headers change) calls headers = refl
headers_of-cons (write_header code) calls headers = refl
headers_of-cons (write body) calls headers = refl

body_of-cons :
    (call : Call) (calls : List Call) (sofar : String)
    → body_of (call ∷ calls) sofar ≡ body_of calls (body_of (call ∷ []) sofar)
unfolding body_of
body_of-cons (edit_headers change) calls sofar = refl
body_of-cons (write_header code) calls sofar = refl
body_of-cons (write body) calls sofar = refl

module _ {F : Type 0} where
  -- The time-out writer takes calls.
  unfoldable pub IsOpen : HandlerCtx F → Type 0
  IsOpen self =
      (self.installed ≡ timeout) × (self.writer.has_timed_out ≡ false) × (self.writer.body ≡ true)

  pub call_response-IsOpen :
      (call : Call) (self : HandlerCtx F) → IsOpen self → IsOpen (call_response call self)
  unfolding IsOpen call_response ignores perform put_status edit
  call_response-IsOpen (edit_headers change) self h = ground arith
  call_response-IsOpen (write_header code) self h = ground arith
  call_response-IsOpen (write body) self h = ground arith

  pub call_all-IsOpen :
      (calls : List Call) (self : HandlerCtx F) → IsOpen self → IsOpen (call_all calls self)
  unfolding call_all
  call_all-IsOpen [] self h = h
  call_all-IsOpen (call ∷ calls) self h =
      call_all-IsOpen calls (call_response call self) (call_response-IsOpen call self h)

  -- What one call leaves, by the description of the list of it.
  unfoldable Leaves : Call → HandlerCtx F → HandlerCtx F → Type 0
  Leaves call self next =
      (next.writer.headers ≡ headers_of (call ∷ []) self.writer.headers)
      × (next.buffer ≡ body_of (call ∷ []) self.buffer)
      × (next.sent ≡ self.sent)
      × (next.handler_error ≡ self.handler_error)

  call_response-Leaves :
      (call : Call) (self : HandlerCtx F) → IsOpen self → Leaves call self (call_response call self)
  unfolding Leaves IsOpen call_response ignores perform put_status edit headers_of body_of
  call_response-Leaves (edit_headers change) self h = ground arith
  call_response-Leaves (write_header code) self h = ground arith
  call_response-Leaves (write body) self h = ground arith

  unfoldable pub LeavesAll : List Call → HandlerCtx F → HandlerCtx F → Type 0
  LeavesAll calls self next =
      (next.writer.headers ≡ headers_of calls self.writer.headers)
      × (next.buffer ≡ body_of calls self.buffer)
      × (next.sent ≡ self.sent)
      × (next.handler_error ≡ self.handler_error)

  pub call_all-LeavesAll :
      (calls : List Call) (self : HandlerCtx F)
      → IsOpen self
      → LeavesAll calls self (call_all calls self)
  unfolding LeavesAll Leaves call_all headers_of body_of
  call_all-LeavesAll [] self h = (refl, refl, refl, refl)
  call_all-LeavesAll (call ∷ calls) self h =
      let next = call_response call self in
      let (headers, body, sent, err) = call_response-Leaves call self h in
      let (headers', body', sent', err') =
        call_all-LeavesAll calls next (call_response-IsOpen call self h) in
      (
        headers'
            ∙ ap (headers_of calls) headers
            ∙ sym (headers_of-cons call calls self.writer.headers),
        body' ∙ ap (body_of calls) body ∙ sym (body_of-cons call calls self.buffer),
        sent' ∙ sent,
        err' ∙ err,
      )

  -- The first status stands.
  call_response-status :
      (call : Call) (self : HandlerCtx F)
      → IsOpen self
      → self.writer.wrote_headers ≡ true
      → ((call_response call self).writer.wrote_headers ≡ true)
        × ((call_response call self).writer.status_code ≡ self.writer.status_code)
  unfolding IsOpen call_response ignores perform put_status edit
  call_response-status (edit_headers change) self h wrote = ground arith
  call_response-status (write_header code) self h wrote = ground arith
  call_response-status (write body) self h wrote = ground arith

  call_all-status :
      (calls : List Call) (self : HandlerCtx F)
      → IsOpen self
      → self.writer.wrote_headers ≡ true
      → (call_all calls self).writer.status_code ≡ self.writer.status_code
  unfolding call_all
  call_all-status [] self h wrote = refl
  call_all-status (call ∷ calls) self h wrote =
      let (wrote', same) = call_response-status call self h wrote in
      call_all-status calls (call_response call self) (call_response-IsOpen call self h) wrote'
      ∙ same

  pub call_all-status_of :
      (calls : List Call) (self : HandlerCtx F)
      → IsOpen self
      → self.writer.wrote_headers ≡ false
      → self.writer.status_code ≡ pos 0
      → (call_all calls self).writer.status_code ≡ status_of calls
  unfolding IsOpen call_all call_response ignores perform put_status edit status_of
  call_all-status_of [] self h unset zero = zero
  call_all-status_of (write_header code ∷ calls) self h unset zero =
      let next = call_response (write_header code) self in
      call_all-status calls next (call_response-IsOpen (write_header code) self h) (ground arith)
      ∙ ground arith
  call_all-status_of (edit_headers change ∷ calls) self h unset zero =
      let next = call_response (edit_headers change) self in
      call_all-status_of calls next (call_response-IsOpen (edit_headers change) self h)
        (ground arith) (ground arith)
  call_all-status_of (write body ∷ calls) self h unset zero =
      let next = call_response (write body) self in
      call_all-status_of calls next (call_response-IsOpen (write body) self h) (ground arith)
        (ground arith)
