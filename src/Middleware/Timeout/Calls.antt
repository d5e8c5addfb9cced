-- ===== src/Middleware/Timeout/Calls.antt =====
-- Calls through the response one after another, and the copy to the original writer.
use kit_legacy.Base.{◌≡◌, refl, ◌∙◌, sym, ap, Option, List, [], ◌∷◌, ◌++◌, arith}
use mathlib.Core.List.{append-nil, append_assoc}
use kit_legacy.Errors.Value.{GoError}
use kit_legacy.Middleware.Timeout.Writer.{
  Headers, Call, edit_headers, write_header, write, put, edit, put_status,
}
use kit_legacy.Middleware.Timeout.Exchange.{
  HandlerCtx, send, perform, copy_headers, copy, call_response, call_all,
}
use kit_legacy.Middleware.Timeout.Response.{put_all}
use kit_legacy.Middleware.Timeout.Turns.{}

module _ {F : Type 0} where
  pub call_all-append :
      (calls more : List Call) (self : HandlerCtx F)
      → call_all (calls ++ more) self ≡ call_all more (call_all calls self)
  unfolding call_all
  call_all-append [] more self = refl
  call_all-append (call ∷ calls) more self = call_all-append calls more (call_response call self)

  call_response-history :
      (call : Call) (self : HandlerCtx F)
      → (call_response call self).history ≡ self.history ++ (call ∷ [])
  unfolding call_response send perform put_status edit
  call_response-history (edit_headers change) self = ground arith
  call_response-history (write_header code) self = ground arith
  call_response-history (write body) self = ground arith

  pub call_all-history :
      (calls : List Call) (self : HandlerCtx F)
      → (call_all calls self).history ≡ self.history ++ calls
  unfolding call_all
  call_all-history [] self = sym (append-nil self.history)
  call_all-history (call ∷ calls) self =
      call_all-history calls (call_response call self)
      ∙ ap (λ before. before ++ calls) (call_response-history call self)
      ∙ append_assoc self.history (call ∷ []) calls

  pub copy_headers-sent :
      (headers : Headers) (self : HandlerCtx F)
      → copy_headers headers self ≡ record self { sent = self.sent ++ put_all headers }
  unfolding copy_headers send put_all
  copy_headers-sent [] self = ap (λ sent. record self { sent = sent }) (sym (append-nil self.sent))
  copy_headers-sent ((k, v) ∷ headers) self =
      copy_headers-sent headers (send (edit_headers (put k v)) self)
      ∙ ap (λ sent. record self { sent = sent })
          (append_assoc self.sent (edit_headers (put k v) ∷ []) (put_all headers))

  pub copy-error : (self : HandlerCtx F) → (copy self).handler_error ≡ self.handler_error
  unfolding copy send
  copy-error self =
      ap (λ (c : HandlerCtx F). c.handler_error) (copy_headers-sent self.writer.headers self)

  -- The error of the handler does not matter to the response.
  unfoldable pub with_error : Option (GoError F) → HandlerCtx F → HandlerCtx F
  with_error err self = record self { handler_error = err }

  call_response-with_error :
      (call : Call) (err : Option (GoError F)) (self : HandlerCtx F)
      → call_response call (with_error err self) ≡ with_error err (call_response call self)
  unfolding with_error call_response send perform put_status edit
  call_response-with_error (edit_headers change) err self = ground arith
  call_response-with_error (write_header code) err self = ground arith
  call_response-with_error (write body) err self = ground arith

  pub call_all-with_error :
      (calls : List Call) (err : Option (GoError F)) (self : HandlerCtx F)
      → call_all calls (with_error err self) ≡ with_error err (call_all calls self)
  unfolding call_all
  call_all-with_error [] err self = refl
  call_all-with_error (call ∷ calls) err self =
      ap (call_all calls) (call_response-with_error call err self)
      ∙ call_all-with_error calls err (call_response call self)
