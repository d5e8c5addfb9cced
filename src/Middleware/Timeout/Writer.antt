-- ===== src/Middleware/Timeout/Writer.antt =====
-- `_timeoutResponseWriter` of middleware/timeout.go.
use kit_legacy.Base.{
  ℤ, pos, String, Bool, true, false, not, ◌||◌, same_text, List, [], ◌∷◌, if◌then◌else◌,
}

-- http.Header: the values under each key.
abbrev pub Headers : Type 0
Headers = List (String × List String)

-- A call of the interface http.ResponseWriter: an edit of the map that `Header()` gives,
-- `WriteHeader` or `Write`.
pub data Call : Type 0 where
  edit_headers : (Headers → Headers) → Call
  write_header : ℤ → Call
  write : String → Call

-- `dst[k] = v`
unfoldable pub put : String → List String → Headers → Headers
put key values [] = (key, values) ∷ []
put key values ((k, v) ∷ headers) =
    let rest = put key values headers in
    if same_text key k then (key, values) ∷ headers else (k, v) ∷ rest

-- `body` tells whether the field still points to the buffer; its content is kept beside the writer.
pub record TimeoutWriter : Type 0 where
  pub body : Bool
  pub headers : Headers
  pub has_timed_out : Bool
  pub wrote_headers : Bool
  pub status_code : ℤ

unfoldable pub new_timeout_response_writer : TimeoutWriter
new_timeout_response_writer = record {
  body = true;
  headers = [];
  has_timed_out = false;
  wrote_headers = false;
  status_code = pos 0;
}

-- The tests at the head of `Write` and `WriteHeader`, before the lock is taken.
unfoldable pub ignores : TimeoutWriter → Call → Bool
ignores self (edit_headers edit) = false
ignores self (write_header status_code) = self.has_timed_out || self.wrote_headers
ignores self (write body) = self.has_timed_out || not self.body

-- `WriteHeader` behind its lock.
unfoldable pub put_status : TimeoutWriter → ℤ → TimeoutWriter
put_status self status_code = record self { status_code = status_code; wrote_headers = true }

unfoldable pub edit : TimeoutWriter → (Headers → Headers) → TimeoutWriter
edit self change = record self { headers = change self.headers }

unfoldable pub free_buffer : TimeoutWriter → TimeoutWriter
free_buffer self = record self { body = false }
