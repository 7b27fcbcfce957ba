-- ===== src/Logger/Middleware.antt =====
-- internal/logger/main.go: what `LoggerMiddleware` passes on, and when its line is right.
use mmar.Constants
use mmar.Http.{ResponseWriter, set_header, add_header, write_header, write}
use mmar.Logger.{
  WrappedResponseWriter, write_header_wrapped, write_wrapped, WriterCall, sets, adds, writes_header,
  writes, call, call_wrapped, calls, calls_wrapped, LoggedRequest, log_http, wrapped,
  logger_middleware,
}
use mmar.Prelude.Decimal.{pos, itoa}
use mmar.Prelude.Maps.{Map, lookup}
use mmar.Prelude.{
  ℕ, ◌+◌, ◌≡◌, ◌≢◌, ◌≤◌, ◌⊎◌, bytes_eq, refl, ap, ◌∙◌, true, false, Bytes, codes, List, [], ◌∷◌,
  ◌++◌, none, some, length, length-append,
}
use mmar.Server.Cancel.{handle_cancel}
use mmar.Server.State.{
  Cause, context_canceled, read_body_chunk_err, read_body_chunk_timeout_err,
  client_disconnected_err, read_resp_body_err, max_req_body_size_err,
  failed_to_forward_to_mmar_client_err, failed_to_read_resp_from_mmar_client_err,
}

call-inner :
    (c : WriterCall) (wrw : WrappedResponseWriter) → (call_wrapped c wrw).inner ≡ call c wrw.inner
unfolding call call_wrapped write_header_wrapped write_wrapped
call-inner (sets k v) wrw = refl
call-inner (adds k v) wrw = refl
call-inner (writes_header status_code) wrw = refl
call-inner (writes bytes) wrw = refl

calls-inner :
    (cs : List WriterCall) (wrw : WrappedResponseWriter)
    → (calls_wrapped cs wrw).inner ≡ calls cs wrw.inner
unfolding calls calls_wrapped
calls-inner [] wrw = refl
calls-inner (c ∷ cs) wrw = calls-inner cs (call_wrapped c wrw) ∙ ap (calls cs) (call-inner c wrw)

-- Whatever calls a handler makes, its writer ends with the headers, the status and the body that it
-- has without the middleware.
pub logger_middleware-passes :
    (h : LoggedRequest → List WriterCall) (w : ResponseWriter) (r : LoggedRequest)
    → (logger_middleware h w r).0 ≡ calls (h r) w
unfolding logger_middleware
logger_middleware-passes h w r = calls-inner (h r) (wrapped w)

-- Calls that only change headers.
abbrev pub Headers : List WriterCall → Type 0
Headers [] = Unit
Headers (sets k v ∷ cs) = Headers cs
Headers (adds k v ∷ cs) = Headers cs
Headers (writes_header status_code ∷ cs) = ⊥
Headers (writes bytes ∷ cs) = ⊥

-- A reply: its headers, its status once, its body in one piece.
abbrev pub reply_calls : List WriterCall → ℕ → Bytes → List WriterCall
reply_calls hs status_code body = hs ++ writes_header status_code ∷ writes body ∷ []

-- The status that a writer has sent, and how long its body has become.
abbrev pub Sent : ResponseWriter → ResponseWriter → ℕ → ℕ → Type 0
Sent before after status_code n =
    (after.status ≡ some status_code) × (length after.body ≡ length before.body + n)

-- What is captured of a writer that had sent nothing is what was sent.
abbrev Captured : ResponseWriter → WrappedResponseWriter → ℕ → Bytes → Type 0
Captured w wrw status_code body =
    (wrw.status_code ≡ status_code)
    × (wrw.content_length ≡ length body)
    × Sent w wrw.inner status_code (length body)

reply-Captured :
    (hs : List WriterCall) (status_code : ℕ) (body : Bytes) (wrw : WrappedResponseWriter)
    → Headers hs
    → wrw.inner.status ≡ none
    → Captured wrw.inner (calls_wrapped (reply_calls hs status_code body) wrw) status_code body
unfolding calls_wrapped call_wrapped write_header_wrapped write_wrapped write_header write
    set_header add_header
reply-Captured [] status_code body wrw h fresh =
    (refl, refl, (rw fresh refl, length-append wrw.inner.body body))
reply-Captured (sets k v ∷ hs) status_code body wrw h fresh =
    reply-Captured hs status_code body (record wrw { inner = set_header k v wrw.inner }) h fresh
reply-Captured (adds k v ∷ hs) status_code body wrw h fresh =
    reply-Captured hs status_code body (record wrw { inner = add_header k v wrw.inner }) h fresh
reply-Captured (writes_header code ∷ hs) status_code body wrw h fresh = absurd h
reply-Captured (writes bytes ∷ hs) status_code body wrw h fresh = absurd h

-- The conditions under which `net/http` sends a body as it was written: the request is not HEAD, the
-- status is final and allows a body, and Content-Length is not set or is the body's length.
pub record SendsBody (r : LoggedRequest) (status_code : ℕ) (body : Bytes)
    (headers : Map Bytes (List Bytes)) : Type 0 where
  pub not_head : r.method ≢ codes "HEAD"
  pub final : 200 ≤ status_code
  pub with_content : status_code ≢ 204
  pub modified : status_code ≢ 304
  pub full_length :
      (lookup (codes "Content-Length") headers ≡ none)
      ⊎ (lookup (codes "Content-Length") headers ≡ some (itoa (length body) ∷ []))

-- When a handler sets headers, then writes one status and one body, on a writer to which no status
-- was written, and `net/http` sends that body as it is: the line that is logged has the status and the
-- length that the user gets.
pub logger_middleware_accurate :
    (h : LoggedRequest → List WriterCall) (hs : List WriterCall) (status_code : ℕ) (body : Bytes)
    (w : ResponseWriter) (r : LoggedRequest)
    → Headers hs
    → h r ≡ reply_calls hs status_code body
    → w.status ≡ none
    → SendsBody r status_code body (calls hs w).headers
    → (n : ℕ) × Sent w (logger_middleware h w r).0 status_code n
      × ((logger_middleware h w r).1 ≡ log_http r status_code (pos n) true false)
unfolding logger_middleware
logger_middleware_accurate h hs status_code body w r headers e fresh sends = rw e (
    let (status, size, sent) = reply-Captured hs status_code body (wrapped w) headers fresh in
    (length body, sent, rw (status, size) refl))

abbrev closing : Bytes → List WriterCall
closing text =
    sets (codes "Content-Length") (itoa (length text))
    ∷ sets (codes "Connection") (codes "close")
    ∷ []

-- What a request that was given up is answered, as calls on its writer.
pub handle_cancel-calls :
    (why : Cause)
    → why ≢ context_canceled
    → (hs : List WriterCall) × (status_code : ℕ) × (body : Bytes) × Headers hs
      × ((w : ResponseWriter) → handle_cancel why w ≡ calls (reply_calls hs status_code body) w)
unfolding handle_cancel calls call
handle_cancel-calls context_canceled ne = absurd (ne refl)
handle_cancel-calls read_body_chunk_err ne = (
  closing Constants.read_body_chunk_err_text,
  400,
  Constants.read_body_chunk_err_text,
  tt,
  λ w. refl,
)
handle_cancel-calls read_body_chunk_timeout_err ne = (
  closing Constants.read_body_chunk_timeout_err_text,
  408,
  Constants.read_body_chunk_timeout_err_text,
  tt,
  λ w. refl,
)
handle_cancel-calls client_disconnected_err ne = (
  closing Constants.client_disconnect_err_text,
  400,
  Constants.client_disconnect_err_text,
  tt,
  λ w. refl,
)
handle_cancel-calls read_resp_body_err ne = (
  closing Constants.read_resp_body_err_text,
  500,
  Constants.read_resp_body_err_text,
  tt,
  λ w. refl,
)
handle_cancel-calls max_req_body_size_err ne = (
  closing Constants.max_req_body_size_err_text,
  413,
  Constants.max_req_body_size_err_text,
  tt,
  λ w. refl,
)
handle_cancel-calls failed_to_forward_to_mmar_client_err ne = (
  closing Constants.failed_to_forward_to_mmar_client_err_text,
  503,
  Constants.failed_to_forward_to_mmar_client_err_text,
  tt,
  λ w. refl,
)
handle_cancel-calls failed_to_read_resp_from_mmar_client_err ne = (
  closing Constants.failed_to_read_resp_from_mmar_client_err_text,
  503,
  Constants.failed_to_read_resp_from_mmar_client_err_text,
  tt,
  λ w. refl,
)
