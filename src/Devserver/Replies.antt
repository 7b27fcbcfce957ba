-- ===== src/Devserver/Replies.antt =====
-- simulations/devserver/main.go: an answer is one status and one body, which is what the middleware of
-- internal/logger/main.go logs in full.
use mmar.Devserver.{
  Json, DevRequest, Handled, answers, redirect_url, get_success_url, get_failure_url,
  post_success_url, post_failure_url, bad_response_url, long_running_url, crash_url, json_reply,
  post_headers, post_reply, handle_get, handle_get_fail, handle_post, handle_post_fail,
  handle_redirect, handle_bad_resp, handle_long_running_req, handle_crashing_req, serve,
  json_headers,
}
use mmar.Logger.Middleware.{Headers, reply_calls}
use mmar.Logger.{WriterCall, sets}
use mmar.Prelude.{
  ℕ, ◌≡◌, refl, Bytes, codes, List, [], ◌∷◌, Option, none, some, bytes_eq, ◌==◌, if◌then◌else◌,
  eq_of_beq, inl, inr, Bool-cases,
}

-- Calls that make a reply, with one of these statuses.
abbrev pub IsReply : List WriterCall → Type 0
IsReply cs =
    (hs : List WriterCall) × (status_code : ℕ) × (body : Bytes) × Headers hs
    × (cs ≡ reply_calls hs status_code body)

abbrev Replied : Option Handled → Type 0
Replied none = Unit
Replied (some (answers cs)) = IsReply cs
Replied (some h) = Unit

-- An answer, if there is one, is a reply.
pub record Replies (o : Option Handled) : Type 0 where
  pub replied : Replied o

abbrev redirect_headers : List WriterCall
redirect_headers =
    sets (codes "Location") get_success_url
    ∷ sets (codes "Content-Type") (codes "text/html; charset=utf-8")
    ∷ []

by_path :
    (path route : Bytes) {x y : Option Handled}
    → (path ≡ route → Replies x)
    → Replies y
    → Replies (if path == route then x else y)
by_path path route {x} {y} f g = elim (Bool-cases (path == route)) [
  | inl same ↦ rw same (f (eq_of_beq path route same))
  | inr other ↦ rw other g
]

json_reply-Replies :
    (header : Bytes) (status_code : ℕ) (o : Option Bytes)
    → Replies (some (json_reply (json_headers header) status_code o))
json_reply-Replies header status_code none = record { replied = tt }
json_reply-Replies header status_code (some body) = record {
  replied = (json_headers header, status_code, body, tt, refl);
}

module _ (marshal : Json → Option Bytes) where
  post_reply-Replies : (o : Option Bytes) → Replies (some (post_reply marshal o))
  unfolding post_reply post_headers
  post_reply-Replies none = record { replied = tt }
  post_reply-Replies (some body) = record { replied = (post_headers body, 200, body, tt, refl) }

  handle_post-Replies :
      (r : DevRequest) (o : Option Json) → Replies (some (handle_post marshal r o))
  unfolding handle_post
  handle_post-Replies r none = record { replied = tt }
  handle_post-Replies r (some req_body) = post_reply-Replies _

  handle_post_fail-Replies :
      (r : DevRequest) (o : Option Json) → Replies (some (handle_post_fail marshal r o))
  unfolding handle_post_fail
  handle_post_fail-Replies r none = record { replied = tt }
  handle_post_fail-Replies r (some req_body) = json_reply-Replies _ 400 _

  handle_redirect-Replies :
      (r : DevRequest) → r.method ≡ codes "GET" → Replies (some (handle_redirect marshal r))
  unfolding handle_redirect
  handle_redirect-Replies r get = record {
    replied = rw get (redirect_headers, 302, codes "<a href=\"/get\">Found</a>.\n\n", tt, refl);
  }

  handle_get-Replies : (r : DevRequest) → Replies (some (handle_get marshal r))
  unfolding handle_get
  handle_get-Replies r = json_reply-Replies (codes "devserver-handle-get") 200 _

  handle_get_fail-Replies : (r : DevRequest) → Replies (some (handle_get_fail marshal r))
  unfolding handle_get_fail
  handle_get_fail-Replies r = json_reply-Replies (codes "devserver-handle-get-fail") 400 _

  handle_long_running_req-Replies :
      (r : DevRequest) → Replies (some (handle_long_running_req marshal r))
  unfolding handle_long_running_req
  handle_long_running_req-Replies r =
      json_reply-Replies (codes "devserver-handle-long-running") 200 _

  handle_bad_resp-Replies : Replies (some (handle_bad_resp marshal))
  unfolding handle_bad_resp
  handle_bad_resp-Replies = record { replied = tt }

  handle_crashing_req-Replies : Replies (some (handle_crashing_req marshal))
  unfolding handle_crashing_req
  handle_crashing_req-Replies = record { replied = tt }

  -- Whatever is asked of the test server, by `GET` where it redirects: an answer sets headers, then
  -- writes one status, then one body.
  pub serve-Replies :
      (r : DevRequest)
      → (r.path ≡ redirect_url → r.method ≡ codes "GET")
      → Replies (serve marshal r)
  unfolding serve
  serve-Replies r get =
      by_path r.path get_success_url (λ e. handle_get-Replies r)
        (by_path r.path get_failure_url (λ e. handle_get_fail-Replies r)
          (by_path r.path post_success_url (λ e. handle_post-Replies r r.decoded_body)
            (by_path r.path post_failure_url (λ e. handle_post_fail-Replies r r.decoded_body)
              (by_path r.path redirect_url (λ e. handle_redirect-Replies r (get e))
                (by_path r.path bad_response_url (λ e. handle_bad_resp-Replies)
                  (by_path r.path long_running_url (λ e. handle_long_running_req-Replies r)
                    (by_path r.path crash_url (λ e. handle_crashing_req-Replies)
                      (record { replied = tt }))))))))
