-- ===== src/Tests/Logger.antt =====
-- internal/logger/main.go: lines that are logged.
use mmar.Prelude.Text.{to_lower, join, split}
use mmar.Utils.{extract_subdomain}
use mmar.Prelude.Maps.{lookup, insert}
use mmar.Http.{fresh_writer, set_header}
use mmar.Logger.{
  WriterCall, call, sets, writes_header, writes, calls, LoggedRequest, log_http, logger_middleware,
  log_tunnel_created, escape_string, color_log_str,
}
use mmar.Logger.Colors.{IsPlain, strip, strip-log_http}
use mmar.Logger.Middleware.{Sent, logger_middleware-passes, logger_middleware_accurate}
use mmar.Prelude.Decimal.{pos, itoa}
use mmar.Prelude.{ℕ, ◌≡◌, refl, arith, true, false, codes, inl, List, [], ◌∷◌, ◌++◌, bytes_eq}

abbrev get : LoggedRequest
get = record {
  method = codes "GET";
  host = codes "Abc.mmar.dev";
  path = codes "/a<b";
  raw_query = codes "q=1";
  proto = codes "HTTP/1.1";
}

abbrev handler : LoggedRequest → List WriterCall
handler r =
    sets (codes "Content-Type") (codes "text/plain")
    ∷ writes_header 404
    ∷ writes (codes "no such page")
    ∷ []

log_http_test :
    log_http get 404 (pos 12) true false ≡ codes "[abc] \"GET /a&lt;b?q=1 HTTP/1.1\" 404 12"
unfolding log_http extract_subdomain to_lower join split escape_string itoa
log_http_test = refl

log_tunnel_created_test :
    (log_tunnel_created (codes "abc") (codes "localhost") (codes "443") (codes "8000")).1
    ≡ 27 ∷ codes "[32mTunnel created successfully!"
      ++ 27 ∷ codes "[0m\n\nA mmar tunnel is now open on:\n\n>>>  http://abc.localhost:3376 "
      ++ 27 ∷ codes "[32m->"
      ++ 27 ∷ codes "[0m http://localhost:8000\n\n"
unfolding log_tunnel_created color_log_str
log_tunnel_created_test = refl

logger_middleware-passes_test :
    (logger_middleware handler fresh_writer get).0 ≡ calls (handler get) fresh_writer
logger_middleware-passes_test = logger_middleware-passes handler fresh_writer get

logger_middleware_accurate_example :
    (n : ℕ) × Sent fresh_writer (logger_middleware handler fresh_writer get).0 404 n
    × ((logger_middleware handler fresh_writer get).1 ≡ log_http get 404 (pos n) true false)
unfolding lookup calls call set_header insert
logger_middleware_accurate_example =
    logger_middleware_accurate handler (sets (codes "Content-Type") (codes "text/plain") ∷ []) 404
      (codes "no such page") fresh_writer get tt refl refl
      (record {
        not_head = λ e. absurd (cc);
        final = omega arith;
        with_content = λ e. absurd (omega (arith, e));
        modified = λ e. absurd (omega (arith, e));
        full_length = inl refl;
      })

get-IsPlain : IsPlain get
get-IsPlain = record {
  method = ground arith;
  host = ground arith;
  path = ground arith;
  raw_query = ground arith;
  proto = ground arith;
}

strip-log_http_example :
    strip false (log_http get 404 (pos 12) true true) ≡ log_http get 404 (pos 12) true false
strip-log_http_example = strip-log_http get 404 (pos 12) true get-IsPlain
