-- ===== src/Tests/Session.antt =====
-- internal/client/main.go and internal/protocol/main.go: two requests in a row.
use mmar.Client.{reply_message}
use mmar.EndToEnd.Session.{Sent, IsServed, session-IsServed}
use mmar.Prelude.Io.{eof}
use mmar.Prelude.{refl, arith, codes, List, [], ◌∷◌}
use mmar.Server.RequestId.{put_uint32}
use mmar.Tests.Samples.{conn}
use mmar.Tests.Client.{client, certificate, read_request, url_parses, forward}

abbrev requests : List Sent
requests =
    record { req_id = 9; serialized = codes "GET /a"; uri = codes "/" }
    ∷ record { req_id = 11; serialized = codes "GET /b"; uri = codes "/" }
    ∷ []

session-IsServed_example :
    IsServed certificate read_request url_parses forward client requests conn eof
unfolding put_uint32 reply_message
session-IsServed_example =
    session-IsServed certificate read_request url_parses forward client requests conn eof refl
      (refl, refl, refl) (refl, refl, refl)
      (
        record { reads = refl; parses = refl; fits = omega arith; reply_fits = omega arith },
        (record { reads = refl; parses = refl; fits = omega arith; reply_fits = omega arith }, tt),
      )
