-- ===== src/Server/Cancel.antt =====
-- internal/server/utils.go: giving a request up, and what its user is told.
use mmar.Constants
use mmar.Http.{ResponseWriter, set_header, write_header, write}
use mmar.Prelude.Decimal.{itoa}
use mmar.Prelude.{ℕ, Bytes, codes, length}
use mmar.Server.State.{
  Cause, context_canceled, read_body_chunk_err, read_body_chunk_timeout_err,
  client_disconnected_err, read_resp_body_err, max_req_body_size_err,
  failed_to_forward_to_mmar_client_err, failed_to_read_resp_from_mmar_client_err, Progress, waiting,
  answered, cancelled, MmarServer, update,
}

respond_with : Bytes → ResponseWriter → ℕ → ResponseWriter
respond_with resp_text w status_code = write resp_text (
    write_header status_code (
      set_header (codes "Connection") (codes "close")
        (set_header (codes "Content-Length") (itoa (length resp_text)) w)))

unfoldable pub handle_cancel : Cause → ResponseWriter → ResponseWriter
unfolding respond_with
handle_cancel context_canceled w = w
handle_cancel read_body_chunk_timeout_err w =
    respond_with Constants.read_body_chunk_timeout_err_text w 408
handle_cancel read_body_chunk_err w = respond_with Constants.read_body_chunk_err_text w 400
handle_cancel client_disconnected_err w = respond_with Constants.client_disconnect_err_text w 400
handle_cancel read_resp_body_err w = respond_with Constants.read_resp_body_err_text w 500
handle_cancel max_req_body_size_err w = respond_with Constants.max_req_body_size_err_text w 413
handle_cancel failed_to_forward_to_mmar_client_err w =
    respond_with Constants.failed_to_forward_to_mmar_client_err_text w 503
handle_cancel failed_to_read_resp_from_mmar_client_err w =
    respond_with Constants.failed_to_read_resp_from_mmar_client_err_text w 503

unfoldable pub cancel_progress : Cause → Progress → Progress
cancel_progress why waiting = cancelled why
cancel_progress why (answered r) = answered r
cancel_progress why (cancelled first) = cancelled first

-- `cancel(cause)` of a request's context. The first cause stays; a request whose handler has its
-- answer takes no notice.
unfoldable pub cancel : ℕ → Cause → MmarServer → MmarServer
unfolding cancel_progress
cancel k why s = record s {
  exchanges =
      update s.exchanges k
        (record (s.exchanges k) { progress = cancel_progress why (s.exchanges k).progress });
}
