-- ===== src/Http/Err.antt =====
-- http/src/err.cpp: the error builders, each an object of its own.
use beemo.Common.{ℕ}
use beemo.Text.{Bytes, codes}

pub data ErrBuilder : Type 0 where
  bad_req_handler not_found_handler method_not_allowed_handler timeout_handler : ErrBuilder
  len_required_handler uri_too_long_handler unsupported_media_type_handler : ErrBuilder
  misdirected_req_handler internal_server_handler not_impl_handler : ErrBuilder

unfoldable pub err_status_code : ErrBuilder → ℕ
err_status_code bad_req_handler = 400
err_status_code not_found_handler = 404
err_status_code method_not_allowed_handler = 405
err_status_code timeout_handler = 408
err_status_code len_required_handler = 411
err_status_code uri_too_long_handler = 414
err_status_code unsupported_media_type_handler = 415
err_status_code misdirected_req_handler = 421
err_status_code internal_server_handler = 500
err_status_code not_impl_handler = 501

unfoldable pub err_reason : ErrBuilder → Bytes
err_reason bad_req_handler = codes "Bad Request"
err_reason not_found_handler = codes "Not Found"
err_reason method_not_allowed_handler = codes "Method Not Allowed"
err_reason timeout_handler = codes "Request Timeout"
err_reason len_required_handler = codes "Length Required"
err_reason uri_too_long_handler = codes "URI Too Long"
err_reason unsupported_media_type_handler = codes "Unsupported Media Type"
err_reason misdirected_req_handler = codes "Misdirected Request"
err_reason internal_server_handler = codes "Internal Server Error"
err_reason not_impl_handler = codes "Not Implemented"
