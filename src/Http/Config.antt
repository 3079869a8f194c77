-- ===== src/Http/Config.antt =====
-- http/include/http/config.h
use beemo.Common.{ℕ}
use beemo.Text.{Bytes, codes}

pub record Config : Type 0 where
  pub listening_reg_name : Bytes
  pub max_req_line_len : ℕ
  pub default_uri_scheme : Bytes
  pub default_req_content_type : Bytes
  pub logger_name : Bytes
  pub processing_timeout_sec : ℕ
  pub idle_connection_timeout_ms : ℕ
  pub max_linger_sec : ℕ
  pub max_events_per_thread : ℕ
  pub max_concurrent_connections : ℕ
  pub max_connection_backlog : ℕ
  pub max_peer_req_per_min : ℕ
  pub num_req_handler_threads : ℕ
  pub rx_buf_len : ℕ
  pub listening_port : ℕ
  pub listening_ip : Bytes

-- The member initialisers.
abbrev pub default_config : Config
default_config = record {
  listening_reg_name = codes "localhost";
  max_req_line_len = 1000;
  default_uri_scheme = codes "http";
  default_req_content_type = codes "application/json";
  logger_name = codes "beemo";
  processing_timeout_sec = 2;
  idle_connection_timeout_ms = 5000;
  max_linger_sec = 2;
  max_events_per_thread = 1024;
  max_concurrent_connections = 10000;
  max_connection_backlog = 7000;
  max_peer_req_per_min = 50;
  num_req_handler_threads = 7;
  rx_buf_len = 64;
  listening_port = 9000;
  listening_ip = codes "127.0.0.1";
}

abbrev pub supported_http_major_version : ℕ
supported_http_major_version = 1

abbrev pub supported_http_minor_version : ℕ
supported_http_minor_version = 1
