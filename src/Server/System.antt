-- ===== src/Server/System.antt =====
-- The calls of the operating system and of OpenSSL that set the server up and take its connections,
-- as parameters. A file descriptor, an SSL_CTX and an SSL are numbers; `none` is a negative
-- descriptor or a null pointer.
pub mod Contract
use raspi_cctv_tcp_server.Prelude.{ℕ, Option, Bool, Text, List}

-- SSL_VERIFY_PEER, SSL_VERIFY_FAIL_IF_NO_PEER_CERT
pub data VerifyFlag : Type 0 where
  verify_peer fail_if_no_peer_cert : VerifyFlag

-- SSL_OP_NO_SSLv2, SSL_OP_NO_SSLv3, SSL_OP_NO_COMPRESSION, SSL_OP_CIPHER_SERVER_PREFERENCE
pub data ContextOption : Type 0 where
  no_sslv2 no_sslv3 no_compression cipher_server_preference : ContextOption

pub record System : Type 1 where
  pub Os : Type 0
  -- signal(SIGPIPE, SIG_IGN)
  pub ignore_sigpipe : Os → Os
  -- socket(AF_INET, SOCK_STREAM, 0)
  pub socket : Os → Option ℕ × Os
  -- setsockopt(fd, SOL_SOCKET, SO_REUSEADDR, ...)
  pub set_reuse_address : ℕ → Os → Os
  -- bind to a port of any address, and listen with a backlog: did the call succeed?
  pub bind : ℕ → ℕ → Os → Bool × Os
  pub listen : ℕ → ℕ → Os → Bool × Os
  pub accept : ℕ → Os → Option ℕ × Os
  pub close : ℕ → Os → Os
  pub ssl_new : ℕ → Os → Option ℕ × Os
  pub ssl_set_fd : ℕ → ℕ → Os → Os
  -- SSL_accept(ssl) > 0
  pub ssl_accept : ℕ → Os → Bool × Os
  pub ssl_shutdown : ℕ → Os → Os
  pub ssl_free : ℕ → Os → Os
  -- pthread_create(...) == 0, for a client's descriptor and SSL
  pub create_thread : ℕ → ℕ → Os → Bool × Os
  pub detach_thread : Os → Os
  -- SSL_library_init, OpenSSL_add_all_algorithms, SSL_load_error_strings
  pub init_library : Os → Os
  -- SSL_CTX_new(TLS_server_method())
  pub ctx_new : Os → Option ℕ × Os
  pub use_certificate_file : ℕ → Text → Os → Bool × Os
  pub use_private_key_file : ℕ → Text → Os → Bool × Os
  pub check_private_key : ℕ → Os → Bool × Os
  pub load_verify_locations : ℕ → Text → Os → Bool × Os
  pub set_verify : ℕ → List VerifyFlag → Os → Os
  pub set_verify_depth : ℕ → ℕ → Os → Os
  pub set_options : ℕ → List ContextOption → Os → Os
