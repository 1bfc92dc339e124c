-- ===== src/Server/System/Contract.antt =====
-- What the calls of the system and of OpenSSL do to descriptors, SSL objects and contexts.
use raspi_cctv_tcp_server.Prelude.{
  ℕ, Option, none, some, Bool, true, false, List, [], ◌∷◌, Text, ◌≡◌, ◌==◌, if◌then◌else◌,
}
use raspi_cctv_tcp_server.Server.System.{
  System, VerifyFlag, verify_peer, fail_if_no_peer_cert, ContextOption,
}

-- A map with one entry changed.
abbrev pub update : {A : Type 0} → ℕ → A → (ℕ → A) → ℕ → A
update k a f j = if k == j then a else f j

-- What there is to know of the state between two calls.
pub record Resources : Type 0 where
  -- the descriptors that are open, the SSL objects that are allocated
  pub is_open : ℕ → Bool
  pub is_live : ℕ → Bool
  -- the port that a descriptor listens on
  pub port_of : ℕ → Option ℕ
  pub bound_to : ℕ → Option ℕ
  -- a context's way of verifying a client
  pub verifies : ℕ → List VerifyFlag
  -- the context of an SSL object; has its client shown a certificate that was verified?
  pub context_of : ℕ → ℕ
  pub is_verified : ℕ → Bool

abbrev pub demands_certificate : List VerifyFlag
demands_certificate = verify_peer ∷ fail_if_no_peer_cert ∷ []

module _ (Sys : System) where
  open Sys use {
    ctx_new, use_certificate_file, use_private_key_file, check_private_key, load_verify_locations,
    Os, ignore_sigpipe, socket, set_reuse_address, bind, listen, accept, close, ssl_new, ssl_set_fd,
    ssl_accept, ssl_shutdown, ssl_free, create_thread, detach_thread, init_library, set_verify,
    set_verify_depth, set_options,
  }

  -- Each call changes the resources that it is documented to change, and no other. A handshake that
  -- succeeds under a context that demands a certificate has verified the client's.
  pub record SystemContract : Type 0 where
    pub view : Os → Resources
    pub view-ignore_sigpipe : (s : Os) → view (ignore_sigpipe s) ≡ view s
    pub view-socket_none : (s s' : Os) → socket s ≡ (none, s') → view s' ≡ view s
    pub view-socket :
        (s s' : Os) (fd : ℕ)
        → socket s ≡ (some fd, s')
        → ((view s).is_open fd ≡ false)
          × (view s' ≡ record (view s) { is_open = update fd true (view s).is_open })
    pub view-set_reuse_address : (fd : ℕ) (s : Os) → view (set_reuse_address fd s) ≡ view s
    pub view-bind_failed :
        (fd port : ℕ) (s s' : Os) → bind fd port s ≡ (false, s') → view s' ≡ view s
    pub view-bind :
        (fd port : ℕ) (s s' : Os)
        → bind fd port s ≡ (true, s')
        → view s' ≡ record (view s) { bound_to = update fd (some port) (view s).bound_to }
    pub view-listen_failed : (fd n : ℕ) (s s' : Os) → listen fd n s ≡ (false, s') → view s' ≡ view s
    pub view-listen :
        (fd n : ℕ) (s s' : Os)
        → listen fd n s ≡ (true, s')
        → view s' ≡ record (view s) { port_of = update fd ((view s).bound_to fd) (view s).port_of }
    pub view-accept_none : (fd : ℕ) (s s' : Os) → accept fd s ≡ (none, s') → view s' ≡ view s
    pub view-accept :
        (fd c : ℕ) (s s' : Os)
        → accept fd s ≡ (some c, s')
        → ((view s).is_open c ≡ false)
          × (view s' ≡ record (view s) { is_open = update c true (view s).is_open })
    pub view-close :
        (fd : ℕ) (s : Os)
        → view (close fd s) ≡ record (view s) { is_open = update fd false (view s).is_open }
    pub view-ssl_new_none : (ctx : ℕ) (s s' : Os) → ssl_new ctx s ≡ (none, s') → view s' ≡ view s
    pub view-ssl_new :
        (ctx ssl : ℕ) (s s' : Os)
        → ssl_new ctx s ≡ (some ssl, s')
        → ((view s).is_live ssl ≡ false)
          × (view s' ≡ record (view s) {
            is_live = update ssl true (view s).is_live;
            context_of = update ssl ctx (view s).context_of;
            is_verified = update ssl false (view s).is_verified;
          })
    pub view-ssl_set_fd : (ssl fd : ℕ) (s : Os) → view (ssl_set_fd ssl fd s) ≡ view s
    pub view-ssl_accept_failed :
        (ssl : ℕ) (s s' : Os) → ssl_accept ssl s ≡ (false, s') → view s' ≡ view s
    pub view-ssl_accept :
        (ssl : ℕ) (s s' : Os)
        → ssl_accept ssl s ≡ (true, s')
        → (view s).verifies ((view s).context_of ssl) ≡ demands_certificate
        → view s' ≡ record (view s) { is_verified = update ssl true (view s).is_verified }
    pub view-ssl_shutdown : (ssl : ℕ) (s : Os) → view (ssl_shutdown ssl s) ≡ view s
    pub view-ssl_free :
        (ssl : ℕ) (s : Os)
        → view (ssl_free ssl s) ≡ record (view s) { is_live = update ssl false (view s).is_live }
    pub view-create_thread : (c ssl : ℕ) (s : Os) → view (create_thread c ssl s).1 ≡ view s
    pub view-detach_thread : (s : Os) → view (detach_thread s) ≡ view s
    pub view-init_library : (s : Os) → view (init_library s) ≡ view s
    pub view-set_verify :
        (ctx : ℕ) (flags : List VerifyFlag) (s : Os)
        → view (set_verify ctx flags s)
          ≡ record (view s) { verifies = update ctx flags (view s).verifies }
    pub view-set_verify_depth : (ctx n : ℕ) (s : Os) → view (set_verify_depth ctx n s) ≡ view s
    pub view-set_options :
        (ctx : ℕ) (options : List ContextOption) (s : Os)
        → view (set_options ctx options s) ≡ view s
    pub view-ctx_new : (s : Os) → view (ctx_new s).1 ≡ view s
    pub view-use_certificate_file :
        (ctx : ℕ) (path : Text) (s : Os) → view (use_certificate_file ctx path s).1 ≡ view s
    pub view-use_private_key_file :
        (ctx : ℕ) (path : Text) (s : Os) → view (use_private_key_file ctx path s).1 ≡ view s
    pub view-check_private_key : (ctx : ℕ) (s : Os) → view (check_private_key ctx s).1 ≡ view s
    pub view-load_verify_locations :
        (ctx : ℕ) (path : Text) (s : Os) → view (load_verify_locations ctx path s).1 ≡ view s
