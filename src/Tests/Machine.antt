-- ===== src/Tests/Machine.antt =====
-- A machine with descriptors and SSL objects that are counted up, and clients that wait: a
-- `System` that fulfils its contract. Each client is known by whether its certificate is good.
use raspi_cctv_tcp_server.Prelude.{
  ℕ, suc, Option, none, some, Bool, true, false, List, [], ◌∷◌, ◌≡◌, refl, sym, ap, ◌∙◌,
}
use raspi_cctv_tcp_server.Server.System.{System}
use raspi_cctv_tcp_server.Server.System.Contract.{Resources, update, SystemContract}

pub record Machine : Type 0 where
  pub resources : Resources
  pub next : ℕ
  pub waiting : List Bool
  -- do the files of the context load?
  pub has_files : Bool

abbrev change : (Resources → Resources) → Machine → Machine
change f m = record m { resources = f m.resources }

abbrev opens : ℕ → Resources → Resources
opens fd r = record r { is_open = update fd true r.is_open }

-- A number, and the machine without it, unless it is in use.
abbrev allocate : Bool → ℕ → Machine → Machine → Option ℕ × Machine
allocate true k m after = (none, m)
allocate false k m after = (some k, after)

abbrev allocate_fd : Machine → Option ℕ × Machine
allocate_fd m =
    allocate (m.resources.is_open m.next) m.next m
      (record m { resources = opens m.next m.resources; next = suc m.next })

abbrev makes : ℕ → ℕ → Resources → Resources
makes ctx ssl r = record r {
  is_live = update ssl true r.is_live;
  context_of = update ssl ctx r.context_of;
  is_verified = update ssl false r.is_verified;
}

abbrev allocate_ssl : ℕ → Machine → Option ℕ × Machine
allocate_ssl ctx m =
    allocate (m.resources.is_live m.next) m.next m
      (record m { resources = makes ctx m.next m.resources; next = suc m.next })

abbrev accept_waiting : List Bool → Machine → Option ℕ × Machine
accept_waiting [] m = (none, m)
accept_waiting (_ ∷ _) m = allocate_fd m

abbrev verifies_client : ℕ → Resources → Resources
verifies_client ssl r = record r { is_verified = update ssl true r.is_verified }

abbrev handshake : ℕ → List Bool → Machine → Bool × Machine
handshake ssl [] m = (false, m)
handshake ssl (false ∷ rest) m = (false, record m { waiting = rest })
handshake ssl (true ∷ rest) m =
    (true, record m { resources = verifies_client ssl m.resources; waiting = rest })

abbrev pub machine : System
machine = record {
  Os = Machine;
  ignore_sigpipe = λ m. m;
  socket = allocate_fd;
  set_reuse_address = λ _ m. m;
  bind =
      λ fd port m. (true, change (λ r. record r { bound_to = update fd (some port) r.bound_to }) m);
  listen =
      λ fd _ m. (true, change (λ r. record r { port_of = update fd (r.bound_to fd) r.port_of }) m);
  accept = λ _ m. accept_waiting m.waiting m;
  close = λ fd. change (λ r. record r { is_open = update fd false r.is_open });
  ssl_new = allocate_ssl;
  ssl_set_fd = λ _ _ m. m;
  ssl_accept = λ ssl m. handshake ssl m.waiting m;
  ssl_shutdown = λ _ m. m;
  ssl_free = λ ssl. change (λ r. record r { is_live = update ssl false r.is_live });
  create_thread = λ _ _ m. (true, m);
  detach_thread = λ m. m;
  init_library = λ m. m;
  ctx_new = λ m. (some 0, m);
  use_certificate_file = λ _ _ m. (m.has_files, m);
  use_private_key_file = λ _ _ m. (m.has_files, m);
  check_private_key = λ _ m. (true, m);
  load_verify_locations = λ _ _ m. (true, m);
  set_verify = λ ctx flags. change (λ r. record r { verifies = update ctx flags r.verifies });
  set_verify_depth = λ _ _ m. m;
  set_options = λ _ _ m. m;
}

allocate_lem :
    (b : Bool) (k fd : ℕ) (m after m' : Machine)
    → allocate b k m after ≡ (some fd, m')
    → (b ≡ false) × (k ≡ fd) × (after ≡ m')
allocate_lem true k fd m after m' h = cc
allocate_lem false k fd m after m' h = (refl, cc, ap (λ x. x.1) h)

pub allocate-none :
    (b : Bool) (k : ℕ) (m after m' : Machine) → allocate b k m after ≡ (none, m') → m ≡ m'
allocate-none true k m after m' h = ap (λ x. x.1) h
allocate-none false k m after m' h = cc

pub allocate_fd_lem :
    (m m' : Machine) (fd : ℕ)
    → allocate_fd m ≡ (some fd, m')
    → (m.resources.is_open fd ≡ false) × (m'.resources ≡ opens fd m.resources)
allocate_fd_lem m m' fd h =
    let (shut, same, made) = allocate_lem _ m.next fd m _ m' h in
    (
      ap m.resources.is_open (sym same) ∙ shut,
      ap (λ (x : Machine). x.resources) (sym made) ∙ ap (λ (x : ℕ). opens x m.resources) same,
    )

pub allocate_ssl_lem :
    (ctx ssl : ℕ) (m m' : Machine)
    → allocate_ssl ctx m ≡ (some ssl, m')
    → (m.resources.is_live ssl ≡ false) × (m'.resources ≡ makes ctx ssl m.resources)
allocate_ssl_lem ctx ssl m m' h =
    let (dead, same, made) = allocate_lem _ m.next ssl m _ m' h in
    (
      ap m.resources.is_live (sym same) ∙ dead,
      ap (λ (x : Machine). x.resources) (sym made) ∙ ap (λ (x : ℕ). makes ctx x m.resources) same,
    )

pub accept_lem :
    (queue : List Bool) (m m' : Machine) (fd : ℕ)
    → accept_waiting queue m ≡ (some fd, m')
    → (m.resources.is_open fd ≡ false) × (m'.resources ≡ opens fd m.resources)
accept_lem [] m m' fd h = cc
accept_lem (_ ∷ _) m m' fd h = allocate_fd_lem m m' fd h

pub accept-none :
    (queue : List Bool) (m m' : Machine)
    → accept_waiting queue m ≡ (none, m')
    → m'.resources ≡ m.resources
accept-none [] m m' h = ap (λ x. x.1.resources) (sym h)
accept-none (_ ∷ _) m m' h =
    ap (λ (x : Machine). x.resources) (sym (allocate-none _ m.next m _ m' h))

pub handshake_lem :
    (ssl : ℕ) (queue : List Bool) (m m' : Machine)
    → handshake ssl queue m ≡ (true, m')
    → m'.resources ≡ verifies_client ssl m.resources
handshake_lem ssl [] m m' h = cc
handshake_lem ssl (false ∷ rest) m m' h = cc
handshake_lem ssl (true ∷ rest) m m' h = ap (λ x. x.1.resources) (sym h)

pub handshake_failed :
    (ssl : ℕ) (queue : List Bool) (m m' : Machine)
    → handshake ssl queue m ≡ (false, m')
    → m'.resources ≡ m.resources
handshake_failed ssl [] m m' h = ap (λ x. x.1.resources) (sym h)
handshake_failed ssl (false ∷ rest) m m' h = ap (λ x. x.1.resources) (sym h)
handshake_failed ssl (true ∷ rest) m m' h = cc

unfoldable pub machine_laws : SystemContract machine
machine_laws = record {
  view = λ (m : Machine). m.resources;
  view-ignore_sigpipe = λ s. refl;
  view-socket_none =
      λ s s' h. ap (λ (x : Machine). x.resources) (sym (allocate-none _ s.next s _ s' h));
  view-socket = λ s s' fd h. allocate_fd_lem s s' fd h;
  view-set_reuse_address = λ fd s. refl;
  view-bind_failed = λ fd port s s' h. cc;
  view-bind = λ fd port s s' h. ap (λ x. x.1.resources) (sym h);
  view-listen_failed = λ fd n s s' h. cc;
  view-listen = λ fd n s s' h. ap (λ x. x.1.resources) (sym h);
  view-accept_none = λ fd s s' h. accept-none s.waiting s s' h;
  view-accept = λ fd c s s' h. accept_lem s.waiting s s' c h;
  view-close = λ fd s. refl;
  view-ssl_new_none =
      λ ctx s s' h. ap (λ (x : Machine). x.resources) (sym (allocate-none _ s.next s _ s' h));
  view-ssl_new = λ ctx ssl s s' h. allocate_ssl_lem ctx ssl s s' h;
  view-ssl_set_fd = λ ssl fd s. refl;
  view-ssl_accept_failed = λ ssl s s' h. handshake_failed ssl s.waiting s s' h;
  view-ssl_accept = λ ssl s s' h d. handshake_lem ssl s.waiting s s' h;
  view-ssl_shutdown = λ ssl s. refl;
  view-ssl_free = λ ssl s. refl;
  view-create_thread = λ c ssl s. refl;
  view-detach_thread = λ s. refl;
  view-init_library = λ s. refl;
  view-set_verify = λ ctx flags s. refl;
  view-set_verify_depth = λ ctx n s. refl;
  view-set_options = λ ctx options s. refl;
  view-ctx_new = λ s. refl;
  view-use_certificate_file = λ ctx path s. refl;
  view-use_private_key_file = λ ctx path s. refl;
  view-check_private_key = λ ctx s. refl;
  view-load_verify_locations = λ ctx path s. refl;
}
