-- ===== src/Server/Startup/Context.antt =====
-- The OpenSSL context that the server starts with.
use raspi_cctv_tcp_server.Prelude.{
  ℕ, Option, none, some, Bool, true, false, ◌≡◌, refl, sym, ap, ◌∙◌, arith,
}
use raspi_cctv_tcp_server.Exec.{Exec, ok, continue, continue_inv}
use raspi_cctv_tcp_server.Server.System.{System}
use raspi_cctv_tcp_server.Server.System.Contract.{
  Resources, update, demands_certificate, SystemContract,
}
use raspi_cctv_tcp_server.Server.Startup.{
  checked, check, not_null, new_context, load_files, set_policy, make_context, certificate_path,
  private_key_path, authority_path,
}

module _ (Sys : System) (laws : SystemContract Sys) where
  open laws use {view}

  -- A call that leaves the resources alone, if it succeeds.
  abbrev IsQuiet : Exec Sys.Os Unit → Type 0
  IsQuiet m = (s s' : Sys.Os) (u : Unit) → m s ≡ (ok u, s') → view s' ≡ view s

  check-IsQuiet :
      (call : Sys.Os → Bool × Sys.Os)
      → ((s : Sys.Os) → view (call s).1 ≡ view s)
      → IsQuiet (check Sys call)
  check-IsQuiet call same s s' u h = at_result (call s) (same s) h
    where
      at_result :
          (o : Bool × Sys.Os) → view o.1 ≡ view s → checked Sys o ≡ (ok u, s') → view s' ≡ view s
      at_result (true, s1) k h = ap view (ap (λ x. x.1) (sym h)) ∙ k
      at_result (false, s1) k h = cc

  both-IsQuiet :
      (m k : Exec Sys.Os Unit) → IsQuiet m → IsQuiet k → IsQuiet (λ s. continue (λ _. k) (m s))
  both-IsQuiet m k hm hk s s' u h =
      let (u1, s1, e1, h1) = continue_inv (λ _. k) (m s) u s' h in hk s1 s' u h1 ∙ hm s s1 u1 e1

  not_null_view :
      (o : Option ℕ × Sys.Os) (s s' : Sys.Os) (ctx : ℕ)
      → view o.1 ≡ view s
      → not_null Sys o ≡ (ok ctx, s')
      → view s' ≡ view s
  not_null_view (some c, s1) s s' ctx same h = ap view (ap (λ x. x.1) (sym h)) ∙ same
  not_null_view (none, s1) s s' ctx same h = cc

  load_files-IsQuiet : (ctx : ℕ) → IsQuiet (load_files Sys ctx)
  load_files-IsQuiet ctx =
      let certificate =
        check-IsQuiet (Sys.use_certificate_file ctx certificate_path)
          (laws.view-use_certificate_file ctx certificate_path) in
      let private_key =
        check-IsQuiet (Sys.use_private_key_file ctx private_key_path)
          (laws.view-use_private_key_file ctx private_key_path) in
      let matching = check-IsQuiet (Sys.check_private_key ctx) (laws.view-check_private_key ctx) in
      let authority =
        check-IsQuiet (Sys.load_verify_locations ctx authority_path)
          (laws.view-load_verify_locations ctx authority_path) in
      let last = both-IsQuiet (check Sys (Sys.check_private_key ctx)) _ matching authority in
      let rest =
        both-IsQuiet (check Sys (Sys.use_private_key_file ctx private_key_path)) _ private_key
          last in
      both-IsQuiet (check Sys (Sys.use_certificate_file ctx certificate_path)) _ certificate rest

  with_policy : ℕ → Resources → Resources
  with_policy ctx r = record r { verifies = update ctx demands_certificate r.verifies }

  set_policy_view :
      (ctx : ℕ) (s : Sys.Os) → view (set_policy Sys ctx s).1 ≡ with_policy ctx (view s)
  unfolding with_policy
  set_policy_view ctx s =
      rw
        (
          laws.view-set_options ctx _ _,
          laws.view-set_verify_depth ctx 4 _,
          laws.view-set_verify ctx _ s,
        )
        refl

  -- The context that is made demands a certificate, and nothing else has changed.
  pub make_context_lem :
      (s s' : Sys.Os) (ctx : ℕ)
      → make_context Sys s ≡ (ok ctx, s')
      → view s' ≡ record (view s) { verifies = update ctx demands_certificate (view s).verifies }
  unfolding make_context with_policy
  make_context_lem s s' ctx h =
      let s0 = Sys.init_library (Sys.ignore_sigpipe s) in
      let (c, s1, e1, h1) = continue_inv _ (new_context Sys s0) ctx s' h in
      let (u, s2, e2, h2) = continue_inv _ _ ctx s' h1 in
      let before : view s2 ≡ view s =
        load_files-IsQuiet c s1 s2 u e2
        ∙ not_null_view _ s0 s1 c (laws.view-ctx_new s0) e1
        ∙ laws.view-init_library (Sys.ignore_sigpipe s)
        ∙ laws.view-ignore_sigpipe s in
      let is_c : c ≡ ctx = ground arith in
      let is_s : (set_policy Sys c s2).1 ≡ s' = ap (λ x. x.1) h2 in
      ap view (sym is_s)
      ∙ set_policy_view c s2
      ∙ ap (with_policy c) before
      ∙ ap (λ (x : ℕ). with_policy x (view s)) is_c
