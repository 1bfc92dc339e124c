-- ===== src/Server/Listener/Rounds.antt =====
-- No round of the listener's loop, and no end of a thread, loses or shares a resource.
use raspi_cctv_tcp_server.Prelude.{
  ℕ, Option, none, some, Bool, true, false, List, ◌∷◌, ◌++◌, ◌≡◌, refl, sym, ap, ◌∙◌, ◌==◌, subst,
  Bool-cases, inl, inr, ==_iff, ==_refl,
}
use raspi_cctv_tcp_server.Exec.{ok, ok_injective}
use raspi_cctv_tcp_server.Server.System.{System}
use raspi_cctv_tcp_server.Server.System.Contract.{
  Resources, update, demands_certificate, SystemContract,
}
use raspi_cctv_tcp_server.Server.Listener.{
  ClientHandlerArgs, Listener, hang_up, on_thread, on_handshake, on_ssl, on_client, accept_round,
  end_thread, Step, takes, leaves, Reaches, here, later,
}
use raspi_cctv_tcp_server.Server.Listener.Ownership.{OwnedBy, given, given_back, returned}

update_undone :
    (k : ℕ) (f : ℕ → Bool) → f k ≡ false → (j : ℕ) → update k false (update k true f) j ≡ f j
update_undone k f h j = elim (Bool-cases (k == j)) [
  | inl same ↦ let e : k ≡ j = (==_iff k j).0 same in rw (same, sym e) (sym h)
  | inr other ↦ rw other refl
]

module _ (Sys : System) (laws : SystemContract Sys) where
  open laws use {view}

  abbrev pub Owned : Listener Sys → Type 0
  Owned l = OwnedBy l.fd l.ctx l.threads (view l.os)

  -- Freeing an SSL object and closing a descriptor.
  abbrev released : ℕ → ℕ → Resources → Resources
  released c ssl r = record r {
    is_open = update c false r.is_open;
    is_live = update ssl false r.is_live;
  }

  view-hang_up :
      (a : ClientHandlerArgs) (s : Sys.Os)
      → view (hang_up Sys a s) ≡ released a.client_fd a.ssl (view s)
  view-hang_up a s =
      rw
        (
          laws.view-close a.client_fd (Sys.ssl_free a.ssl (Sys.ssl_shutdown a.ssl s)),
          laws.view-ssl_free a.ssl (Sys.ssl_shutdown a.ssl s),
          laws.view-ssl_shutdown a.ssl s,
        )
        refl

  view-drop :
      (c ssl : ℕ) (s : Sys.Os) → view (Sys.close c (Sys.ssl_free ssl s)) ≡ released c ssl (view s)
  view-drop c ssl s = rw (laws.view-close c (Sys.ssl_free ssl s), laws.view-ssl_free ssl s) refl

  -- After accept and SSL_new: both are in use, and the handshake is to come.
  abbrev taken : ℕ → ℕ → ℕ → Resources → Resources
  taken ctx c ssl r = record r {
    is_open = update c true r.is_open;
    is_live = update ssl true r.is_live;
    context_of = update ssl ctx r.context_of;
    is_verified = update ssl false r.is_verified;
  }

  -- And after a handshake that succeeded.
  abbrev handed : ℕ → ℕ → ℕ → Resources → Resources
  handed ctx c ssl r = record r {
    is_open = update c true r.is_open;
    is_live = update ssl true r.is_live;
    context_of = update ssl ctx r.context_of;
    is_verified = update ssl true (update ssl false r.is_verified);
  }

  module _ (l : Listener Sys) (owned : Owned l) (c ssl : ℕ) (shut : (view l.os).is_open c ≡ false)
      (dead : (view l.os).is_live ssl ≡ false) where
    abbrev args : ClientHandlerArgs
    args = record { client_fd = c; ssl = ssl }

    undone : OwnedBy l.fd l.ctx l.threads (released c ssl (handed l.ctx c ssl (view l.os)))
    undone =
        given_back l.fd l.ctx ssl l.threads (view l.os) _ dead (update_undone c _ shut)
          (update_undone ssl _ dead) (λ j ne. rw ne refl) refl owned

    refused : OwnedBy l.fd l.ctx l.threads (released c ssl (taken l.ctx c ssl (view l.os)))
    refused =
        given_back l.fd l.ctx ssl l.threads (view l.os) _ dead (update_undone c _ shut)
          (update_undone ssl _ dead) (λ j ne. rw ne refl) refl owned

    served : OwnedBy l.fd l.ctx (args ∷ l.threads) (handed l.ctx c ssl (view l.os))
    served =
        given l.fd l.ctx c ssl l.threads (view l.os) _ shut dead (λ f. refl) (λ j. refl)
          (λ j ne. rw ne refl) (rw (==_refl ssl) refl) refl owned

    thread-Owned :
        (s : Sys.Os) (o : Bool × Sys.Os)
        → Sys.create_thread c ssl s ≡ o
        → view s ≡ handed l.ctx c ssl (view l.os)
        → Owned (on_thread Sys l args o)
    thread-Owned s (false, s') e v =
        let same : view s' ≡ handed l.ctx c ssl (view l.os) =
          (rw e at (laws.view-create_thread c ssl s)) ∙ v in
        rw (view-hang_up args s', same) undone
    thread-Owned s (true, s') e v =
        let same : view s' ≡ handed l.ctx c ssl (view l.os) =
          (rw e at (laws.view-create_thread c ssl s)) ∙ v in
        rw (laws.view-detach_thread s', same) served

    handshake-Owned :
        (s : Sys.Os) (o : Bool × Sys.Os)
        → Sys.ssl_accept ssl s ≡ o
        → view s ≡ taken l.ctx c ssl (view l.os)
        → Owned (on_handshake Sys l args o)
    handshake-Owned s (false, s') e v =
        rw (view-drop c ssl s', laws.view-ssl_accept_failed ssl s s' e, v) refused
    handshake-Owned s (true, s') e v =
        let demands : (view s).verifies ((view s).context_of ssl) ≡ demands_certificate =
          rw (v, ==_refl ssl) owned.demands in
        let seen : view s' ≡ handed l.ctx c ssl (view l.os) =
          laws.view-ssl_accept ssl s s' e demands
          ∙ ap (λ (r : Resources). record r { is_verified = update ssl true r.is_verified }) v in
        thread-Owned s' (Sys.create_thread c ssl s') refl seen

  ssl-Owned :
      (l l' : Listener Sys) (owned : Owned l) (c : ℕ) (s : Sys.Os) (o : Option ℕ × Sys.Os)
      → Sys.accept l.fd l.os ≡ (some c, s)
      → Sys.ssl_new l.ctx s ≡ o
      → on_ssl Sys l c o ≡ ok l'
      → Owned l'
  ssl-Owned l l' owned c s (none, s') a e h = cc
  ssl-Owned l l' owned c s (some ssl, s') a e h =
      let (shut, opened) = laws.view-accept l.fd c l.os s a in
      let (dead, made) = laws.view-ssl_new l.ctx ssl s s' e in
      let dead' : (view l.os).is_live ssl ≡ false = rw opened at dead in
      let seen : view (Sys.ssl_set_fd ssl c s') ≡ taken l.ctx c ssl (view l.os) =
        laws.view-ssl_set_fd ssl c s'
        ∙ made
        ∙ ap
            (λ (r : Resources). record r {
              is_live = update ssl true r.is_live;
              context_of = update ssl l.ctx r.context_of;
              is_verified = update ssl false r.is_verified;
            })
            opened in
      subst Owned (ok_injective h)
        (handshake-Owned l owned c ssl shut dead' (Sys.ssl_set_fd ssl c s') _ refl seen)

  round-Owned :
      (l l' : Listener Sys) (o : Option ℕ × Sys.Os)
      → Sys.accept l.fd l.os ≡ o
      → on_client Sys l o ≡ ok l'
      → Owned l
      → Owned l'
  round-Owned l l' (none, s) a h owned =
      subst Owned (ok_injective h) (rw (laws.view-accept_none l.fd l.os s a) owned)
  round-Owned l l' (some c, s) a h owned = ssl-Owned l l' owned c s _ a refl h

  end_thread-Owned :
      (before : List ClientHandlerArgs) (a : ClientHandlerArgs) (behind : List ClientHandlerArgs)
      (l : Listener Sys)
      → l.threads ≡ before ++ a ∷ behind
      → Owned l
      → Owned (end_thread Sys before a behind l)
  unfolding end_thread
  end_thread-Owned before a behind l e owned = rw (view-hang_up a l.os) (
      returned l.fd l.ctx before a behind (view l.os) _ (λ f. refl) (λ j. refl) refl refl
        (rw e at owned))

  Step-Owned : {l l' : Listener Sys} → Step Sys l l' → Owned l → Owned l'
  unfolding accept_round
  Step-Owned {l} (takes l' h) owned = round-Owned l l' _ refl h owned
  Step-Owned {l} (leaves before a behind e) owned = end_thread-Owned before a behind l e owned

  -- When the calls of the system and of OpenSSL meet their contract: from a listener that owns its
  -- descriptor alone or with some threads, whatever connections come,
  -- whatever calls fail and in whatever order threads end: the open descriptors are the listening
  -- one and one for each running thread, the live SSL objects are one for each running thread, no
  -- two threads share one, and every running thread's client has a verified certificate.
  pub Reaches-Owned : {l l' : Listener Sys} → Reaches Sys l l' → Owned l → Owned l'
  Reaches-Owned here owned = owned
  Reaches-Owned (later r st) owned = Step-Owned st (Reaches-Owned r owned)
