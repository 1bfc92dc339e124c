-- ===== src/Server/Session/Pipeline.antt =====
-- A whole session: the lines of a client, one after the other.
use raspi_cctv_tcp_server.Prelude.{
  ℕ, zero, suc, ◌+◌, ◌<◌, Bool, false, List, [], ◌∷◌, ◌++◌, Text, codes, starts_with, is_empty,
  text_eq, if◌then◌else◌, ◌≡◌, refl, sym, ap, ap₂, subst, ◌∙◌, arith, length, length-append,
  append_assoc, append-nil, All,
}
use raspi_cctv_tcp_server.Exec.{Result, ok, fault}
use raspi_cctv_tcp_server.Stream.Words.{NotChar}
use raspi_cctv_tcp_server.Server.Env.{Env, World}
use raspi_cctv_tcp_server.Server.Response.{Response, render}
use raspi_cctv_tcp_server.Server.Commands.{handle}
use raspi_cctv_tcp_server.Server.Net.{Tls, TlsContract, Link, send}
use raspi_cctv_tcp_server.Server.Session.{
  Input, with_line_feed, answer, with_world, serve_command, on_served, on_input, read_command,
  handle_client,
}
use raspi_cctv_tcp_server.Server.Session.Reading.{Healthy, read_line, read_end}

-- A line that is no request on images, without its line feed; it may be empty, or unknown.
pub record IsPlain (ln : Text) : Type 0 where
  pub clean : All (NotChar 10) ln
  pub no_upload : starts_with (ln ++ 10 ∷ []) (codes "UPLOAD") ≡ false
  pub no_image : starts_with (ln ++ 10 ∷ []) (codes "GET_IMAGE") ≡ false

-- What a client sends: lines, and the beginning of one that it does not end.
abbrev pub script : List Text → Text → Text
script [] tail = tail
script (ln ∷ lns) tail = ln ++ 10 ∷ script lns tail

-- What a session comes to: the bytes of its replies, how it ends, and the state that it leaves.
pub record Transcript (E : Env) : Type 0 where
  pub replies : Text
  pub outcome : Result Bool
  pub world : World E

module _ (E : Env) where
  abbrev pub then_lines : (World E → Transcript E) → Result Response × World E → Transcript E
  then_lines rest (ok r, w) =
      let t = rest w in record t { replies = with_line_feed (render r) ++ t.replies }
  then_lines rest (fault f, w) = record { replies = []; outcome = fault f; world = w }

  -- The lines, handled in their order; an empty one is passed over.
  abbrev pub transcript : List Text → World E → Transcript E
  transcript [] w = record { replies = []; outcome = ok false; world = w }
  transcript (ln ∷ lns) w =
      let skipped = transcript lns w in
      let handled = then_lines (transcript lns) (handle E (ln ++ 10 ∷ []) w) in
      if is_empty ln then skipped else handled

module _ (E : Env) (N : Tls) (tls : TlsContract N) (healthy : Healthy N tls) where
  open tls use {incoming, sent}

  pub record Follows (l : Link E N) (t : Transcript E) (o : Result Bool × Link E N) : Type 0 where
    pub outcome : o.0 ≡ t.outcome
    pub world : o.1.world ≡ t.world
    pub replies : sent o.1.conn ≡ sent l.conn ++ t.replies

  -- A line that is not empty is handled and answered.
  serve_plain :
      (ln : Text) (l : Link E N)
      → IsPlain ln
      → is_empty ln ≡ false
      → serve_command E N (ln ++ 10 ∷ []) l
        ≡ answer E N (with_world E N (handle E (ln ++ 10 ∷ []) l.world) l)
  unfolding serve_command text_eq
  serve_plain [] l p filled = cc
  serve_plain (b ∷ ln) l p filled = rw (p.clean.0, p.no_upload, p.no_image) refl

  sent-send : (t : Text) (l : Link E N) → sent (send E N t l).conn ≡ sent l.conn ++ t
  sent-send t l = tls.sent-write l.conn t (healthy.writes l.conn t)

  -- A session that goes on with the rest after a line, on a connection that was only read.
  module _ (l l' : Link E N) (rest : Text) (loop : Link E N → Result Bool × Link E N)
      (after : World E → Transcript E) (same_world : l'.world ≡ l.world)
      (quiet : sent l'.conn ≡ sent l.conn) (left : incoming l'.conn ≡ rest)
      (goes_on : (m : Link E N) → incoming m.conn ≡ rest → Follows m (after m.world) (loop m)) where
    answered :
        (o : Result Response × World E)
        → Follows l (then_lines E after o) (on_served E N loop (answer E N (with_world E N o l')))
    answered (fault f, w) = record {
      outcome = refl;
      world = refl;
      replies = quiet ∙ sym (append-nil (sent l.conn));
    }
    answered (ok r, w) =
        let reply = with_line_feed (render r) in
        let m = send E N reply (record l' { world = w }) in
        let f = goes_on m (tls.incoming-write l'.conn reply ∙ left) in
        record {
          outcome = f.outcome;
          world = f.world;
          replies =
              f.replies
              ∙ ap (λ (t : Text). t ++ (after w).replies)
                  (sent-send reply l' ∙ ap (λ (t : Text). t ++ reply) quiet)
              ∙ append_assoc (sent l.conn) reply (after w).replies;
        }

    passed_over : Follows l (after l.world) (loop l')
    passed_over =
        let f = goes_on l' left in
        record {
          outcome = f.outcome ∙ ap (λ w. (after w).outcome) same_world;
          world = f.world ∙ ap (λ w. (after w).world) same_world;
          replies = f.replies ∙ ap₂ (λ (t : Text) w. t ++ (after w).replies) quiet same_world;
        }

    one_line :
        (ln : Text)
        → IsPlain ln
        → Follows l
            (if is_empty ln
              then after l.world
              else then_lines E after (handle E (ln ++ 10 ∷ []) l.world))
            (on_served E N loop (serve_command E N (ln ++ 10 ∷ []) l'))
    one_line [] p = unfold serve_command text_eq in passed_over
    one_line (b ∷ ln) p =
        rw (serve_plain (b ∷ ln) l' p refl, same_world)
          (answered (handle E (b ∷ ln ++ 10 ∷ []) l.world))

  session :
      (fuel : ℕ) (lns : List Text) (tail : Text) (l : Link E N)
      → All IsPlain lns
      → All (NotChar 10) tail
      → length (script lns tail) < fuel
      → incoming l.conn ≡ script lns tail
      → Follows l (transcript E lns l.world) (handle_client E N fuel l)
  unfolding handle_client
  session zero lns tail l plain clean enough e = elim enough [ ]
  session (suc fuel) [] tail l plain clean enough e =
      let o = read_command E N (suc fuel) [] l.conn in
      let t = read_end E N tls healthy (suc fuel) tail [] l.conn enough clean e in
      subst
        (λ (i : Input).
          Follows l (transcript E [] l.world) (on_input E N (handle_client E N fuel) (i, o.1) l))
        (sym t.reads)
        (record {
          outcome = refl;
          world = refl;
          replies = t.quiet ∙ sym (append-nil (sent l.conn));
        })
  session (suc fuel) (ln ∷ lns) tail l (p, plain) clean enough e =
      let o = read_command E N (suc fuel) [] l.conn in
      let both : length (ln ++ 10 ∷ script lns tail) ≡ length ln + suc (length (script lns tail)) =
        length-append ln (10 ∷ script lns tail) in
      let t =
        read_line E N tls healthy (suc fuel) ln (script lns tail) [] l.conn (omega (arith, both))
          p.clean e in
      subst
        (λ (i : Input).
          Follows l (transcript E (ln ∷ lns) l.world)
            (on_input E N (handle_client E N fuel) (i, o.1) l))
        (sym t.reads)
        (one_line l (record l { conn = o.1 }) (script lns tail) (handle_client E N fuel)
          (transcript E lns) refl t.quiet t.left
          (λ m left. session fuel lns tail m plain clean (omega (arith, both)) left) ln p)

  -- On a connection that meets its contract and on which nothing fails: the client sends any
  -- lines, none of which is a request on images, and then perhaps a part of a line. With more fuel
  -- than bytes, the session is the handling of the lines one by one, in their order, whatever the
  -- pieces in which the bytes come: the bytes that it sends are the replies, each with its line
  -- feed, and the state is what the last handler left. Empty lines and the part of a line have no
  -- reply and no effect. The session returns false when the lines are done; if the handler of a
  -- line faults, it ends with that fault, behind the replies to the lines before it.
  pub handle_client-transcript :
      (fuel : ℕ) (lns : List Text) (tail : Text) (l : Link E N)
      → All IsPlain lns
      → All (NotChar 10) tail
      → incoming l.conn ≡ script lns tail
      → length (incoming l.conn) < fuel
      → Follows l (transcript E lns l.world) (handle_client E N fuel l)
  handle_client-transcript fuel lns tail l plain clean e enough =
      session fuel lns tail l plain clean (omega (arith, ap length e)) e
