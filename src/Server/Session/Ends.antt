-- ===== src/Server/Session/Ends.antt =====
-- How a client's session ends.
use raspi_cctv_tcp_server.Prelude.{
  ℕ, zero, suc, All, Option, none, some, true, refl, subst, append_assoc, ◌∙◌, ◌⊎◌, ◌+◌, ◌≤◌, ◌<◌,
  ◌%◌, ◌^◌, ◌||◌, Bool, [], ◌∷◌, ◌++◌, Text, codes, ◌≡◌, ap, arith, length, length-append, text_eq,
  starts_with, is_empty, ◌==◌, Bool-cases, inl, inr,
}
use raspi_cctv_tcp_server.Exec.{Result, Fault, ok, fault, no_fuel}
use raspi_cctv_tcp_server.Exec.Fuel.{EndsIn, IsThrow-EndsIn}
use raspi_cctv_tcp_server.Stream.{open_stream, read_word, read_size}
use raspi_cctv_tcp_server.Stream.Words.{NotChar}
use raspi_cctv_tcp_server.Stream.Sizes.{read_size-lt}
use raspi_cctv_tcp_server.Server.Env.{Env}
use raspi_cctv_tcp_server.Server.Env.Fuel.{Calls}
use raspi_cctv_tcp_server.Server.Response.{Response, render}
use raspi_cctv_tcp_server.Server.Commands.{handle}
use raspi_cctv_tcp_server.Server.Commands.Fuel.{handle-EndsIn}
use raspi_cctv_tcp_server.Server.Images.{handle_image_upload, handle_get_image}
use raspi_cctv_tcp_server.Server.Images.Keeping.{Behind, Behind-joins, handle_image_upload-Behind}
use raspi_cctv_tcp_server.Server.Images.Draining.{pending, handle_image_upload-Drains}
use raspi_cctv_tcp_server.Server.Images.Sending.{handle_get_image-Ends}
use raspi_cctv_tcp_server.Server.Net.{Tls, TlsContract, Link, send}
use raspi_cctv_tcp_server.Server.Session.{
  Input, ended, starved, command, Next, again, returned, with_line_feed, refused_upload, answer,
  with_world, image_sent, serve_upload, serve_image, serve_command, read_command, on_served,
  on_input, handle_client,
}
use raspi_cctv_tcp_server.Server.Session.Commands.{Line, LineOrEnd, read_command_lem}

-- The path that a line GET_IMAGE asks for: its second word.
abbrev pub asked_path : Text → Text
asked_path cmd = (read_word [] (read_word [] (open_stream cmd)).1).0

module _ (E : Env) (N : Tls) (tls : TlsContract N) (Q : Fault → Type 0) (calls : Calls E Q) where
  open tls use {incoming}

  -- The command asks for an image that can be opened and not read to its end, and the loop that
  -- reads it goes on for ever.
  pub record Jams (cmd : Text) (f : Fault) (l : Link E N) : Type 0 where
    pub hangs : f ≡ no_fuel
    pub asks : starts_with cmd (codes "GET_IMAGE") ≡ true
    pub file : ℕ × Text
    pub unreadable : E.files.unreadable l.world.disk (asked_path cmd) ≡ some file

  -- The session ends so in a line that the client sends.
  pub record Stuck (l : Link E N) (r : Result Bool × Link E N) : Type 0 where
    pub before : Text
    pub line : Text
    pub clean : All (NotChar 10) line
    pub later : Text
    pub sends : before ++ (line ++ 10 ∷ later) ≡ incoming l.conn
    pub reason : Fault
    pub result : r.0 ≡ fault reason
    pub jams : Jams (line ++ 10 ∷ []) reason r.1

  abbrev pub EndsOrSticks : Link E N → Result Bool × Link E N → Type 0
  EndsOrSticks l r = EndsIn Q r.0 ⊎ Stuck l r

  later-Stuck :
      (l l' : Link E N) (r : Result Bool × Link E N)
      → Behind E N tls l l'
      → EndsOrSticks l' r
      → EndsOrSticks l r
  later-Stuck l l' r b (inl h) = inl h
  later-Stuck l l' r (u, e) (inr s) = inr (record {
    before = u ++ s.before;
    line = s.line;
    clean = s.clean;
    later = s.later;
    sends = append_assoc u s.before _ ∙ ap (λ (t : Text). u ++ t) s.sends ∙ e;
    reason = s.reason;
    result = s.result;
    jams = s.jams;
  })

  -- If the loop goes on, no byte has come back; a fault is of the kind, or the command jams.
  abbrev Goes : Text → Link E N → Result Next × Link E N → Type 0
  Goes cmd l (ok again, l') = Behind E N tls l l'
  Goes cmd l (ok (returned b), l') = Unit
  Goes cmd l (fault f, l') = Q f ⊎ Jams cmd f l'

  sent-Goes : (cmd t : Text) (l : Link E N) → Goes cmd l (ok again, send E N t l)
  sent-Goes cmd t l = ([], tls.incoming-write l.conn t)

  answer-Goes :
      (cmd : Text) (l : Link E N) (o : Result Response × Link E N)
      → EndsIn Q o.0
      → Behind E N tls l o.1
      → Goes cmd l (answer E N o)
  answer-Goes cmd l (ok r, l') f (u, e) =
      (u, ap (λ (t : Text). u ++ t) (tls.incoming-write l'.conn (with_line_feed (render r))) ∙ e)
  answer-Goes cmd l (fault x, l') f h = inl f

  serve_upload-Goes : (cmd : Text) (l : Link E N) → Goes cmd l (serve_upload E N cmd l)
  unfolding serve_upload
  serve_upload-Goes cmd l =
      let (tag, s1) = read_word [] (open_stream cmd) in
      let (filename, s2) = read_word [] s1 in
      let filesize = (read_size (l.world.stale_size % 2 ^ 64) s2).0 in
      let small : filesize < 2 ^ 64 = read_size-lt _ s2 (omega arith) in
      elim (Bool-cases (is_empty filename || filesize == 0)) [
        | inl bad ↦ rw bad (sent-Goes cmd refused_upload l)
        | inr good ↦
            let (f, d) = handle_image_upload-Drains E N tls filename filesize small l in
            rw good (
              answer-Goes cmd l (handle_image_upload E N filename filesize l)
                (IsThrow-EndsIn Q calls.throws _ f)
                (handle_image_upload-Behind E N tls filename filesize l))
      ]

  image_sent-Goes :
      (cmd : Text) (l : Link E N) (file : Option (ℕ × Text))
      → starts_with cmd (codes "GET_IMAGE") ≡ true
      → E.files.unreadable l.world.disk (asked_path cmd) ≡ file
      → Goes cmd l (image_sent E N (handle_get_image E N (asked_path cmd) l) l)
  image_sent-Goes cmd l none asks e =
      let (c, h) = handle_get_image-Ends E N (asked_path cmd) l e in rw h tt
  image_sent-Goes cmd l (some file) asks e = at_sent (handle_get_image E N (asked_path cmd) l)
    where
      at_sent : (o : Option N.Conn) → Goes cmd l (image_sent E N o l)
      at_sent none = inr (record { hangs = refl; asks = asks; file = file; unreadable = e })
      at_sent (some c) = tt

  serve_image-Goes :
      (cmd : Text) (l : Link E N)
      → starts_with cmd (codes "GET_IMAGE") ≡ true
      → Goes cmd l (serve_image E N cmd l)
  unfolding serve_image
  serve_image-Goes cmd l asks = elim (Bool-cases (is_empty (asked_path cmd))) [
    | inl bad ↦ rw bad tt
    | inr good ↦ rw good (image_sent-Goes cmd l _ asks refl)
  ]

  serve_command-Goes : (cmd : Text) (l : Link E N) → Goes cmd l (serve_command E N cmd l)
  unfolding serve_command
  serve_command-Goes cmd l = elim (Bool-cases (text_eq cmd (10 ∷ []))) [
    | inl blank ↦ rw blank ([], refl)
    | inr line ↦ rw line (elim (Bool-cases (starts_with cmd (codes "UPLOAD"))) [
      | inl upload ↦ rw upload (serve_upload-Goes cmd l)
      | inr other ↦ rw other (elim (Bool-cases (starts_with cmd (codes "GET_IMAGE"))) [
        | inl image ↦ rw image (serve_image-Goes cmd l image)
        | inr text ↦ rw text (
            answer-Goes cmd l (with_world E N (handle E cmd l.world) l)
              (handle-EndsIn E Q calls cmd l.world) ([], refl))
      ])
    ])
  ]

  -- A line that was read is at least its line feed.
  Line-shrinks :
      (l : Link E N) (o : Input × N.Conn)
      → Line E N tls [] l.conn o
      → length (incoming o.1) < pending E N tls l
  Line-shrinks l o s =
      let both : length (s.line ++ 10 ∷ incoming o.1)
          ≡ length s.line + suc (length (incoming o.1)) =
        length-append s.line (10 ∷ incoming o.1) in
      omega (arith, both, ap length s.taken)

  shrinks : (l l' : Link E N) → Behind E N tls l l' → pending E N tls l' ≤ pending E N tls l
  shrinks l l' (u, e) =
      let both = length-append u (incoming l'.conn) in omega (arith, both, ap length e)

  module _ (loop : Link E N → Result Bool × Link E N) (l : Link E N)
      (again_ends : (l' : Link E N)
        → pending E N tls l' < pending E N tls l
        → EndsOrSticks l' (loop l')) where
    served-EndsIn :
        (line : Text) (l1 : Link E N) (o : Result Next × Link E N)
        → All (NotChar 10) line
        → line ++ 10 ∷ incoming l1.conn ≡ incoming l.conn
        → pending E N tls l1 < pending E N tls l
        → Goes (line ++ 10 ∷ []) l1 o
        → EndsOrSticks l (on_served E N loop o)
    served-EndsIn line l1 (ok again, l2) clean taken less g =
        later-Stuck l l2 (loop l2)
          (Behind-joins E N tls l l1 l2
            (line ++ 10 ∷ [], append_assoc line (10 ∷ []) (incoming l1.conn) ∙ taken) g)
          (again_ends l2 (let le = shrinks l1 l2 g in omega arith))
    served-EndsIn line l1 (ok (returned b), l2) clean taken less g = inl tt
    served-EndsIn line l1 (fault f, l2) clean taken less (inl q) = inl q
    served-EndsIn line l1 (fault f, l2) clean taken less (inr j) = inr (record {
      before = [];
      line = line;
      clean = clean;
      later = incoming l1.conn;
      sends = taken;
      reason = f;
      result = refl;
      jams = j;
    })

    input-EndsIn :
        (o : Input × N.Conn)
        → LineOrEnd E N tls [] l.conn o
        → EndsOrSticks l (on_input E N loop o l)
    input-EndsIn (ended, c) h = inl tt
    input-EndsIn (starved, c) (inr e) = cc
    input-EndsIn (starved, c) (inl s) = let e = s.reads in cc
    input-EndsIn (command cmd, c) (inr e) = cc
    input-EndsIn (command cmd, c) (inl s) =
        let same : cmd ≡ s.line ++ 10 ∷ [] = let e = s.reads in cc in
        served-EndsIn s.line (record l { conn = c }) _ s.clean s.taken
          (Line-shrinks l (command cmd, c) s)
          (subst
            (λ (t : Text).
              Goes t (record l { conn = c }) (serve_command E N cmd (record l { conn = c })))
            same (serve_command-Goes cmd (record l { conn = c })))

  pub session-EndsIn :
      (fuel : ℕ) (l : Link E N)
      → pending E N tls l < fuel
      → EndsOrSticks l (handle_client E N fuel l)
  unfolding handle_client
  session-EndsIn zero l enough = elim enough [ ]
  session-EndsIn (suc fuel) l enough =
      input-EndsIn (handle_client E N fuel) l (λ l' less. session-EndsIn fuel l' (omega arith))
        (read_command E N (suc fuel) [] l.conn) (read_command_lem E N tls (suc fuel) l.conn enough)
