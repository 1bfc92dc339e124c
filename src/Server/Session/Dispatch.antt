-- ===== src/Server/Session/Dispatch.antt =====
-- Which handler a line of a client reaches.
use raspi_cctv_tcp_server.Prelude.{Text, ◌≡◌, refl, ap, All, ◌∙◌}
use raspi_cctv_tcp_server.Exec.{Result}
use raspi_cctv_tcp_server.Stream.Words.{NotChar}
use raspi_cctv_tcp_server.Server.Env.{Env, World}
use raspi_cctv_tcp_server.Server.Response.{Response}
use raspi_cctv_tcp_server.Server.Commands.{handle}
use raspi_cctv_tcp_server.Server.Commands.Lines.{Command, sign_up, line, run, handle-line}
use raspi_cctv_tcp_server.Server.Net.{Tls, Link}
use raspi_cctv_tcp_server.Server.Session.{Next, answer, with_world, serve_command}

module _ (E : Env) (N : Tls) where
  abbrev pub replied : Link E N → Result Response × World E → Result Next × Link E N
  replied l o = answer E N (with_world E N o l)

  to_handler :
      (c : Command) (payload : Text) (l : Link E N)
      → serve_command E N (line E c payload) l ≡ replied l (handle E (line E c payload) l.world)
  unfolding serve_command
  to_handler sign_up payload l = refl
  to_handler _ payload l = refl

  -- On any connection, a line of one of the eleven commands, with a blank and a payload without a
  -- line feed, is taken neither for an upload nor for an image: the command's handler is given the
  -- payload, and its reply is sent with a line feed at its end, unless it faults.
  pub serve_command-line :
      (c : Command) (payload : Text) (l : Link E N)
      → All (NotChar 10) payload
      → serve_command E N (line E c payload) l ≡ replied l (run E c payload l.world)
  serve_command-line c payload l h =
      to_handler c payload l ∙ ap (λ f. replied l (f l.world)) (handle-line E c payload h)
