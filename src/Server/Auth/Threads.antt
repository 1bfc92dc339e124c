-- ===== src/Server/Auth/Threads.antt =====
-- src/server/CommandHandler.cpp: the requests on accounts as the clients' threads run them. The
-- threads share one SQLite connection, whose calls do not overlap, and nothing else: a thread's step
-- is one method of the repository and what the handler does until the next one.
pub mod Alone
pub mod Counting
pub mod Moving
pub mod Interleaving
use raspi_cctv_tcp_server.Prelude.{
  Option, none, some, Bool, not, List, ◌∷◌, ◌++◌, Text, ℤ, ◌≡◌, false, c_str, is_none,
  if◌then◌else◌,
}
use raspi_cctv_tcp_server.Exec.{Exec, ok, fault, no_fuel, pure, raise, gets, ◌>>=◌}
use raspi_cctv_tcp_server.Db.Model.{User}
use raspi_cctv_tcp_server.Db.Users.{create_user, get_user_by_email, update_user_password}
use raspi_cctv_tcp_server.Db.Contract.{Tables}
use raspi_cctv_tcp_server.Server.Env.{Env, World, on_db}
use raspi_cctv_tcp_server.Server.Response.{Response, error, success}
use raspi_cctv_tcp_server.Server.Auth.{hash_password, new_user, check_password}
use raspi_cctv_tcp_server.Server.Auth.Accounts.{Request, sign_up, sign_in, reset, blank}

-- Where a thread is: before its first call, about to insert a row, about to update one, or done.
pub data Thread : Type 0 where
  starts : Request → Thread
  creates : Text → Text → Thread
  updates : Text → Text → ℤ → Thread
  replies : Request → Response → Thread

abbrev email_of : Request → Text
email_of (sign_up e p) = e
email_of (sign_in e p) = e
email_of (reset e p) = e

abbrev was_created : Bool → Response
was_created created =
    if not created
    then error 500 "Failed to create user"
    else success 200 "User registered successfully"

abbrev was_updated : Bool → Response
was_updated updated =
    if not updated
    then error 500 "Failed to reset password"
    else success 200 "Password reset successful"

module _ (E : Env) where
  abbrev after_lookup : Request → Option User → Exec (World E) Thread
  after_lookup (sign_up e p) found =
      if not (is_none found)
      then pure (replies (sign_up e p) (error 409 "Email already exists"))
      else pure (creates e p)
  after_lookup (sign_in e p) found = do
    response ← check_password E p found
    pure (replies (sign_in e p) response)
  after_lookup (reset e p) none = pure (replies (reset e p) (error 404 "User not found"))
  after_lookup (reset e p) (some user) = pure (updates e p user.id)

  unfoldable pub advance : Thread → Exec (World E) Thread
  advance (starts r) =
      if blank E r
      then pure (replies r (error 400 "Email or password is missing"))
      else do found ← on_db E (get_user_by_email E.sqlite (email_of r)); after_lookup r found
  advance (creates e p) = do
    now ← gets (λ w. w.now)
    created ← on_db E (create_user E.sqlite (new_user e (hash_password E p) now))
    pure (replies (sign_up e p) (was_created created))
  advance (updates e p id) = do
    updated ← on_db E (update_user_password E.sqlite id (hash_password E p))
    pure (replies (reset e p) (was_updated updated))
  advance (replies r x) = pure (replies r x)

  -- The threads, and what they share.
  pub record Server : Type 0 where
    pub threads : List Thread
    pub world : World E

  -- A request comes in, a thread takes its next step, or time passes.
  pub data Step (T : Tables E.sqlite) (s : Server) : Server → Type 0 where
    arrives : (r : Request) → Step T s (record s { threads = starts r ∷ s.threads })
    moves :
        (before : List Thread) (t t' : Thread) (behind : List Thread) (w : World E)
        → s.threads ≡ before ++ t ∷ behind
        → advance t s.world ≡ (ok t', w)
        → Step T s (record { threads = before ++ t' ∷ behind; world = w })
    ticks :
        (now : Text)
        → T.reads_as_number (c_str now) ≡ false
        → Step T s (record s { world = record s.world { now = now } })

  pub data Reaches (T : Tables E.sqlite) (start : Server) : Server → Type 0 where
    here : Reaches T start start
    later : {s s' : Server} → Reaches T start s → Step T s s' → Reaches T start s'
