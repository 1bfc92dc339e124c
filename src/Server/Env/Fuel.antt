-- ===== src/Server/Env/Fuel.antt =====
-- How what a handler does with the database ends: in a value, or in a fault of a kind.
use raspi_cctv_tcp_server.Prelude.{ℕ, suc, Bool, Text, ℤ, pos, if◌then◌else◌}
use raspi_cctv_tcp_server.Exec.{Exec, Fault, uncaught, pure}
use raspi_cctv_tcp_server.Exec.Fuel.{AlwaysEndsIn, if-EndsIn}
use raspi_cctv_tcp_server.Db.Users.{get_user_by_email}
use raspi_cctv_tcp_server.Db.Histories.{
  get_histories, get_histories_by_event_type, get_histories_by_date_range,
  get_histories_by_event_type_and_date_range,
}
use raspi_cctv_tcp_server.Server.Env.{Env, World, on_db}
use raspi_cctv_tcp_server.Server.Response.{Response}

module _ (E : Env) where
  open E use {floats, sqlite}

  -- What the handlers need to know of the repositories' reading methods, and of the exceptions that
  -- the json library throws.
  pub record Calls (Q : Fault → Type 0) : Type 0 where
    pub throws : Q uncaught
    pub lookup : (email : Text) → AlwaysEndsIn Q (get_user_by_email sqlite email)
    pub all :
        (limit : ℕ) (offset : ℤ)
        → AlwaysEndsIn Q (get_histories floats sqlite (suc limit) (pos limit) offset)
    pub by_type :
        (limit : ℕ) (offset t : ℤ)
        → AlwaysEndsIn Q
            (get_histories_by_event_type floats sqlite (suc limit) t (pos limit) offset)
    pub by_dates :
        (limit : ℕ) (offset : ℤ) (a b : Text)
        → AlwaysEndsIn Q
            (get_histories_by_date_range floats sqlite (suc limit) a b (pos limit) offset)
    pub by_type_and_dates :
        (limit : ℕ) (offset t : ℤ) (a b : Text)
        → AlwaysEndsIn Q (
            get_histories_by_event_type_and_date_range floats sqlite
              (suc limit)
              t
              a
              b
              (pos limit)
              offset)

  module _ (Q : Fault → Type 0) where
    pub on_db-EndsIn :
        {A : Type 0} (m : Exec sqlite.Connection A) → AlwaysEndsIn Q m → AlwaysEndsIn Q (on_db E m)
    on_db-EndsIn m h w = h w.db

    pub reply_if-EndsIn :
        (b : Bool) (r r' : Response) → AlwaysEndsIn Q {S = World E} (if b then pure r else pure r')
    reply_if-EndsIn b r r' = if-EndsIn Q b (pure r) (pure r') (λ w. tt) (λ w. tt)

    pub found-EndsIn :
        Calls Q → (email : Text) → AlwaysEndsIn Q (on_db E (get_user_by_email sqlite email))
    found-EndsIn calls email = on_db-EndsIn (get_user_by_email sqlite email) (calls.lookup email)
