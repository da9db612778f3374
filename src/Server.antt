-- ===== src/Server.antt =====
-- src/server.c: the request router of a client's thread. `sscanf` and `crypt` are the C library's,
-- parameters; so is what an unset local variable holds.
pub mod Routes
pub mod Refinement
use Prim.Native.String.{String}
use banking_management_syste.Base.{ℕ, none, List, [], ◌∷◌, ◌==◌, if◌then◌else◌}
use banking_management_syste.Base.Text.{Text, codes, streq}
use banking_management_syste.Store.{M}
use banking_management_syste.Model.{World, Double, Message, Arg, format, num, str, say}
use banking_management_syste.Listing.{Printf}
use banking_management_syste.Utils.{LoginResult, refused, deactivated, logged_in, login_user}
use banking_management_syste.Sessions.{
  Admission, already_logged_in, admitted, admit, remove_active_session, no_sessions, max_sessions,
}
use Routes.{Op, login, logout, op_of, serve, Libc, text_at, d, s}

-- The state that all client threads share, and the user of one connection.
pub record Server (F : Type 0) : Type 0 where
  pub world : World F
  pub sessions : List ℕ

pub record Request : Type 0 where
  pub op : Text
  pub payload : Text

-- The response of a request is left in `world.resp`; the status code is returned.
module _ {F : Type 0} ⦃o : Double F⦄ ⦃p : Printf F⦄ where
  abbrev reply : String → List (Arg F) → Server F → Server F
  reply text args srv = record srv { world = (say text args srv.world).1 }

  unfoldable pub finish_login : LoginResult → ℕ → Server F → ℕ × Server F
  finish_login refused current srv = (current, reply "FAILURE Invalid Credentials" [] srv)
  finish_login deactivated current srv =
      (current, reply "FAILURE! Account is deactivated. Please contact your bank." [] srv)
  finish_login (logged_in user_id role name) current srv =
      elim (admit user_id current srv.sessions) [
        | already_logged_in ↦ (current, reply "FAILURE User is already logged in elsewhere." [] srv)
        | admitted ss current' ↦ (
          current',
          reply "SUCCESS %d %s|%s" (num user_id ∷ str role ∷ str name ∷ [])
              (record srv { sessions = ss }),
        )
      ]

  -- One round of the loop in `client_thread_main`: the status code, the user of the connection, and
  -- the shared state.
  unfoldable pub handle : Libc F → ℕ → Request → ℕ → Server F → ℕ × ℕ × Server F
  unfolding finish_login
  handle c now req current srv =
      let cleared = record srv { world = record (srv.world) { resp = none } } in
      elim (op_of req.op) [
        | login ↦
            let vals = c.scanf (s ∷ s ∷ []) req.payload in
            let (current', srv') =
              finish_login (login_user c.crypt (text_at c vals 0) (text_at c vals 1) cleared.world)
                current cleared in
            (0, current', srv')
        | logout ↦ (
          0,
          0,
          reply "Logged out successfully" []
              (record cleared { sessions = remove_active_session current srv.sessions }),
        )
        | other ↦
            let (status, w) = serve c now other req.payload cleared.world in
            (status, current, record cleared { world = w })
      ]

  -- The cleanup when the client is gone.
  unfoldable pub disconnect : ℕ → Server F → Server F
  disconnect current srv =
      if current == 0
      then srv
      else record srv { sessions = remove_active_session current srv.sessions }

  -- `server_init`, over the files that are there.
  unfoldable pub server_init : World F → Server F
  server_init w = record { world = w; sessions = no_sessions max_sessions }
