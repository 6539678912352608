-- ===== src/Auth.antt =====
-- The user that internal/auth/auth.go attaches to a request, and how handlers ask for it.
pub mod Tokens
pub mod Numbers
pub mod Service
pub mod Sessions
pub mod Refresh
pub mod Users
pub mod Bootstrap
use my_personal_cloud.Prelude.{ℕ, Option, Text}
use my_personal_cloud.World.{Handler, error, or_reply}

pub record User : Type 0 where
  pub id : ℕ
  pub username : Text

-- `auth.FromContext` and the reply of a handler that finds no user. The user of a request is what
-- the middleware has put into its context.
unfoldable pub authenticated : {B : Type 0} → Option User → Handler B User
authenticated user = or_reply user (error 401 "unauthorized")
