-- ===== src/Shares/Service.antt =====
-- The requests on share links, as cmd/server/main.go routes them.
pub mod Keeps
pub mod Tables
pub mod Answers
use my_personal_cloud.Prelude.{Option, Text}
use my_personal_cloud.World.{Env, Endpoint}
use my_personal_cloud.Auth.{User}
use my_personal_cloud.Shares.{ShareBody, CreateBody, create_handler, list_handler, revoke_handler}
use my_personal_cloud.Shares.Access.{ShareQuery, public_share_router}

pub data ShareRequest : Type 0 where
  create_link : Option CreateBody → ShareRequest
  list_links : ShareRequest
  revoke_link : Text → ShareRequest
  open_link : Text → ShareQuery → ShareRequest

-- The last one needs no user.
unfoldable pub serve_shares : Env → Option User → ShareRequest → Endpoint ShareBody
serve_shares env user (create_link body) = create_handler env user body
serve_shares env user list_links = list_handler user
serve_shares env user (revoke_link id) = revoke_handler user id
serve_shares env user (open_link token q) = public_share_router env token q
