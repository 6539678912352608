-- ===== src/Shares/Service/Answers.antt =====
-- That every request on share links is answered.
use my_personal_cloud.Prelude.{◌≡◌, refl, Option, none, some}
use my_personal_cloud.World.{Database, Env, World, Response, error, stop, or_reply, ◌>>=◌}
use my_personal_cloud.World.Keeps.{answered}
use my_personal_cloud.Auth.{User, authenticated}
use my_personal_cloud.Shares.{ShareBody, create_handler, list_handler, revoke_handler}
use my_personal_cloud.Shares.Service.{
  ShareRequest, serve_shares, create_link, list_links, revoke_link, open_link,
}
use my_personal_cloud.Shares.Service.Keeps.{serve_shares-Keeps, router-Keeps}

-- What a handler keeps of the tables when nothing is asked.
abbrev Nothing : Database → Type 0
Nothing db = Unit

-- Every request on share links is answered, with or without a user and whichever calls fail: no
-- path through a handler ends without a response.
pub serve_shares_answers :
    (env : Env) (user : Option User) (r : ShareRequest) (w : World)
    → (answer : Response ShareBody) × ((serve_shares env user r w).0 ≡ stop answer)
unfolding serve_shares create_handler list_handler revoke_handler authenticated or_reply ◌>>=◌
serve_shares_answers env none (create_link body) w = (error 401 "unauthorized", refl)
serve_shares_answers env none list_links w = (error 401 "unauthorized", refl)
serve_shares_answers env none (revoke_link id) w = (error 401 "unauthorized", refl)
serve_shares_answers env none (open_link token q) w =
    answered {P = Nothing} w (router-Keeps (λ _ _ _ _ _ _. tt) env token q) tt
serve_shares_answers env (some user) (create_link body) w =
    answered {P = Nothing} w (serve_shares-Keeps env user (create_link body) (λ _ _ _ _ _ _ _. tt))
      tt
serve_shares_answers env (some user) list_links w =
    answered {P = Nothing} w (serve_shares-Keeps env user list_links tt) tt
serve_shares_answers env (some user) (revoke_link id) w =
    answered {P = Nothing} w (serve_shares-Keeps env user (revoke_link id) (λ _ _ _ _ _. tt)) tt
serve_shares_answers env (some user) (open_link token q) w =
    answered {P = Nothing} w (router-Keeps (λ _ _ _ _ _ _. tt) env token q) tt
