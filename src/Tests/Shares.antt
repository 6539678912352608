-- ===== src/Tests/Shares.antt =====
-- Runs of the requests on share links.
use my_personal_cloud.Prelude.{
  true, ◌≤◌, ◌≡◌, refl, false, [], ◌∷◌, Option, none, some, codes, arith, find, ◌==◌, inr,
  has_prefix,
}
use my_personal_cloud.Prelude.Int.{pos}
use my_personal_cloud.World.{
  Response, exec, bare, error, status, execute, or_reply, require, reply, fetch, query, ◌>>=◌, stop,
  stream, ShareRow, FileRow,
}
use my_personal_cloud.Storage.{abs, read_file}
use my_personal_cloud.GoPath.{
  clean, join_path, render, join, elements, split, resolve, step, step_up,
}
use my_personal_cloud.Files.Changes.Contents.{calm}
use my_personal_cloud.Shares.{ShareBody, is_share, revoke_handler, update_shares, CreateBody}
use my_personal_cloud.Shares.Access.{resolve_share, ShareQuery, public_share_router}
use my_personal_cloud.Shares.Links.{has_token, IsOpen, served-IsOpen, folder_link_streams_any_file}
use my_personal_cloud.Auth.{authenticated}
use my_personal_cloud.Shares.Revocation.{revoked_link_refused}
use my_personal_cloud.Shares.Service.{serve_shares, revoke_link}
use my_personal_cloud.Shares.Service.Tables.{OtherSharesKept, serve_shares-OthersKept}
use my_personal_cloud.Tests.Data.{alice, env, tables, disk, docs_link, secret, world}

abbrev long_link : Option CreateBody
long_link = some (record {
  file_id = some (codes "f1");
  folder_id = none;
  expires_in_hours = pos 1000;
  max_views = pos 2;
})

serve_shares-OthersKept_example :
    OtherSharesKept 1 tables
      (serve_shares env (some alice) (revoke_link (codes "s1")) (world [])).1.db
serve_shares-OthersKept_example =
    serve_shares-OthersKept env alice (revoke_link (codes "s1")) (world []) refl

-- The file of another user, outside the folder of the link.
abbrev foreign : ShareQuery
foreign = record { content = []; file_id = codes "f2"; preview = [] }

docs_link-found : find (has_token (codes "t1")) tables.share_links ≡ some docs_link
unfolding ◌==◌
docs_link-found = refl

docs_link-IsOpen : IsOpen 200 docs_link
docs_link-IsOpen = record { active = refl; lasting = omega arith; has_views = inr (omega arith) }

secret_found : find (λ (r : FileRow). r.id == codes "f2") tables.files ≡ some secret
unfolding ◌==◌
secret_found = refl

secret_stored : read_file (abs (codes "/data") secret.storage_path) disk ≡ some (3 ∷ 4 ∷ [])
unfolding read_file abs join_path clean render join elements split resolve step step_up has_prefix
    ◌==◌
secret_stored = refl

not_whole : (foreign.content == codes "1") ≡ false
unfolding ◌==◌
not_whole = refl

names_file : (foreign.file_id == []) ≡ false
unfolding ◌==◌
names_file = refl

folder_link_streams_any_file_example :
    (public_share_router env (codes "t1") foreign (calm tables disk 0 200)).0
    ≡ stop (stream (codes "text/plain") 2 none (3 ∷ 4 ∷ []))
unfolding ◌==◌
folder_link_streams_any_file_example =
    folder_link_streams_any_file env (codes "t1") foreign tables disk 0 200 docs_link (codes "d1")
      secret (3 ∷ 4 ∷ []) docs_link-found docs_link-IsOpen refl refl not_whole names_file
      secret_found secret_stored

foreign_served :
    (public_share_router env (codes "t1") foreign (world [])).0
    ≡ stop (stream (codes "text/plain") 2 none (3 ∷ 4 ∷ []))
unfolding ◌==◌
foreign_served =
    folder_link_streams_any_file env (codes "t1") foreign tables disk 0 200 docs_link (codes "d1")
      secret (3 ∷ 4 ∷ []) docs_link-found docs_link-IsOpen refl refl not_whole names_file
      secret_found secret_stored

served-IsOpen_example :
    (s : ShareRow) × (find (has_token (codes "t1")) tables.share_links ≡ some s) × IsOpen 200 s
served-IsOpen_example =
    served-IsOpen env (codes "t1") foreign (world [])
      (stream (codes "text/plain") 2 none (3 ∷ 4 ∷ [])) foreign_served (omega arith)

docs_link-own : is_share (codes "s1") 1 docs_link ≡ true
unfolding ◌==◌
docs_link-own = refl

revoke_run : (revoke_handler (some alice) (codes "s1") (world [])).0 ≡ stop (bare 204)
unfolding revoke_handler authenticated or_reply execute exec update_shares require reply ◌>>=◌ ◌==◌
revoke_run = refl

refused_run :
    (public_share_router env
      (codes "t1")
      foreign
      (revoke_handler (some alice) (codes "s1") (world [])).1).0
    ≡ stop (error 404 "share has been revoked")
unfolding revoke_handler authenticated or_reply execute exec update_shares require reply
    public_share_router resolve_share fetch query ◌>>=◌ ◌==◌
refused_run = refl

abbrev refusal : Response ShareBody
refusal = error 404 "share has been revoked"

revoked_link_refused_example : 400 ≤ status refusal
revoked_link_refused_example =
    revoked_link_refused env alice (codes "s1") (codes "t1") foreign (world []) docs_link (bare 204)
      refusal docs_link-found docs_link-own revoke_run (omega arith) refused_run
