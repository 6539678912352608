-- ===== src/Shares/Service/Tables.antt =====
-- What the requests on share links do to the tables.
use mathlib.Core.List.{append-nil}
use my_personal_cloud.Prelude.{
  ℕ, ◌≡◌, refl, Bool, true, false, not, [], ◌∷◌, some, Text, arith, filter, filter-append, nat_eq,
}
use my_personal_cloud.Sql.Tables.{filter-update}
use my_personal_cloud.World.{Database, Env, World, ShareRow}
use my_personal_cloud.World.Keeps.{Step, kept}
use my_personal_cloud.Auth.{User}
use my_personal_cloud.Shares.{insert_share, update_shares, revoked, is_share}
use my_personal_cloud.Shares.Service.{
  ShareRequest, serve_shares, create_link, list_links, revoke_link, open_link,
}
use my_personal_cloud.Shares.Service.Keeps.{IsNewShare, ShareNeeds, serve_shares-Keeps}

abbrev pub other_share : ℕ → ShareRow → Bool
other_share u s = not (nat_eq s.user_id u)

-- The accounts, the files, the folders, and the share links of everybody but the user are as
-- before.
pub record OtherSharesKept (u : ℕ) (before after : Database) : Type 0 where
  pub users : after.users ≡ before.users
  pub files : after.files ≡ before.files
  pub folders : after.folders ≡ before.folders
  pub share_links :
      filter (other_share u) after.share_links ≡ filter (other_share u) before.share_links

-- The requests that need a user.
abbrev pub is_public : ShareRequest → Bool
is_public (open_link token q) = true
is_public _ = false

insert_share-Kept :
    (u : ℕ) (before : Database) (r : ShareRow)
    → IsNewShare u r
    → Step (OtherSharesKept u before) (insert_share r)
unfolding insert_share
insert_share-Kept u before r new db db' n k e =
    let own = new.own in
    ground (
      arith,
      filter-append (other_share u) db.share_links (r ∷ []),
      append-nil (filter (other_share u) db.share_links),
    )

revoke-Kept :
    (u : ℕ) (before : Database) (id : Text)
    → Step (OtherSharesKept u before) (update_shares (is_share id u) revoked)
unfolding update_shares
revoke-Kept u before id db db' n k e =
    let same =
      filter-update (other_share u) (is_share id u) revoked db.share_links (λ s q. ground arith) in
    ground arith

Needs-Kept :
    (u : ℕ) (before : Database) (r : ShareRequest)
    → is_public r ≡ false
    → ShareNeeds (OtherSharesKept u before) u r
Needs-Kept u before (create_link body) h = λ r new. insert_share-Kept u before r new
Needs-Kept u before list_links h = tt
Needs-Kept u before (revoke_link id) h = revoke-Kept u before id
Needs-Kept u before (open_link token q) h = absurd (cc h)

-- Creating, listing and revoking share links changes no file, no folder, no account and no link of
-- another user, whichever calls fail.
pub serve_shares-OthersKept :
    (env : Env) (user : User) (r : ShareRequest) (w : World)
    → is_public r ≡ false
    → OtherSharesKept user.id w.db (serve_shares env (some user) r w).1.db
serve_shares-OthersKept env user r w h =
    kept w (serve_shares-Keeps env user r (Needs-Kept user.id w.db r h))
      (record { users = refl; files = refl; folders = refl; share_links = refl })
