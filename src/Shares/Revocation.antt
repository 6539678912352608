-- ===== src/Shares/Revocation.antt =====
-- A link that its owner has revoked.
use my_personal_cloud.Prelude.{
  ℕ, ◌<◌, ◌≤◌, ◌≡◌, refl, sym, ◌∙◌, true, false, some, Text, arith, find, ltb, Bool-cases, inl, inr,
}
use my_personal_cloud.Sql.{update}
use my_personal_cloud.World.{
  Database, Disk, Env, World, ShareRow, Outcome, Response, stop, next, status, or_reply,
}
use my_personal_cloud.World.Triple.{
  Triple, Assertion, Post, bind-Triple, pull, reply-Triple, require-Triple,
}
use my_personal_cloud.World.Calls.{execute-Triple}
use my_personal_cloud.Auth.{User, authenticated}
use my_personal_cloud.Files.Changes.Contents.{find-update}
use my_personal_cloud.Shares.{ShareBody, is_share, revoked, revoke_handler, update_shares}
use my_personal_cloud.Shares.Access.{ShareQuery, public_share_router}
use my_personal_cloud.Shares.Links.{has_token, served-IsOpen}

module _ (user : User) (id : Text) (db0 : Database) where
  -- The links with those of the identifier revoked.
  abbrev Revoked : Assertion
  Revoked db disk = db.share_links ≡ update (is_share id user.id) revoked db0.share_links

  abbrev RevokedOnSuccess : Response ShareBody → Assertion
  RevokedOnSuccess r db disk = status r < 400 → Revoked db disk

  update-Revoked :
      (db : Database) (n : ℕ)
      → update_shares (is_share id user.id) revoked db0 ≡ some (db, n)
      → db.share_links ≡ update (is_share id user.id) revoked db0.share_links
  unfolding update_shares
  update-Revoked db n e = ground arith

  revoke-Triple :
      Triple (λ db disk. db ≡ db0) RevokedOnSuccess (λ _. Revoked) (revoke_handler (some user) id)
  unfolding revoke_handler authenticated or_reply
  revoke-Triple =
      bind-Triple {Q = λ v db disk. (db ≡ db0) × (v ≡ user)} (record { run = λ w h. (h, refl) })
        λ u. pull λ same.
          bind-Triple {Q = λ _. Revoked}
            (execute-Triple _ _ (λ db disk h k. absurd (omega arith))
              (λ db disk db' n h e. update-Revoked db' n (rw (← same, ← h) e)))
            λ n.
              bind-Triple (require-Triple _ _ (λ db disk h k. h))
                λ _. reply-Triple _ (λ db disk h k. h.0)

  revoked_after :
      (o : Outcome ShareBody (Unit {0})) (db : Database) (disk : Disk) (r : Response ShareBody)
      → Post RevokedOnSuccess (λ _. Revoked) o db disk
      → o ≡ stop r
      → status r < 400
      → db.share_links ≡ update (is_share id user.id) revoked db0.share_links
  revoked_after (stop s) db disk r h e k = let q : s ≡ r = cc e in h (rw q k)
  revoked_after (next s) db disk r h e k = absurd (cc e)

inactive : (s t : ShareRow) → some (revoked s) ≡ some t → t.is_active ≡ false
inactive s t e = let same : revoked s ≡ t = cc e in rw (← same) refl

-- Once the owner of a link has revoked it and got a success, a public request with its token that
-- comes next is answered with an error, whichever calls fail in the one request or in the other.
pub revoked_link_refused :
    (env : Env) (user : User) (id token : Text) (q : ShareQuery) (w : World) (s : ShareRow)
    (done answer : Response ShareBody)
    → find (has_token token) w.db.share_links ≡ some s
    → is_share id user.id s ≡ true
    → (revoke_handler (some user) id w).0 ≡ stop done
    → status done < 400
    → (public_share_router env token q (revoke_handler (some user) id w).1).0 ≡ stop answer
    → 400 ≤ status answer
revoked_link_refused env user id token q w s done answer h own e k f =
    let (o, w') = revoke_handler (some user) id w in
    let links : (revoke_handler (some user) id w).1.db.share_links
        ≡ update (is_share id user.id) revoked w.db.share_links =
      revoked_after user id w.db _ (revoke_handler (some user) id w).1.db _ done
        ((revoke-Triple user id w.db).run w refl) e k in
    let found : find (has_token token) (revoke_handler (some user) id w).1.db.share_links
        ≡ some (revoked s) =
      rw (links) (
        rw own at (
          find-update (has_token token) (is_share id user.id) revoked w.db.share_links (λ y. refl)
            h)) in
    elim (Bool-cases (ltb (status answer) 400)) [
      | inr low ↦ ground arith
      | inl low ↦
          let (t, seen, usable) =
            served-IsOpen env token q (revoke_handler (some user) id w).1 answer f (ground arith) in
          let off = inactive s t (sym found ∙ seen) in absurd (let a = usable.active in cc)
    ]
