-- ===== src/Shares/Links.antt =====
-- Which share links are served.
use my_personal_cloud.Prelude.{
  length, ℕ, ◌≤◌, ◌<◌, ◌≡◌, refl, ◌==◌, Bool, true, false, ◌&&◌, Option, none, some, Text, arith,
  find, ltb, leb, Bool-cases, inl, inr, ◌⊎◌, if◌then◌else◌, List, [], codes, String,
}
use my_personal_cloud.World.{
  Env, World, Database, Disk, FileRow, ShareRow, stream, reply, exec, Outcome, Response, stop, next,
  error, status, used, next_fault, ◌>>=◌, after, pure, require, or_reply, clock, fetch, query,
}
use my_personal_cloud.Sql.{update}
use my_personal_cloud.Storage.{abs, read_file, open_file, attempt, read_disk}
use my_personal_cloud.Shares.{ShareBody, update_shares}
use my_personal_cloud.Files.Changes.Contents.{calm}
use my_personal_cloud.Shares.Access.{
  ShareQuery, resolve_share, route_share, public_share_router, stream_shared_file, increment_views,
  one_view_more,
}

abbrev pub has_token : Text → ShareRow → Bool
has_token token s = s.token == token

-- The answer on what the query of a link has found.
abbrev verdict : ℕ → Option ShareRow → Outcome ShareBody ShareRow
verdict now none = stop (error 404 "not found")
verdict now (some s) =
    if s.is_active
    then if ltb s.expires_at now
      then stop (error 404 "share has expired")
      else if ltb 0 s.max_views && leb s.max_views s.current_views
      then stop (error 404 "share has reached maximum views")
      else next s
    else stop (error 404 "share has been revoked")

resolve_share_lem :
    (token : Text) (w : World) (o : Option ShareRow)
    → next_fault w.faults ≡ false
    → find (has_token token) w.db.share_links ≡ o
    → resolve_share token w ≡ (verdict w.now o, used w)
unfolding resolve_share fetch query or_reply require clock pure ◌>>=◌
resolve_share_lem token w none e f = rw (e, f) refl
resolve_share_lem token w (some s) e f =
    rw (e, f)
      (elim (Bool-cases s.is_active) [
        | inr a ↦ rw a refl
        | inl a ↦ elim (Bool-cases (ltb s.expires_at w.now)) [
          | inl b ↦ rw (a, b) refl
          | inr b ↦ elim (Bool-cases (ltb 0 s.max_views && leb s.max_views s.current_views)) [
            | inl c ↦ rw (a, b, c) refl
            | inr c ↦ rw (a, b, c) refl
          ]
        ]
      ])

resolve_share_fault :
    (token : Text) (w : World)
    → next_fault w.faults ≡ true
    → resolve_share token w ≡ (stop (error 404 "lookup share"), used w)
unfolding resolve_share fetch query or_reply ◌>>=◌
resolve_share_fault token w e = rw e refl

-- A link that can be used at a time.
pub record IsOpen (now : ℕ) (s : ShareRow) : Type 0 where
  pub active : s.is_active ≡ true
  pub lasting : now ≤ s.expires_at
  pub has_views : (s.max_views ≡ 0) ⊎ (s.current_views < s.max_views)

views_left : (most seen : ℕ) → (ltb 0 most && leb most seen) ≡ false → (most ≡ 0) ⊎ (seen < most)
views_left most seen c = elim (Bool-cases (ltb 0 most)) [
  | inl e ↦ inr (ground arith)
  | inr e ↦ inl (ground arith)
]

views_left_test :
    (most seen : ℕ) → (most ≡ 0) ⊎ (seen < most) → (ltb 0 most && leb most seen) ≡ false
views_left_test most seen (inl e) = ground arith
views_left_test most seen (inr e) = ground arith

refused :
    {X : Type 0} (message : String) (r : Response ShareBody)
    → ◌≡◌ {A = Outcome ShareBody (Unit {0})} (stop (error 404 message)) (stop r)
    → status r < 400
    → X
refused message r e k =
    let same : error 404 message ≡ r = cc e in
    let low : 404 < 400 = rw (← same) at k in absurd (omega arith)

verdict-status :
    (env : Env) (token : Text) (q : ShareQuery) (w : World) (o : Option ShareRow)
    (r : Response ShareBody)
    → (after (verdict w.now o, used w) (λ s. route_share env token q s s.file_id s.folder_id)).0
      ≡ stop r
    → status r < 400
    → (s : ShareRow) × (o ≡ some s) × IsOpen w.now s
verdict-status env token q w none r e k = refused "not found" r e k
verdict-status env token q w (some s) r e k = elim (Bool-cases s.is_active) [
  | inr a ↦ refused "share has been revoked" r (rw a at e) k
  | inl a ↦ elim (Bool-cases (ltb s.expires_at w.now)) [
    | inl b ↦ refused "share has expired" r (rw (a, b) at e) k
    | inr b ↦ elim (Bool-cases (ltb 0 s.max_views && leb s.max_views s.current_views)) [
      | inl c ↦ refused "share has reached maximum views" r (rw (a, b, c) at e) k
      | inr c ↦ (
        s,
        refl,
        record {
          active = a;
          lasting = ground arith;
          has_views = views_left s.max_views s.current_views c;
        },
      )
    ]
  ]
]

-- A public request that is answered with a success has found, under its token, a link that is
-- active, not expired, and below its maximum of views where it has one. This holds whichever calls
-- fail.
pub served-IsOpen :
    (env : Env) (token : Text) (q : ShareQuery) (w : World) (r : Response ShareBody)
    → (public_share_router env token q w).0 ≡ stop r
    → status r < 400
    → (s : ShareRow) × (find (has_token token) w.db.share_links ≡ some s) × IsOpen w.now s
unfolding public_share_router ◌>>=◌
served-IsOpen env token q w r e k = elim (Bool-cases (next_fault w.faults)) [
  | inl f ↦ refused "lookup share" r (rw (resolve_share_fault token w f) at e) k
  | inr f ↦
      verdict-status env token q w (find (has_token token) w.db.share_links) r
        (rw (resolve_share_lem token w (find (has_token token) w.db.share_links) f refl) at e) k
]

open_verdict : (now : ℕ) (s : ShareRow) → IsOpen now s → verdict now (some s) ≡ next s
open_verdict now s h =
    let a = h.active in
    let b : ltb s.expires_at now ≡ false = ground (arith, h.lasting) in
    let c : (ltb 0 s.max_views && leb s.max_views s.current_views) ≡ false =
      views_left_test s.max_views s.current_views h.has_views in
    rw (a, b, c) refl

increment_calm :
    (id : Text) (db : Database) (disk : Disk) (uuids now : ℕ)
    → increment_views id (calm db disk uuids now) ≡ (
      next tt,
      calm
          (record db { share_links = update (λ s. s.id == id) one_view_more db.share_links })
          disk
          uuids
          now,
    )
unfolding increment_views exec update_shares pure ◌>>=◌
increment_calm id db disk uuids now = refl

open_calm :
    (env : Env) (path : Text) (bytes : List ℕ) (db : Database) (disk : Disk) (uuids now : ℕ)
    → read_file (abs env.storage_root path) disk ≡ some bytes
    → open_file {B = ShareBody} env path (calm db disk uuids now)
      ≡ (next (some bytes), calm db disk uuids now)
unfolding open_file attempt read_disk ◌>>=◌
open_calm env path bytes db disk uuids now i = rw i refl

stream_calm :
    (env : Env) (id : Text) (s : ShareRow) (preview : Bool) (db : Database) (disk : Disk)
    (uuids now : ℕ) (f : FileRow) (bytes : List ℕ)
    → find (λ r. r.id == id) db.files ≡ some f
    → read_file (abs env.storage_root f.storage_path) disk ≡ some bytes
    → (stream_shared_file env id s preview (calm db disk uuids now)).0
      ≡ stop (
          stream f.mime_type (length bytes) (if preview then some (codes "inline") else none) bytes)
unfolding stream_shared_file fetch query or_reply pure reply ◌>>=◌
stream_calm env id s preview db disk uuids now f bytes e i =
    rw
      (
        e,
        increment_calm s.id db disk uuids now,
        e,
        open_calm env f.storage_path bytes _ disk uuids now i,
      )
      refl

-- Where no call fails, a request without a range or a condition to an open link of a folder is
-- answered with the whole contents of any file whose identifier the request names, and with their
-- real length, whoever owns the file and wherever it lies: neither the folder nor its owner is
-- compared with the file.
pub folder_link_streams_any_file :
    (env : Env) (token : Text) (q : ShareQuery) (db : Database) (disk : Disk) (uuids now : ℕ)
    (s : ShareRow) (folder_id : Text) (f : FileRow) (bytes : List ℕ)
    → find (has_token token) db.share_links ≡ some s
    → IsOpen now s
    → s.file_id ≡ none
    → s.folder_id ≡ some folder_id
    → (q.content == codes "1") ≡ false
    → (q.file_id == []) ≡ false
    → find (λ r. r.id == q.file_id) db.files ≡ some f
    → read_file (abs env.storage_root f.storage_path) disk ≡ some bytes
    → (public_share_router env token q (calm db disk uuids now)).0
      ≡ stop (
          stream f.mime_type
            (length bytes)
            (if q.preview == codes "1" then some (codes "inline") else none)
            bytes)
unfolding public_share_router route_share ◌>>=◌ stream_shared_file ◌==◌
folder_link_streams_any_file env token q db disk uuids now s g f bytes h k a b c d e i =
    rw
      (
        resolve_share_lem token (calm db disk uuids now) (some s) refl h,
        open_verdict now s k,
        a,
        b,
        c,
        d,
        stream_calm env q.file_id s (q.preview == codes "1") db disk uuids now f bytes e i,
      )
      refl
