-- ===== src/Files/Listing.antt =====
-- ListHandler, SearchHandler and TrashHandler of internal/files/files.go.
use my_personal_cloud.Prelude.{
  ℕ, ◌++◌, ◌==◌, Bool, not, ◌&&◌, ◌||◌, List, [], map, Option, none, some, Text, codes, ltb, filter,
}
use my_personal_cloud.GoPath.{trim_space}
use my_personal_cloud.Sql.{page, order_by, count, like, nocase_before}
use my_personal_cloud.World.{
  FileRow, FolderRow, Handler, Endpoint, error, json, ◌>>=◌, ◌>>◌, pure, reply, require, query,
  fetch, scan_all,
}
use my_personal_cloud.Auth.{User, authenticated}
use my_personal_cloud.Files.Names.{normalize_parent}
use my_personal_cloud.Files.Api.{
  Body, Folder, listing, found, trash, file_view, trash_view, folder_view, parse_pagination,
  owned_by, folder_owned_by, active_in, is_active, trashed_by,
}

abbrev pub by_name : FileRow → FileRow → Bool
by_name a b = nocase_before a.name b.name

abbrev pub folder_by_name : FolderRow → FolderRow → Bool
folder_by_name a b = nocase_before a.name b.name

-- `COUNT(*)` whose error is ignored: the count stays 0.
abbrev pub or_zero : Option ℕ → ℕ
or_zero none = 0
or_zero (some n) = n

unfoldable pub list_folders : ℕ → Text → ℕ → ℕ → Handler Body (List Folder)
list_folders user_id parent limit offset = do
  rows ←
      fetch
        (λ db. page limit offset (
          order_by folder_by_name
            (filter (λ r. folder_owned_by user_id r && r.parent_path == parent) db.folders)))
        (error 500 "list folders failed")
  scanned ← scan_all rows (error 500 "list folders failed")
  pure (map folder_view scanned)

unfoldable pub list_handler : Option User → Text → Text → Text → Endpoint Body
list_handler user path limit offset = do
  u ← authenticated user
  let parent = normalize_parent path
  let p = parse_pagination limit offset
  folders ← list_folders u.id parent p.0 p.1
  rows ←
      fetch (λ db. page p.0 p.1 (order_by by_name (filter (active_in u.id parent) db.files)))
        (error 500 "list files failed")
  scanned ← scan_all rows (error 500 "scan failed")
  total ← query (λ db. count (active_in u.id parent) db.files)
  reply (json 200 (listing parent folders (map file_view scanned) (or_zero total) p.0 p.1))

-- `ORDER BY CASE WHEN name LIKE ? THEN 0 ELSE 1 END, name COLLATE NOCASE`
abbrev pub match_first : Text → Text → Text → Bool
match_first q a b =
    let x = like q a in
    let y = like q b in (x && not y) || ((x && y || not x && not y) && nocase_before a b)

unfoldable pub search_handler : Option User → Text → Text → Text → Endpoint Body
search_handler user query_text limit offset = do
  u ← authenticated user
  let q = trim_space query_text
  require (not (q == [])) (error 400 "query parameter 'q' is required")
  let p = parse_pagination limit offset
  let pattern = codes "%" ++ q ++ codes "%"
  rows ←
      fetch
        (λ db. page p.0 p.1 (
          order_by (λ a b. match_first q a.name b.name)
            (filter (λ r. owned_by u.id r && is_active r && like pattern r.name) db.files)))
        (error 500 "search failed")
  scanned ← scan_all rows (error 500 "scan failed")
  folder_rows ←
      fetch
        (λ db. page p.0 p.1 (
          order_by (λ a b. match_first q a.name b.name)
            (filter (λ r. folder_owned_by u.id r && like pattern r.name) db.folders)))
        (error 500 "search failed")
  folders ← scan_all folder_rows (error 500 "scan failed")
  reply (json 200 (found (map file_view scanned) (map folder_view folders) p.0 p.1))

abbrev pub deleted_time : FileRow → ℕ
deleted_time r = elim (r.deleted_at) [ none ↦ 0 | some t ↦ t ]

unfoldable pub trash_handler : Option User → Text → Text → Endpoint Body
trash_handler user limit offset = do
  u ← authenticated user
  let p = parse_pagination limit offset
  rows ←
      fetch
        (λ db. page p.0 p.1 (
          order_by (λ a b. ltb (deleted_time b) (deleted_time a))
            (filter (trashed_by u.id) db.files)))
        (error 500 "list trash failed")
  scanned ← scan_all rows (error 500 "scan failed")
  total ← query (λ db. count (trashed_by u.id) db.files)
  reply (json 200 (trash (map trash_view scanned) (or_zero total) p.0 p.1))
