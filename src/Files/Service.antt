-- ===== src/Files/Service.antt =====
-- The authenticated requests of the file service, as cmd/server/main.go routes them.
pub mod Needs
pub mod Reads
pub mod Keeps
pub mod Isolation
pub mod Spared
pub mod Refusals
pub mod WellFormed
use my_personal_cloud.Prelude.{Option, Text}
use my_personal_cloud.World.{Env, Endpoint}
use my_personal_cloud.Auth.{User}
use my_personal_cloud.Files.Api.{Body, UploadForm, PatchBody, FolderBody}
use my_personal_cloud.Files.Listing.{list_handler, search_handler, trash_handler}
use my_personal_cloud.Files.Content.{upload_handler, download_handler}
use my_personal_cloud.Files.Changes.{
  patch_file_handler, delete_handler, restore_handler, empty_trash_handler,
}
use my_personal_cloud.Files.Folders.{
  create_folder_handler, patch_folder_handler, delete_folder_handler,
}

pub data Request : Type 0 where
  list : Text → Text → Text → Request
  search_names : Text → Text → Text → Request
  upload : Option UploadForm → Request
  download : Text → Text → Request
  patch_file : Text → Option PatchBody → Request
  delete_file : Text → Request
  restore : Text → Request
  create_folder : Option FolderBody → Request
  patch_folder : Text → Option PatchBody → Request
  delete_folder : Text → Request
  trash : Text → Text → Request
  empty_trash : Request

-- The handler of each route; its user is what the middleware put into the request.
unfoldable pub serve : Env → Option User → Request → Endpoint Body
serve env user (list path limit offset) = list_handler user path limit offset
serve env user (search_names q limit offset) = search_handler user q limit offset
serve env user (upload form) = upload_handler env user form
serve env user (download id inline) = download_handler env user id inline
serve env user (patch_file id body) = patch_file_handler user id body
serve env user (delete_file id) = delete_handler env user id
serve env user (restore id) = restore_handler user id
serve env user (create_folder body) = create_folder_handler env user body
serve env user (patch_folder id body) = patch_folder_handler user id body
serve env user (delete_folder id) = delete_folder_handler env user id
serve env user (trash limit offset) = trash_handler user limit offset
serve env user empty_trash = empty_trash_handler env user
