-- ===== src/Files/Folders/Atomic.antt =====
-- The transactions of PatchFolderHandler and DeleteFolderHandler: all of their statements or none.
use my_personal_cloud.Prelude.{◌≤◌, ◌≡◌}
use my_personal_cloud.World.{Database, World, Response, status}
use my_personal_cloud.World.Triple.{Triple, Assertion}
use my_personal_cloud.Files.Api.{Body}

module _ (db0 : Database) where
  -- The database is as at the beginning.
  abbrev Same : Assertion
  Same db disk = db ≡ db0

  -- It is so unless the response is a success.
  abbrev SameOnError : Response Body → Assertion
  SameOnError r db disk = 400 ≤ status r → db ≡ db0

  -- Nothing is known of the database.
  abbrev Free : Assertion
  Free db disk = Unit
