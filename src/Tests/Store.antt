-- ===== src/Tests/Store.antt =====
-- A store of two builds, one of which a lock pins.
use bottle.Common.{List, [], ◌∷◌, true}
use bottle.Common.Text.{Bytes, codes}
use bottle.Store.{StoreEntry, Folders, folder, no_folders, more_folders, scan_store}

abbrev entry_of : Bytes → StoreEntry
entry_of project = record { project = project; version = codes "1.3"; bytes = 7; newest = true }

abbrev two_builds : List StoreEntry
two_builds = entry_of (codes "curl.se") ∷ entry_of (codes "zlib.net") ∷ []

-- The builds are in the directories that an installation makes.
abbrev hashed : Folders
hashed =
    more_folders
      (folder (codes "zlib.net") 9
        (more_folders (folder (codes "v1.3.1-habcdefghijklmnop") 9 no_folders) no_folders))
      no_folders

abbrev scanned : List StoreEntry
scanned = scan_store hashed
