-- ===== src/MimeTypes.antt =====
-- src/mime_types.cc
use foxy_4_web_server.Base.{List, [], ◌∷◌, if◌then◌else◌}
use foxy_4_web_server.Base.Bytes.{Bytes, codes, same}

abbrev mappings : List (Bytes × Bytes)
mappings =
    (codes "gif", codes "image/gif")
    ∷ (codes "htm", codes "text/html")
    ∷ (codes "css", codes "text/css")
    ∷ (codes "html", codes "text/html")
    ∷ (codes "jpg", codes "image/jpeg")
    ∷ (codes "jpeg", codes "image/jpeg")
    ∷ (codes "png", codes "image/png")
    ∷ (codes "txt", codes "text/plain")
    ∷ (codes "zip", codes "application/zip")
    ∷ (codes "avi", codes "video/x-msvideo")
    ∷ (codes "csv", codes "text/csv")
    ∷ (codes "doc", codes "application/msword")
    ∷ (
      codes "docx",
      codes "application/vnd.openxmlformats-officedocument.wordprocessingml.document",
    )
    ∷ (codes "gz", codes "application/gzip")
    ∷ (codes "json", codes "application/json")
    ∷ (codes "rar", codes "application/vnd.rar")
    ∷ (codes "tar", codes "application/x-tar")
    ∷ (codes "7z", codes "application/x-7z-compressed")
    ∷ []

-- The loop over the table: the first entry of that extension.
unfoldable pub find_type : Bytes → List (Bytes × Bytes) → Bytes
find_type extension [] = codes "application/octet-stream"
find_type extension ((e, type) ∷ more) = if same e extension then type else find_type extension more

unfoldable pub extension_to_type : Bytes → Bytes
unfolding find_type
extension_to_type extension = find_type extension mappings
