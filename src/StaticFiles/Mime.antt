-- ===== src/StaticFiles/Mime.antt =====
-- The table of media types of src/http_static.cpp.
use libasyik.Common.{List, [], ◌∷◌, Bytes, codes, bytes_eq, if◌then◌else◌}
use Prim.Native.String.{String}

abbrev mime_map : List (String × String)
mime_map =
    (".html", "text/html; charset=utf-8")
    ∷ (".htm", "text/html; charset=utf-8")
    ∷ (".css", "text/css")
    ∷ (".js", "application/javascript")
    ∷ (".mjs", "application/javascript")
    ∷ (".json", "application/json")
    ∷ (".xml", "application/xml")
    ∷ (".txt", "text/plain; charset=utf-8")
    ∷ (".md", "text/plain; charset=utf-8")
    ∷ (".svg", "image/svg+xml")
    ∷ (".png", "image/png")
    ∷ (".jpg", "image/jpeg")
    ∷ (".jpeg", "image/jpeg")
    ∷ (".gif", "image/gif")
    ∷ (".webp", "image/webp")
    ∷ (".ico", "image/x-icon")
    ∷ (".bmp", "image/bmp")
    ∷ (".woff", "font/woff")
    ∷ (".woff2", "font/woff2")
    ∷ (".ttf", "font/ttf")
    ∷ (".otf", "font/otf")
    ∷ (".mp4", "video/mp4")
    ∷ (".webm", "video/webm")
    ∷ (".mp3", "audio/mpeg")
    ∷ (".wav", "audio/wav")
    ∷ (".ogg", "audio/ogg")
    ∷ (".pdf", "application/pdf")
    ∷ (".zip", "application/zip")
    ∷ (".gz", "application/gzip")
    ∷ (".wasm", "application/wasm")
    ∷ []

mime_of : List (String × String) → Bytes → Bytes
mime_of [] ext = codes "application/octet-stream"
mime_of ((e, mime) ∷ es) ext =
    let rest = mime_of es ext in if bytes_eq (codes e) ext then codes mime else rest

pub get_mime_type : Bytes → Bytes
get_mime_type ext = mime_of mime_map ext
