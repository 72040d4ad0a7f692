-- ===== src/Sync/Mime.antt =====
-- `guess_mime` of crates/smfs-core/src/sync/push.rs, and the test for UTF-8 text of Rust's standard
-- library, which decides how a file is sent.
use smfs.Prelude.{ℕ, ◌+◌, ◌-◌, Bool, false, ◌&&◌, ltb, leb, List, [], ◌∷◌, map, if◌then◌else◌}
use smfs.Prelude.Eq.{Text, text_eq, nat_eq, bytes, ◌==◌}
use smfs.Prelude.Text.{split, last}

abbrev pub to_lower : ℕ → ℕ
to_lower c = if leb b'A' c && leb c b'Z' then c + 32 else c

-- the arms of the `match`, in order
abbrev pub mime_table : List (Text × Text)
mime_table =
    (bytes "png", bytes "image/png")
    ∷ (bytes "jpg", bytes "image/jpeg")
    ∷ (bytes "jpeg", bytes "image/jpeg")
    ∷ (bytes "webp", bytes "image/webp")
    ∷ (bytes "gif", bytes "image/gif")
    ∷ (bytes "svg", bytes "image/svg+xml")
    ∷ (bytes "bmp", bytes "image/bmp")
    ∷ (bytes "pdf", bytes "application/pdf")
    ∷ (bytes "mp3", bytes "audio/mpeg")
    ∷ (bytes "wav", bytes "audio/wav")
    ∷ (bytes "m4a", bytes "audio/mp4")
    ∷ (bytes "aac", bytes "audio/aac")
    ∷ (bytes "flac", bytes "audio/flac")
    ∷ (bytes "ogg", bytes "audio/ogg")
    ∷ (bytes "aiff", bytes "audio/aiff")
    ∷ (bytes "aif", bytes "audio/aiff")
    ∷ (bytes "mp4", bytes "video/mp4")
    ∷ (bytes "mov", bytes "video/quicktime")
    ∷ (bytes "webm", bytes "video/webm")
    ∷ (bytes "csv", bytes "text/csv")
    ∷ (bytes "html", bytes "text/html")
    ∷ (bytes "htm", bytes "text/html")
    ∷ (bytes "xml", bytes "application/xml")
    ∷ (bytes "json", bytes "application/json")
    ∷ (bytes "doc", bytes "application/msword")
    ∷ (
      bytes "docx",
      bytes "application/vnd.openxmlformats-officedocument.wordprocessingml.document",
    )
    ∷ (bytes "xls", bytes "application/vnd.ms-excel")
    ∷ (bytes "xlsx", bytes "application/vnd.openxmlformats-officedocument.spreadsheetml.sheet")
    ∷ (bytes "ppt", bytes "application/vnd.ms-powerpoint")
    ∷ (
      bytes "pptx",
      bytes "application/vnd.openxmlformats-officedocument.presentationml.presentation",
    )
    ∷ []

abbrev pub find_mime : Text → List (Text × Text) → Text
find_mime ext [] = bytes "application/octet-stream"
find_mime ext ((e, mime) ∷ rest) = if e == ext then mime else find_mime ext rest

unfoldable pub guess_mime : Text → Text
guess_mime filename = find_mime (map to_lower (last (split b'.' filename))) mime_table

-- `std::str::from_utf8(…).is_ok()`: `need` bytes of a character are still to come, the next of them
-- between `low` and `high`
unfoldable pub utf8_rest : ℕ → ℕ → ℕ → List ℕ → Bool
utf8_rest need low high [] = need == 0
utf8_rest need low high (b ∷ rest) =
    let skip = utf8_rest 0 0 0 rest in
    let one = utf8_rest 1 128 191 rest in
    let two = utf8_rest 2 128 191 rest in
    let two_e0 = utf8_rest 2 160 191 rest in
    let two_ed = utf8_rest 2 128 159 rest in
    let three = utf8_rest 3 128 191 rest in
    let three_f0 = utf8_rest 3 144 191 rest in
    let three_f4 = utf8_rest 3 128 143 rest in
    let next = utf8_rest (need - 1) 128 191 rest in
    if ltb 0 need
    then leb low b && leb b high && next
    else if ltb b 128
    then skip
    else if ltb b 194
    then false
    else if ltb b 224
    then one
    else if b == 224
    then two_e0
    else if b == 237
    then two_ed
    else if ltb b 240
    then two
    else if b == 240
    then three_f0
    else if ltb b 244
    then three
    else if b == 244
    then three_f4
    else false

abbrev pub is_utf8 : List ℕ → Bool
is_utf8 content = utf8_rest 0 0 0 content
