-- ===== src/Cache/Noise.antt =====
-- `is_macos_noise_path` of crates/smfs-core/src/cache/db.rs: files that macOS scatters over a volume,
-- and that are never sent to the server.
use smfs.Prelude.{Bool, false, ◌||◌, List, [], ◌∷◌, any, if◌then◌else◌}
use smfs.Prelude.Eq.{Text, text_eq, bytes, ◌==◌}
use smfs.Prelude.Text.{is_empty, starts_with, trim_start, split, first, last}

abbrev pub noise_roots : List Text
noise_roots =
    bytes ".Spotlight-V100" ∷ bytes ".Trashes" ∷ bytes ".fseventsd" ∷ bytes ".TemporaryItems" ∷ []

abbrev pub noise_names : List Text
noise_names =
    bytes ".DS_Store"
    ∷ bytes ".localized"
    ∷ bytes ".apdisk"
    ∷ bytes ".VolumeIcon.icns"
    ∷ bytes ".metadata_never_index"
    ∷ bytes ".metadata_never_index_unless_rootfs"
    ∷ bytes ".com.apple.timemachine.donotpresent"
    ∷ (b'I' ∷ b'c' ∷ b'o' ∷ b'n' ∷ 13 ∷ [])
    ∷ []

unfoldable pub is_noise_root : Text → Bool
is_noise_root component = any (λ r. starts_with r component) noise_roots

unfoldable pub is_noise_basename : Text → Bool
is_noise_basename basename =
    starts_with (bytes "._") basename || any (λ n. basename == n) noise_names

unfoldable pub is_macos_noise_path : Text → Bool
is_macos_noise_path filepath =
    let trimmed = trim_start b'/' filepath in
    if is_empty trimmed
    then false
    else (is_noise_root (first (split b'/' trimmed))
        || is_noise_basename (last (split b'/' trimmed)))
