-- ===== src/Cache/Profile/Tests.antt =====
-- The text of `profile.md` without a memory, which has no placeholder since the header alone has
-- five lines, and with one.
use smfs.Prelude.{none, some, [], ◌∷◌, ◌++◌, ◌≡◌, refl}
use smfs.Prelude.Eq.{bytes}
use smfs.Cache.Profile.{format_profile, profile_header}

no_memories : format_profile (record { static_memories = none; dynamic = some [] }) ≡ profile_header
unfolding format_profile
no_memories = refl

one_memory :
    format_profile (record { static_memories = some (bytes "likes tea" ∷ []); dynamic = none })
    ≡ profile_header ++ bytes "## Core Knowledge\n- likes tea\n\n"
unfolding format_profile
one_memory = refl
