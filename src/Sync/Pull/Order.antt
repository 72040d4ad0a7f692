-- ===== src/Sync/Pull/Order.antt =====
-- The order of the documents' times in crates/smfs-core/src/sync/pull.rs, as texts.
use smfs.Prelude.{true, false, [], ◌∷◌, ◌≡◌, refl, arith, eqb_iff}
use smfs.Prelude.Eq.{Text, nat_eq}
use smfs.Prelude.Text.{is_empty}
use smfs.Sync.Pull.{text_leb}

pub text_leb_refl : (a : Text) → text_leb a a ≡ true
text_leb_refl [] = refl
text_leb_refl (c ∷ a) = ground (arith, eqb_iff c c, text_leb_refl a)

pub text_leb_trans :
    (a b c : Text) → text_leb a b ≡ true → text_leb b c ≡ true → text_leb a c ≡ true
text_leb_trans [] b c h k = refl
text_leb_trans (x ∷ a) [] c h k = cc
text_leb_trans (x ∷ a) (y ∷ b) [] h k = cc
text_leb_trans (x ∷ a) (y ∷ b) (z ∷ c) h k =
    ground (arith, h, k, eqb_iff x y, eqb_iff y z, eqb_iff x z, text_leb_trans a b c)

pub text_leb_total : (a b : Text) → text_leb a b ≡ false → text_leb b a ≡ true
text_leb_total [] b h = cc
text_leb_total (x ∷ a) [] h = refl
text_leb_total (x ∷ a) (y ∷ b) h = ground (arith, h, eqb_iff x y, eqb_iff y x, text_leb_total a b)

pub text_leb-is_empty : (a b : Text) → text_leb a b ≡ true → is_empty a ≡ false → is_empty b ≡ false
text_leb-is_empty [] b h k = cc
text_leb-is_empty (x ∷ a) [] h k = cc
text_leb-is_empty (x ∷ a) (y ∷ b) h k = refl
