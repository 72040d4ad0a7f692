-- ===== src/Vfs/Error.antt =====
-- crates/smfs-core/src/vfs/error.rs. The errno constants of the `libc` crate are named, since their
-- values are the platform's.
use smfs.Prelude.{ℕ, ◌≡◌, refl, ◌⊎◌, inl, inr}
use mathlib.Core.Path.{subst}
use smfs.Prelude.Eq.{Text}

pub data VfsError : Type 0 where
  not_found already_exists not_a_directory is_a_directory not_a_symlink not_empty : VfsError
  invalid_path : Text → VfsError
  name_too_long : ℕ → VfsError
  root_operation invalid_rename symlink_loop permission_denied not_supported : VfsError
  io : Text → VfsError

pub data Errno : Type 0 where
  enoent eexist enotdir eisdir einval enotempty enametoolong eperm eacces eloop enotsup eio : Errno

unfoldable pub to_errno : VfsError → Errno
to_errno not_found = enoent
to_errno already_exists = eexist
to_errno not_a_directory = enotdir
to_errno is_a_directory = eisdir
to_errno not_a_symlink = einval
to_errno not_empty = enotempty
to_errno (invalid_path _) = einval
to_errno (name_too_long _) = enametoolong
to_errno root_operation = eperm
to_errno permission_denied = eacces
to_errno invalid_rename = einval
to_errno symlink_loop = eloop
to_errno not_supported = enotsup
to_errno (io _) = eio

-- `VfsResult`
pub data Result {ℓ} (A : Type ℓ) : Type ℓ where
  ok : A → Result A
  err : VfsError → Result A

infixl 5 ◌>>=◌
unfoldable pub ◌>>=◌ {ℓ κ} : {A : Type ℓ} {B : Type κ} → Result A → (A → Result B) → Result B
ok a >>= f = f a
err e >>= f = err e

pub Result-cases {ℓ} :
    {A : Type ℓ} (m : Result A) → ((a : A) × (m ≡ ok a)) ⊎ ((e : VfsError) × (m ≡ err e))
Result-cases (ok a) = inl (a, refl)
Result-cases (err e) = inr (e, refl)

-- A predicate of the value of a call that succeeds.
unfoldable pub OnOk {ℓ κ} : {A : Type ℓ} → (A → Type κ) → Result A → Type κ
OnOk P (ok a) = P a
OnOk P (err e) = Unit

pub OnOk-bind {ℓ κ μ} :
    {A : Type ℓ} {B : Type κ} (P : B → Type μ) (m : Result A) (f : A → Result B)
    → ((a : A) → m ≡ ok a → OnOk P (f a))
    → OnOk P (m >>= f)
unfolding ◌>>=◌ OnOk
OnOk-bind P (ok a) f h = h a refl
OnOk-bind P (err e) f h = tt

pub OnOk-get {ℓ κ} :
    {A : Type ℓ} (P : A → Type κ) (m : Result A) (a : A) → m ≡ ok a → OnOk P m → P a
unfolding OnOk
OnOk-get P (ok b) a e h = let same : b ≡ a = cc e in subst P same h
OnOk-get P (err b) a e h = cc e

pub OnOk-map {ℓ κ μ} :
    {A : Type ℓ} (P : A → Type κ) (Q : A → Type μ) (m : Result A)
    → ((a : A) → P a → Q a)
    → OnOk P m
    → OnOk Q m
unfolding OnOk
OnOk-map P Q (ok a) f h = f a h
OnOk-map P Q (err e) f h = tt
