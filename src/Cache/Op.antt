-- ===== src/Cache/Op.antt =====
-- `PushOp` of crates/smfs-core/src/cache/db.rs and its text form in the `op` columns.
use smfs.Prelude.{Option, none, some, if◌then◌else◌, ◌≡◌, refl, ◌↔◌, arith}
use smfs.Prelude.Eq.{Text, text_eq, text_beq_iff, bytes, ◌==◌}

pub data PushOp : Type 0 where
  create update delete rename upload_binary : PushOp

unfoldable pub as_str : PushOp → Text
as_str create = bytes "create"
as_str update = bytes "update"
as_str delete = bytes "delete"
as_str rename = bytes "rename"
as_str upload_binary = bytes "upload_binary"

unfoldable pub parse : Text → Option PushOp
parse s =
    if s == bytes "create"
    then some create
    else if s == bytes "update"
    then some update
    else if s == bytes "delete"
    then some delete
    else if s == bytes "rename"
    then some rename
    else if s == bytes "upload_binary"
    then some upload_binary
    else none

pub parse-as_str : (op : PushOp) → parse (as_str op) ≡ some op
unfolding parse as_str
parse-as_str create = refl
parse-as_str _ = refl

-- A text parses to an operation exactly when it is that operation's text form.
pub parse_iff : (s : Text) (op : PushOp) → (parse s ≡ some op) ↔ (s ≡ as_str op)
unfolding parse as_str
parse_iff s create = ground (arith, text_beq_iff s (bytes "create"))
parse_iff s op = ground (
  arith,
  text_beq_iff s (bytes "create"),
  text_beq_iff s (bytes "update"),
  text_beq_iff s (bytes "delete"),
  text_beq_iff s (bytes "rename"),
  text_beq_iff s (bytes "upload_binary"),
)

pub as_str-injective : (a b : PushOp) → as_str a ≡ as_str b → a ≡ b
as_str-injective a b e = cc (parse-as_str a, parse-as_str b)
