-- ===== src/Cache/Fs/Sample.antt =====
-- A dentry cache that drops nothing, and a small `SupermemoryFs` with it.
use smfs.Prelude.{ℕ, Option, none, some, List, [], ◌∷◌, ◌≡◌, refl, arith, if◌then◌else◌}
use smfs.Prelude.Eq.{Text, nat_eq, text_eq, bytes, ◌==◌}
use smfs.Prelude.Int.{pos}
use smfs.Prelude.Map.{Map, get, insert, remove, get-insert, get-remove}
use smfs.Vfs.Types.{Timestamp, from_secs}
use smfs.Cache.Fs.{LruCache, Fs, Clock}
use smfs.Cache.Fs.Table.{Key, key_eq}
use smfs.Cache.Fs.Coherence.Calls.{Call, run, new}

pub find_added :
    (k : Key) (i : ℕ) (j : Key) (c : Map Key ℕ) (l : ℕ)
    → get j (insert k i c) ≡ some l
    → if k == j then i ≡ l else get j c ≡ some l
find_added k i j c l found = ground (arith, get-insert k j i c, found)

pub find_nothing : (k : Key) → get {V = ℕ} k [] ≡ none
unfolding get
find_nothing k = refl

instance abbrev pub table_cache : LruCache
table_cache = record {
  Cache = Map Key ℕ;
  find = get;
  empty = [];
  touch = λ k c. c;
  put = insert;
  pop = remove;
  find-empty = find_nothing;
  find-touch = λ k j c. refl;
  find-put = find_added;
  find-pop = get-remove;
}

abbrev pub noon : Timestamp
noon = from_secs (pos 43200)

abbrev pub clock : Clock
clock = record { now = noon; ms = 43200000; instant = 7 }

-- a directory 2 `d`, a file 3 `a.md` in the root and a file 4 `b.md` in `d`
abbrev pub calls : List (Call × Clock)
calls =
    (Call.make_dir 1 (bytes "d") 0o755 0 0, clock)
    ∷ (Call.make_file 1 (bytes "a.md") 0o644 0 0, clock)
    ∷ (Call.make_file 2 (bytes "b.md") 0o644 0 0, clock)
    ∷ []

abbrev pub no_time : Text → Option ℕ
no_time w = none

abbrev pub tree : Fs
tree = run none no_time calls (new noon)
