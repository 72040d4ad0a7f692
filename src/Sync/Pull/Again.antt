-- ===== src/Sync/Pull/Again.antt =====
-- The watermark of the delta pull (crates/smfs-core/src/sync/pull.rs).
use smfs.Prelude.{
  ℕ, zero, suc, ◌+◌, leb, true, false, not, ◌&&◌, ◌||◌, Option, some, List, [], ◌∷◌, ◌≡◌, inl, inr,
  refl, sym, ap, ◌∙◌, arith, Bool-cases, Option-cases,
}
use mathlib.Core.Path.{subst}
use smfs.Prelude.Eq.{Text, text_eq, text_beq_iff, ◌==◌, beq_refl}
use smfs.Prelude.Text.{is_empty}
use smfs.Prelude.Map.{get-insert}
use smfs.Cache.Fs.{LruCache, Fs, Clock}
use smfs.Cache.Fs.Reconcile.{Document, or_empty}
use smfs.Sync.Listing.{Page, Server, Ran, returned, failed, unfinished}
use smfs.Sync.Pull.{
  text_leb, Meta, sync_meta_get, last_seen_updated_at, Response, Progress, Synced, newer_of,
  pull_document, pull_page, pull_pages, start, finish, delta_pull,
}
use smfs.Sync.Pull.Order.{text_leb_refl, text_leb_trans, text_leb_total, text_leb-is_empty}

newer_of-old : (a b : Text) → text_leb b (newer_of a b) ≡ true
newer_of-old a b = elim (Bool-cases (text_leb a b)) [
  | inl older ↦ rw (newer_of, older) (text_leb_refl b)
  | inr newer ↦ rw (newer_of, newer) (text_leb_total a b newer)
]

newer_of-new : (a b : Text) → text_leb a (newer_of a b) ≡ true
newer_of-new a b = elim (Bool-cases (text_leb a b)) [
  | inl older ↦ rw (newer_of, older) older
  | inr newer ↦ rw (newer_of, newer) (text_leb_refl a)
]

module _ ⦃lru : LruCache⦄ (clock : Clock) (parse_iso : Text → Option ℕ)
    (fetch : Text → Option Response) (meanwhile : Fs → Fs) where
  -- The newest time after a step is not older than `a`.
  abbrev Covers : Text → Progress → Type 0
  Covers a p = text_leb a p.newest_seen ≡ true

  pull_document-Covers :
      (a : Text) (doc : Document) (p : Progress)
      → Covers a p
      → Covers a (pull_document clock parse_iso fetch meanwhile doc p)
  unfolding pull_document
  pull_document-Covers a doc p h =
      text_leb_trans a p.newest_seen (newer_of doc.updated_at p.newest_seen) h
        (newer_of-old doc.updated_at p.newest_seen)

  pull_page-Covers :
      (a last_seen : Text) (docs : List Document) (p : Progress)
      → Covers a p
      → Covers a (pull_page clock parse_iso fetch meanwhile last_seen docs p).0
  unfolding pull_page
  pull_page-Covers a last_seen [] p h = h
  pull_page-Covers a last_seen (doc ∷ docs) p h =
      elim (Bool-cases (not (is_empty last_seen) && text_leb doc.updated_at last_seen)) [
        | inl stops ↦ rw (pull_page, stops) h
        | inr goes ↦
            rw (pull_page, goes)
              (pull_page-Covers a last_seen docs _ (pull_document-Covers a doc p h))
      ]

  pull_page-first :
      (last_seen : Text) (doc : Document) (docs : List Document) (p : Progress)
      → Covers last_seen p
      → Covers doc.updated_at (pull_page clock parse_iso fetch meanwhile last_seen (doc ∷ docs) p).0
  unfolding pull_page pull_document
  pull_page-first last_seen doc docs p h =
      elim (Bool-cases (not (is_empty last_seen) && text_leb doc.updated_at last_seen)) [
        | inl stops ↦
            let older : text_leb doc.updated_at last_seen ≡ true = ground (arith, stops) in
            rw (pull_page, stops) (text_leb_trans doc.updated_at last_seen p.newest_seen older h)
        | inr goes ↦
            rw (pull_page, goes)
              (pull_page-Covers doc.updated_at last_seen docs _
                (newer_of-new doc.updated_at p.newest_seen))
      ]

  pull_pages-Covers :
      (a : Text) (fuel : ℕ) (server : Server) (last_seen : Text) (page : ℕ) (p : Progress)
      → Covers a p
      → Covers a (pull_pages clock parse_iso fetch meanwhile fuel server last_seen page p).0
  unfolding pull_pages
  pull_pages-Covers a zero server last_seen page p h = h
  pull_pages-Covers a (suc fuel) server last_seen page p h = elim (Option-cases (server page)) [
    | inl refused ↦ rw (pull_pages, refused) h
    | inr (resp, answer) ↦ elim (Bool-cases (is_empty resp.memories)) [
      | inl ends ↦ rw (pull_pages, answer, ends) h
      | inr more ↦
          let r = pull_page clock parse_iso fetch meanwhile last_seen resp.memories p in
          let kept = pull_page-Covers a last_seen resp.memories p h in
          elim (Bool-cases (r.1 || leb resp.total_pages page)) [
            | inl last ↦ rw (pull_pages, answer, more, last) kept
            | inr further ↦
                rw (pull_pages, answer, more, further)
                  (pull_pages-Covers a fuel server last_seen (page + 1) r.0 kept)
          ]
    ]
  ]

  pull_pages-first :
      (fuel : ℕ) (server : Server) (last_seen : Text) (page : ℕ) (p : Progress) (resp : Page)
      (doc : Document) (docs : List Document)
      → server page ≡ some resp
      → resp.memories ≡ doc ∷ docs
      → Covers last_seen p
      → Covers doc.updated_at
          (pull_pages clock parse_iso fetch meanwhile (suc fuel) server last_seen page p).0
  unfolding pull_pages
  pull_pages-first fuel server last_seen page p resp doc docs answer memories h =
      let r = pull_page clock parse_iso fetch meanwhile last_seen resp.memories p in
      let more : is_empty resp.memories ≡ false = ap is_empty memories in
      let kept : Covers doc.updated_at r.0 =
        subst
          (λ ds. Covers doc.updated_at (pull_page clock parse_iso fetch meanwhile last_seen ds p).0)
          (sym memories) (pull_page-first last_seen doc docs p h) in
      elim (Bool-cases (r.1 || leb resp.total_pages page)) [
        | inl last ↦ rw (pull_pages, answer, more, last) kept
        | inr further ↦
            rw (pull_pages, answer, more, further)
              (pull_pages-Covers doc.updated_at fuel server last_seen (page + 1) r.0 kept)
      ]

  -- The watermark after a pull that has returned is the newest time.
  finish-last_seen :
      (last_seen : Text) (meta : Meta) (r : Progress × Ran (Unit {0})) (t : Synced) (n : ℕ)
      → or_empty (sync_meta_get last_seen_updated_at meta) ≡ last_seen
      → is_empty r.0.newest_seen ≡ false
      → finish last_seen meta r ≡ (t, returned n)
      → or_empty (sync_meta_get last_seen_updated_at t.meta) ≡ r.0.newest_seen
  finish-last_seen last_seen meta (p, failed) t n was some_newest done =
      let ends = ap (λ (x : Synced × Ran ℕ). x.1) done in absurd (cc ends)
  finish-last_seen last_seen meta (p, unfinished) t n was some_newest done =
      let ends = ap (λ (x : Synced × Ran ℕ). x.1) done in absurd (cc ends)
  finish-last_seen last_seen meta (p, returned _) t n was some_newest done =
      let left =
        ap (λ (x : Synced × Ran ℕ). or_empty (sync_meta_get last_seen_updated_at x.0.meta))
          (sym done) in
      elim (Bool-cases (p.newest_seen == last_seen)) [
        | inl same ↦
            let equal : p.newest_seen ≡ last_seen = (text_beq_iff p.newest_seen last_seen).0 same in
            left ∙ rw (some_newest, same) (was ∙ sym equal)
        | inr differ ↦
            left
            ∙ rw
                (
                  some_newest,
                  differ,
                  get-insert last_seen_updated_at last_seen_updated_at p.newest_seen meta,
                )
                refl
      ]

  -- The second pull, where the first page starts with a document that is not newer.
  stops_at_once :
      (fuel : ℕ) (server : Server) (s : Synced) (resp : Page) (doc : Document)
      (docs : List Document)
      → server 1 ≡ some resp
      → resp.memories ≡ doc ∷ docs
      → is_empty doc.updated_at ≡ false
      → text_leb doc.updated_at (or_empty (sync_meta_get last_seen_updated_at s.meta)) ≡ true
      → delta_pull clock parse_iso fetch meanwhile (suc fuel) (some server) s ≡ (s, returned 0)
  unfolding delta_pull pull_pages pull_page
  stops_at_once fuel server s resp doc docs answer memories dated older =
      let seen = text_leb-is_empty doc.updated_at _ older dated in
      let more : is_empty resp.memories ≡ false = ap is_empty memories in
      rw (delta_pull, pull_pages, answer, memories, pull_page, seen, older, beq_refl, seen) refl

  -- Whatever the outcomes of its documents were, errors included: after a delta pull that has
  -- returned, a delta pull against a server whose first page starts with the same document does
  -- nothing, where that document has a time.
  pub delta_pull_again :
      (fuel fuel' : ℕ) (server server' : Server) (s t : Synced) (n : ℕ) (resp resp' : Page)
      (doc : Document) (docs docs' : List Document)
      → server 1 ≡ some resp
      → resp.memories ≡ doc ∷ docs
      → server' 1 ≡ some resp'
      → resp'.memories ≡ doc ∷ docs'
      → is_empty doc.updated_at ≡ false
      → delta_pull clock parse_iso fetch meanwhile (suc fuel) (some server) s ≡ (t, returned n)
      → delta_pull clock parse_iso fetch meanwhile (suc fuel') (some server') t ≡ (t, returned 0)
  unfolding delta_pull
  delta_pull_again fuel fuel' server server' s t n resp resp' doc docs docs' answer memories answer'
        memories' dated done =
      let last_seen = or_empty (sync_meta_get last_seen_updated_at s.meta) in
      let r =
        pull_pages clock parse_iso fetch meanwhile (suc fuel) server last_seen 1
          (start last_seen s) in
      let covers =
        pull_pages-first fuel server last_seen 1 (start last_seen s) resp doc docs answer memories
          (text_leb_refl last_seen) in
      let written =
        finish-last_seen last_seen s.meta r t n refl
          (text_leb-is_empty doc.updated_at r.0.newest_seen covers dated) done in
      stops_at_once fuel' server' t resp' doc docs' answer' memories' dated
        (ap (text_leb doc.updated_at) written ∙ covers)
