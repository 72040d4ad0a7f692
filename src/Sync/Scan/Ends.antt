-- ===== src/Sync/Scan/Ends.antt =====
-- The listing loop of crates/smfs-core/src/sync/scan.rs ends.
use smfs.Prelude.{
  ℕ, zero, suc, ◌+◌, ◌≤◌, leb, leb_iff, true, List, ◌≡◌, ◌≢◌, inl, inr, refl, arith, Bool-cases,
  Option-cases,
}
use smfs.Prelude.Eq.{Text}
use smfs.Prelude.Text.{is_empty}
use smfs.Sync.Listing.{Server, Ran, returned, failed, unfinished, HasPages}
use smfs.Sync.Scan.{listed_ids, add_ids, ids_of}

add_ids-ends : (ids : List Text) (r : Ran (List Text)) → r ≢ unfinished → add_ids ids r ≢ unfinished
add_ids-ends ids (returned more) h = λ e. cc e
add_ids-ends ids failed h = λ e. cc e
add_ids-ends ids unfinished h = λ e. h refl

-- Where no answer promises more than `n` pages, the listing from any page on ends in the rounds that
-- are left up to page `n`, and one more.
pub listed_ids-ends :
    (n fuel page : ℕ) (server : Server)
    → HasPages n server
    → n ≤ fuel + page
    → listed_ids (suc fuel) server page ≢ unfinished
unfolding listed_ids
listed_ids-ends n zero page server few low = elim (Option-cases (server page)) [
  | inl refused ↦ rw (listed_ids, refused) (λ e. cc e)
  | inr (resp, answer) ↦
      let total = few page resp answer in
      let last : leb resp.total_pages page ≡ true =
        (leb_iff resp.total_pages page).1 (omega (arith, total, low)) in
      rw (listed_ids, answer, last)
        (elim (Bool-cases (is_empty resp.memories)) [
          | inl none_left ↦ rw none_left (λ e. cc e)
          | inr more ↦ rw more (λ e. cc e)
        ])
]
listed_ids-ends n (suc fuel) page server few low = elim (Option-cases (server page)) [
  | inl refused ↦ rw (listed_ids, refused) (λ e. cc e)
  | inr (resp, answer) ↦
      let rest = listed_ids-ends n fuel (page + 1) server few (omega (arith, low)) in
      rw (listed_ids, answer)
        (elim (Bool-cases (is_empty resp.memories)) [
          | inl none_left ↦ rw none_left (λ e. cc e)
          | inr more ↦ elim (Bool-cases (leb resp.total_pages page)) [
            | inl last ↦ rw (more, last) (λ e. cc e)
            | inr further ↦ rw (more, further) (add_ids-ends (ids_of resp.memories) _ rest)
          ]
        ])
]
