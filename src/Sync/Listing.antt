-- ===== src/Sync/Listing.antt =====
-- The pages of `POST /v3/documents/list`, as crates/smfs-core/src/sync reads them. A server is a
-- function from page numbers to answers, `none` where the request fails.
use smfs.Prelude.{ℕ, ◌≤◌, Option, some, List, ◌≡◌}
use smfs.Cache.Fs.Reconcile.{Document}

-- `ListDocumentsResp` of api/dto.rs, the fields that are read
pub record Page : Type 0 where
  pub memories : List Document
  pub total_pages : ℕ

abbrev pub Server : Type 0
Server = ℕ → Option Page

-- The page size of both loops.
abbrev pub page_size : ℕ
page_size = 100

-- What a loop over pages ends with: a value, the error of a failed request, or no end within the
-- rounds it is given.
pub data Ran {ℓ} (A : Type ℓ) : Type ℓ where
  returned : A → Ran A
  failed : Ran A
  unfinished : Ran A

-- No answer promises more than `n` pages.
abbrev pub HasPages : ℕ → Server → Type 0
HasPages n server = (i : ℕ) (page : Page) → server i ≡ some page → page.total_pages ≤ n
