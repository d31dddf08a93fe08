-- ===== src/Ui/Pagination.antt =====
-- frontend/src/components/Pagination.tsx.
use punah_pustak.Common.{
  ◌↔◌, ℕ, zero, suc, ◌+◌, ◌-◌, ◌*◌, ◌/◌, ◌≤◌, ◌<◌, max, leb, [], ◌∷◌, arith, if◌then◌else◌,
}
use native.Mathlib.Nat.{le-div_iff_mul-le, div-mul-le_self, lt-div-mul-add}
use punah_pustak.Ui.View.{View, counts, button, Allows, Offers, Offers-Allows}

-- `Math.max(1, Math.ceil(total / pageSize))`
unfoldable pub total_pages : ℕ → ℕ → ℕ
total_pages page_size total = max 1 ((total + (page_size - 1)) / page_size)

pub data PageEvent : Type 0 where
  on_page_change : ℕ → PageEvent

unfoldable pub pagination : (page page_size total : ℕ) → View PageEvent
pagination page page_size total =
    let pages = total_pages page_size total in
    if leb pages 1
    then []
    else counts "Page {} of {}" (page ∷ pages ∷ [])
      ∷ button "Previous page" (leb page 1) (on_page_change (page - 1))
      ∷ button "Next page" (leb pages page) (on_page_change (page + 1))
      ∷ []

abbrev pub InRange : ℕ → ℕ → PageEvent → Type 0
InRange page_size total (on_page_change p) = (1 ≤ p) × (p ≤ total_pages page_size total)

pagination-Allows :
    (page page_size total : ℕ)
    → 1 ≤ page
    → page ≤ total_pages page_size total
    → Allows (InRange page_size total) (pagination page page_size total)
unfolding pagination
pagination-Allows page page_size total lo hi = ground arith

-- From a page in range, whatever the user can press leads to a page in range.
pub pagination-InRange :
    (page page_size total : ℕ) (e : PageEvent)
    → 1 ≤ page
    → page ≤ total_pages page_size total
    → Offers e (pagination page page_size total)
    → InRange page_size total e
pagination-InRange page page_size total e lo hi o =
    Offers-Allows _ e _ (pagination-Allows page page_size total lo hi) o

-- With pages of at least one item, the item at an index below the total stands on a page in range:
-- the page `i / page_size + 1`, which starts at or before `i` and ends after it.
pub item_has_page :
    (page_size total i : ℕ)
    → 0 < page_size
    → i < total
    → (i / page_size + 1 ≤ total_pages page_size total)
      × (i / page_size * page_size ≤ i)
      × (i < (i / page_size + 1) * page_size)
unfolding total_pages
item_has_page n total i h lt = (
  omega (arith, (le-div_iff_mul-le {k = n} {x = i / n + 1} {y = total + (n - 1)} h).1 fits),
  div-mul-le_self i n,
  omega (arith, lt-div-mul-add {a = i} h),
)
  where
    fits : (i / n + 1) * n ≤ total + (n - 1)
    fits = omega (arith, div-mul-le_self i n)

-- If there is an item at all, every page in range starts below the total: no page is empty.
pub page_has_item :
    (page_size total p : ℕ)
    → 0 < page_size
    → 0 < total
    → p + 1 ≤ total_pages page_size total
    → p * page_size < total
unfolding total_pages
page_has_item n total zero h some_item hi = omega arith
page_has_item n total (suc p) h some_item hi =
    omega
      (arith, (le-div_iff_mul-le {k = n} {x = suc p + 1} {y = total + (n - 1)} h).0 (omega arith))

-- With pages of at least one item, and at least one item in all, a page is in range exactly where its first item
-- exists: no page is empty, and no item is without its page.
pub page_iff_item :
    (page_size total p : ℕ)
    → 0 < page_size
    → 0 < total
    → (p + 1 ≤ total_pages page_size total) ↔ (p * page_size < total)
unfolding total_pages
page_iff_item n total p h k = (
  λ hi. page_has_item n total p h k (unfold total_pages in hi),
  λ lo. omega (
    arith,
    (le-div_iff_mul-le {k = n} {x = p + 1} {y = total + (n - 1)} h).1 (omega (arith, lo)),
  ),
)
