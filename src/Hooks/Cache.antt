-- ===== src/Hooks/Cache.antt =====
-- The cache behind the hooks as a view of the server: what the listing mutations of useListings.ts have to invalidate
-- for a cached answer that counts as fresh to be the server's answer.
--
-- The server is a parameter: its states `S`, the `answer` to a query and what a mutation does to a state. A query is
-- fetched, and a mutation settles with its invalidations, in one event each; no time passes.
use punah_pustak.Common.{Bool, true, false, ◌==◌, ◌||◌, ◌≡◌, map, List, [], ◌∷◌}
use punah_pustak.Hooks.{
  Segment, Query, detail, admin_users, admin_listings, Mutation, create_listing, update_listing,
  delete_listing, mark_listing_sold, invalidates,
}

-- The mutations of a seller that change what is on record about a listing, its photos aside.
abbrev pub OfRecord : Mutation → Type 0
OfRecord create_listing = Unit
OfRecord (update_listing _) = Unit
OfRecord (delete_listing _) = Unit
OfRecord (mark_listing_sold _) = Unit
OfRecord _ = ⊥

module _ {A : Type 0} where
  -- The queries of buyers and sellers.
  abbrev pub OfMarket : Query A → Type 0
  OfMarket (admin_users _) = ⊥
  OfMarket (admin_listings _) = ⊥
  OfMarket _ = Unit

  -- Whether the answer to a query can depend on the listing that a mutation of the record names; a new listing has
  -- no page yet.
  abbrev pub reads_record : Mutation → Query A → Bool
  reads_record (update_listing id) (detail j) = id == j
  reads_record (delete_listing id) (detail j) = id == j
  reads_record (mark_listing_sold id) (detail j) = id == j
  reads_record _ (detail _) = false
  reads_record _ _ = true

pub data Event (A : Type 0) : Type 0 where
  fetch : Query A → Event A
  done : Mutation → Event A

-- An event of the market: one of its queries is fetched, or a mutation of the record is done.
abbrev pub OfSeller : {A : Type 0} → Event A → Type 0
OfSeller (fetch q) = OfMarket q
OfSeller (done m) = OfRecord m

-- What is cached under the key of a query, the latest answer first.
pub record Entry (A R : Type 0) : Type 0 where
  pub query : Query A
  pub cached : R
  pub is_stale : Bool

pub record World (A S R : Type 0) : Type 0 where
  pub server : S
  pub entries : List (Entry A R)

module _ {A S R : Type 0} (covers : List (Segment A) → List (Segment A) → Bool)
    (answer : S → Query A → R) (apply : Mutation → S → S) where
  abbrev marked : Mutation → Entry A R → Entry A R
  marked m e = record e { is_stale = e.is_stale || invalidates covers m e.query }

  abbrev pub step : Event A → World A S R → World A S R
  step (fetch q) w = record w {
    entries = record { query = q; cached = answer w.server q; is_stale = false } ∷ w.entries;
  }
  step (done m) w = record { server = apply m w.server; entries = map (marked m) w.entries }

  abbrev pub run : List (Event A) → World A S R → World A S R
  run [] w = w
  run (e ∷ es) w = run es (step e w)

  -- An entry of the market's that is not stale holds what the server would answer now.
  abbrev pub Fresh : S → Entry A R → Type 0
  Fresh s e = OfMarket e.query × (e.is_stale ≡ false → e.cached ≡ answer s e.query)
