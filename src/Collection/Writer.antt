-- ===== src/Collection/Writer.antt =====
-- `DomainCheckpointWriter` of julius/collection/checkpoints.py up to the hand-over of a package: what
-- `source_completed` keeps and which domains it closes. The table of domains is an argument, and the
-- program's is Domains.domain_sources. The order of `sorted` is a parameter.
use julius.Common.{
  String, Bool, not, ◌||◌, none, some, List, [], ◌∷◌, ◌++◌, map, all, elem, sort, get, put, find?,
  ◌==◌, string_eq, if◌then◌else◌,
}
use julius.Collection.Domains.{checkpoint_status}

-- What the writer reads of a CollectionHealth; its other fields are one value.
pub record CollectionHealth : Type 0 where
  pub source : String
  pub status : String
  pub details : String

-- The package of a domain. `payload` is what the account held of the domain at that moment.
pub record Package : Type 0 where
  pub domain : String
  pub status : String
  pub sources : List (String × String)
  pub collection_health : List CollectionHealth
  pub payload : String

-- `packages` are those handed to the single thread that persists them, in order.
pub record Writer : Type 0 where
  pub statuses : List (String × String)
  pub health : List (String × List CollectionHealth)
  pub closed : List String
  pub packages : List Package

abbrev pub opened : Writer
opened = record { statuses = []; health = []; closed = []; packages = [] }

-- A call of `source_completed`: the source, its entries, and the account's fields by domain.
pub record Completion : Type 0 where
  pub source : String
  pub entries : List CollectionHealth
  pub dataset : String → String

-- own.status if own is not None else "unavailable"
abbrev pub own_status : String → List CollectionHealth → String
own_status source entries = elim (find? (λ e. e.source == source) entries) [
  | none ↦ "unavailable"
  | some own ↦ own.status
]

-- self._statuses[name], which stands for every name of a domain that closes
abbrev pub status_at : String → List (String × String) → String
status_at name statuses = elim (get name statuses) [ none ↦ "" | some s ↦ s ]

-- self._health.get(source, [])
abbrev pub health_at : String → List (String × List CollectionHealth) → List CollectionHealth
health_at name health = elim (get name health) [ none ↦ [] | some es ↦ es ]

abbrev pub concat : List (List CollectionHealth) → List CollectionHealth
concat [] = []
concat (xs ∷ xss) = xs ++ concat xss

-- expected <= self._statuses.keys()
unfoldable pub is_complete : List String → List (String × String) → Bool
is_complete expected statuses = all (λ n. elem n (map (λ s. s.0) statuses)) expected

module _ (precedes : String → String → Bool) where
  abbrev pub sorted : List String → List String
  sorted = sort precedes

  -- {name: self._statuses[name] for name in sorted(expected)}
  unfoldable pub frozen_sources : List String → Writer → List (String × String)
  frozen_sources expected w = map (λ n. (n, status_at n w.statuses)) (sorted expected)

  abbrev pub package_of : String → List String → (String → String) → Writer → Package
  package_of domain expected dataset w = record {
    domain = domain;
    status = checkpoint_status (map (λ s. s.1) (frozen_sources expected w));
    sources = frozen_sources expected w;
    collection_health = concat (map (λ n. health_at n w.health) (sorted expected));
    payload = dataset domain;
  }

  -- `_close`
  unfoldable pub close : String → List String → (String → String) → Writer → Writer
  close domain expected dataset w = record w {
    closed = domain ∷ w.closed;
    packages = w.packages ++ package_of domain expected dataset w ∷ [];
  }

  -- The loop over the table.
  unfoldable pub close_complete :
      List (String × List String) → String → (String → String) → Writer → Writer
  close_complete [] source dataset w = w
  close_complete ((domain, expected) ∷ table) source dataset w =
      if elem domain w.closed || not (elem source expected)
      then close_complete table source dataset w
      else if is_complete expected w.statuses
      then close_complete table source dataset (close domain expected dataset w)
      else close_complete table source dataset w

  abbrev pub recorded : Completion → Writer → Writer
  recorded c w = record w {
    statuses = put c.source (own_status c.source c.entries) w.statuses;
    health = put c.source c.entries w.health;
  }

  unfoldable pub source_completed : List (String × List String) → Completion → Writer → Writer
  source_completed table c w = close_complete table c.source c.dataset (recorded c w)

  unfoldable pub complete_all : List (String × List String) → List Completion → Writer → Writer
  complete_all table [] w = w
  complete_all table (c ∷ cs) w = complete_all table cs (source_completed table c w)
