-- ===== src/Cache.antt =====
-- internal/cache/stmt_cache.go: the LRU cache of prepared statements.
mod Tests
pub mod Entries
pub mod Invariant
pub mod Ownership
pub mod Pins
pub mod Size
pub mod Reads
pub mod Lru
use relica.Prelude.{
  ℕ, zero, suc, ◌+◌, ◌%◌, ◌^◌, leb, Bool, true, false, List, [], ◌∷◌, ◌++◌, map, if◌then◌else◌,
  Option, none, some, length,
}
use relica.Prelude.Ints.{ℤ, pos, negsuc}
use relica.Prelude.Maps.{text_eq}
use relica.Text.{Text}

-- `cacheEntry`.
pub record Entry (S : Type 0) : Type 0 where
  pub key : Text
  pub stmt : S
  pub pinned : Bool

-- `StmtCache`. The list is `lruList`, its front first; `items` holds the same entries by their
-- keys. `closed` logs the calls of `Close`, in order.
pub record StmtCache (S : Type 0) : Type 0 where
  pub capacity : ℕ
  pub entries : List (Entry S)
  pub hits : ℕ
  pub misses : ℕ
  pub evictions : ℕ
  pub closed : List S

abbrev pub default_stmt_cache_capacity : ℕ
default_stmt_cache_capacity = 1000

-- The default where the capacity, Go's `int`, is not positive.
abbrev pub clamp_capacity : ℤ → ℕ
clamp_capacity (pos zero) = default_stmt_cache_capacity
clamp_capacity (pos (suc n)) = suc n
clamp_capacity (negsuc n) = default_stmt_cache_capacity

-- `Add(1)` on an `atomic.Uint64`.
abbrev pub add_one : ℕ → ℕ
add_one n = (n + 1) % 2 ^ 64

module _ {S : Type 0} where
  abbrev pub new_stmt_cache_with_capacity : ℤ → StmtCache S
  new_stmt_cache_with_capacity n = record {
    capacity = clamp_capacity n;
    entries = [];
    hits = 0;
    misses = 0;
    evictions = 0;
    closed = [];
  }

  abbrev pub new_stmt_cache : StmtCache S
  new_stmt_cache = new_stmt_cache_with_capacity (pos default_stmt_cache_capacity)

  -- `elem, exists := sc.items[key]`.
  abbrev pub find : Text → List (Entry S) → Option (Entry S)
  find k [] = none
  find k (e ∷ es) = elim (text_eq k e.key) [ true ↦ some e | false ↦ find k es ]

  abbrev pub remove : Text → List (Entry S) → List (Entry S)
  remove k [] = []
  remove k (e ∷ es) = elim (text_eq k e.key) [ true ↦ es | false ↦ e ∷ remove k es ]

  -- `MoveToFront`, with what the entry is then.
  abbrev pub move_to_front : Entry S → List (Entry S) → List (Entry S)
  move_to_front e es = e ∷ remove e.key es

  -- `Get`.
  unfoldable pub get : Text → StmtCache S → Option S × StmtCache S
  get k c = elim (find k c.entries) [
    | none ↦ (none, record c { misses = add_one c.misses })
    | some e ↦
        (some e.stmt, record c { entries = move_to_front e c.entries; hits = add_one c.hits })
  ]

  -- The loop of `evictOldest` from the back: what is left, and the entry that is evicted; none
  -- where all are pinned.
  abbrev pub take_oldest : List (Entry S) → Option (List (Entry S) × Entry S)
  take_oldest [] = none
  take_oldest (e ∷ es) = elim (take_oldest es) [
    | some (rest, v) ↦ some (e ∷ rest, v)
    | none ↦ if e.pinned then none else some (es, e)
  ]

  unfoldable pub evict_oldest : StmtCache S → StmtCache S
  evict_oldest c = elim (take_oldest c.entries) [
    | none ↦ c
    | some (rest, v) ↦ record c {
      entries = rest;
      evictions = add_one c.evictions;
      closed = c.closed ++ v.stmt ∷ [];
    }
  ]

  -- `PushFront` of a new entry.
  abbrev pub push_front : Text → S → StmtCache S → StmtCache S
  push_front k s c = record c { entries = record { key = k; stmt = s; pinned = false } ∷ c.entries }

  -- `Set` for a key in the cache: the old statement is closed, the entry's pin stays.
  abbrev pub replace : S → Entry S → StmtCache S → StmtCache S
  replace s e c = record c {
    entries = move_to_front (record e { stmt = s }) c.entries;
    closed = c.closed ++ e.stmt ∷ [];
  }

  abbrev pub make_room : StmtCache S → StmtCache S
  make_room c = if leb c.capacity (length c.entries) then evict_oldest c else c

  -- `Set`.
  unfoldable pub set : Text → S → StmtCache S → StmtCache S
  set k s c = elim (find k c.entries) [
    | some e ↦ replace s e c
    | none ↦ push_front k s (make_room c)
  ]

  -- `Clear`: all are closed, from the front on.
  unfoldable pub clear : StmtCache S → StmtCache S
  clear c = record c { entries = []; closed = c.closed ++ map (λ e. e.stmt) c.entries }

  -- `entry.pinned = b`, in place.
  abbrev pub mark : Bool → Text → List (Entry S) → List (Entry S)
  mark b k [] = []
  mark b k (e ∷ es) = elim (text_eq k e.key) [
    | true ↦ record e { pinned = b } ∷ es
    | false ↦ e ∷ mark b k es
  ]

  abbrev pub mark_in : Bool → Text → StmtCache S → Bool × StmtCache S
  mark_in b k c = elim (find k c.entries) [
    | none ↦ (false, c)
    | some e ↦ (true, record c { entries = mark b k c.entries })
  ]

  -- `Pin`.
  unfoldable pub pin : Text → StmtCache S → Bool × StmtCache S
  pin k c = mark_in true k c

  -- `Unpin`.
  unfoldable pub unpin : Text → StmtCache S → Bool × StmtCache S
  unpin k c = mark_in false k c

  -- `IsPinned`.
  unfoldable pub is_pinned : Text → StmtCache S → Bool
  is_pinned k c = elim (find k c.entries) [ none ↦ false | some e ↦ e.pinned ]

-- `Stats`, without `HitRate`, a floating-point quotient of the two counters.
pub record Stats : Type 0 where
  pub size : ℕ
  pub capacity : ℕ
  pub hits : ℕ
  pub misses : ℕ
  pub evictions : ℕ

abbrev pub stats : {S : Type 0} → StmtCache S → Stats
stats c = record {
  size = length c.entries;
  capacity = c.capacity;
  hits = c.hits;
  misses = c.misses;
  evictions = c.evictions;
}

-- A call of one of the methods that lock the cache for writing.
pub data Call (S : Type 0) : Type 0 where
  get_call : Text → Call S
  set_call : Text → S → Call S
  clear_call : Call S
  pin_call : Text → Call S
  unpin_call : Text → Call S

module _ {S : Type 0} where
  -- The lock makes every run of the program one sequence of such calls.
  abbrev pub step : Call S → StmtCache S → StmtCache S
  step (get_call k) c = (get k c).1
  step (set_call k s) c = set k s c
  step clear_call c = clear c
  step (pin_call k) c = (pin k c).1
  step (unpin_call k) c = (unpin k c).1

  abbrev pub run : List (Call S) → StmtCache S → StmtCache S
  run [] c = c
  run (m ∷ ms) c = run ms (step m c)
