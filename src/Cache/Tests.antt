-- ===== src/Cache/Tests.antt =====
-- The cache on examples: statements are numbers.
use mathlib.Core.List.{Perm}
use relica.Prelude.{ℕ, ◌≡◌, refl, Bool, true, false, List, [], ◌∷◌, ◌++◌, ◌⊎◌, All}
use relica.Text.{Text, codes}
use relica.Prelude.Ints.{pos, negsuc}
use relica.Cache.{
  Entry, StmtCache, get, clamp_capacity, evict_oldest, Call, get_call, set_call, run,
  new_stmt_cache_with_capacity,
}
use relica.Cache.Entries.{IsPinned}
use relica.Cache.Lru.{view, lru_run, lru_refines}
use relica.Prelude.Maps.{lookup}
use relica.Cache.Invariant.{IsValid, reachable-IsValid}
use relica.Cache.Ownership.{owned, all_given, run-owned}
use relica.Cache.Pins.{Holds, run-Holds}

abbrev a : Text
a = codes "a"

abbrev b : Text
b = codes "b"

abbrev entry : Text → ℕ → Bool → Entry ℕ
entry k s p = record { key = k; stmt = s; pinned = p }

-- A full cache of two, with one entry pinned.
abbrev half_pinned : StmtCache ℕ
half_pinned = record {
  capacity = 2;
  entries = entry a 1 true ∷ entry b 2 false ∷ [];
  hits = 0;
  misses = 2;
  evictions = 0;
  closed = [];
}

abbrev all_pinned : StmtCache ℕ
all_pinned = record half_pinned { entries = entry a 1 true ∷ entry b 2 true ∷ [] }

abbrev calls : List (Call ℕ)
calls =
    set_call a 1
    ∷ set_call b 2
    ∷ get_call a
    ∷ set_call (codes "c") 3
    ∷ set_call a 4
    ∷ get_call b
    ∷ []

abbrev small : StmtCache ℕ
small = new_stmt_cache_with_capacity (pos 2)

run-owned_example : Perm (owned (run calls small)) (all_given calls)
run-owned_example = run-owned (pos 2) calls

reachable-IsValid_example : IsValid (run calls (new_stmt_cache_with_capacity (negsuc 4)))
reachable-IsValid_example = reachable-IsValid (negsuc 4) calls

run-Holds_example :
    Holds a 1 (run (set_call b 5 ∷ set_call (codes "c") 6 ∷ get_call b ∷ []) half_pinned).entries
run-Holds_example =
    run-Holds a 1 (set_call b 5 ∷ set_call (codes "c") 6 ∷ get_call b ∷ []) half_pinned
      (refl, (refl, (tt, tt))) (entry a 1 true, refl, refl, refl)

abbrev Evicts : StmtCache ℕ → Type 0
Evicts c =
    All IsPinned c.entries × (evict_oldest c ≡ c)
    ⊎ ((v : Entry ℕ) × (before after : List (Entry ℕ)) × (c.entries ≡ before ++ v ∷ after)
        × (v.pinned ≡ false)
        × All IsPinned after
        × ((evict_oldest c).entries ≡ before ++ after)
        × ((evict_oldest c).closed ≡ c.closed ++ v.stmt ∷ []))

abbrev lru_calls : List (Call ℕ)
lru_calls =
    set_call (codes "a") 1
    ∷ set_call (codes "b") 2
    ∷ get_call (codes "a")
    ∷ set_call (codes "c") 3
    ∷ get_call (codes "b")
    ∷ []

lru_refines_example :
    (view (run lru_calls (new_stmt_cache_with_capacity (pos 2))).entries
      ≡ lru_run (clamp_capacity (pos 2)) lru_calls [])
    × ((get (codes "a") (run lru_calls (new_stmt_cache_with_capacity (pos 2)))).0
        ≡ lookup (codes "a") (lru_run (clamp_capacity (pos 2)) lru_calls []))
lru_refines_example = lru_refines (pos 2) lru_calls (codes "a") (tt, (tt, (tt, (tt, (tt, tt)))))
