-- ===== src/InMemory/Sort.antt =====
-- `sort.SliceStable` of Go, for a comparison that may fail, as the provider uses it
-- (providers/inmemory/query.go and aggregate.go): once a comparison has failed, that error is the
-- result. The insertion sort is the one that Go runs on slices of up to twenty elements; on longer ones
-- Go merges such blocks.
pub mod Sorted
pub mod Ascending
use Prim.Native.Nat.{Ordering}
use kubling_providers.Base.{Bool, true, false, List, [], ◌∷◌, Result, ok, err, ◌>>=◌}
use mathlib.Core.List.{reverse}

abbrev pub is_less : Ordering → Bool
is_less Ordering.lt = true
is_less _ = false

-- `order < 0`, of a comparison
abbrev pub less_of : {F A : Type 0} → (A → A → Result F Ordering) → A → A → Result F Bool
less_of cmp l r = cmp l r >>= λ o. ok (is_less o)

module _ {F A : Type 0} (less : A → A → Result F Bool) where
  -- `x` put in after the elements that it is not less than; the last of them stands first.
  unfoldable pub insert_back : A → List A → Result F (List A)
  insert_back x [] = ok (x ∷ [])
  insert_back x (y ∷ ys) = less x y >>= λ before. elim before [
    | false ↦ ok (x ∷ y ∷ ys)
    | true ↦ insert_back x ys >>= λ zs. ok (y ∷ zs)
  ]

  unfoldable pub sort_back : List A → List A → Result F (List A)
  unfolding insert_back
  sort_back done [] = ok done
  sort_back done (x ∷ xs) = insert_back x done >>= λ more. sort_back more xs

  unfoldable pub stable_sort : List A → Result F (List A)
  unfolding sort_back
  stable_sort xs = sort_back [] xs >>= λ done. ok (reverse done)
