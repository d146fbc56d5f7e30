-- ===== src/Cache/Memory/Elements.antt =====
-- The recency list (Go's container/list) with the entries it holds.
use kubling_providers.Base.{
  ℕ, suc, ◌+◌, ◌<◌, ◌≡◌, refl, List, [], ◌∷◌, Option, none, some, length, All, nat_beq,
  if◌then◌else◌, arith, ◌==◌,
}
use kubling_providers.Cache.Keys.{QueryKey, CachedResult, key_eq, key_beq_iff}

pub record Element : Type 0 where
  pub handle : ℕ
  pub key : QueryKey
  pub result : CachedResult
  pub expires_at : ℕ

-- the element behind a pointer
unfoldable pub find_handle : ℕ → List Element → Option Element
find_handle h [] = none
find_handle h (x ∷ xs) = if nat_beq x.handle h then some x else find_handle h xs

-- `recency.Remove(element)`
unfoldable pub unlink : ℕ → List Element → List Element
unlink h [] = []
unlink h (x ∷ xs) = let rest = unlink h xs in if nat_beq x.handle h then rest else x ∷ rest

-- `recency.Back()`
unfoldable pub back : List Element → Option Element
back [] = none
back (x ∷ []) = some x
back (x ∷ y ∷ xs) = back (y ∷ xs)

-- What the elements are for: the newest element with a key, and the bytes held.
unfoldable pub find_key : QueryKey → List Element → Option Element
find_key k [] = none
find_key k (x ∷ xs) = if x.key == k then some x else find_key k xs

unfoldable pub total_size : List Element → ℕ
total_size [] = 0
total_size (x ∷ xs) = x.result.size + total_size xs

-- No handle and no key stands twice.
abbrev pub Distinct : List Element → Type 0
Distinct [] = Unit
Distinct (x ∷ xs) = (find_handle x.handle xs ≡ none) × (find_key x.key xs ≡ none) × Distinct xs

pub find_handle-unlink :
    (h j : ℕ) (xs : List Element)
    → find_handle j (unlink h xs) ≡ (if nat_beq h j then none else find_handle j xs)
unfolding find_handle unlink
find_handle-unlink h j [] = ground arith
find_handle-unlink h j (x ∷ xs) = ground (arith, find_handle-unlink h j xs)

pub unlink_missing : (h : ℕ) (xs : List Element) → find_handle h xs ≡ none → unlink h xs ≡ xs
unfolding find_handle unlink
unlink_missing h [] p = refl
unlink_missing h (x ∷ xs) p = ground (arith, unlink_missing h xs)

pub find_key-unlink-none :
    (k : QueryKey) (h : ℕ) (xs : List Element)
    → find_key k xs ≡ none
    → find_key k (unlink h xs) ≡ none
unfolding find_key unlink
find_key-unlink-none k h [] p = refl
find_key-unlink-none k h (x ∷ xs) p = ground (arith, find_key-unlink-none k h xs)

pub unlink-Distinct : (h : ℕ) (xs : List Element) → Distinct xs → Distinct (unlink h xs)
unfolding unlink
unlink-Distinct h [] d = tt
unlink-Distinct h (x ∷ xs) d = ground (
  arith,
  unlink-Distinct h xs d.2,
  find_handle-unlink h x.handle xs,
  find_key-unlink-none x.key h xs d.1,
  d.0,
)

-- The element found under a handle has it, and is the one found under its key.
pub find_handle_found :
    (h : ℕ) (el : Element) (xs : List Element)
    → Distinct xs
    → find_handle h xs ≡ some el
    → (el.handle ≡ h) × (find_key el.key xs ≡ some el)
unfolding find_handle find_key
find_handle_found h el [] d p = cc
find_handle_found h el (x ∷ xs) d p =
    ground (arith, find_handle_found h el xs d.2, key_beq_iff x.key el.key, d.1)

-- Unlinking the element of a key hides that key and no other.
pub find_key-unlink :
    (k : QueryKey) (h : ℕ) (el : Element) (xs : List Element)
    → Distinct xs
    → find_handle h xs ≡ some el
    → find_key k (unlink h xs) ≡ (if el.key == k then none else find_key k xs)
unfolding find_handle find_key unlink
find_key-unlink k h el [] d p = cc
find_key-unlink k h el (x ∷ xs) d p = ground (
  arith,
  find_key-unlink k h el xs d.2,
  find_handle_found h el xs d.2,
  unlink_missing h xs,
  key_beq_iff x.key k,
  key_beq_iff el.key k,
  d.0,
  d.1,
)

pub length-unlink :
    (h : ℕ) (el : Element) (xs : List Element)
    → Distinct xs
    → find_handle h xs ≡ some el
    → suc (length (unlink h xs)) ≡ length xs
unfolding find_handle unlink
length-unlink h el [] d p = cc
length-unlink h el (x ∷ xs) d p =
    ground (arith, length-unlink h el xs d.2, unlink_missing h xs, d.0)

pub total_size-unlink :
    (h : ℕ) (el : Element) (xs : List Element)
    → Distinct xs
    → find_handle h xs ≡ some el
    → total_size (unlink h xs) + el.result.size ≡ total_size xs
unfolding find_handle unlink total_size
total_size-unlink h el [] d p = cc
total_size-unlink h el (x ∷ xs) d p =
    ground (arith, total_size-unlink h el xs d.2, unlink_missing h xs, d.0)

pub find_key_found :
    (k : QueryKey) (el : Element) (xs : List Element)
    → Distinct xs
    → find_key k xs ≡ some el
    → (el.key ≡ k) × (find_handle el.handle xs ≡ some el)
unfolding find_handle find_key
find_key_found k el [] d p = cc
find_key_found k el (x ∷ xs) d p =
    ground (arith, find_key_found k el xs d.2, key_beq_iff x.key k, d.0)

pub find_back :
    (el : Element) (xs : List Element)
    → Distinct xs
    → back xs ≡ some el
    → find_handle el.handle xs ≡ some el
unfolding find_handle back
find_back el [] d p = cc
find_back el (x ∷ []) d p = ground arith
find_back el (x ∷ y ∷ xs) d p = ground (arith, find_back el (y ∷ xs) d.2 p, d.0)

pub back-none : (xs : List Element) → back xs ≡ none → xs ≡ []
unfolding back
back-none [] p = refl
back-none (x ∷ []) p = cc
back-none (x ∷ y ∷ xs) p = absurd (absurd_cons (back-none (y ∷ xs) p))
  where
    absurd_cons : (y ∷ xs) ≡ [] → ⊥
    absurd_cons e = cc

-- A handle that has not been given out is not found.
pub find_handle_fresh :
    (n : ℕ) (xs : List Element) → All (λ x. x.handle < n) xs → find_handle n xs ≡ none
unfolding find_handle
find_handle_fresh n [] a = refl
find_handle_fresh n (x ∷ xs) a = ground (arith, find_handle_fresh n xs a.1)

pub All-unlink {κ} :
    (P : Element → Type κ) (h : ℕ) (xs : List Element) → All P xs → All P (unlink h xs)
unfolding unlink
All-unlink P h [] a = tt
All-unlink P h (x ∷ xs) a = ground (arith, All-unlink P h xs a.1)

pub All-mono :
    (n : ℕ) (xs : List Element) → All (λ x. x.handle < n) xs → All (λ x. x.handle < suc n) xs
All-mono n [] a = tt
All-mono n (x ∷ xs) a = (omega arith, All-mono n xs a.1)

pub All_found {κ} :
    (P : Element → Type κ) (h : ℕ) (el : Element) (xs : List Element)
    → All P xs
    → find_handle h xs ≡ some el
    → P el
unfolding find_handle
All_found P h el [] a p = absurd (absurd_none p)
  where
    absurd_none : none ≡ some el → ⊥
    absurd_none e = cc
All_found P h el (x ∷ xs) a p = ground (arith, All_found P h el xs a.1, a.0)
