-- ===== src/Common/Sets.antt =====
-- Finite sets of numbers as lists: Go's `map[K]bool` used as a set.
use grumble.Common.{
  ℕ, suc, ◌≤◌, ◌<◌, ◌≡◌, refl, Bool, true, false, ◌||◌, ◌&&◌, not, ==_refl, List, [], ◌∷◌, ◌==◌,
  if◌then◌else◌, length, All, arith, ==_iff, Bool-cases, inl, inr, ◌≢◌,
}

abbrev pub contains : ℕ → List ℕ → Bool
contains a [] = false
contains a (x ∷ xs) = (x == a) || contains a xs

-- `set[a] = true`
unfoldable pub insert : ℕ → List ℕ → List ℕ
insert a xs = if contains a xs then xs else a ∷ xs

-- `delete(set, a)`
abbrev pub remove : ℕ → List ℕ → List ℕ
remove a [] = []
remove a (x ∷ xs) = if x == a then remove a xs else x ∷ remove a xs

abbrev pub Distinct : List ℕ → Type 0
Distinct [] = Unit {0}
Distinct (x ∷ xs) = (contains x xs ≡ false) × Distinct xs

-- No element of the first list is in the second.
abbrev pub Apart : List ℕ → List ℕ → Type 0
Apart xs ys = All (λ i. contains i ys ≡ false) xs

pub contains-remove_self : (a : ℕ) (xs : List ℕ) → contains a (remove a xs) ≡ false
contains-remove_self a [] = refl
contains-remove_self a (x ∷ xs) = ground (arith, contains-remove_self a xs)

pub contains-remove_ne : (a b : ℕ) (xs : List ℕ) → b ≢ a → contains b (remove a xs) ≡ contains b xs
contains-remove_ne a b [] h = refl
contains-remove_ne a b (x ∷ xs) h = ground (arith, contains-remove_ne a b xs)

pub contains-remove_false :
    (a b : ℕ) (xs : List ℕ) → contains b xs ≡ false → contains b (remove a xs) ≡ false
contains-remove_false a b [] h = refl
contains-remove_false a b (x ∷ xs) h = ground (arith, contains-remove_false a b xs)

pub remove_absent : (a : ℕ) (xs : List ℕ) → contains a xs ≡ false → remove a xs ≡ xs
remove_absent a [] h = refl
remove_absent a (x ∷ xs) h = ground (arith, remove_absent a xs)

pub length-remove :
    (a : ℕ) (xs : List ℕ)
    → Distinct xs
    → contains a xs ≡ true
    → suc (length (remove a xs)) ≡ length xs
length-remove a [] d h = absurd (cc h)
length-remove a (x ∷ xs) d h = ground (arith, length-remove a xs d.1, remove_absent a xs)

pub remove-Distinct : (a : ℕ) (xs : List ℕ) → Distinct xs → Distinct (remove a xs)
remove-Distinct a [] d = tt
remove-Distinct a (x ∷ xs) d =
    ground (arith, remove-Distinct a xs d.1, contains-remove_false a x xs)

pub contains-insert :
    (a b : ℕ) (xs : List ℕ) → contains b (insert a xs) ≡ ((a == b) || contains b xs)
unfolding insert
contains-insert a b xs = elim (Bool-cases (contains a xs)) [
  | inl old ↦ rw old (ground arith)
  | inr new ↦ rw new
]

pub contains-remove :
    (a y : ℕ) (xs : List ℕ) → contains y (remove a xs) ≡ (not (a == y) && contains y xs)
contains-remove a y xs = elim (Bool-cases (a == y)) [
  | inl e ↦ rw ((==_iff a y).0 e, ==_refl y) (contains-remove_self y xs)
  | inr e ↦ rw e (contains-remove_ne a y xs (ground arith))
]

pub contains_if_insert :
    (p : Bool) (a y : ℕ) (xs : List ℕ)
    → contains y (if p then insert a xs else xs) ≡ ((p && (a == y)) || contains y xs)
contains_if_insert true a y xs = contains-insert a y xs
contains_if_insert false a y xs = refl

pub contains_if_remove :
    (p : Bool) (a y : ℕ) (xs : List ℕ)
    → contains y (if p then remove a xs else xs) ≡ (not (p && (a == y)) && contains y xs)
contains_if_remove true a y xs = contains-remove a y xs
contains_if_remove false a y xs = refl

pub remove-Apart : (a : ℕ) (xs ys : List ℕ) → Apart xs ys → Apart xs (remove a ys)
remove-Apart a [] ys h = tt
remove-Apart a (x ∷ xs) ys h = (contains-remove_false a x ys h.0, remove-Apart a xs ys h.1)

-- Moving a fresh element over to the other list keeps them apart.
pub cons-Apart : (a : ℕ) (xs ys : List ℕ) → contains a xs ≡ false → Apart xs ys → Apart xs (a ∷ ys)
cons-Apart a [] ys n h = tt
cons-Apart a (x ∷ xs) ys n h = (ground arith, cons-Apart a xs ys (ground arith) h.1)

pub Apart-absent :
    (a : ℕ) (xs ys : List ℕ) → Apart xs ys → contains a ys ≡ true → contains a xs ≡ false
Apart-absent a [] ys h c = refl
Apart-absent a (x ∷ xs) ys h c = elim (Bool-cases (x == a)) [
  | inl e ↦ absurd (cc (ap_contains e))
  | inr e ↦ rw e (Apart-absent a xs ys h.1 c)
]
  where
    ap_contains : (x == a) ≡ true → contains x ys ≡ true
    ap_contains e = let p = (==_iff x a).0 e in rw p c

-- A number above all elements is not one of them.
pub contains_above : (n a : ℕ) (xs : List ℕ) → All (λ i. i ≤ n) xs → n < a → contains a xs ≡ false
contains_above n a [] h p = refl
contains_above n a (x ∷ xs) h p = ground (arith, contains_above n a xs h.1 p)
