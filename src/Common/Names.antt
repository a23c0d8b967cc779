-- ===== src/Common/Names.antt =====
-- Texts as lists of bytes, their comparison, and sets of them: Go's `map[string]struct{}`.
use grumble.Common.{
  ℕ, Bool, true, false, ◌&&◌, ◌||◌, not, List, [], ◌∷◌, ◌≡◌, refl, ap, ap₂, arith, ◌==◌, ==_iff,
  ==_refl, if◌then◌else◌, inl, inr, Bool-cases, Option, none, some,
}

-- A text as its bytes.
abbrev pub Name : Type 0
Name = List ℕ

abbrev pub same_name : Name → Name → Bool
same_name [] [] = true
same_name (x ∷ xs) (y ∷ ys) = (x == y) && same_name xs ys
same_name _ _ = false

abbrev pub is_empty : {A : Type 0} → List A → Bool
is_empty [] = true
is_empty (x ∷ xs) = false

pub bool_clash : {A : Type 0} → false ≡ true → A
bool_clash h = ground arith

pub both_on : (x y : Bool) → (x && y) ≡ true → (x ≡ true) × (y ≡ true)
both_on x y h = ground arith

pub same_name→eq : (xs ys : Name) → same_name xs ys ≡ true → xs ≡ ys
same_name→eq [] [] h = refl
same_name→eq [] (y ∷ ys) h = bool_clash h
same_name→eq (x ∷ xs) [] h = bool_clash h
same_name→eq (x ∷ xs) (y ∷ ys) h =
    let q = both_on (x == y) (same_name xs ys) h in
    ap₂ ◌∷◌ ((==_iff x y).0 q.0) (same_name→eq xs ys q.1)

pub same_name_refl : (xs : Name) → same_name xs xs ≡ true
same_name_refl [] = refl
same_name_refl (x ∷ xs) = rw (==_refl x) (same_name_refl xs)

abbrev pub mem_name : Name → List Name → Bool
mem_name u [] = false
mem_name u (x ∷ xs) = same_name x u || mem_name u xs

-- `set[u] = struct{}{}`
abbrev pub insert_name : Name → List Name → List Name
insert_name u xs = if mem_name u xs then xs else u ∷ xs

-- `delete(set, u)`
abbrev pub remove_name : Name → List Name → List Name
remove_name u [] = []
remove_name u (x ∷ xs) = if same_name x u then remove_name u xs else x ∷ remove_name u xs

pub mem_name-insert_name :
    (u v : Name) (xs : List Name) → mem_name v (insert_name u xs) ≡ (same_name u v || mem_name v xs)
mem_name-insert_name u v xs = elim (Bool-cases (mem_name u xs)) [
  | inl e ↦ rw e (known e)
  | inr e ↦ rw e refl
]
  where
    known : mem_name u xs ≡ true → mem_name v xs ≡ (same_name u v || mem_name v xs)
    known e = elim (Bool-cases (same_name u v)) [
      | inl s ↦ rw (s, ← same_name→eq u v s) e
      | inr s ↦ rw s refl
    ]

not_again : (s m : Bool) → (m && not s) ≡ ((s || m) && not s)
not_again s m = ground arith

pub mem_name-remove_name :
    (u v : Name) (xs : List Name)
    → mem_name v (remove_name u xs) ≡ (mem_name v xs && not (same_name u v))
mem_name-remove_name u v [] = refl
mem_name-remove_name u v (x ∷ xs) =
    let ih = mem_name-remove_name u v xs in
    elim (Bool-cases (same_name x u)) [
      | inl e ↦
          let s = ap (λ z. same_name z v) (same_name→eq x u e) in
          rw (e, s, ih) (not_again (same_name u v) (mem_name v xs))
      | inr e ↦ elim (Bool-cases (same_name u v)) [
        | inl s ↦
            let ih' = rw (← same_name→eq u v s) at ih in
            rw (e, ← same_name→eq u v s, same_name_refl u) (ground arith)
        | inr s ↦ rw (e, s) (ground arith)
      ]
    ]

-- An association list as a map.
module _ {V : Type 0} where
  abbrev pub lookup : Name → List (Name × V) → Option V
  lookup name [] = none
  lookup name ((n, v) ∷ entries) = if same_name n name then some v else lookup name entries

  abbrev pub delete : Name → List (Name × V) → List (Name × V)
  delete name [] = []
  delete name ((n, v) ∷ entries) =
      let rest = delete name entries in if same_name n name then rest else (n, v) ∷ rest

  abbrev pub put : Name → V → List (Name × V) → List (Name × V)
  put name v entries = (name, v) ∷ delete name entries

  pub lookup-delete_self :
      (name : Name) (entries : List (Name × V)) → lookup name (delete name entries) ≡ none
  lookup-delete_self name [] = refl
  lookup-delete_self name ((n, v) ∷ entries) = elim (Bool-cases (same_name n name)) [
    | inl e ↦ rw e (lookup-delete_self name entries)
    | inr e ↦ rw (e, delete, lookup, e) (lookup-delete_self name entries)
  ]

  pub lookup-delete_ne :
      (name other : Name) (entries : List (Name × V))
      → same_name name other ≡ false
      → lookup other (delete name entries) ≡ lookup other entries
  lookup-delete_ne name other [] h = refl
  lookup-delete_ne name other ((n, v) ∷ entries) h =
      let ih = lookup-delete_ne name other entries h in
      elim (Bool-cases (same_name n name)) [
        | inl e ↦ let s = rw (← same_name→eq n name e) at h in rw (e, s) ih
        | inr e ↦ rw (e, ih) refl
      ]

  pub lookup-put_self :
      (name : Name) (v : V) (entries : List (Name × V)) → lookup name (put name v entries) ≡ some v
  lookup-put_self name v entries = rw (put, lookup, same_name_refl name) refl

  pub lookup-put_ne :
      (name other : Name) (v : V) (entries : List (Name × V))
      → same_name name other ≡ false
      → lookup other (put name v entries) ≡ lookup other entries
  lookup-put_ne name other v entries h = rw (put, lookup, h) (lookup-delete_ne name other entries h)
