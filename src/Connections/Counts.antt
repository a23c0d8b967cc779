-- ===== src/Connections/Counts.antt =====
-- The count of a host, as connections are reserved and released.
use grumble.Common.{
  ℕ, suc, ◌+◌, ◌-◌, ◌≤◌, ◌<◌, ◌≡◌, refl, ap, sym, subst, ◌∙◌, true, false, List, [], ◌∷◌, none, leb,
  if◌then◌else◌, arith, length, Bool-cases, inl, inr,
}
use grumble.Common.Names.{
  Name, same_name, same_name→eq, lookup, delete, put, lookup-delete_self, lookup-delete_ne,
}
use grumble.Connections.{or_zero, count, release_ip}

-- How often a host is in a list of open connections.
abbrev pub occurrences : Name → List Name → ℕ
occurrences host [] = 0
occurrences host (h ∷ hosts) = (if same_name h host then 1 else 0) + occurrences host hosts

-- Without the first connection of the host.
abbrev pub close_one : Name → List Name → List Name
close_one host [] = []
close_one host (h ∷ hosts) =
    let rest = close_one host hosts in if same_name h host then hosts else h ∷ rest

count-put :
    (host h : Name) (n : ℕ) (conns : List (Name × ℕ))
    → count h (put host n conns) ≡ (if same_name host h then n else count h conns)
unfolding count
count-put host h n conns = elim (Bool-cases (same_name host h)) [
  | inl e ↦ simp e refl
  | inr e ↦ simp e (ap or_zero (lookup-delete_ne host h conns e))
]

count-delete :
    (host h : Name) (conns : List (Name × ℕ))
    → count h (delete host conns) ≡ (if same_name host h then 0 else count h conns)
unfolding count
count-delete host h conns = elim (Bool-cases (same_name host h)) [
  | inl e ↦
      let gone =
        subst (λ x. lookup x (delete host conns) ≡ none) (same_name→eq host h e)
          (lookup-delete_self host conns) in
      simp e (ap or_zero gone)
  | inr e ↦ simp e (ap or_zero (lookup-delete_ne host h conns e))
]

count_same :
    (host h : Name) (conns : List (Name × ℕ))
    → same_name host h ≡ true
    → count h conns ≡ count host conns
count_same host h conns e = sym (ap (λ x. count x conns) (same_name→eq host h e))

pub count-release_ip :
    (host h : Name) (conns : List (Name × ℕ))
    → count h (release_ip host conns)
      ≡ (if same_name host h then count h conns - 1 else count h conns)
unfolding release_ip
count-release_ip host h conns =
    let n = count host conns in
    let p = count-put host h (n - 1) conns in
    let d = count-delete host h conns in
    elim (Bool-cases (same_name host h)) [
      | inl e ↦ let c = count_same host h conns e in ground arith
      | inr e ↦ ground arith
    ]

pub count_reserved :
    (host x : Name) (conns : List (Name × ℕ))
    → count x (put host (count host conns + 1) conns)
      ≡ (if same_name host x then 1 else 0) + count x conns
count_reserved host x conns = elim (Bool-cases (same_name host x)) [
  | inl e ↦
      let c = count_same host x conns e in
      rw (count-put host x (count host conns + 1) conns, e) (omega arith)
  | inr e ↦ rw (count-put host x (count host conns + 1) conns, e) (omega arith)
]

pub limited_more :
    (host x : Name) (limit : ℕ) (conns : List (Name × ℕ))
    → ((h : Name) → count h conns ≤ limit)
    → leb limit (count host conns) ≡ false
    → count x (put host (count host conns + 1) conns) ≤ limit
limited_more host x limit conns each room = elim (Bool-cases (same_name host x)) [
  | inl e ↦ rw (count-put host x (count host conns + 1) conns, e) (ground arith)
  | inr e ↦ rw (count-put host x (count host conns + 1) conns, e) (each x)
]

pub occurrences-close_one :
    (host h : Name) (hosts : List Name)
    → occurrences h (close_one host hosts)
      ≡ (if same_name host h then occurrences h hosts - 1 else occurrences h hosts)
occurrences-close_one host h [] = ground arith
occurrences-close_one host h (x ∷ hosts) = elim (Bool-cases (same_name x host)) [
  | inl e ↦
      let same = ap (λ y. same_name y h) (same_name→eq x host e) in rw (e, same) (ground arith)
  | inr e ↦ rw e (elim (Bool-cases (same_name host h)) [
    | inl s ↦
        let other : same_name x h ≡ false =
          subst (λ y. same_name x y ≡ false) (same_name→eq host h s) e in
        let ih : occurrences h (close_one host hosts) ≡ occurrences h hosts - 1 =
          occurrences-close_one host h hosts ∙ rw s refl in
        rw (s, other) (omega (arith, ih))
    | inr s ↦ rw s (
        ap (λ n. (if same_name x h then 1 else 0) + n)
          (occurrences-close_one host h hosts ∙ rw s refl))
  ])
]

pub length-close_one :
    (host : Name) (hosts : List Name)
    → 0 < occurrences host hosts
    → suc (length (close_one host hosts)) ≡ length hosts
length-close_one host [] l = absurd (omega arith)
length-close_one host (x ∷ hosts) l = elim (Bool-cases (same_name x host)) [
  | inl e ↦ rw e refl
  | inr e ↦ rw e (ap suc (length-close_one host hosts (ground arith)))
]

pub count_less :
    (host x : Name) (limit : ℕ) (conns : List (Name × ℕ))
    → count x conns ≤ limit
    → count x (release_ip host conns) ≤ limit
count_less host x limit conns l = ground (arith, count-release_ip host x conns)
