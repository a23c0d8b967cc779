-- ===== src/Channels.antt =====
-- cmd/grumble/channel.go and the operations of cmd/grumble/server.go on the tree of channels and
-- their links.
pub mod Visit
pub mod Search
pub mod Reach
pub mod Links
pub mod Chains
pub mod Seats
pub mod Tests
use grumble.Common.{
  ℕ, zero, suc, ◌+◌, ◌≡◌, Bool, true, false, List, [], ◌∷◌, ◌++◌, Option, none, some, ◌==◌,
  if◌then◌else◌, length,
}
use grumble.Common.Sets.{contains, insert, remove}

-- A channel; other channels and clients are named by their ids.
pub record Channel : Type 0 where
  pub id : ℕ
  pub temporary : Bool
  pub clients : List ℕ
  pub parent : Option ℕ
  pub children : List ℕ
  pub links : List ℕ

-- `NewChannel`
abbrev pub new_channel : ℕ → Channel
new_channel id = record {
  id = id;
  temporary = false;
  clients = [];
  parent = none;
  children = [];
  links = [];
}

-- The map `Channels` of a server.
unfoldable pub find_channel : ℕ → List Channel → Option Channel
find_channel id [] = none
find_channel id (c ∷ cs) = if c.id == id then some c else find_channel id cs

-- Assignments to fields of the channel with this id.
unfoldable pub change : ℕ → (Channel → Channel) → List Channel → List Channel
change id f [] = []
change id f (c ∷ cs) = (if c.id == id then f c else c) ∷ change id f cs

unfoldable pub links_of : List Channel → ℕ → List ℕ
links_of cs id = elim (find_channel id cs) [ none ↦ [] | some c ↦ c.links ]

unfoldable pub children_of : List Channel → ℕ → List ℕ
children_of cs id = elim (find_channel id cs) [ none ↦ [] | some c ↦ c.children ]

-- `AddChild`
unfoldable pub add_child : ℕ → ℕ → List Channel → List Channel
add_child id child cs =
    change id (λ c. record c { children = insert child c.children })
      (change child (λ c. record c { parent = some id }) cs)

-- `RemoveChild`
unfoldable pub remove_child : ℕ → ℕ → List Channel → List Channel
remove_child id child cs =
    change id (λ c. record c { children = remove child c.children })
      (change child (λ c. record c { parent = none }) cs)

-- `LinkChannels`
unfoldable pub link_channels : ℕ → ℕ → List Channel → List Channel
link_channels a b cs =
    change b (λ c. record c { links = insert a c.links })
      (change a (λ c. record c { links = insert b c.links }) cs)

-- `UnlinkChannels`
unfoldable pub unlink_channels : ℕ → ℕ → List Channel → List Channel
unlink_channels a b cs =
    change b (λ c. record c { links = remove a c.links })
      (change a (λ c. record c { links = remove b c.links }) cs)

-- The searches: the channels that are seen, and those whose neighbours are still to be looked at,
-- the last one first.
pub record Walk : Type 0 where
  pub seen : List ℕ
  pub todo : List ℕ

unfoldable pub push : ℕ → Walk → Walk
push id w = if contains id w.seen then w else record { seen = id ∷ w.seen; todo = id ∷ w.todo }

-- The inner loop, over the neighbours of a channel.
unfoldable pub visit : List ℕ → Walk → Walk
visit [] w = w
visit (id ∷ ids) w = visit ids (push id w)

-- The outer loop; `none` when it is cut off.
unfoldable pub search : (ℕ → List ℕ) → ℕ → List ℕ → List ℕ → Option (List ℕ)
search edges fuel seen [] = some seen
search edges zero seen (current ∷ rest) = none
search edges (suc fuel) seen (current ∷ rest) =
    let w = visit (edges current) (record { seen = seen; todo = rest }) in
    search edges fuel w.seen w.todo

unfoldable pub all_links_of : List Channel → List ℕ
all_links_of [] = []
all_links_of (c ∷ cs) = c.links ++ all_links_of cs

unfoldable pub all_children_of : List Channel → List ℕ
all_children_of [] = []
all_children_of (c ∷ cs) = c.children ++ all_children_of cs

-- `AllLinks`
unfoldable pub all_links : List Channel → ℕ → Option (List ℕ)
all_links cs id = search (links_of cs) (suc (length (all_links_of cs))) [] (id ∷ [])

-- `AllSubChannels`
unfoldable pub all_sub_channels : List Channel → ℕ → Option (List ℕ)
all_sub_channels cs id = elim (children_of cs id) [
  | [] ↦ some []
  | _ ∷ _ ↦ search (children_of cs) (suc (length (all_children_of cs))) [] (id ∷ [])
]
