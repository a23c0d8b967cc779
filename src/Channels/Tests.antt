-- ===== src/Channels/Tests.antt =====
-- A server with four channels.
use grumble.Common.{
  ℕ, ◌≡◌, refl, ap, sym, ◌∙◌, true, false, List, [], ◌∷◌, map, none, some, ◌==◌, Bool-cases, inl,
  inr, ◌↔◌,
}
use grumble.Common.Sets.{contains, insert}
use grumble.Channels.{
  Channel, new_channel, find_channel, change, links_of, children_of, add_child, link_channels,
  unlink_channels, push, visit, search, all_links_of, all_children_of, all_links, all_sub_channels,
}
use grumble.Channels.Search.{Reaches}
use grumble.Channels.Reach.{links_of-cons, all_links-Reaches, all_sub_channels-Reaches}
use grumble.Channels.Links.{IsSymmetric, Linked, no_call, linking, unlinking}
use grumble.Channels.Seats.{
  Seats, members, members-cons, add_client, remove_client, enter_channel, IsSeated,
  enter_channel-IsSeated,
}
use grumble.Channels.Chains.{has_links, all_links_self}

abbrev plain : List Channel
plain = new_channel 0 ∷ new_channel 1 ∷ new_channel 2 ∷ new_channel 3 ∷ []

abbrev tree : List Channel
tree =
    record { id = 0; temporary = false; clients = []; parent = none; children = 1 ∷ []; links = [] }
    ∷ record {
      id = 1;
      temporary = false;
      clients = 8 ∷ [];
      parent = some 0;
      children = 3 ∷ 2 ∷ [];
      links = 3 ∷ [];
    }
    ∷ record { id = 2; temporary = false; clients = []; parent = some 1; children = []; links = [] }
    ∷ record {
      id = 3;
      temporary = true;
      clients = 9 ∷ [];
      parent = some 1;
      children = [];
      links = 1 ∷ [];
    }
    ∷ []

tree_built :
    add_child 1 3 (add_child 1 2 (add_child 0 1 (link_channels 1 3 plain)))
    ≡ record {
      id = 0;
      temporary = false;
      clients = [];
      parent = none;
      children = 1 ∷ [];
      links = [];
    }
      ∷ record {
        id = 1;
        temporary = false;
        clients = [];
        parent = some 0;
        children = 3 ∷ 2 ∷ [];
        links = 3 ∷ [];
      }
      ∷ record {
        id = 2;
        temporary = false;
        clients = [];
        parent = some 1;
        children = [];
        links = [];
      }
      ∷ record {
        id = 3;
        temporary = false;
        clients = [];
        parent = some 1;
        children = [];
        links = 1 ∷ [];
      }
      ∷ []
unfolding add_child link_channels change insert
tree_built = refl

unlinked_again : unlink_channels 3 1 (link_channels 1 3 plain) ≡ plain
unfolding link_channels unlink_channels change insert
unlinked_again = refl

all_links_of_1 : all_links tree 1 ≡ some (1 ∷ 3 ∷ [])
unfolding all_links search visit push links_of find_channel all_links_of
all_links_of_1 = refl

all_links_of_2 : all_links tree 2 ≡ some []
unfolding all_links search visit push links_of find_channel all_links_of
all_links_of_2 = refl

all_sub_channels_of_0 : all_sub_channels tree 0 ≡ some (2 ∷ 3 ∷ 1 ∷ [])
unfolding all_sub_channels search visit push children_of find_channel all_children_of
all_sub_channels_of_0 = refl

all_links-Reaches_example :
    (found : List ℕ) × ((all_links tree 1 ≡ some found)
      × ((x : ℕ) → (contains x found ≡ true) ↔ Reaches (links_of tree) 1 x))
all_links-Reaches_example = all_links-Reaches tree 1

all_sub_channels-Reaches_example :
    (found : List ℕ) × ((all_sub_channels tree 0 ≡ some found)
      × ((x : ℕ) → (contains x found ≡ true) ↔ Reaches (children_of tree) 0 x))
all_sub_channels-Reaches_example = all_sub_channels-Reaches tree 0

no_links : (ids : List ℕ) (x : ℕ) → links_of (map new_channel ids) x ≡ []
unfolding links_of find_channel
no_links [] x = refl
no_links (id ∷ ids) x = elim (Bool-cases (id == x)) [
  | inl e ↦ rw (links_of-cons (new_channel id) (map new_channel ids) x, e) refl
  | inr e ↦ rw (links_of-cons (new_channel id) (map new_channel ids) x, e) (no_links ids x)
]

plain-IsSymmetric : IsSymmetric plain
plain-IsSymmetric x y =
    let ids : List ℕ = 0 ∷ 1 ∷ 2 ∷ 3 ∷ [] in
    ap (contains y) (no_links ids x) ∙ sym (ap (contains x) (no_links ids y))

abbrev linked : List Channel
linked = unlink_channels 0 2 (link_channels 1 3 plain)

linked-Linked : Linked plain linked
unfolding link_channels change
linked-Linked =
    unlinking 0 2 plain (link_channels 1 3 plain) refl refl
      (linking 1 3 plain plain refl refl (no_call plain))

all_links_self_example :
    (found : List ℕ) × ((all_links plain 2 ≡ some found)
      × (contains 2 found ≡ has_links (links_of plain 2)))
all_links_self_example = all_links_self plain 2 plain-IsSymmetric

no_members : (ids : List ℕ) (x : ℕ) → members x (map new_channel ids) ≡ []
unfolding members find_channel
no_members [] x = refl
no_members (id ∷ ids) x = elim (Bool-cases (id == x)) [
  | inl e ↦ rw (members-cons (new_channel id) (map new_channel ids) x, e) refl
  | inr e ↦ rw (members-cons (new_channel id) (map new_channel ids) x, e) (no_members ids x)
]

abbrev nobody : Seats
nobody = record { channels = plain; place = λ s. none }

nobody-IsSeated : IsSeated nobody
nobody-IsSeated = record {
  seated = λ s x.
      let ids : List ℕ = 0 ∷ 1 ∷ 2 ∷ 3 ∷ [] in
      let absent : contains s (members x plain) ≡ false = ap (contains s) (no_members ids x) in
      (λ m. absurd (cc (absent, m)), λ m. absurd (cc m));
}

abbrev one_client : Seats
one_client = enter_channel 8 1 nobody

one_client-IsSeated : IsSeated one_client
one_client-IsSeated = (enter_channel-IsSeated 8 1 nobody refl nobody-IsSeated).0

moved : members 3 (enter_channel 8 3 one_client).channels ≡ 8 ∷ []
unfolding enter_channel add_client remove_client change members find_channel insert
moved = refl

enter_channel-IsSeated_example :
    IsSeated (enter_channel 8 3 one_client) × ((enter_channel 8 3 one_client).place 8 ≡ some 3)
unfolding enter_channel add_client change
enter_channel-IsSeated_example = enter_channel-IsSeated 8 3 one_client refl one_client-IsSeated
