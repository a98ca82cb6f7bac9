-- ===== src/Multiagent/Blackboard.antt =====
-- pkg/multiagent/blackboard.go without its JSON. Each method is atomic under the mutex.
use aetherclaw.Common.{
  ℕ, Bool, true, false, Option, none, some, List, [], ◌∷◌, ◌++◌, nat_beq, if◌then◌else◌, nat_key,
  length,
}
use aetherclaw.Common.Text.{Text, text_key, codes}
use aetherclaw.Common.Dict.{Dict, get, put, remove}
use aetherclaw.Tools.Registry.{sort_strings}

pub record BlackboardEntry : Type 0 where
  pub key : Text
  pub value : Text
  pub author : Text
  pub scope : Text
  pub timestamp : ℕ

pub record Blackboard : Type 0 where
  pub entries : Dict Text BlackboardEntry

unfoldable pub new_blackboard : Blackboard
new_blackboard = record { entries = [] }

unfoldable pub set_entry : ℕ → Text → Text → Text → Blackboard → Blackboard
set_entry now key value author b = record {
  entries =
      put key
        (record {
          key = key;
          value = value;
          author = author;
          scope = codes "shared";
          timestamp = now;
        })
        b.entries;
}

unfoldable pub get_entry : Text → Blackboard → Option BlackboardEntry
get_entry key b = get key b.entries

abbrev pub value_of : Option BlackboardEntry → Text
value_of none = []
value_of (some e) = e.value

unfoldable pub get_value : Text → Blackboard → Text
unfolding get_entry
get_value key b = value_of (get_entry key b)

abbrev pub has_entry : Option BlackboardEntry → Bool
has_entry none = false
has_entry (some e) = true

-- whether the entry existed
unfoldable pub delete_entry : Text → Blackboard → Bool × Blackboard
delete_entry key b = (has_entry (get key b.entries), record { entries = remove key b.entries })

abbrev pub entry_keys : Dict Text BlackboardEntry → List Text
entry_keys [] = []
entry_keys ((key, e) ∷ entries) = key ∷ entry_keys entries

unfoldable pub list_keys : Blackboard → List Text
list_keys b = sort_strings (entry_keys b.entries)

unfoldable pub snapshot_lines : List Text → Blackboard → Text
unfolding get_entry
snapshot_lines [] b = []
snapshot_lines (key ∷ keys) b =
    let rest = snapshot_lines keys b in
    elim (get_entry key b) [
      | none ↦ rest
      | some e ↦
          codes "- **"
          ++ (key ++ (codes "** (by " ++ (e.author ++ (codes "): " ++ (e.value ++ 10 ∷ rest)))))
    ]

unfoldable pub snapshot : Blackboard → Text
unfolding snapshot_lines list_keys
snapshot b =
    if nat_beq (length b.entries) 0
    then []
    else codes "## Shared Context (Blackboard)" ++ 10 ∷ (10 ∷ snapshot_lines (list_keys b) b)

unfoldable pub board_size : Blackboard → ℕ
board_size b = length b.entries
