-- ===== src/Multiagent/Dedup.antt =====
-- pkg/multiagent/dedup.go. Each method is atomic under the mutex; `now` is the answer of time.Now.
pub mod Replay
use aetherclaw.Common.{
  ℕ, zero, suc, ◌+◌, Bool, true, false, Option, none, some, [], ◌∷◌, ◌++◌, map, ltb, if◌then◌else◌,
  nat_key, length,
}
use aetherclaw.Common.Text.{Text, text_key, codes}
use aetherclaw.Common.Dict.{Dict, get, put, remove}

pub record DedupEntry : Type 0 where
  pub key : Text
  pub created_at : ℕ
  pub expires_at : ℕ
  pub result : Text

pub record DedupCache : Type 0 where
  pub entries : Dict Text DedupEntry
  pub ttl : ℕ

-- 5 minutes
abbrev pub default_dedup_ttl : ℕ
default_dedup_ttl = 300000000000

abbrev pub ttl_or_default : ℕ → ℕ
ttl_or_default zero = default_dedup_ttl
ttl_or_default (suc n) = suc n

-- the sweeping goroutine is the step `sweep` below
unfoldable pub new_dedup_cache : ℕ → DedupCache
new_dedup_cache ttl = record { entries = []; ttl = ttl_or_default ttl }

-- dc.entries[key] = &DedupEntry{...}
unfoldable pub registered : ℕ → Text → Dict Text DedupEntry → DedupCache → DedupCache
registered now key entries dc = record {
  entries =
      put key (record { key = key; created_at = now; expires_at = now + dc.ttl; result = [] })
        entries;
  ttl = dc.ttl;
}

-- Check with what the map holds under the key
abbrev pub check_found : ℕ → Text → DedupCache → Option DedupEntry → Bool × DedupCache
check_found now key dc none = (false, registered now key dc.entries dc)
check_found now key dc (some entry) =
    if ltb now entry.expires_at
    then (true, dc)
    else (false, registered now key (remove key dc.entries) dc)

-- whether the key is a duplicate
unfoldable pub check : ℕ → Text → DedupCache → Bool × DedupCache
check now key dc = check_found now key dc (get key dc.entries)

abbrev pub check_found_result : ℕ → Text → DedupCache → Option DedupEntry → Option Text × DedupCache
check_found_result now key dc none = (none, registered now key dc.entries dc)
check_found_result now key dc (some entry) =
    if ltb now entry.expires_at
    then (some entry.result, dc)
    else (none, registered now key (remove key dc.entries) dc)

-- the cached result of a duplicate; `none` is ("", false)
unfoldable pub check_with_result : ℕ → Text → DedupCache → Option Text × DedupCache
check_with_result now key dc = check_found_result now key dc (get key dc.entries)

abbrev pub with_result : Text → DedupEntry → DedupEntry
with_result result e = record {
  key = e.key;
  created_at = e.created_at;
  expires_at = e.expires_at;
  result = result;
}

abbrev pub set_found : Text → Text → DedupCache → Option DedupEntry → DedupCache
set_found key result dc none = dc
set_found key result dc (some entry) = record {
  entries = put key (with_result result entry) dc.entries;
  ttl = dc.ttl;
}

unfoldable pub set_result : Text → Text → DedupCache → DedupCache
set_result key result dc = set_found key result dc (get key dc.entries)

unfoldable pub size : DedupCache → ℕ
size dc = length dc.entries

unfoldable pub sweep_entries : ℕ → Dict Text DedupEntry → Dict Text DedupEntry
sweep_entries now [] = []
sweep_entries now ((k, e) ∷ m) =
    let rest = sweep_entries now m in if ltb e.expires_at now then rest else (k, e) ∷ rest

unfoldable pub sweep : ℕ → DedupCache → DedupCache
unfolding sweep_entries
sweep now dc = record { entries = sweep_entries now dc.entries; ttl = dc.ttl }

-- `digest` is the text of the first eight bytes of a SHA-256 sum in hexadecimal.
unfoldable pub build_spawn_key : (Text → Text) → Text → Text → Text → Text
build_spawn_key digest from to task =
    codes "spawn:v1:" ++ (from ++ b':' ∷ (to ++ b':' ∷ digest task))

unfoldable pub build_announce_key : Text → Text → Text
build_announce_key child_session_key run_id =
    codes "announce:v1:" ++ (child_session_key ++ b':' ∷ run_id)
