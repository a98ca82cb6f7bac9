-- ===== src/Multiagent/Tests.antt =====
-- The cache and the announcer at concrete operations.
use aetherclaw.Common.{
  ℕ, ◌+◌, ◌≡◌, refl, false, none, some, List, [], ◌∷◌, map, arith, ltb, if◌then◌else◌, nat_key,
  length,
}
use aetherclaw.Common.Text.{Text, text_key, codes, text_beq}
use aetherclaw.Common.Dict.{get, put}
use aetherclaw.Multiagent.Dedup.{DedupCache, check, check_with_result}
use aetherclaw.Multiagent.Dedup.Replay.{
  Op, checks, sets_result, sweeps, last_result, run, check_replays,
}
use aetherclaw.Multiagent.Announce.{
  Announcement, new_announcer, deliver, drain, pending, send, get_or_create_chan,
}
use aetherclaw.Multiagent.Announce.Newest.{Delivery, deliver_all, addressed, last_n, drain-last_n}

abbrev cache : DedupCache
cache = record { entries = []; ttl = 10 }

abbrev meanwhile : List (ℕ × Op)
meanwhile =
    (101, sets_result (codes "k") (codes "done")) ∷ (102, checks (codes "j")) ∷ (103, sweeps) ∷ []

cache_is_new : (check 100 (codes "k") cache).0 ≡ false
unfolding check get
cache_is_new = refl

check_replays_example :
    (check_with_result 109 (codes "k") (run meanwhile (check 100 (codes "k") cache).1)).0
    ≡ (if ltb 109 (100 + 10) then some (last_result (codes "k") [] meanwhile) else none)
check_replays_example =
    check_replays 100 (codes "k") cache meanwhile 109 cache_is_new
      (omega arith, (omega arith, (omega arith, tt)))

abbrev note : Text → Announcement ℕ
note content = record {
  from_session_key = codes "child";
  to_session_key = codes "parent";
  run_id = codes "r";
  agent_id = codes "a";
  content = content;
  outcome = none;
  mode = [];
  created_at = 0;
  reply_to_channel = [];
  reply_to_thread = [];
}

abbrev three : List (Delivery ℕ)
three =
    record { time = 1; target = codes "parent"; announcement = note (codes "one") }
    ∷ record { time = 2; target = codes "parent"; announcement = note (codes "two") }
    ∷ record { time = 3; target = codes "parent"; announcement = note (codes "three") }
    ∷ []

drain-last_n_example :
    ((drain (codes "parent") (deliver_all three (new_announcer 2))).0
      ≡ last_n (new_announcer {O = ℕ} 2).buf_size (addressed (codes "parent") three))
    × (pending (codes "parent") (deliver_all three (new_announcer 2))
        ≡ length (drain (codes "parent") (deliver_all three (new_announcer 2))).0)
drain-last_n_example = drain-last_n 2 three (codes "parent")

two_kept :
    map
      (λ (a : Announcement ℕ). a.content)
      (drain (codes "parent") (deliver_all three (new_announcer 2))).0
    ≡ codes "two" ∷ codes "three" ∷ []
unfolding drain deliver_all new_announcer deliver send get_or_create_chan get put text_beq
two_kept = refl
