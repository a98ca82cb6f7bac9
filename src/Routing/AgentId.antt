-- ===== src/Routing/AgentId.antt =====
-- pkg/routing/agent_id.go. The expressions are written out as functions of the text.
pub mod Laws
pub mod Idempotent
use aetherclaw.Common.{
  ℕ, ◌^◌, Bool, true, false, ◌&&◌, ◌||◌, not, [], ◌∷◌, ltb, leb, if◌then◌else◌, ◌==◌, nat_key,
  length, take,
}
use aetherclaw.Common.Text.{Text, text_key, codes, is_empty, to_lower, trim_space}

abbrev pub default_agent_id : Text
default_agent_id = codes "main"

abbrev pub default_main_key : Text
default_main_key = codes "main"

abbrev pub default_account_id : Text
default_account_id = codes "default"

abbrev pub max_agent_id_length : ℕ
max_agent_id_length = 64

-- [a-z0-9]
unfoldable pub is_alnum : ℕ → Bool
is_alnum c = (leb b'a' c && leb c b'z') || (leb b'0' c && leb c b'9')

-- [a-z0-9_-]
unfoldable pub is_id_char : ℕ → Bool
unfolding is_alnum
is_id_char c = is_alnum c || (c == b'_' || c == b'-')

unfoldable pub all_id_chars : Text → Bool
unfolding is_id_char
all_id_chars [] = true
all_id_chars (c ∷ s) = is_id_char c && all_id_chars s

-- validIDRe.MatchString: ^[a-z0-9][a-z0-9_-]{0,63}$
unfoldable pub is_valid_id : Text → Bool
unfolding all_id_chars
is_valid_id [] = false
is_valid_id (c ∷ s) = is_alnum c && (all_id_chars s && leb (length s) 63)

-- invalidCharsRe.ReplaceAllString(s, "-"): `within` is set inside of a run of invalid characters
unfoldable pub replace_invalid : Bool → Text → Text
unfolding is_id_char
replace_invalid within [] = []
replace_invalid within (c ∷ s) =
    let rest = replace_invalid (not (is_id_char c)) s in
    if is_id_char c then c ∷ rest else if within then rest else b'-' ∷ rest

-- leadingDashRe.ReplaceAllString(s, "")
unfoldable pub strip_leading : Text → Text
strip_leading [] = []
strip_leading (c ∷ s) = if c == b'-' then strip_leading s else c ∷ s

abbrev pub cons_stripped : ℕ → Text → Text
cons_stripped c [] = if c == b'-' then [] else c ∷ []
cons_stripped c (d ∷ r) = c ∷ d ∷ r

-- trailingDashRe.ReplaceAllString(s, "")
unfoldable pub strip_trailing : Text → Text
strip_trailing [] = []
strip_trailing (c ∷ s) = cons_stripped c (strip_trailing s)

-- what both functions make of a lower-case id that is not valid
unfoldable pub replaced : Text → Text
unfolding replace_invalid strip_leading strip_trailing
replaced lower_id =
    let result = strip_trailing (strip_leading (replace_invalid false lower_id)) in
    if ltb max_agent_id_length (length result) then take max_agent_id_length result else result

-- the common body of NormalizeAgentID and NormalizeAccountID
unfoldable pub sanitize : Text → Text → Text
unfolding is_valid_id replaced
sanitize default_id id =
    let trimmed = trim_space id in
    let lower_id = to_lower trimmed in
    let result = replaced lower_id in
    if is_empty trimmed
    then default_id
    else if is_valid_id lower_id
    then lower_id
    else if is_empty result
    then default_id
    else result

unfoldable pub normalize_agent_id : Text → Text
unfolding sanitize
normalize_agent_id id = sanitize default_agent_id id

unfoldable pub normalize_account_id : Text → Text
unfolding sanitize
normalize_account_id id = sanitize default_account_id id
