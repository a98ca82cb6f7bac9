-- ===== src/Tools/Registry/Policy/Survivors.antt =====
-- Which tools survive ApplyPolicy (pkg/tools/policy.go).
use aetherclaw.Common.{
  ◌≡◌, refl, sym, ap, ◌∙◌, subst, ◌⊎◌, inl, inr, Bool, true, false, ◌&&◌, ◌||◌, not, none, some,
  List, [], ◌∷◌, arith, if◌then◌else◌, ◌==◌, nat_key, eq_iff, eq_refl, some_inj, Bool-cases,
  Option-cases, All,
}
use aetherclaw.Common.Text.{Text, text_key, is_empty, text_beq}
use aetherclaw.Common.Dict.{Dict, get, get-remove}
use aetherclaw.Tools.Registry.{
  Tool, ToolRegistry, get_tool, remove_tool, sorted_tool_names, sort_strings, names_of,
}
use aetherclaw.Tools.Registry.Order.{is_listed, is_listed-sort_strings, or_assoc, is_listed-append}
use aetherclaw.Tools.Registry.Policy.{
  ToolPolicy, default_tool_groups, group_of, add_name, add_names, resolve_from, resolve_tool_names,
  keep_only, remove_all, apply_policy,
}

-- Whether a list of references names a tool, by itself or by its group.
abbrev pub grants : List Text → Text → Bool
grants [] name = false
grants (ref ∷ refs) name = is_listed name (group_of ref) || grants refs name

or_false : (b : Bool) → (b || false) ≡ b
or_false true = refl
or_false false = refl

is_listed-add_name :
    (name : Text) (result : List Text) (new : Text)
    → is_listed name (add_name result new) ≡ (is_listed name result || (new == name))
unfolding add_name is_listed
is_listed-add_name name result new = elim (Bool-cases (is_listed new result)) [
  | inr e ↦ rw e (
      is_listed-append name result (new ∷ [])
      ∙ ap (◌||◌ (is_listed name result)) (last (new == name)))
  | inl e ↦ rw e (known e (Bool-cases (new == name)))
]
  where
    last : (b : Bool) → (b || false) ≡ b
    last true = refl
    last false = refl

    known :
        is_listed new result ≡ true
        → ((new == name) ≡ true) ⊎ ((new == name) ≡ false)
        → is_listed name result ≡ (is_listed name result || (new == name))
    known e (inl same) =
        let h : is_listed name result ≡ true =
          subst (λ n. is_listed n result ≡ true) ((eq_iff new name).0 same) e in
        rw (h) refl
    known e (inr other) = rw other (sym (last (is_listed name result)))

is_listed-add_names :
    (name : Text) (result names : List Text)
    → is_listed name (add_names result names) ≡ (is_listed name result || is_listed name names)
unfolding add_names is_listed
is_listed-add_names name result [] = sym (or_false (is_listed name result))
is_listed-add_names name result (new ∷ names) =
    is_listed-add_names name (add_name result new) names
    ∙ ap (λ b. b || is_listed name names) (is_listed-add_name name result new)
    ∙ or_assoc (is_listed name result) (new == name) (is_listed name names)

is_listed-resolve_from :
    (name : Text) (result refs : List Text)
    → is_listed name (resolve_from result refs) ≡ (is_listed name result || grants refs name)
unfolding resolve_from
is_listed-resolve_from name result [] = sym (or_false (is_listed name result))
is_listed-resolve_from name result (ref ∷ refs) =
    is_listed-resolve_from name (add_names result (group_of ref)) refs
    ∙ ap (λ b. b || grants refs name) (is_listed-add_names name result (group_of ref))
    ∙ or_assoc (is_listed name result) (is_listed name (group_of ref)) (grants refs name)

-- A name is resolved exactly if the references grant it.
is_listed-resolve_tool_names :
    (name : Text) (refs : List Text) → is_listed name (resolve_tool_names refs) ≡ grants refs name
unfolding resolve_tool_names is_listed
is_listed-resolve_tool_names name refs = is_listed-resolve_from name [] refs

same_listed :
    (x name : Text) (l : List Text) → (x == name) ≡ true → is_listed x l ≡ is_listed name l
same_listed x name l e = ap (λ n. is_listed n l) ((eq_iff x name).0 e)

module _ {W A C E : Type 0} where
  get-remove_tool :
      (x : Text) (r : ToolRegistry W A C E) (name : Text)
      → get name (remove_tool x r).tools ≡ (if x == name then none else get name r.tools)
  unfolding remove_tool
  get-remove_tool x r name = get-remove x name r.tools

  get-keep_only :
      (allowed names : List Text) (r : ToolRegistry W A C E) (name : Text)
      → get name (keep_only allowed names r).tools
        ≡ (if is_listed name names && not (is_listed name allowed) then none else get name r.tools)
  unfolding keep_only is_listed
  get-keep_only allowed [] r name = refl
  get-keep_only allowed (x ∷ names) r name = ground (
    arith,
    get-keep_only allowed names r name,
    get-keep_only allowed names (remove_tool x r) name,
    get-remove_tool x r name,
    same_listed x name allowed,
  )

  get-remove_all :
      (names : List Text) (r : ToolRegistry W A C E) (name : Text)
      → get name (remove_all names r).tools
        ≡ (if is_listed name names then none else get name r.tools)
  unfolding remove_all is_listed
  get-remove_all [] r name = refl
  get-remove_all (x ∷ names) r name =
      ground (arith, get-remove_all names (remove_tool x r) name, get-remove_tool x r name)

  get-unlisted :
      (name : Text) (tools : Dict Text (Tool W A C E))
      → is_listed name (names_of tools) ≡ false
      → get name tools ≡ none
  unfolding get is_listed
  get-unlisted name [] h = refl
  get-unlisted name ((j, t) ∷ tools) h = ground (arith, get-unlisted name tools)

-- An entry of a map has what all its values have.
get-All :
    (P : List Text → Type 0) (k : Text) (m : Dict Text (List Text)) (v : List Text)
    → All (λ e. P e.1) m
    → get k m ≡ some v
    → P v
unfolding get
get-All P k [] v h e = cc e
get-All P k ((j, w) ∷ m) v h e = elim (Bool-cases (j == k)) [
  | inl same ↦ subst P (some_inj (rw same at e)) h.0
  | inr other ↦ get-All P k m v h.1 (rw other at e)
]

granted_name : (ref : Text) → (name : Text) × (is_listed name (group_of ref) ≡ true)
unfolding group_of is_listed get text_beq
granted_name ref = elim (Option-cases (get ref default_tool_groups)) [
  | inl n ↦ (ref, rw (n, eq_refl ref) refl)
  | inr (names, e) ↦
      let (name, h) = first names (
        get-All (λ l. is_empty l ≡ false) ref default_tool_groups names
          (refl, (refl, (refl, (refl, (refl, (refl, tt)))))) e) in
      (name, rw e h)
]
  where
    first : (l : List Text) → is_empty l ≡ false → (name : Text) × (is_listed name l ≡ true)
    first [] h = cc h
    first (x ∷ l) h = (x, rw (eq_refl x) refl)

is_empty-resolve_tool_names :
    (refs : List Text) → is_empty (resolve_tool_names refs) ≡ is_empty refs
unfolding is_listed
is_empty-resolve_tool_names [] = unfold resolve_tool_names resolve_from in refl
is_empty-resolve_tool_names (ref ∷ refs) =
    let (name, h) = granted_name ref in
    filled name (resolve_tool_names (ref ∷ refs))
      (is_listed-resolve_tool_names name (ref ∷ refs) ∙ rw h refl)
  where
    filled : (name : Text) (l : List Text) → is_listed name l ≡ true → is_empty l ≡ false
    filled name [] h = cc h
    filled name (x ∷ l) h = refl

-- What the policy says of a tool.
abbrev pub survives : ToolPolicy → Text → Bool
survives policy name =
    (is_empty policy.allow || grants policy.allow name) && not (grants policy.deny name)

module _ {W A C E : Type 0} where
  get-keep_sorted :
      (allowed : List Text) (r : ToolRegistry W A C E) (name : Text)
      → get name (keep_only allowed (sorted_tool_names r) r).tools
        ≡ (if is_listed name allowed then get name r.tools else none)
  unfolding sorted_tool_names
  get-keep_sorted allowed r name = ground (
    arith,
    get-keep_only allowed (sort_strings (names_of r.tools)) r name,
    is_listed-sort_strings name (names_of r.tools),
    get-unlisted name r.tools,
  )

  -- After ApplyPolicy a tool is in the registry exactly if it was there before and the policy keeps
  -- it: the list of what is allowed is empty or names it, and the list of what is denied does not,
  -- where a reference names a tool by itself or by a group that holds it.
  pub apply_policy-survives :
      (r : ToolRegistry W A C E) (policy : ToolPolicy) (name : Text)
      → get_tool name (apply_policy r policy)
        ≡ (if survives policy name then get_tool name r else none)
  unfolding apply_policy get_tool
  apply_policy-survives r policy name = ground (
    arith,
    get-remove_all (resolve_tool_names policy.deny) r name,
    get-remove_all (resolve_tool_names policy.deny)
        (keep_only (resolve_tool_names policy.allow) (sorted_tool_names r) r) name,
    get-keep_sorted (resolve_tool_names policy.allow) r name,
    is_listed-resolve_tool_names name policy.allow,
    is_listed-resolve_tool_names name policy.deny,
    is_empty-resolve_tool_names policy.allow,
  )
