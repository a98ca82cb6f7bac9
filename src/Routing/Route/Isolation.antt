-- ===== src/Routing/Route/Isolation.antt =====
-- ResolveRoute and the bindings of other channels (pkg/routing/route.go).
use aetherclaw.Common.{
  ◌≡◌, refl, ap, ◌≢◌, inl, inr, false, List, [], ◌∷◌, ◌++◌, arith, nat_key, eq_iff, Bool-cases,
}
use aetherclaw.Common.Text.{Text, text_key, to_lower, trim_space}
use aetherclaw.Routing.AgentId.{normalize_account_id}
use aetherclaw.Routing.Route.{
  AgentBinding, Config, RouteInput, keeps_binding, filter_bindings, resolve_route, choose,
  route_among,
}

filter_bindings-append :
    (channel account : Text) (xs ys : List AgentBinding)
    → filter_bindings channel account (xs ++ ys)
      ≡ filter_bindings channel account xs ++ filter_bindings channel account ys
unfolding filter_bindings
filter_bindings-append channel account [] ys = refl
filter_bindings-append channel account (x ∷ xs) ys =
    elim (Bool-cases (keeps_binding channel account x)) [
      | inl e ↦ rw (e, filter_bindings-append channel account xs ys) refl
      | inr e ↦ rw (e, filter_bindings-append channel account xs ys) refl
    ]

other_channel :
    (channel account : Text) (b : AgentBinding)
    → to_lower (trim_space b.matching.channel) ≢ channel
    → keeps_binding channel account b ≡ false
unfolding keeps_binding
other_channel channel account b h =
    ground (arith, eq_iff (to_lower (trim_space b.matching.channel)) channel)

filter_bindings_skip :
    (channel account : Text) (b : AgentBinding) (xs ys : List AgentBinding)
    → keeps_binding channel account b ≡ false
    → filter_bindings channel account (xs ++ b ∷ ys) ≡ filter_bindings channel account (xs ++ ys)
unfolding filter_bindings
filter_bindings_skip channel account b xs ys h =
    rw
      (
        filter_bindings-append channel account xs (b ∷ ys),
        filter_bindings-append channel account xs ys,
        h,
      )
      refl

abbrev pub with_bindings : Config → List AgentBinding → Config
with_bindings cfg bindings = record {
  bindings = bindings;
  agents = cfg.agents;
  dm_scope = cfg.dm_scope;
  identity_links = cfg.identity_links;
}

-- A binding for another channel than the one of the input, at any place among the bindings,
-- changes nothing of the route: agent, session keys, level of the match.
pub resolve_route_isolated :
    (cfg : Config) (input : RouteInput) (b : AgentBinding) (xs ys : List AgentBinding)
    → to_lower (trim_space b.matching.channel) ≢ to_lower (trim_space input.channel)
    → resolve_route (with_bindings cfg (xs ++ b ∷ ys)) input
      ≡ resolve_route (with_bindings cfg (xs ++ ys)) input
unfolding resolve_route choose
resolve_route_isolated cfg input b xs ys h =
    ap (route_among (with_bindings cfg []) channel account input)
      (filter_bindings_skip channel account b xs ys (other_channel channel account b h))
  where
    channel : Text
    channel = to_lower (trim_space input.channel)

    account : Text
    account = normalize_account_id input.account_id
