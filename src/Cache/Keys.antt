-- ===== src/Cache/Keys.antt =====
-- The keys: names without a slash, as Kubernetes has them, give different keys.
use Prim.Native.Char.{Char}
use Prim.Native.String.{String, ◌++◌}
use optipod.Prelude.{◌≡◌, sym, ◌∙◌}
use optipod.Prelude.{Lacks, regroup, split_at}
use optipod.Platform.{Platform}
use optipod.Api.Types.{OptimizationPolicy}
use optipod.Cache.{get_policy_key, get_metrics_key}

abbrev pub slash : Char
slash = "/"

-- No character is a slash.
abbrev pub HasNoSlash : String → Type 0
HasNoSlash = Lacks slash

-- Policies whose namespaces hold no slash share a cache key only if they agree in namespace and
-- name.
pub get_policy_key-injective :
    {P : Platform} (p q : OptimizationPolicy P)
    → HasNoSlash p.namespace
    → HasNoSlash q.namespace
    → get_policy_key p ≡ get_policy_key q
    → (p.namespace ≡ q.namespace) × (p.name ≡ q.name)
unfolding get_policy_key
get_policy_key-injective p q h k e =
    split_at slash p.namespace q.namespace p.name q.name h k
      (regroup slash p.namespace p.name ∙ e ∙ sym (regroup slash q.namespace q.name))

-- Containers whose namespaces and pod names hold no slash share a metrics key only if they agree
-- in namespace, pod and container name.
pub get_metrics_key-injective :
    (n p c n' p' c' : String)
    → HasNoSlash n
    → HasNoSlash n'
    → HasNoSlash p
    → HasNoSlash p'
    → get_metrics_key n p c ≡ get_metrics_key n' p' c'
    → (n ≡ n') × (p ≡ p') × (c ≡ c')
unfolding get_metrics_key
get_metrics_key-injective n p c n' p' c' hn hn' hp hp' e =
    let (names, rests) =
      split_at slash n n' (p ++ "/" ++ c) (p' ++ "/" ++ c') hn hn'
        (regroup slash n (p ++ "/" ++ c) ∙ e ∙ sym (regroup slash n' (p' ++ "/" ++ c'))) in
    let (pods, containers) =
      split_at slash p p' c c' hp hp' (regroup slash p c ∙ rests ∙ sym (regroup slash p' c')) in
    (names, pods, containers)
