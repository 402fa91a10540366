-- ===== src/Application/Apply/Outcome.antt =====
-- What an application of a recommendation can come to.
use optipod.Prelude.{
  ◌≡◌, ◌⊎◌, refl, sym, Bool, String, true, false, Option, none, some, Result, ok, err, arith,
  Bool-cases, inl, inr,
}
use optipod.Platform.{Platform}
use optipod.Cluster.{ApiError}
use optipod.Api.Types.{OptimizationPolicy}
use optipod.Recommendation.{Recommendation}
use optipod.Application.Values.{Accessors, AppWorkload}
use optipod.Application.Patch.{PatchError, build_resource_patch, build_ssa_patch}
use optipod.Application.Apply.{
  PatchKind, server_side_apply, strategic_merge_patch, AppsResource, PatchRequest, Effects,
  ApplyError, build_failed, ApplyResult, get_gvr, handle_ssa_error, handle_merge_error, built,
  record_patch, ssa_request, merge_request, use_ssa, outcome_of, as_result, send, with_patch,
  apply_with_ssa, apply_with_strategic_merge, apply,
}

-- The error of a caller by the kind of its patch.
abbrev handled : PatchKind → ApiError → ApplyError
handled server_side_apply = handle_ssa_error
handled strategic_merge_patch = handle_merge_error

abbrev kind_of : Bool → PatchKind
kind_of true = server_side_apply
kind_of false = strategic_merge_patch

module _ {W : Type 0} (fx : Effects W) where
  module _ {P : Platform} (a : Accessors) (workload : AppWorkload) (container_name : String)
      (rec : Recommendation P) (p : OptimizationPolicy P) where
    -- The patch of the policy's kind.
    abbrev patch_of : Bool → Result PatchError String
    patch_of true = build_ssa_patch a workload container_name rec p
    patch_of false = build_resource_patch a workload container_name rec p

    -- A request is of the policy's kind, forced exactly for a server-side apply, goes to the workload
    -- and carries the patch.
    pub record IsFor (request : PatchRequest) : Type 0 where
      pub forced : request.force ≡ use_ssa p
      pub of_kind : request.kind ≡ kind_of (use_ssa p)
      pub in_namespace : request.namespace ≡ workload.namespace
      pub named : request.name ≡ workload.name
      pub resource_of : get_gvr workload.kind ≡ ok request.resource
      pub carries : patch_of (use_ssa p) ≡ ok request.patch

    -- What an application can come to: nothing is sent, because there is no patch or the workload is
    -- of an unknown kind, or one request is sent for the workload, and its outcome is recorded.
    pub data IsOutcome (w : W) : Result ApplyError ApplyResult × W → Type 0 where
      unbuilt :
          (e : PatchError) → patch_of (use_ssa p) ≡ err e → IsOutcome w (err (build_failed e), w)
      unknown : (e : ApplyError) → get_gvr workload.kind ≡ err e → IsOutcome w (err e, w)
      refused :
          (request : PatchRequest) (api : ApiError)
          → IsFor request
          → (fx.patch request w).0 ≡ some api
          → IsOutcome w (
            err (handled request.kind api),
            record_patch fx (outcome_of request.kind workload p false) (fx.patch request w).1,
          )
      accepted :
          (request : PatchRequest)
          → IsFor request
          → (fx.patch request w).0 ≡ none
          → IsOutcome w (
            ok (record { method = request.kind; field_ownership = use_ssa p }),
            record_patch fx (outcome_of request.kind workload p true) (fx.patch request w).1,
          )

    answered :
        (request : PatchRequest) (w : W)
        → IsFor request
        → (answer : Option ApiError) → (fx.patch request w).0 ≡ answer
        → IsOutcome w (
            as_result request.kind (use_ssa p) (elim answer [
              | some e ↦ (
                some (handled request.kind e),
                record_patch fx (outcome_of request.kind workload p false) (fx.patch request w).1,
              )
              | none ↦ (
                none,
                record_patch fx (outcome_of request.kind workload p true) (fx.patch request w).1,
              )
            ]))
    answered request w is_for none h = accepted request is_for h
    answered request w is_for (some e) h = refused request e is_for h

    composed :
        (kind : PatchKind) (w : W) (r : Result PatchError String)
        (g : Result ApplyError AppsResource) (k : String → AppsResource → W → Option ApplyError × W)
        → patch_of (use_ssa p) ≡ r
        → get_gvr workload.kind ≡ g
        → ((patch : String) (resource : AppsResource)
            → r ≡ ok patch
            → g ≡ ok resource
            → IsOutcome w (as_result kind (use_ssa p) (k patch resource w)))
        → IsOutcome w (as_result kind (use_ssa p) (with_patch fx (built r) g k w))
    unfolding with_patch
    composed kind w (err e) g k is known sent = unbuilt e is
    composed kind w (ok patch) (err e) k is known sent = unknown e known
    composed kind w (ok patch) (ok resource) k is known sent = sent patch resource refl refl

    chosen :
        (w : W)
        → (apply fx a workload container_name rec p w
              ≡ as_result server_side_apply
                  (use_ssa p)
                  (apply_with_ssa fx a workload container_name rec p w))
            × (use_ssa p ≡ true)
          ⊎ (apply fx a workload container_name rec p w
              ≡ as_result strategic_merge_patch
                  (use_ssa p)
                  (apply_with_strategic_merge fx a workload container_name rec p w))
            × (use_ssa p ≡ false)
    unfolding apply
    chosen w = elim (Bool-cases (use_ssa p)) [
      | inl ssa ↦ inl (ground (arith))
      | inr merge ↦ inr (ground (arith))
    ]

    -- Whatever the cluster answers, an application sends at most one request. It is for the workload,
    -- carries the patch of the policy's kind and is forced exactly where it is a server-side apply;
    -- its outcome is recorded, and the application succeeds only where the request did, and else
    -- returns the API server's error. Where there is no patch or no resource for the workload's kind,
    -- that is the error, and the state is left alone.
    pub apply-IsOutcome : (w : W) → IsOutcome w (apply fx a workload container_name rec p w)
    unfolding apply_with_ssa apply_with_strategic_merge send
    apply-IsOutcome w = elim (chosen w) [
      | inl (e, ssa) ↦ rw e (
          composed server_side_apply w (build_ssa_patch a workload container_name rec p)
            (get_gvr workload.kind)
            (λ patch resource.
              send fx handle_ssa_error (ssa_request workload resource patch)
                (outcome_of server_side_apply workload p))
            (rw ssa refl) refl
            (λ patch resource is known.
              answered (ssa_request workload resource patch) w
                (record {
                  forced = sym ssa;
                  of_kind = rw ssa refl;
                  in_namespace = refl;
                  named = refl;
                  resource_of = known;
                  carries = rw ssa is;
                })
                _ refl))
      | inr (e, merge) ↦ rw e (
          composed strategic_merge_patch w (build_resource_patch a workload container_name rec p)
            (get_gvr workload.kind)
            (λ patch resource.
              send fx handle_merge_error (merge_request workload resource patch)
                (outcome_of strategic_merge_patch workload p))
            (rw merge refl) refl
            (λ patch resource is known.
              answered (merge_request workload resource patch) w
                (record {
                  forced = sym merge;
                  of_kind = rw merge refl;
                  in_namespace = refl;
                  named = refl;
                  resource_of = known;
                  carries = rw merge is;
                })
                _ refl))
    ]
