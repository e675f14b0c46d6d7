-- ===== src/Scheduling/Resources.antt =====
-- pkg/scheduling/podgroup.go: addRoleResources. A Go map is ranged over in any order: the order of
-- the association list.
use fusioninfer.Prelude.{Option, none, some, List, [], ◌∷◌, String}
use fusioninfer.Prelude.Int.{ℤ, mul64}
use fusioninfer.Prelude.Dict.{Dict, lookup, insert}
use fusioninfer.Kube.{Kube, Container, PodTemplateSpec}
use fusioninfer.Kube.Externals.{Externals}
use fusioninfer.Api.{Role}
use fusioninfer.Workload.Container.{parse_template}

-- `range` over a nil map makes no round, as the guard before it says again.
abbrev pub limits_of : {Q : Type 0} → Option (Dict Q) → Dict Q
limits_of none = []
limits_of (some limits) = limits

module _ (K : Kube) where
  -- `existing.Add(totalQuantity)`, or the quantity itself for a new name.
  abbrev add_to : Option K.Quantity → K.Quantity → K.Quantity
  add_to none q = q
  add_to (some existing) q = K.quantity_add existing q

  -- The body of the loop over the limits; DeepCopy is the identity on values.
  unfoldable pub add_limit : ℤ → Dict K.Quantity → String → K.Quantity → Dict K.Quantity
  add_limit total_pods resources resource_name quantity =
      let total_quantity = K.quantity_set quantity (mul64 (K.quantity_value quantity) total_pods) in
      insert resource_name (add_to (lookup resource_name resources) total_quantity) resources

  unfoldable pub add_limits : ℤ → Dict K.Quantity → Dict K.Quantity → Dict K.Quantity
  add_limits total_pods resources [] = resources
  add_limits total_pods resources ((name, q) ∷ limits) =
      add_limits total_pods (add_limit total_pods resources name q) limits

  unfoldable pub add_containers : ℤ → Dict K.Quantity → List (Container K) → Dict K.Quantity
  unfolding add_limits
  add_containers total_pods resources [] = resources
  add_containers total_pods resources (c ∷ containers) =
      add_containers total_pods (add_limits total_pods resources (limits_of c.limits)) containers

-- The containers that the loop ranges over: none if the template is missing or does not decode.
abbrev pub template_containers : {K : Kube} → Option (PodTemplateSpec K) → List (Container K)
template_containers none = []
template_containers (some t) = t.spec.containers

module _ {K : Kube} (X : Externals K) where
  -- The early returns leave the resources as they are, as no containers do.
  unfoldable pub add_role_resources : Dict K.Quantity → Role → ℤ → Dict K.Quantity
  unfolding add_containers
  add_role_resources resources role total_pods =
      add_containers K total_pods resources (template_containers (parse_template X role.template))
