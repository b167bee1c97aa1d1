-- ===== src/Controllers/Target.antt =====
-- Which manifests checkApplyTarget lets through (internal/controllers/applydesire/controller.go).
use hyperfleet_applier.Base.{
  ◌≡◌, ◌⊎◌, inl, inr, ◌↔◌, ◌≢◌, true, false, Bool-cases, none, [], ◌==◌, arith,
}
use hyperfleet_applier.Base.Text.{text_eq_iff, text_Eq}
use hyperfleet_applier.Desire.Types.{Identity}
use hyperfleet_applier.Controllers.Cluster.{Object, Mapping}
use hyperfleet_applier.Controllers.ApplyDesire.{check_apply_target}

-- the object that a manifest names is the one that an identity names
pub record Targets (id : Identity) (obj : Object) (mapping : Mapping) : Type 0 where
  pub group_eq : mapping.group ≡ id.group
  pub resource_eq : mapping.resource ≡ id.resource
  pub name_eq : obj.name ≡ id.name
  pub scoped :
      ((mapping.namespaced ≡ true)
        × (id.namespace ≢ [])
        × ((obj.namespace ≡ []) ⊎ (obj.namespace ≡ id.namespace)))
      ⊎ ((mapping.namespaced ≡ false) × (id.namespace ≡ []))

-- checkApplyTarget accepts a manifest exactly if it names the resource, the name and the namespace of
-- the identity; a namespaced one may leave its namespace out, and a cluster-scoped one has none in the
-- identity.
pub check_apply_target_iff :
    (id : Identity) (obj : Object) (mapping : Mapping)
    → (check_apply_target id obj mapping ≡ none) ↔ Targets id obj mapping
unfolding check_apply_target
check_apply_target_iff id obj mapping = (
  λ h. record {
    group_eq = ground (arith, text_eq_iff mapping.group id.group);
    resource_eq = ground (arith, text_eq_iff mapping.resource id.resource);
    name_eq = ground (arith, text_eq_iff obj.name id.name);
    scoped = elim (Bool-cases mapping.namespaced) [
      | inl y ↦ inl (
        y,
        λ e. ground (arith, text_eq_iff id.namespace []),
        elim (Bool-cases (obj.namespace == [])) [
          | inl e ↦ inl ((text_eq_iff obj.namespace []).0 e)
          | inr o ↦
              inr (
                ground (arith, text_eq_iff id.namespace [], text_eq_iff obj.namespace id.namespace))
        ],
      )
      | inr n ↦ inr (n, ground (arith, text_eq_iff id.namespace []))
    ];
  },
  λ t.
      let g = (text_eq_iff mapping.group id.group).1 t.group_eq in
      let r = (text_eq_iff mapping.resource id.resource).1 t.resource_eq in
      let n = (text_eq_iff obj.name id.name).1 t.name_eq in
      elim t.scoped [
        | inl (y, ne, inl e) ↦
            ground (arith, text_eq_iff id.namespace [], text_eq_iff obj.namespace [])
        | inl (y, ne, inr e) ↦
            ground (arith, text_eq_iff id.namespace [], text_eq_iff obj.namespace id.namespace)
        | inr (y, e) ↦ ground (arith, text_eq_iff id.namespace [])
      ],
)
