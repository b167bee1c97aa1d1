-- ===== src/Memory/Listing.antt =====
-- The in-memory store's list operations return the desires of their type and management cluster, and
-- DeleteByPrefix removes the desires that its selector describes.
use hyperfleet_applier.Base.Dict.{remove_if, lookup-remove_if, lookup-behind, IsUnique, lookup}
use hyperfleet_applier.Base.Text.{text_Eq, text_eq_iff, Text}
use hyperfleet_applier.Desire.Selector.{matches_iff, Selected}
use hyperfleet_applier.Memory.Query.{
  delete_by_prefix, doomed, list_apply_desires, selects, list_desires,
}
use hyperfleet_applier.Desire.Contract.{PrefixSelector, matches}
use hyperfleet_applier.Base.{
  refl, ◌∙◌, ap, sym, inr, subst, Option, ◌==◌, inl, none, ◌≡◌, ◌↔◌, true, some, List, [], ◌∷◌,
  Bool-cases, arith,
}
use hyperfleet_applier.Memory.Access.{get_apply_desire-HasApply, guard_ok, HasApply}
use hyperfleet_applier.Memory.Facts.{find_apply_ok, find_apply-keeps}
use hyperfleet_applier.Memory.Writes.{project_lem}
use hyperfleet_applier.Desire.Validate.{Error}
use hyperfleet_applier.Memory.Apply.{find_apply, get_apply_desire}
use hyperfleet_applier.Base.Exec.{bind_ok_same}
use hyperfleet_applier.Base.Result.{Result, ok}
use hyperfleet_applier.Desire.Types.{
  type_apply, ApplySpec, ApplyDesire, identity_eq_iff, DesireType, Identity, identity_Eq,
}
use hyperfleet_applier.Memory.Record.{project_apply_desire, ResourceRecord, Items, Memory}
use hyperfleet_applier.Memory.Invariant.{IsValid}
use mathlib.Core.List.{Memᴰ}
use mathlib.Core.List.Memᴰ

found_here :
    (w rec : ResourceRecord) → ◌≡◌ {A = Option ResourceRecord} (some w) (some rec) → w ≡ rec
found_here w rec h = cc

module _ {D : Type 0} (project : ResourceRecord → D) (mc : Text) (t : DesireType) where
  -- a stored desire of the cluster and the type
  pub record Stored (items : Items) (d : D) : Type 0 where
    pub id : Identity
    pub rec : ResourceRecord
    pub at : lookup id items ≡ some rec
    pub in_cluster : id.management_cluster ≡ mc
    pub of_type : id.type ≡ t
    pub shown : d ≡ project rec

  pub selects_ok :
      (id : Identity) → selects mc t id ≡ true → (id.management_cluster ≡ mc) × (id.type ≡ t)
  unfolding selects
  selects_ok id h = ground (arith, text_eq_iff id.management_cluster mc, text_eq_iff id.type t)

  selects_of : (id : Identity) → id.management_cluster ≡ mc → id.type ≡ t → selects mc t id ≡ true
  unfolding selects
  selects_of id h k = rw ((text_eq_iff id.management_cluster mc).1 h, (text_eq_iff id.type t).1 k)

  behind :
      (j : Identity) (w : ResourceRecord) (items : Items) (d : D)
      → lookup j items ≡ none
      → Stored items d
      → Stored ((j, w) ∷ items) d
  behind j w items d n s = record {
    id = s.id;
    rec = s.rec;
    at = lookup-behind j s.id w s.rec items n s.at;
    in_cluster = s.in_cluster;
    of_type = s.of_type;
    shown = s.shown;
  }

  pub list_sound :
      (items : Items) (d : D)
      → IsUnique items
      → Memᴰ d (list_desires project mc t items)
      → Stored items d
  unfolding list_desires
  list_sound [] d u m = elim m [ ]
  list_sound ((j, w) ∷ items) d u m = elim (Bool-cases (selects mc t j)) [
    | inl y ↦ elim (Memᴰ.cases_cons (rw y at m)) [
      | inl e ↦ record {
        id = j;
        rec = w;
        at = unfold lookup in rw ((identity_eq_iff j j).1 refl);
        in_cluster = (selects_ok j y).0;
        of_type = (selects_ok j y).1;
        shown = e;
      }
      | inr k ↦ behind j w items d u.0 (list_sound items d u.1 k)
    ]
    | inr n ↦ behind j w items d u.0 (list_sound items d u.1 (rw n at m))
  ]

  list_complete :
      (items : Items) (id : Identity) (rec : ResourceRecord)
      → lookup id items ≡ some rec
      → selects mc t id ≡ true
      → Memᴰ (project rec) (list_desires project mc t items)
  unfolding list_desires lookup
  list_complete [] id rec h y = cc
  list_complete ((j, w) ∷ items) id rec h y = elim (Bool-cases (j == id)) [
    | inl e ↦
        rw (subst (λ i. selects mc t i ≡ true) (sym ((identity_eq_iff j id).0 e)) y)
          (Memᴰ.head (ap project (sym (found_here w rec (rw e at h)))))
    | inr n ↦
        let ih = list_complete items id rec (rw n at h) y in
        elim (Bool-cases (selects mc t j)) [ inl l ↦ rw l (Memᴰ.tail ih) | inr r ↦ rw r ih ]
  ]

get_apply_desire_ok :
    (id : Identity) (s : Memory) (d : ApplyDesire)
    → get_apply_desire id s ≡ (ok d, s)
    → (rec : ResourceRecord) × (spec : ApplySpec) × HasApply id s rec spec
      × (d ≡ project_apply_desire rec)
unfolding get_apply_desire
get_apply_desire_ok id s d h =
    let (_, typed, h₁) = bind_ok_same _ _ s refl h in
    let (a, found, h₂) = bind_ok_same (find_apply id) _ s (find_apply-keeps id s) h₁ in
    let at = find_apply_ok id s a.0 a.1 found in
    (
      a.0,
      a.1,
      record {
        typed = (text_eq_iff id.type type_apply).0 (guard_ok _ _ typed);
        at = at.0;
        specified = at.1;
      },
      cc (ap (λ (x : Result Error ApplyDesire × Memory). x.0) h₂),
    )

doomed_iff :
    (mc : Text) (sel : PrefixSelector) (id : Identity)
    → (doomed mc sel id ≡ true) ↔ ((id.management_cluster ≡ mc) × Selected sel id)
unfolding doomed
doomed_iff mc sel id = (
  λ h.
      let both : ((id.management_cluster == mc) ≡ true) × (matches sel id ≡ true) =
        ground (arith, h) in
      ((text_eq_iff id.management_cluster mc).0 both.0, (matches_iff sel id).0 both.1),
  λ (here, chosen).
      rw ((text_eq_iff id.management_cluster mc).1 here) ((matches_iff sel id).1 chosen),
)

-- In a valid store, listing a management cluster's ApplyDesires returns exactly the desires of that
-- cluster that a read of their identity returns.
pub list_apply_desires_iff :
    (mc : Text) (s : Memory) (ds : List ApplyDesire) (d : ApplyDesire)
    → IsValid s.items
    → list_apply_desires mc s ≡ (ok ds, s)
    → Memᴰ d ds
      ↔ ((get_apply_desire d.identity s ≡ (ok d, s)) × (d.identity.management_cluster ≡ mc))
unfolding list_apply_desires
list_apply_desires_iff mc s ds d v h = (
  λ m.
      let st =
        list_sound project_apply_desire mc type_apply s.items d v.unique
          (subst (Memᴰ d) (sym listed) m) in
      let wf = v.well_formed st.id st.rec st.at in
      let (spec, has) = wf.specified st.of_type in
      let shown = st.shown ∙ project_lem st.rec spec has in
      let same = ap (λ (x : ApplyDesire). x.identity) shown ∙ wf.keyed in
      (
        subst (λ i. get_apply_desire i s ≡ (ok d, s)) (sym same)
            (get_apply_desire-HasApply (known st spec has) ∙ ap (λ x. (ok x, s)) (sym st.shown)),
        ap (λ (i : Identity). i.management_cluster) same ∙ st.in_cluster,
      ),
  λ (got, here).
      let (rec, spec, has, shown) = get_apply_desire_ok d.identity s d got in
      subst (Memᴰ d) listed (
        subst (λ x. Memᴰ x (list_desires project_apply_desire mc type_apply s.items)) (sym shown)
          (list_complete project_apply_desire mc type_apply s.items d.identity rec has.at
            (selects_of project_apply_desire mc type_apply d.identity here has.typed))),
)
  where
    listed : list_desires project_apply_desire mc type_apply s.items ≡ ds
    listed = cc (ap (λ (x : Result Error (List ApplyDesire) × Memory). x.0) h)

    known :
        (st : Stored project_apply_desire mc type_apply s.items d) (spec : ApplySpec)
        → st.rec.apply ≡ some spec
        → HasApply st.id s st.rec spec
    known st spec has = record { typed = st.of_type; at = st.at; specified = has }

-- After DeleteByPrefix a record is there exactly if it was there before and is not one of the cluster
-- that the selector describes.
pub delete_by_prefix_iff :
    (mc : Text) (sel : PrefixSelector) (s : Memory) (id : Identity) (rec : ResourceRecord)
    → (lookup id (delete_by_prefix mc sel s).1.items ≡ some rec)
      ↔ ((lookup id s.items ≡ some rec) × ¬ ((id.management_cluster ≡ mc) × Selected sel id))
unfolding delete_by_prefix
delete_by_prefix_iff mc sel s id rec = elim (Bool-cases (doomed mc sel id)) [
  | inl y ↦ (
    λ h.
        let gone : lookup id (remove_if (doomed mc sel) s.items) ≡ none =
          lookup-remove_if (doomed mc sel) id s.items ∙ rw y in
        cc (sym gone ∙ h),
    λ (_, spared). absurd (spared ((doomed_iff mc sel id).0 y)),
  )
  | inr n ↦
      let kept : lookup id (remove_if (doomed mc sel) s.items) ≡ lookup id s.items =
        lookup-remove_if (doomed mc sel) id s.items ∙ rw n in
      (λ h. (sym kept ∙ h, λ k. cc (sym n ∙ (doomed_iff mc sel id).1 k)), λ (h, _). kept ∙ h)
]
