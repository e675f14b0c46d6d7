-- ===== src/Tests/Shelf.antt =====
-- A store in memory that keeps any number of objects, the newest first, and the laws that it obeys.
use fusioninfer.Prelude.{
  ◌∙◌, ◌≡◌, ◌≢◌, refl, sym, ap, subst, arith, String, ◌==◌, eq_iff, eq_refl, ◌&&◌, if◌then◌else◌,
  Bool, true, false, Bool-cases, inl, inr, Option, none, some, List, [], ◌∷◌,
}
use fusioninfer.Prelude.Lists.{Any, Elem}
use fusioninfer.Kube.{Kube, Object}
use fusioninfer.Controller.Outcome.{Error, not_found, Result, ok, err}
use fusioninfer.Controller.Cluster.{Store}
use fusioninfer.Controller.Store.{IsLawful}
use fusioninfer.Controller.Orphans.{is_missing}
use fusioninfer.Controller.Replicas.{IsFramed}

module _ {K : Kube} {B : Type 0} where
  abbrev pub has_key : String → String → Object K B → Bool
  has_key name namespace o = o.metadata.name == name && o.metadata.namespace == namespace

  unfoldable pub find : String → String → List (Object K B) → Result (Object K B)
  find name namespace [] = err (not_found name)
  find name namespace (o ∷ s) = if has_key name namespace o then ok o else find name namespace s

  unfoldable pub remove : String → String → List (Object K B) → List (Object K B)
  remove name namespace [] = []
  remove name namespace (o ∷ s) =
      let rest = remove name namespace s in if has_key name namespace o then rest else o ∷ rest

  abbrev put : Object K B → List (Object K B) → Option Error × List (Object K B)
  put o s = (none, o ∷ s)

  abbrev pub delete_answer :
      Object K B → List (Object K B) → Result (Object K B) → Option Error × List (Object K B)
  delete_answer o s (ok _) = (none, remove o.metadata.name o.metadata.namespace s)
  delete_answer o s (err e) = (some e, s)

  abbrev pub delete : Object K B → List (Object K B) → Option Error × List (Object K B)
  delete o s = delete_answer o s (find o.metadata.name o.metadata.namespace s)

  abbrev pub shelf : Store (Object K B)
  shelf = record { State = List (Object K B); get = find; create = put; update = put }

  pub find_named :
      (name namespace : String) (s : List (Object K B)) {o : Object K B}
      → find name namespace s ≡ ok o
      → (o.metadata.name ≡ name) × (o.metadata.namespace ≡ namespace)
  unfolding find
  find_named name namespace [] h = cc
  find_named name namespace (x ∷ s) {o} h = elim (Bool-cases (has_key name namespace x)) [
    | inl hit ↦ ground (arith, eq_iff x.metadata.name name, eq_iff x.metadata.namespace namespace)
    | inr other ↦ find_named name namespace s (rw other at h)
  ]

  pub find-put :
      (o : Object K B) (s s' : List (Object K B))
      → put o s ≡ (none, s')
      → find o.metadata.name o.metadata.namespace s' ≡ ok o
  find-put o s s' e =
      subst (λ (t : List (Object K B)). find o.metadata.name o.metadata.namespace t ≡ ok o)
        (ap (λ (r : Option Error × List (Object K B)). r.1) e)
        (unfold find in ground (arith, eq_refl o.metadata.name, eq_refl o.metadata.namespace))

  pub shelf-IsLawful : IsLawful shelf
  shelf-IsLawful = record {
    get_named = find_named;
    create_stores = λ obj s s' e. (obj, find-put obj s s' e, refl);
    update_stores = λ obj s s' e. (obj, find-put obj s s' e, refl);
  }

  find_other :
      (o : Object K B) (s : List (Object K B)) (name namespace : String)
      → name ≢ o.metadata.name
      → find name namespace (o ∷ s) ≡ find name namespace s
  unfolding find
  find_other o s name namespace ne = ground (arith, eq_iff o.metadata.name name)

  pub shelf-IsFramed : IsFramed shelf
  shelf-IsFramed = record { creates = find_other; updates = find_other }

  pub find_removed :
      (name namespace : String) (s : List (Object K B))
      → is_missing (find name namespace (remove name namespace s)) ≡ true
  unfolding find remove
  find_removed name namespace [] = refl
  find_removed name namespace (x ∷ s) = ground (arith, find_removed name namespace s)

  pub find-remove_other :
      (name namespace name' namespace' : String) (s : List (Object K B))
      → name ≢ name'
      → find name namespace (remove name' namespace' s) ≡ find name namespace s
  unfolding find remove
  find-remove_other name namespace name' namespace' [] ne = refl
  find-remove_other name namespace name' namespace' (x ∷ s) ne = ground (
    arith,
    eq_iff x.metadata.name name,
    eq_iff x.metadata.name name',
    find-remove_other name namespace name' namespace' s ne,
  )

  pub missing_remove :
      (name namespace name' namespace' : String) (s : List (Object K B))
      → is_missing (find name namespace s) ≡ true
      → is_missing (find name namespace (remove name' namespace' s)) ≡ true
  unfolding find remove
  missing_remove name namespace name' namespace' [] h = refl
  missing_remove name namespace name' namespace' (x ∷ s) h =
      elim (Bool-cases (has_key name namespace x)) [
        | inl hit ↦ absurd (ground arith)
        | inr other ↦ ground (arith, missing_remove name namespace name' namespace' s)
      ]

  pub Elem-remove :
      (name namespace : String) (s : List (Object K B)) (x : Object K B)
      → Elem x (remove name namespace s)
      → Elem x s
  unfolding remove
  Elem-remove name namespace [] x m = m
  Elem-remove name namespace (y ∷ s) x m = elim (Bool-cases (has_key name namespace y)) [
    | inl hit ↦ Any.there (Elem-remove name namespace s x (rw hit at m))
    | inr other ↦
        let m' : Elem x (y ∷ remove name namespace s) = rw other at m in
        elim m' [
          | Any.here e ↦ Any.here e
          | Any.there r ↦ Any.there (Elem-remove name namespace s x r)
        ]
  ]

  find-Elem :
      (s : List (Object K B)) (o : Object K B)
      → Elem o s
      → is_missing (find o.metadata.name o.metadata.namespace s) ≡ false
  unfolding find
  find-Elem [] o m = elim m [ ]
  find-Elem (y ∷ s) o (Any.here e) =
      subst
        (λ (z : Object K B). is_missing (find o.metadata.name o.metadata.namespace (z ∷ s)) ≡ false)
        e (ground (arith, eq_refl o.metadata.name, eq_refl o.metadata.namespace))
  find-Elem (y ∷ s) o (Any.there m) = ground (arith, find-Elem s o m)

  pub Elem-remove_key :
      (name namespace : String) (s : List (Object K B)) (x : Object K B)
      → Elem x (remove name namespace s)
      → has_key name namespace x ≡ false
  unfolding remove
  Elem-remove_key name namespace [] x m = elim m [ ]
  Elem-remove_key name namespace (y ∷ s) x m = elim (Bool-cases (has_key name namespace y)) [
    | inl hit ↦ Elem-remove_key name namespace s x (rw hit at m)
    | inr other ↦
        let m' : Elem x (y ∷ remove name namespace s) = rw other at m in
        elim m' [
          | Any.here e ↦ ap (has_key name namespace) e ∙ other
          | Any.there r ↦ Elem-remove_key name namespace s x r
        ]
  ]

  pub remove-Elem :
      (name namespace : String) (s : List (Object K B)) (x : Object K B)
      → has_key name namespace x ≡ false
      → Elem x s
      → Elem x (remove name namespace s)
  unfolding remove
  remove-Elem name namespace [] x other m = elim m [ ]
  remove-Elem name namespace (y ∷ s) x other m = elim (Bool-cases (has_key name namespace y)) [
    | inl hit ↦ elim m [
      | Any.here e ↦ absurd (cc (sym other ∙ ap (has_key name namespace) e ∙ hit))
      | Any.there r ↦ rw hit (remove-Elem name namespace s x other r)
    ]
    | inr apart ↦ elim m [
      | Any.here e ↦ rw apart (Any.here e)
      | Any.there r ↦ rw apart (Any.there (remove-Elem name namespace s x other r))
    ]
  ]

  -- What is there without some objects was there.
  pub find_before :
      (name namespace name' namespace' : String) (s : List (Object K B)) (x : Object K B)
      → find name namespace (remove name' namespace' s) ≡ ok x
      → find name namespace s ≡ ok x
  unfolding find remove
  find_before name namespace name' namespace' [] x h = h
  find_before name namespace name' namespace' (y ∷ s) x h =
      elim (Bool-cases (has_key name' namespace' y)) [
        | inl gone ↦ elim (Bool-cases (has_key name namespace y)) [
          | inl hit ↦
              let one : find name' namespace' (remove name' namespace' s) ≡ ok x = ground (
                arith,
                eq_iff y.metadata.name name,
                eq_iff y.metadata.name name',
                eq_iff y.metadata.namespace namespace,
                eq_iff y.metadata.namespace namespace',
              ) in
              let none : is_missing (find name' namespace' (remove name' namespace' s)) ≡ true =
                find_removed name' namespace' s in
              absurd (ground arith)
          | inr other ↦
              let before = find_before name namespace name' namespace' s x (rw gone at h) in
              ground arith
        ]
        | inr kept ↦ elim (Bool-cases (has_key name namespace y)) [
          | inl hit ↦ ground arith
          | inr other ↦ ground (arith, find_before name namespace name' namespace' s x)
        ]
      ]
