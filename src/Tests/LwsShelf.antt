-- ===== src/Tests/LwsShelf.antt =====
-- The LeaderWorkerSets in memory, with a List that goes by namespace and labels.
use fusioninfer.Prelude.{
  ◌≡◌, refl, sym, ap, ◌∙◌, subst, arith, String, ◌==◌, eq_iff, eq_refl, if◌then◌else◌, Bool, true,
  false, ◌&&◌, Bool-cases, inl, inr, Option, none, some, List, [], ◌∷◌,
}
use fusioninfer.Prelude.Lists.{Any, Elem}
use fusioninfer.Prelude.Dict.{Dict}
use fusioninfer.Kube.{Kube}
use fusioninfer.Kube.Objects.{LeaderWorkerSet}
use fusioninfer.Controller.Outcome.{Error, Result, ok, err}
use fusioninfer.Controller.Cluster.{ListStore}
use fusioninfer.Controller.Orphans.{DeleteLaws, is_gone, is_missing}
use fusioninfer.Controller.Orphans.Repeats.{ListLaws}
use fusioninfer.Controller.Orphans.Spares.{SelectLaws}
use fusioninfer.Controller.Replicas.Apart.{RoleLaws}
use fusioninfer.Tests.Matching.{has_all, has_all-Elem, has_all_of}
use fusioninfer.Tests.Shelf.{
  find_named, shelf, find, remove, delete, delete_answer, has_key, find_removed, find-remove_other,
  missing_remove, find_before, Elem-remove, Elem-remove_key, remove-Elem,
}

module _ {K : Kube} where
  -- The object is in the namespace and has the labels.
  abbrev fits : String → Dict String → LeaderWorkerSet K → Bool
  fits namespace ls o = o.metadata.namespace == namespace && has_all ls o.metadata.labels

  -- Of the objects of one key, the newest counts.
  unfoldable pub listing :
      String → Dict String → List (LeaderWorkerSet K) → List (LeaderWorkerSet K)
  listing namespace ls [] = []
  listing namespace ls (o ∷ s) =
      let rest = remove o.metadata.name o.metadata.namespace (listing namespace ls s) in
      if fits namespace ls o then o ∷ rest else rest

  -- The LeaderWorkerSets.
  abbrev pub lws_shelf : ListStore (LeaderWorkerSet K)
  lws_shelf = record {
    store = shelf;
    list = λ namespace ls s. ok (listing namespace ls s);
    delete = delete;
  }

  delete_cases :
      (P : Option Error × List (LeaderWorkerSet K) → Type 0) (o : LeaderWorkerSet K)
      (s : List (LeaderWorkerSet K))
      → P (none, remove o.metadata.name o.metadata.namespace s)
      → ((e : Error) → find o.metadata.name o.metadata.namespace s ≡ err e → P (some e, s))
      → P (delete o s)
  delete_cases P o s found missing = go (find o.metadata.name o.metadata.namespace s) refl
    where
      go :
          (r : Result (LeaderWorkerSet K))
          → find o.metadata.name o.metadata.namespace s ≡ r
          → P (delete_answer o s r)
      go (ok x) e = found
      go (err x) e = missing x e

  pub lws_shelf-DeleteLaws : DeleteLaws lws_shelf
  lws_shelf-DeleteLaws = record {
    removes = λ o s.
        delete_cases
          (λ r.
            is_gone r.0 ≡ true → is_missing (find o.metadata.name o.metadata.namespace r.1) ≡ true)
          o s (λ _. find_removed o.metadata.name o.metadata.namespace s)
          (λ e missing gone. ground arith);
    keeps = λ o s name namespace ne.
        delete_cases (λ r. find name namespace r.1 ≡ find name namespace s) o s
          (find-remove_other name namespace o.metadata.name o.metadata.namespace s ne)
          (λ e missing. refl);
    makes_none = λ o s name namespace h.
        delete_cases (λ r. is_missing (find name namespace r.1) ≡ true) o s
          (missing_remove name namespace o.metadata.name o.metadata.namespace s h) (λ e missing. h);
  }

  listed_older :
      (namespace : String) (ls : Dict String) (o x : LeaderWorkerSet K)
      (s : List (LeaderWorkerSet K))
      → has_key o.metadata.name o.metadata.namespace x ≡ false
      → (find x.metadata.name namespace s ≡ ok x) × (fits namespace ls x ≡ true)
      → (find x.metadata.name namespace (o ∷ s) ≡ ok x) × (fits namespace ls x ≡ true)
  unfolding find
  listed_older namespace ls o x s other h = (
    ground (
      arith,
      eq_iff o.metadata.name x.metadata.name,
      eq_iff x.metadata.name o.metadata.name,
      eq_iff o.metadata.namespace namespace,
      eq_iff x.metadata.namespace o.metadata.namespace,
      eq_iff x.metadata.namespace namespace,
      h.0,
      h.1,
    ),
    h.1,
  )

  -- List shows what Get finds, ...
  listed_found :
      (namespace : String) (ls : Dict String) (s : List (LeaderWorkerSet K)) (x : LeaderWorkerSet K)
      → Elem x (listing namespace ls s)
      → (find x.metadata.name namespace s ≡ ok x) × (fits namespace ls x ≡ true)
  unfolding listing
  listed_found namespace ls [] x m = elim m [ ]
  listed_found namespace ls (o ∷ s) x m = elim (Bool-cases (fits namespace ls o)) [
    | inr apart ↦
        let m' : Elem x (remove o.metadata.name o.metadata.namespace (listing namespace ls s)) =
          rw apart at m in
        listed_older namespace ls o x s (Elem-remove_key _ _ _ x m')
          (listed_found namespace ls s x (Elem-remove _ _ _ x m'))
    | inl hit ↦
        let m' : Elem x (o ∷ remove o.metadata.name o.metadata.namespace (listing namespace ls s)) =
          rw hit at m in
        elim m' [
          | Any.here e ↦
              subst
                (λ (y : LeaderWorkerSet K).
                  (find y.metadata.name namespace (o ∷ s) ≡ ok y) × (fits namespace ls y ≡ true))
                (sym e) (unfold find in ground (arith, eq_refl o.metadata.name, hit), hit)
          | Any.there r ↦
              listed_older namespace ls o x s (Elem-remove_key _ _ _ x r)
                (listed_found namespace ls s x (Elem-remove _ _ _ x r))
        ]
  ]

  other_key :
      (namespace : String) (ls : Dict String) (o x : LeaderWorkerSet K)
      → has_key x.metadata.name namespace o ≡ false
      → fits namespace ls x ≡ true
      → has_key o.metadata.name o.metadata.namespace x ≡ false
  other_key namespace ls o x other fit = ground (
    arith,
    eq_iff o.metadata.name x.metadata.name,
    eq_iff x.metadata.name o.metadata.name,
    eq_iff o.metadata.namespace namespace,
    eq_iff x.metadata.namespace o.metadata.namespace,
    eq_iff x.metadata.namespace namespace,
  )

  -- and all of that.
  found_listed :
      (namespace : String) (ls : Dict String) (s : List (LeaderWorkerSet K)) (x : LeaderWorkerSet K)
      → find x.metadata.name namespace s ≡ ok x
      → fits namespace ls x ≡ true
      → Elem x (listing namespace ls s)
  unfolding listing find
  found_listed namespace ls [] x h fit = absurd (ground arith)
  found_listed namespace ls (o ∷ s) x h fit =
      elim (Bool-cases (has_key x.metadata.name namespace o)) [
        | inl hit ↦
            let one : x ≡ o = ground arith in
            let fit' : fits namespace ls o ≡ true = ap (fits namespace ls) (sym one) ∙ fit in
            rw fit' (Any.here one)
        | inr other ↦
            let later = found_listed namespace ls s x (rw other at h) fit in
            let kept =
              remove-Elem o.metadata.name o.metadata.namespace (listing namespace ls s) x
                (other_key namespace ls o x other fit) later in
            elim (Bool-cases (fits namespace ls o)) [
              | inl listed ↦ rw listed (Any.there kept)
              | inr apart ↦ rw apart kept
            ]
      ]

  same_items :
      {a b : List (LeaderWorkerSet K)} {x : LeaderWorkerSet K}
      → ◌≡◌ {A = Result (List (LeaderWorkerSet K))} (ok a) (ok b)
      → Elem x b
      → Elem x a
  same_items {a} {b} {x} e m = let same : a ≡ b = cc in subst (λ l. Elem x l) (sym same) m

  deleted_before :
      (o x : LeaderWorkerSet K) (s : List (LeaderWorkerSet K)) (name namespace : String)
      → find name namespace (delete o s).1 ≡ ok x
      → find name namespace s ≡ ok x
  deleted_before o x s name namespace =
      delete_cases (λ r. find name namespace r.1 ≡ ok x → find name namespace s ≡ ok x) o s
        (find_before name namespace o.metadata.name o.metadata.namespace s x) (λ e missing h. h)

  fits_namespace :
      (namespace : String) (ls : Dict String) (x : LeaderWorkerSet K)
      → fits namespace ls x ≡ true
      → x.metadata.namespace ≡ namespace
  fits_namespace namespace ls x fit = ground (arith, eq_iff x.metadata.namespace namespace)

  pub lws_shelf-ListLaws : ListLaws lws_shelf
  lws_shelf-ListLaws = record {
    survives = λ o s namespace ls items e. (
      listing namespace ls (delete o s).1,
      refl,
      λ x m.
          let (found, fit) = listed_found namespace ls (delete o s).1 x m in
          same_items (sym e) (
            found_listed namespace ls s x (deleted_before o x s x.metadata.name namespace found)
              fit),
    );
    present = λ s namespace ls items o e m.
        let (found, fit) = listed_found namespace ls s o (same_items e m) in
        let same = fits_namespace namespace ls o fit in
        subst (λ ns. is_missing (find o.metadata.name ns s) ≡ false) (sym same)
          (ap is_missing found);
  }

  pub lws_shelf-SelectLaws : SelectLaws lws_shelf
  lws_shelf-SelectLaws = record {
    finds = λ s namespace ls items o e m. (listed_found namespace ls s o (same_items e m)).0;
    matches = λ s namespace ls items o k v e m held.
        let (found, fit) = listed_found namespace ls s o (same_items e m) in
        has_all-Elem k v ls o.metadata.labels (ground arith) held;
  }

  pub lws_shelf-RoleLaws : RoleLaws lws_shelf
  lws_shelf-RoleLaws = record {
    selects = lws_shelf-SelectLaws;
    answers = λ namespace ls s. (listing namespace ls s, refl);
    complete = λ s namespace ls items o e found all.
        let same = (find_named o.metadata.name namespace s found).1 in
        let fit : fits namespace ls o ≡ true =
          ground
            (arith, eq_iff o.metadata.namespace namespace, has_all_of ls o.metadata.labels all) in
        same_items (sym e) (found_listed namespace ls s o found fit);
    deletes_only = λ o x s name namespace. deleted_before o x s name namespace;
  }
