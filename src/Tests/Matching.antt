-- ===== src/Tests/Matching.antt =====
-- Labels that a selector of List asks for.
use fusioninfer.Prelude.{
  ◌≡◌, refl, sym, subst, arith, String, ◌==◌, eq_iff, eq_refl, Bool, true, false, ◌&&◌, Option,
  none, some, [], ◌∷◌,
}
use fusioninfer.Prelude.Lists.{Any, Elem}
use fusioninfer.Prelude.Dict.{Dict, lookup}

abbrev pub has : String → String → Dict String → Bool
has k v labels = elim (lookup k labels) [ none ↦ false | some w ↦ w == v ]

abbrev pub has_all : Dict String → Dict String → Bool
has_all [] labels = true
has_all ((k, v) ∷ ls) labels = let rest = has_all ls labels in has k v labels && rest

lookup-has :
    (k v : String) (labels : Dict String) → has k v labels ≡ true → lookup k labels ≡ some v
lookup-has k v labels h = go (lookup k labels) refl
  where
    go : (r : Option String) → lookup k labels ≡ r → lookup k labels ≡ some v
    go none e = absurd (ground arith)
    go (some w) e = ground (arith, eq_iff w v)

pub has_all-Elem :
    (k v : String) (ls labels : Dict String)
    → has_all ls labels ≡ true
    → Elem (k, v) ls
    → lookup k labels ≡ some v
has_all-Elem k v [] labels h m = elim m [ ]
has_all-Elem k v ((j, w) ∷ ls) labels h (Any.here e) =
    subst (λ (p : String × String). lookup p.0 labels ≡ some p.1) (sym e)
      (lookup-has j w labels (ground arith))
has_all-Elem k v ((j, w) ∷ ls) labels h (Any.there m) = has_all-Elem k v ls labels (ground arith) m

has_of : (k v : String) (labels : Dict String) → lookup k labels ≡ some v → has k v labels ≡ true
has_of k v labels h =
    subst (λ r. (elim r [ none ↦ false | some w ↦ w == v ]) ≡ true) (sym h) (eq_refl v)

pub has_all_of :
    (ls labels : Dict String)
    → ((k v : String) → Elem (k, v) ls → lookup k labels ≡ some v)
    → has_all ls labels ≡ true
has_all_of [] labels h = refl
has_all_of ((k, v) ∷ ls) labels h =
    let first = has_of k v labels (h k v (Any.here refl)) in
    let rest = has_all_of ls labels (λ j w m. h j w (Any.there m)) in ground arith
