-- ===== src/Informers/Shared.antt =====
-- InformerFor: one informer per type.
use fusioninfer.Prelude.{
  ℕ, zero, suc, ◌≡◌, refl, sym, from_option, ap, ◌∙◌, subst, arith, String, Option, none, some,
}
use fusioninfer.Prelude.Int.{ℤ}
use fusioninfer.Prelude.Dict.{lookup, insert, lookup-insert_ne, lookup-insert_self}
use fusioninfer.Informers.{ClientGo, SharedInformerFactory, begin_shutdown, wg_done, informer_for}
use fusioninfer.Informers.Goroutines.{
  State, Step, Steps, asks, starts, shuts_down, ends, stays, goes,
}
use fusioninfer.Informers.Started.{start_informers}

module _ {G : ClientGo} where
  informer_for_there :
      (ty : String) (new_func : G.Client → ℤ → G.Informer) (f : SharedInformerFactory G)
      (informer : G.Informer)
      → lookup ty f.informers ≡ some informer
      → informer_for ty new_func f ≡ (informer, f)
  unfolding informer_for
  informer_for_there ty new_func f informer e = ground arith

  -- The informer that InformerFor makes of a type that has none.
  abbrev made : String → (G.Client → ℤ → G.Informer) → SharedInformerFactory G → G.Informer
  made ty new_func f =
      G.set_transform f.transform
        (new_func f.client (from_option f.default_resync (lookup ty f.custom_resync)))

  informer_for_new :
      (ty : String) (new_func : G.Client → ℤ → G.Informer) (f : SharedInformerFactory G)
      → lookup ty f.informers ≡ none
      → let informer = made ty new_func f in
        informer_for ty new_func f
        ≡ (informer, record f { informers = insert ty informer f.informers })
  unfolding informer_for
  informer_for_new ty new_func f e = ground arith

  -- A property of InformerFor, by whether the type has an informer.
  informer_for_cases :
      (P : G.Informer × SharedInformerFactory G → Type 0) (ty : String)
      (new_func : G.Client → ℤ → G.Informer) (f : SharedInformerFactory G)
      → ((informer : G.Informer) → lookup ty f.informers ≡ some informer → P (informer, f))
      → (lookup ty f.informers ≡ none
          → let informer = made ty new_func f in
            P (informer, record f { informers = insert ty informer f.informers }))
      → P (informer_for ty new_func f)
  informer_for_cases P ty new_func f there new = go (lookup ty f.informers) refl
    where
      go : (x : Option G.Informer) → lookup ty f.informers ≡ x → P (informer_for ty new_func f)
      go none e = subst P (sym (informer_for_new ty new_func f e)) (new e)
      go (some informer) e =
          subst P (sym (informer_for_there ty new_func f informer e)) (there informer e)

  informer_for_stored :
      (ty : String) (new_func : G.Client → ℤ → G.Informer) (f : SharedInformerFactory G)
      → let r = informer_for ty new_func f in lookup ty r.1.informers ≡ some r.0
  informer_for_stored ty new_func f =
      informer_for_cases (λ r. lookup ty r.1.informers ≡ some r.0) ty new_func f (λ informer e. e)
        (λ e. lookup-insert_self ty (made ty new_func f) f.informers)

  -- The type has this informer.
  abbrev Has : String → G.Informer → State G → Type 0
  Has k informer s = lookup k s.factory.informers ≡ some informer

  informer_for_keeps :
      (k ty : String) (informer : G.Informer) (new_func : G.Client → ℤ → G.Informer)
      (f : SharedInformerFactory G)
      → lookup k f.informers ≡ some informer
      → lookup k (informer_for ty new_func f).1.informers ≡ some informer
  informer_for_keeps k ty informer new_func f h =
      informer_for_cases (λ r. lookup k r.1.informers ≡ some informer) ty new_func f (λ x e. h)
        (λ e.
          lookup-insert_ne k ty (made ty new_func f) f.informers
            (λ same. cc (sym e ∙ ap (λ x. lookup x f.informers) (sym same) ∙ h))
          ∙ h)

  wg_done_informers :
      (f f' : SharedInformerFactory G) → wg_done f ≡ some f' → f.informers ≡ f'.informers
  unfolding wg_done
  wg_done_informers f f' e = go f.wg refl
    where
      go : (n : ℕ) → f.wg ≡ n → f.informers ≡ f'.informers
      go zero z = absurd (ground arith)
      go (suc n) z =
          let same : record f { wg = n } ≡ f' = ground arith in
          ap (λ (x : SharedInformerFactory G). x.informers) same

  Step-Has :
      (k : String) (informer : G.Informer) {s t : State G}
      → Step s t
      → Has k informer s
      → Has k informer t
  unfolding begin_shutdown
  Step-Has k informer (asks ty new_func s) h = informer_for_keeps k ty informer new_func s.factory h
  Step-Has k informer (starts s) h = ap (lookup k) (start_informers s.factory) ∙ h
  Step-Has k informer (shuts_down s) h = h
  Step-Has k informer (ends s before after g f there e) h =
      ap (lookup k) (sym (wg_done_informers s.factory f e)) ∙ h

  Steps-Has :
      (k : String) (informer : G.Informer) {s t : State G}
      → Steps s t
      → Has k informer s
      → Has k informer t
  Steps-Has k informer (stays _) h = h
  Steps-Has k informer (goes before step) h =
      Step-Has k informer step (Steps-Has k informer before h)

  -- What InformerFor has once returned for a type, it returns for that type ever after, whatever
  -- happens in between and whatever constructor it is given, and it does not change the factory again.
  pub informer_for_shared :
      (ty : String) (new_func new_func' : G.Client → ℤ → G.Informer) (s t : State G)
      → Steps (record s { factory = (informer_for ty new_func s.factory).1 }) t
      → informer_for ty new_func' t.factory ≡ ((informer_for ty new_func s.factory).0, t.factory)
  informer_for_shared ty new_func new_func' s t steps =
      informer_for_there ty new_func' t.factory (informer_for ty new_func s.factory).0 (
        Steps-Has ty (informer_for ty new_func s.factory).0 steps
          (informer_for_stored ty new_func s.factory))
