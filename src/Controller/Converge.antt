-- ===== src/Controller/Converge.antt =====
-- Steps, and passes made of steps, that a second run after a success leaves as they are.
use fusioninfer.Prelude.{◌∙◌, ap, ◌≡◌, refl, sym, subst, arith, String}
use fusioninfer.Kube.{Kube, ObjectMeta, Object}
use fusioninfer.Controller.Outcome.{
  Result, ok, err, Outcome, done, failed, panicked, Step, ◌>>◌, wrap_error, focus,
}
use fusioninfer.Controller.Ensure.{with_owner}

-- The step changes only the part that `view` and `put` name, and once it has succeeded, it succeeds
-- again without a change wherever that part is as it left it.
abbrev pub Settles : {S T : Type 0} → (S → T) → (S → T → S) → Step S → Type 0
Settles {S} {T} view put m =
    (s s' : S) → m s ≡ done s' → (t : T) × (s' ≡ put s t) × ((x : S) → view x ≡ t → m x ≡ done x)

-- A handler of one part that settles.
abbrev pub Repeats : {S : Type 0} → Step S → Type 0
Repeats {S} m = (s s' : S) → m s ≡ done s' → m s' ≡ done s'

module _ {S T : Type 0} (view : S → T) (put : S → T → S)
    (put-view : (x : S) → put x (view x) ≡ x) where
  focus_again :
      (m : Step T) (t : T) → m t ≡ done t → (x : S) → view x ≡ t → focus view put m x ≡ done x
  focus_again m t settled x same =
      let here : m (view x) ≡ done (view x) = subst (λ (u : T). m u ≡ done u) (sym same) settled in
      ground (arith, here, put-view x)

  pub focus-Settles : (m : Step T) → Repeats m → Settles view put (focus view put m)
  focus-Settles m again s s' e = go (m (view s)) refl
    where
      go :
          (o : Outcome T)
          → m (view s) ≡ o
          → (t : T) × (s' ≡ put s t) × ((x : S) → view x ≡ t → focus view put m x ≡ done x)
      go (done t) r = (t, ground arith, focus_again m t (again (view s) t r))
      go (failed x t) r = absurd (ground arith)
      go (panicked t) r = absurd (ground arith)

module _ {S T : Type 0} (view : S → T) (put : S → T → S) where
  wrap_error-done :
      (context : String) (m : Step S) (s s' : S) → wrap_error context m s ≡ done s' → m s ≡ done s'
  wrap_error-done context m s s' e = ground arith

  pub wrap_error-Settles :
      (context : String) (m : Step S) → Settles view put m → Settles view put (wrap_error context m)
  wrap_error-Settles context m h s s' e =
      let (t, same, again) = h s s' (wrap_error-done context m s s' e) in
      (t, same, λ x v. let quiet = again x v in ground arith)

  pub with_owner-Settles :
      {K : Kube} {B : Type 0} (r : Result (ObjectMeta K)) (obj : Object K B)
      (k : Object K B → Step S)
      → ((o : Object K B) → Settles view put (k o))
      → Settles view put (with_owner r obj k)
  with_owner-Settles (ok meta) obj k h = h (record obj { metadata = meta })
  with_owner-Settles (err x) obj k h = λ s s' e. absurd (ground arith)

-- `m >> k` succeeds if both do.
pub >>-done :
    {S : Type 0} (m k : Step S) (s s' : S)
    → (m >> k) s ≡ done s'
    → (t : S) × (m s ≡ done t) × (k t ≡ done s')
>>-done {S} m k s s' e = go (m s) refl
  where
    go : (o : Outcome S) → m s ≡ o → (t : S) × (m s ≡ done t) × (k t ≡ done s')
    go (done t) r = (t, r, ground arith)
    go (failed x t) r = absurd (ground arith)
    go (panicked t) r = absurd (ground arith)

pub >>-quiet :
    {S : Type 0} (m k : Step S) (s : S) → m s ≡ done s → k s ≡ done s → (m >> k) s ≡ done s
>>-quiet m k s hm hk = ground arith

-- A pass that repeats, and that leaves alone what the handlers before it have settled.
abbrev pub Chain : {S P : Type 0} → (S → P) → Step S → Type 0
Chain {S} settled k = Repeats k × ((s s' : S) → k s ≡ done s' → settled s' ≡ settled s)

-- A part of the state that is read back as it was put, and is apart from what is settled.
abbrev pub Apart : {S T P : Type 0} → (S → P) → (S → T) → (S → T → S) → Type 0
Apart {S} {T} settled view put =
    (s : S) (t : T) → (view (put s t) ≡ t) × (settled (put s t) ≡ settled s)

module _ {S T P : Type 0} (settled : S → P) (view : S → T) (put : S → T → S)
    (apart : Apart settled view put) where
  pub last-Chain : (m : Step S) → Settles view put m → Chain settled m
  last-Chain m h = (
    λ s s' e. let (t, same, again) = h s s' e in again s' (ap view same ∙ (apart s t).0),
    λ s s' e. let (t, same, _) = h s s' e in ap settled same ∙ (apart s t).1,
  )

  -- The rest of the pass leaves alone what is settled and what this handler settles.
  pub >>-Chain :
      (m k : Step S)
      → Settles view put m
      → Chain {P = P × T} (λ s. (settled s, view s)) k
      → Chain settled (m >> k)
  >>-Chain m k h (quiet, keeps) = (
    λ s s' e.
        let (u, first, rest) = >>-done m k s s' e in
        let (t, same, again) = h s u first in
        let kept : view s' ≡ view u = ap (λ (p : P × T). p.1) (keeps u s' rest) in
        >>-quiet m k s' (again s' (kept ∙ ap view same ∙ (apart s t).0)) (quiet u s' rest),
    λ s s' e.
        let (u, first, rest) = >>-done m k s s' e in
        let (t, same, _) = h s u first in
        ap (λ (p : P × T). p.0) (keeps u s' rest) ∙ ap settled same ∙ (apart s t).1,
  )
