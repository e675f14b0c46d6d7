-- ===== src/Controller/Outcome.antt =====
-- Go's errors, and what a run of a handler ends in.
use fusioninfer.Prelude.{String, ◌<>◌, Bool, true, false, Option, none, some}

-- An error of the API server, or one that `fmt.Errorf("…: %w", err)` wraps.
pub data Error : Type 0 where
  not_found : String → Error
  other_error : String → Error
  wrapped : String → Error → Error

-- err.Error()
abbrev pub error_message : Error → String
error_message (not_found s) = s
error_message (other_error s) = s
error_message (wrapped s e) = s <> ": " <> error_message e

-- apierrors.IsNotFound, which looks through wrapping.
abbrev pub is_not_found : Error → Bool
is_not_found (not_found _) = true
is_not_found (other_error _) = false
is_not_found (wrapped _ e) = is_not_found e

-- A value and a nil error, or an error.
pub data Result (A : Type 0) : Type 0 where
  ok : A → Result A
  err : Error → Result A

abbrev pub map_error : {A : Type 0} → (Error → Error) → Result A → Result A
map_error f (ok a) = ok a
map_error f (err e) = err (f e)

-- The state after a handler that returns nil or an error, or that panics.
pub data Outcome (S : Type 0) : Type 0 where
  done : S → Outcome S
  failed : Error → S → Outcome S
  panicked : S → Outcome S

abbrev pub state_of : {S : Type 0} → Outcome S → S
state_of (done s) = s
state_of (failed _ s) = s
state_of (panicked s) = s

-- A handler that returns only an error.
abbrev pub Step : Type 0 → Type 0
Step S = S → Outcome S

-- What comes after a step that succeeded.
abbrev pub and_then : {S : Type 0} → Outcome S → Step S → Outcome S
and_then (done s) k = k s
and_then (failed e s) k = failed e s
and_then (panicked s) k = panicked s

infixl 5 ◌>>◌
-- `if err := m; err != nil { return err }; k`
abbrev pub ◌>>◌ : {S : Type 0} → Step S → Step S → Step S
◌>>◌ m k s = and_then (m s) k

-- `return nil`
abbrev pub skip : {S : Type 0} → Step S
skip s = done s

-- `if err := m; err != nil { return fmt.Errorf("context: %w", err) }`
abbrev pub wrap_error : {S : Type 0} → String → Step S → Step S
wrap_error context m s = elim (m s) [
  | done s' ↦ done s'
  | failed e s' ↦ failed (wrapped context e) s'
  | panicked s' ↦ panicked s'
]

-- `return r.Create(…)`: the error and the state after a call.
abbrev pub of_call : {S : Type 0} → Option Error × S → Outcome S
of_call (none, s) = done s
of_call (some e, s) = failed e s

-- The outcome of a handler on a part of the state, for the whole.
abbrev pub put_outcome : {S T : Type 0} → (S → T → S) → S → Outcome T → Outcome S
put_outcome put s (done t) = done (put s t)
put_outcome put s (failed e t) = failed e (put s t)
put_outcome put s (panicked t) = panicked (put s t)

-- A handler on a part of the state.
abbrev pub focus : {S T : Type 0} → (S → T) → (S → T → S) → Step T → Step S
focus view put m s = put_outcome put s (m (view s))
