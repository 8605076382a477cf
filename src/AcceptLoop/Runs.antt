-- ===== src/AcceptLoop/Runs.antt =====
-- The accept loop at concrete answers.
use drawbridge.Base.{ℕ, ◌≡◌, refl, true, false, List, [], ◌∷◌, ◌++◌, inl}
use drawbridge.AcceptLoop.{AcceptError, retryable, conn, error, handled, slept, returned, serve}
use drawbridge.AcceptLoop.Backoff.{errors, serve_survives, serve_ends}

abbrev emfile : AcceptError
emfile = record { is_closed = false; is_emfile = true; is_enfile = false; temporary = false }

abbrev closed : AcceptError
closed = record { is_closed = true; is_emfile = false; is_enfile = false; temporary = true }

abbrev three : List AcceptError
three = emfile ∷ emfile ∷ emfile ∷ []

serve_survives_runs :
    serve {C = ℕ} 0 (errors three ++ conn 8 ∷ error closed ∷ [])
    ≡ slept 5_000_000
      ∷ slept 10_000_000
      ∷ slept 20_000_000
      ∷ handled 8
      ∷ serve 0 (error closed ∷ [])
unfolding retryable
serve_survives_runs = serve_survives 8 (error closed ∷ []) three (refl, (refl, (refl, tt)))

closed_listener_returns : serve {C = ℕ} 40 (error closed ∷ conn 1 ∷ []) ≡ returned closed ∷ []
closed_listener_returns = serve_ends 40 closed (conn 1 ∷ []) (inl refl)
